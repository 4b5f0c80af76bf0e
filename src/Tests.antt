-- ===== src/Tests.antt =====
-- Concrete inputs on which the theorems are used.
mod Fixtures
mod Tcl
mod Creation
mod Texts
mod Threads
mod Given
mod Running
mod Shown
mod Sessions
mod Processes
mod Scripts
