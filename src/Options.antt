-- ===== src/Options.antt =====
-- src/library.c: the options of a request or a session, as the handlers of `Tcl_ParseArgsObjv`
-- collect them, and as `treq_ValidateOptions` leaves them.
pub mod Platform
pub mod Dicts
pub mod Data
pub mod Values
pub mod Validate
pub mod Compatible
