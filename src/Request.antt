-- ===== src/Request.antt =====
-- The structures of src/treqRequest.h, src/treqSession.h and src/treqPool.c, and the memory that
-- they live in.
pub mod Execute
pub mod Settings
pub mod Memory
pub mod Callback
pub mod Content
