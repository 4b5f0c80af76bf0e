-- ===== src/Text.antt =====
-- The text routines of src/common.c, and the charset of a response.
pub mod Charset
pub mod ContentType
pub mod Urlencode
