-- ===== src/Validate.antt =====
-- src/validate.rs: the checks of request parameters and bodies. Each child is one part of that file.
-- The log lines of the source are left out.
pub mod Strings
pub mod Decode
pub mod Params
pub mod Uri
pub mod Body
