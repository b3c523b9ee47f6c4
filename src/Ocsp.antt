-- ===== src/Ocsp.antt =====
-- src/ocsp.rs: the readers of OCSP requests and responses.
pub mod Tlv
pub mod Request
pub mod Response
