-- ===== src/Selection.antt =====
-- src/selection.rs: the choice of a PCK certificate for a platform's raw TCB. Each child models one
-- part of that file.
pub mod Error
pub mod Tcb
pub mod Der
pub mod Cert
pub mod Input
pub mod Buckets
pub mod Choice
