-- ===== src/Store.antt =====
-- src/store.rs: the records of the service and the operations that read and write them. Each child
-- is one part of that file. The lock that an operation of the source holds is not modelled: an
-- operation is one step.
pub mod Database
pub mod Records
pub mod Exec
pub mod Reads
pub mod Platform
pub mod Scans
pub mod Bounded
pub mod Registered
pub mod Appraisal
pub mod Seed
