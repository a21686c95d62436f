-- ===== src/Exec.antt =====
-- crates/vasal-core/src/task: the executors, and crates/vasal-core/src/credential.rs.
pub mod Call
pub mod Credentials
pub mod Outcome
pub mod Shell
pub mod Sidecar
pub mod Router
pub mod Continuous
pub mod Route
pub mod Chain
pub mod Trace
