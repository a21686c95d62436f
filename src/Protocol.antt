-- ===== src/Protocol.antt =====
-- crates/vasal-protocol/src: the wire types. `V` stands for `serde_json::Value`.
pub mod JsonRpc
pub mod Errors
pub mod Sidecar
pub mod Credential
pub mod Units
pub mod Task
pub mod Heartbeat
