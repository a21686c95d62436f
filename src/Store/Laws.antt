-- ===== src/Store/Laws.antt =====
-- crates/vasal-core/src/state.rs: what the methods of `StateStore` promise.
pub mod Units
pub mod Journal
