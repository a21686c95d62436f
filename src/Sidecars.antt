-- ===== src/Sidecars.antt =====
-- sidecars: the sidecars that the repository ships, as handlers of the server, and how they
-- read their arguments.
pub mod Echo
pub mod Sql
pub mod Observer
pub mod Laws
