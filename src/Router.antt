-- ===== src/Router.antt =====
-- crates/gatepup-proxy/src/router.rs: the routing table of a listener.
pub mod Filters
pub mod Host
pub mod Table
pub mod Select
pub mod Rewrite
mod Tests
