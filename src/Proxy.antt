-- ===== src/Proxy.antt =====
-- crates/gatepup-proxy/src/proxy.rs: the handling of one request.
pub mod Errors
mod Tests
pub mod Host
pub mod Body
pub mod Admission
pub mod Attempts
pub mod Client
pub mod Forward
pub mod Handle
pub mod RequestId
pub mod Auth
pub mod ClientIp
pub mod Forwarding
