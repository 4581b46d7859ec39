-- ===== src/Config.antt =====
-- crates/gatepup-config: the configuration document and its checks.
pub mod Model
pub mod Errors
pub mod Validator
pub mod Resolve
