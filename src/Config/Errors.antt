-- ===== src/Config/Errors.antt =====
-- crates/gatepup-config/src/error.rs: the problems that validation reports.
use gatepup.Prelude.{ℕ, Text}

pub data ValidationError : Type 0 where
  invalid_log_level : Text → ValidationError
  duplicate_upstream_name : Text → ValidationError
  duplicate_listener_name : Text → ValidationError
  invalid_bind : Text → Text → ValidationError
  missing_tls unexpected_tls : Text → ValidationError
  empty_tls_path : Text → Text → ValidationError
  duplicate_route_name empty_route_match : Text → Text → ValidationError
  invalid_path_prefix invalid_wildcard_host : Text → Text → Text → ValidationError
  conflicting_routes : Text → Text → Text → ValidationError
  unknown_upstream : Text → Text → ValidationError
  invalid_header_name invalid_header_value : Text → Text → Text → ValidationError
  invalid_ip_access_cidr : Text → Text → Text → Text → ValidationError
  invalid_rate_limit : Text → Text → Text → ValidationError
  invalid_basic_auth : Text → Text → ValidationError
  empty_targets : Text → ValidationError
  invalid_target_url zero_weight : Text → Text → ValidationError
  health_timeout : Text → ℕ → ℕ → ValidationError
  invalid_retry_attempts : Text → ValidationError
  empty_retry_list invalid_retry_method invalid_retry_on : Text → Text → ValidationError
  invalid_admin_bind : Text → ValidationError
  empty_admin_token : ValidationError
  zero_timeout : Text → ValidationError
  max_header_bytes_too_small : ℕ → ValidationError
  invalid_compression_algorithm invalid_trusted_proxy : Text → ValidationError
