-- ===== src/Config/Validator.antt =====
-- crates/gatepup-config/src/validator.rs: `validate`, as the list of the errors it finds, in order. A
-- check that pushes errors is the list that it pushes, and a set of seen names is a list. The package
-- url is an argument: the scheme of a text that parses, and whether it has a host.
pub mod Routes
pub mod Checked
pub mod Sound
mod Tests
use gatepup.Prelude.{
  ℕ, ◌*◌, ◌+◌, ◌-◌, ◌^◌, min, Bool, true, false, not, ◌&&◌, ◌||◌, Option, none, some, List, [], ◌∷◌,
  ◌++◌, ◌==◌, ltb, leb, any, all, is_some, is_empty, Text, codes, text_eq, to_ascii_lowercase,
  if◌then◌else◌,
}
use gatepup.Interfaces.{IpLib}
use gatepup.Router.Filters.{parse_trusted_proxy}
use gatepup.Config.Model.{
  GatePupConfig, AppConfig, UpstreamConfig, TargetConfig, HealthCheckConfig, RetryConfig,
  AdminConfig, TimeoutConfig, LimitsConfig, CompressionConfig, ListenerConfig, Protocol, http,
  https, TlsConfig,
}
use gatepup.Config.Errors.{
  ValidationError, invalid_log_level, duplicate_upstream_name, missing_tls, unexpected_tls,
  empty_tls_path, empty_targets, invalid_target_url, zero_weight, health_timeout,
  invalid_retry_attempts, empty_retry_list, invalid_retry_method, invalid_retry_on,
  invalid_admin_bind, empty_admin_token, zero_timeout, max_header_bytes_too_small,
  invalid_compression_algorithm, invalid_trusted_proxy,
}

-- `if test { errors.push(error) }`.
abbrev pub push_if {ℓ} : {E : Type ℓ} → Bool → E → List E
push_if test error = if test then error ∷ [] else []

-- The errors of a loop.
abbrev pub each {ℓ κ} : {A : Type ℓ} {E : Type κ} → (A → List E) → List A → List E
each f [] = []
each f (x ∷ xs) = f x ++ each f xs

-- The errors of several checks, one after the other.
abbrev pub concat {ℓ} : {E : Type ℓ} → List (List E) → List E
concat [] = []
concat (es ∷ ess) = es ++ concat ess

abbrev pub of_option {ℓ κ} : {A : Type ℓ} {E : Type κ} → (A → List E) → Option A → List E
of_option f none = []
of_option f (some a) = f a

abbrev pub among : List Text → Text → Bool
among names t = any (text_eq t) names

unfoldable pub check_app : AppConfig → List ValidationError
check_app app =
    push_if
      (not (
        among
          (codes "trace"
            ∷ codes "debug"
            ∷ codes "info"
            ∷ codes "warn"
            ∷ codes "error"
            ∷ codes "off"
            ∷ [])
          (to_ascii_lowercase app.log_level)))
      (invalid_log_level app.log_level)

-- `check_unique_upstreams`, with the names that were seen.
unfoldable pub check_unique_upstreams : List Text → List UpstreamConfig → List ValidationError
check_unique_upstreams seen [] = []
check_unique_upstreams seen (u ∷ us) =
    push_if (among seen u.name) (duplicate_upstream_name u.name)
    ++ check_unique_upstreams (u.name ∷ seen) us

unfoldable pub check_listener_tls : Text → Protocol → Option TlsConfig → List ValidationError
check_listener_tls name https none = missing_tls name ∷ []
check_listener_tls name http none = []
check_listener_tls name http (some tls) = unexpected_tls name ∷ []
check_listener_tls name https (some tls) =
    push_if (is_empty tls.cert) (empty_tls_path name (codes "cert"))
    ++ push_if (is_empty tls.key) (empty_tls_path name (codes "key"))

abbrev pub is_http : Text → Bool
is_http scheme = text_eq scheme (codes "http") || text_eq scheme (codes "https")

abbrev pub good_url : Option (Text × Bool) → Bool
good_url none = false
good_url (some (scheme, has_host)) = is_http scheme && has_host

-- `saturating_mul(1000)` on 64 bits.
abbrev pub interval_ms : HealthCheckConfig → ℕ
interval_ms hc = min (hc.interval_seconds * 1000) (2 ^ 64 - 1)

unfoldable pub check_health_timeout : Text → HealthCheckConfig → List ValidationError
check_health_timeout upstream hc =
    push_if (leb (interval_ms hc) hc.timeout_ms)
      (health_timeout upstream hc.timeout_ms (interval_ms hc))

abbrev pub no_targets : List TargetConfig → Bool
no_targets [] = true
no_targets (_ ∷ _) = false

abbrev pub no_texts : List Text → Bool
no_texts [] = true
no_texts (_ ∷ _) = false

module _ (parse_url : Text → Option (Text × Bool)) where
  unfoldable pub is_valid_target_url : Text → Bool
  is_valid_target_url raw = good_url (parse_url raw)

  abbrev pub check_target : Text → TargetConfig → List ValidationError
  check_target upstream t =
      push_if (not (is_valid_target_url t.url)) (invalid_target_url upstream t.url)
      ++ push_if (t.weight == 0) (zero_weight upstream t.url)

  -- The body of the loop of `check_upstreams`.
  unfoldable pub check_upstream : UpstreamConfig → List ValidationError
  check_upstream u =
      push_if (no_targets u.targets) (empty_targets u.name)
      ++ each (check_target u.name) u.targets
      ++ of_option (check_health_timeout u.name) u.health_check

abbrev pub retry_methods : List Text
retry_methods =
    codes "GET"
    ∷ codes "HEAD"
    ∷ codes "POST"
    ∷ codes "PUT"
    ∷ codes "PATCH"
    ∷ codes "DELETE"
    ∷ codes "OPTIONS"
    ∷ codes "TRACE"
    ∷ codes "CONNECT"
    ∷ []

abbrev pub retry_conditions : List Text
retry_conditions = codes "connect_error" ∷ codes "connect_timeout" ∷ codes "upstream_5xx" ∷ []

abbrev pub check_retry : Text → RetryConfig → List ValidationError
check_retry upstream r =
    push_if (ltb r.attempts 1) (invalid_retry_attempts upstream)
    ++ push_if (no_texts r.methods) (empty_retry_list upstream (codes "methods"))
    ++ push_if (no_texts r.retry_on) (empty_retry_list upstream (codes "retryOn"))
    ++ each (λ m. push_if (not (among retry_methods m)) (invalid_retry_method upstream m)) r.methods
    ++ each (λ c. push_if (not (among retry_conditions c)) (invalid_retry_on upstream c)) r.retry_on

-- The body of the loop of `check_retries`.
unfoldable pub check_retries : UpstreamConfig → List ValidationError
check_retries u =
    of_option (λ r. if RetryConfig.enabled r then check_retry u.name r else []) u.retries

abbrev pub empty_token : Option Text → Bool
empty_token none = false
empty_token (some t) = is_empty t

unfoldable pub check_timeouts : TimeoutConfig → List ValidationError
check_timeouts t =
    push_if (t.connect_timeout_ms == 0) (zero_timeout (codes "connectTimeoutMs"))
    ++ push_if (t.request_timeout_ms == 0) (zero_timeout (codes "requestTimeoutMs"))

unfoldable pub check_limits : LimitsConfig → List ValidationError
check_limits l =
    push_if (not (l.max_header_bytes == 0) && ltb l.max_header_bytes 8192)
      (max_header_bytes_too_small l.max_header_bytes)

unfoldable pub check_compression : CompressionConfig → List ValidationError
check_compression c =
    each
      (λ a.
        push_if (not (text_eq a (codes "gzip")) && not (text_eq a (codes "br")))
          (invalid_compression_algorithm a))
      c.algorithms

module _ {Addr Net : Type 0} (ip : IpLib Addr Net) where
  unfoldable pub check_admin : AdminConfig → List ValidationError
  check_admin a =
      push_if (not (is_some (ip.parse_socket_addr a.bind))) (invalid_admin_bind a.bind)
      ++ push_if (empty_token a.token) empty_admin_token

  unfoldable pub check_trusted_proxies : List Text → List ValidationError
  check_trusted_proxies entries =
      each (λ e. push_if (not (is_some (parse_trusted_proxy ip e))) (invalid_trusted_proxy e))
        entries
