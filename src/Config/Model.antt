-- ===== src/Config/Model.antt =====
-- crates/gatepup-config/src/model.rs: the configuration document, after parsing. A `String` is its
-- bytes, a `BTreeMap` an association list in the order of its keys, and `F` stands for `f64`.
-- The defaults that serde fills in for missing fields are the constants.
use gatepup.Prelude.{ℕ, Bool, true, ◌&&◌, Option, none, some, List, [], ◌∷◌, Text, codes, is_empty}

pub record CompressionConfig : Type 0 where
  pub enabled : Bool
  pub algorithms : List Text
  pub min_bytes : ℕ
  pub types : List Text

pub record LimitsConfig : Type 0 where
  pub max_body_bytes : ℕ
  pub header_read_timeout_ms : ℕ
  pub max_header_bytes : ℕ

pub record TimeoutConfig : Type 0 where
  pub connect_timeout_ms : ℕ
  pub request_timeout_ms : ℕ

pub record AppConfig : Type 0 where
  pub name : Text
  pub log_level : Text

pub data Protocol : Type 0 where
  http https : Protocol

pub record TlsConfig : Type 0 where
  pub cert : Text
  pub key : Text

pub record BasicAuthConfig : Type 0 where
  pub users : List (Text × Text)

pub record RateLimitConfig (F : Type 0) : Type 0 where
  pub requests_per_second : F
  pub burst : ℕ

pub record IpAccessConfig : Type 0 where
  pub allow : List Text
  pub deny : List Text

pub record HeaderOpsConfig : Type 0 where
  pub set : List (Text × Text)
  pub remove : List Text

pub record HeaderRulesConfig : Type 0 where
  pub request : HeaderOpsConfig
  pub response : HeaderOpsConfig

pub record MatchConfig : Type 0 where
  pub host : Option Text
  pub path_prefix : Option Text

pub record RouteConfig (F : Type 0) : Type 0 where
  pub name : Text
  pub matcher : MatchConfig
  pub upstream : Text
  pub strip_prefix : Bool
  pub headers : Option HeaderRulesConfig
  pub ip_access : Option IpAccessConfig
  pub rate_limit : Option (RateLimitConfig F)
  pub basic_auth : Option BasicAuthConfig

pub record ListenerConfig (F : Type 0) : Type 0 where
  pub name : Text
  pub bind : Text
  pub protocol : Protocol
  pub tls : Option TlsConfig
  pub routes : List (RouteConfig F)

pub record RetryConfig : Type 0 where
  pub enabled : Bool
  pub attempts : ℕ
  pub methods : List Text
  pub retry_on : List Text

pub data LoadBalancing : Type 0 where
  round_robin : LoadBalancing

pub record TargetConfig : Type 0 where
  pub url : Text
  pub weight : ℕ

pub record HealthCheckConfig : Type 0 where
  pub enabled : Bool
  pub path : Text
  pub interval_seconds : ℕ
  pub timeout_ms : ℕ
  pub healthy_threshold : ℕ
  pub unhealthy_threshold : ℕ

pub record UpstreamConfig : Type 0 where
  pub name : Text
  pub load_balancing : LoadBalancing
  pub targets : List TargetConfig
  pub health_check : Option HealthCheckConfig
  pub retries : Option RetryConfig
  pub tls_insecure_skip_verify : Bool

pub record AdminConfig : Type 0 where
  pub enabled : Bool
  pub bind : Text
  pub token : Option Text

pub record MetricsConfig : Type 0 where
  pub enabled : Bool
  pub path : Text

pub record GatePupConfig (F : Type 0) : Type 0 where
  pub app : AppConfig
  pub listeners : List (ListenerConfig F)
  pub upstreams : List UpstreamConfig
  pub timeouts : TimeoutConfig
  pub limits : LimitsConfig
  pub trusted_proxies : List Text
  pub compression : Option CompressionConfig
  pub admin : Option AdminConfig
  pub metrics : Option MetricsConfig

abbrev pub default_limits : LimitsConfig
default_limits = record { max_body_bytes = 0; header_read_timeout_ms = 15000; max_header_bytes = 0 }

abbrev pub default_timeouts : TimeoutConfig
default_timeouts = record { connect_timeout_ms = 5000; request_timeout_ms = 30000 }

abbrev pub default_compression_algorithms : List Text
default_compression_algorithms = codes "br" ∷ codes "gzip" ∷ []

abbrev pub default_compression_min_bytes : ℕ
default_compression_min_bytes = 1024

abbrev pub default_compression_types : List Text
default_compression_types =
    codes "text/html"
    ∷ codes "text/plain"
    ∷ codes "text/css"
    ∷ codes "text/xml"
    ∷ codes "application/json"
    ∷ codes "application/javascript"
    ∷ codes "application/xml"
    ∷ codes "image/svg+xml"
    ∷ []

-- A compression that is only switched on.
abbrev pub default_compression : CompressionConfig
default_compression = record {
  enabled = true;
  algorithms = default_compression_algorithms;
  min_bytes = default_compression_min_bytes;
  types = default_compression_types;
}

abbrev pub default_retry_attempts : ℕ
default_retry_attempts = 2

abbrev pub default_retry_methods : List Text
default_retry_methods = codes "GET" ∷ codes "HEAD" ∷ codes "OPTIONS" ∷ []

abbrev pub default_retry_on : List Text
default_retry_on = codes "connect_error" ∷ codes "upstream_5xx" ∷ []

-- Retries that are only switched on.
abbrev pub default_retries : RetryConfig
default_retries = record {
  enabled = true;
  attempts = default_retry_attempts;
  methods = default_retry_methods;
  retry_on = default_retry_on;
}

-- `as_deref().map(str::is_empty).unwrap_or(true)`.
abbrev pub absent_or_empty : Option Text → Bool
absent_or_empty none = true
absent_or_empty (some t) = is_empty t

-- `MatchConfig::is_empty`.
unfoldable pub match_is_empty : MatchConfig → Bool
match_is_empty m = absent_or_empty m.host && absent_or_empty m.path_prefix
