-- ===== src/Snapshot.antt =====
-- crates/gatepup-proxy/src/snapshot.rs: the snapshot of a configuration that requests run against.
-- The acceptor of a TLS listener is an argument, which Tls fills.
pub mod Build
pub mod Views
mod Tests
use gatepup.Prelude.{
  table_insert, ℕ, ◌*◌, max, Bool, true, false, ◌&&◌, ◌||◌, Option, none, some, List, [], ◌∷◌, ◌⊎◌,
  inl, inr, ltb, any, filter_map, map, ◌>>=◌, unwrap_or, Text, codes, text_eq, if◌then◌else◌,
}
use mathlib.Core.Option
use gatepup.Interfaces.{IpLib, HttpLib, Float}
use gatepup.Config.Model.{
  GatePupConfig, ListenerConfig, UpstreamConfig, RetryConfig, HealthCheckConfig, CompressionConfig,
  TlsConfig, TargetConfig,
}
use gatepup.Health
use gatepup.Schedule.{schedule_for}
use gatepup.Upstream.{HealthCheckSettings, RetryPolicy, TargetRuntime, UpstreamRuntime}
use gatepup.Router.Filters.{parse_trusted_proxy}
use gatepup.Router.Table.{CompiledRoute, build}
use gatepup.Compress.{Compression}

-- `ProxyError` of crates/gatepup-proxy/src/error.rs, less the causes that the system gives.
pub data ProxyError : Type 0 where
  invalid_bind : Text → Text → ProxyError
  bind_error : Text → Text → ProxyError
  metrics_error : Text → ProxyError
  tls_error : Text → Text → ProxyError
  upstream_tls : Text → ProxyError

pub record ListenerRuntime (F Net Tls : Type 0) : Type 0 where
  pub name : Text
  pub bind : Text
  pub router : List (CompiledRoute F Net)
  pub tls : Option Tls

pub record RuntimeConfig (F Net Tls : Type 0) : Type 0 where
  pub listeners : List (ListenerRuntime F Net Tls)
  pub upstreams : List (Text × UpstreamRuntime)
  pub connect_timeout : ℕ
  pub request_timeout : ℕ
  pub max_body_bytes : ℕ
  pub header_read_timeout : Option ℕ
  pub max_header_bytes : Option ℕ
  pub trusted_proxies : List Net
  pub compression : Option Compression

-- `RetryPolicy::from_config`. `Method::from_bytes` is an argument.
unfoldable pub from_config : (Text → Option Text) → RetryConfig → Option RetryPolicy
from_config method cfg =
    if cfg.enabled
    then some (record {
      max_attempts = max cfg.attempts 1;
      methods = filter_map method cfg.methods;
      on_connect_failure =
          any (λ c. text_eq c (codes "connect_error") || text_eq c (codes "connect_timeout"))
            cfg.retry_on;
      on_5xx = any (λ c. text_eq c (codes "upstream_5xx")) cfg.retry_on;
    })
    else none

-- `RetryPolicy::allows_method`.
unfoldable pub allows_method : RetryPolicy → Text → Bool
allows_method p m = any (λ n. text_eq n m) p.methods

abbrev pub thresholds : Option HealthCheckConfig → ℕ × ℕ
thresholds none = (1, 3)
thresholds (some h) = (h.healthy_threshold, h.unhealthy_threshold)

-- `Duration::from_secs` and `from_millis`, as milliseconds.
abbrev pub health_settings : Bool → Option HealthCheckConfig → Option HealthCheckSettings
health_settings false hc = none
health_settings true none = none
health_settings true (some h) =
    some (record { path = h.path; interval = h.interval_seconds * 1000; timeout = h.timeout_ms })

-- The body of the loop over the upstreams.
unfoldable pub build_upstream : (Text → Option Text) → UpstreamConfig → UpstreamRuntime
build_upstream method u =
    let managed = unwrap_or false (Option.map HealthCheckConfig.enabled u.health_check) in
    let t = thresholds u.health_check in
    record {
      targets =
          map (λ t'. record { url = TargetConfig.url t'; state = Health.new managed t.0 t.1 })
            u.targets;
      health = health_settings managed u.health_check;
      retry = u.retries >>= from_config method;
      tls_insecure = u.tls_insecure_skip_verify;
      schedule = schedule_for (map TargetConfig.weight u.targets);
      next = 0;
    }

unfoldable pub build_upstreams :
    (Text → Option Text)
    → List UpstreamConfig
    → List (Text × UpstreamRuntime)
    → List (Text × UpstreamRuntime)
build_upstreams method [] m = m
build_upstreams method (u ∷ us) m =
    build_upstreams method us (table_insert u.name (build_upstream method u) m)

abbrev pub option_if : Bool → ℕ → Option ℕ
option_if b n = if b then some n else none

unfoldable pub build_compression : CompressionConfig → Option Compression
build_compression c =
    if c.enabled
    then some (record {
      gzip = any (λ a. text_eq a (codes "gzip")) c.algorithms;
      br = any (λ a. text_eq a (codes "br")) c.algorithms;
      min_bytes = c.min_bytes;
      types = c.types;
    })
    else none

abbrev pub tls_of {ℓ} : {Tls : Type ℓ} → Text → Text ⊎ Tls → ProxyError ⊎ Option Tls
tls_of name (inl message) = inl (tls_error name message)
tls_of name (inr t) = inr (some t)

-- `match (&listener.tls, with_tls)`.
abbrev pub listener_tls {ℓ} :
    {Tls : Type ℓ}
    → (TlsConfig → Text ⊎ Tls)
    → Bool
    → Text
    → Option TlsConfig
    → ProxyError ⊎ Option Tls
listener_tls acceptor true name (some cfg) = tls_of name (acceptor cfg)
listener_tls acceptor true name none = inr none
listener_tls acceptor false name cfg = inr none

abbrev pub push_listener {ℓ} :
    {L : Type ℓ} → ProxyError ⊎ L → ProxyError ⊎ List L → ProxyError ⊎ List L
push_listener (inl e) rest = inl e
push_listener (inr l) (inl e) = inl e
push_listener (inr l) (inr ls) = inr (l ∷ ls)

module _ {F Headers Addr Net Tls : Type 0} (fl : Float F) (ip : IpLib Addr Net)
    (http : HttpLib Headers) where
  abbrev pub with_acceptor :
      ListenerConfig F → Text → ProxyError ⊎ Option Tls → ProxyError ⊎ ListenerRuntime F Net Tls
  with_acceptor l bind (inl e) = inl e
  with_acceptor l bind (inr t) =
      inr (record { name = l.name; bind = bind; router = build fl ip http l.routes; tls = t })

  abbrev pub runtime : GatePupConfig F → List (ListenerRuntime F Net Tls) → RuntimeConfig F Net Tls
  runtime config listeners = record {
    listeners = listeners;
    upstreams = build_upstreams http.method config.upstreams [];
    connect_timeout = config.timeouts.connect_timeout_ms;
    request_timeout = config.timeouts.request_timeout_ms;
    max_body_bytes = config.limits.max_body_bytes;
    header_read_timeout =
        option_if (ltb 0 config.limits.header_read_timeout_ms) config.limits.header_read_timeout_ms;
    max_header_bytes =
        option_if (ltb 0 config.limits.max_header_bytes) config.limits.max_header_bytes;
    trusted_proxies = filter_map (parse_trusted_proxy ip) config.trusted_proxies;
    compression = config.compression >>= build_compression;
  }

  abbrev pub with_listeners :
      GatePupConfig F
      → ProxyError ⊎ List (ListenerRuntime F Net Tls)
      → ProxyError ⊎ RuntimeConfig F Net Tls
  with_listeners config (inl e) = inl e
  with_listeners config (inr ls) = inr (runtime config ls)

  module _ (acceptor : TlsConfig → Text ⊎ Tls) where
    abbrev pub with_bind :
        Bool → ListenerConfig F → Option Text → ProxyError ⊎ ListenerRuntime F Net Tls
    with_bind with_tls l none = inl (invalid_bind l.name l.bind)
    with_bind with_tls l (some bind) =
        with_acceptor l bind (listener_tls acceptor with_tls l.name l.tls)

    unfoldable pub build_listener : Bool → ListenerConfig F → ProxyError ⊎ ListenerRuntime F Net Tls
    build_listener with_tls l = with_bind with_tls l (ip.parse_socket_addr l.bind)

    unfoldable pub build_listeners :
        Bool → List (ListenerConfig F) → ProxyError ⊎ List (ListenerRuntime F Net Tls)
    build_listeners with_tls [] = inr []
    build_listeners with_tls (l ∷ ls) =
        push_listener (build_listener with_tls l) (build_listeners with_tls ls)

    -- `build_snapshot_inner`; `build_snapshot` passes true, and `build_reload_snapshot` false.
    unfoldable pub build_snapshot_inner :
        GatePupConfig F → Bool → ProxyError ⊎ RuntimeConfig F Net Tls
    build_snapshot_inner config with_tls =
        with_listeners config (build_listeners with_tls config.listeners)

    unfoldable pub build_snapshot : GatePupConfig F → ProxyError ⊎ RuntimeConfig F Net Tls
    build_snapshot config = build_snapshot_inner config true

    unfoldable pub build_reload_snapshot : GatePupConfig F → ProxyError ⊎ RuntimeConfig F Net Tls
    build_reload_snapshot config = build_snapshot_inner config false
