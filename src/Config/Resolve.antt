-- ===== src/Config/Resolve.antt =====
-- crates/gatepup-config/src/resolve.rs: the configuration from the command line and the environment.
-- Reading a file and parsing JSON are arguments; a path is a text. Errors are
-- those of crates/gatepup-config/src/error.rs.
pub mod Precedence
mod Tests
use gatepup.Prelude.{
  ℕ, Bool, true, false, Option, none, some, List, [], ◌∷◌, ◌⊎◌, inl, inr, ◌||◌, is_some, is_empty,
  not, filter_map, unwrap_or, split, trim, parse_u64, Text, codes, if◌then◌else◌,
}
use mathlib.Core.Option
use gatepup.Config.Model.{
  GatePupConfig, TargetConfig, TlsConfig, Protocol, http, https, HealthCheckConfig, round_robin,
  TimeoutConfig, MatchConfig, RouteConfig, ListenerConfig, UpstreamConfig, default_timeouts,
  default_limits,
}

pub data ConfigSource : Type 0 where
  file : Text → ConfigSource
  inline env : ConfigSource

pub data ConfigError : Type 0 where
  read_error parse_error : Text → ConfigError
  parse_inline no_config_source : ConfigError
  bad_env_value : Text → Text → ConfigError

-- A variable of the environment, by its name.
abbrev pub Env : Type 0
Env = Text → Option Text

abbrev pub target_of : Text → Option TargetConfig
target_of t = if is_empty (trim t) then none else some (record { url = trim t; weight = 1 })

abbrev pub targets_of : Option Text → List TargetConfig
targets_of none = []
targets_of (some csv) = filter_map target_of (split b',' csv)

abbrev pub tls_of : Option Text → Option Text → Option TlsConfig
tls_of none key = none
tls_of (some cert) none = none
tls_of (some cert) (some key) = some (record { cert = cert; key = key })

abbrev pub health_check_of : Text → HealthCheckConfig
health_check_of path = record {
  enabled = true;
  path = path;
  interval_seconds = 10;
  timeout_ms = 1000;
  healthy_threshold = 2;
  unhealthy_threshold = 3;
}

abbrev pub protocol_of : Option TlsConfig → Protocol
protocol_of none = http
protocol_of (some t) = https

-- `parse_ms`.
abbrev pub parse_ms : Text → Text → ConfigError ⊎ ℕ
parse_ms var value = elim (parse_u64 value) [
  | none ↦ inl (bad_env_value var value)
  | some n ↦ inr n
]

-- `if let Some(value) = get(var) { … = parse_ms(var, &value)?; }`, from the value before.
abbrev pub override_ms : Text → ℕ → Option Text → ConfigError ⊎ ℕ
override_ms var before none = inr before
override_ms var before (some value) = parse_ms var value

module _ {F : Type 0} where
  -- `load_from_file` of crates/gatepup-config/src/loader.rs, from `read_to_string` and `from_str`.
  abbrev pub from_document : Text → Option (GatePupConfig F) → ConfigError ⊎ GatePupConfig F
  from_document path none = inl (parse_error path)
  from_document path (some c) = inr c

  abbrev pub read_from :
      (Text → Option (GatePupConfig F)) → Text → Option Text → ConfigError ⊎ GatePupConfig F
  read_from from_str path none = inl (read_error path)
  read_from from_str path (some raw) = from_document path (from_str raw)

  unfoldable pub load_from_file :
      (Text → Option Text)
      → (Text → Option (GatePupConfig F))
      → Text
      → ConfigError ⊎ GatePupConfig F
  load_from_file read_to_string from_str path = read_from from_str path (read_to_string path)

  -- `build_from_env`.
  unfoldable pub build_from_env : Env → GatePupConfig F
  build_from_env get =
      let tls = tls_of (get (codes "GATEPUP_TLS_CERT")) (get (codes "GATEPUP_TLS_KEY")) in
      record {
        app = record { name = codes "gatepup"; log_level = codes "info" };
        listeners =
            record {
              name = codes "default";
              bind = unwrap_or (codes "0.0.0.0:8080") (get (codes "GATEPUP_LISTEN"));
              protocol = protocol_of tls;
              tls = tls;
              routes =
                  record {
                    name = codes "default";
                    matcher = record {
                      host = get (codes "GATEPUP_ROUTE_HOST");
                      path_prefix = some (codes "/");
                    };
                    upstream = codes "default";
                    strip_prefix = false;
                    headers = none;
                    ip_access = none;
                    rate_limit = none;
                    basic_auth = none;
                  }
                  ∷ [];
            }
            ∷ [];
        upstreams =
            record {
              name = codes "default";
              load_balancing = round_robin;
              targets = targets_of (get (codes "GATEPUP_UPSTREAM"));
              health_check = Option.map health_check_of (get (codes "GATEPUP_HEALTHCHECK_PATH"));
              retries = none;
              tls_insecure_skip_verify = false;
            }
            ∷ [];
        timeouts = default_timeouts;
        limits = default_limits;
        trusted_proxies = [];
        compression = none;
        admin = none;
        metrics = none;
      }

  abbrev pub with_log : Option Text → GatePupConfig F → GatePupConfig F
  with_log none c = c
  with_log (some level) c = record c { app = record c.app { log_level = level } }

  abbrev pub with_admin : Option Text → Option Text → GatePupConfig F → GatePupConfig F
  with_admin none token c = c
  with_admin (some bind) token c = record c {
    admin = some (record { enabled = true; bind = bind; token = token });
  }

  abbrev pub with_metrics : Option Text → GatePupConfig F → GatePupConfig F
  with_metrics none c = c
  with_metrics (some path) c = record c { metrics = some (record { enabled = true; path = path }) }

  abbrev pub with_scalars :
      Option Text → Option Text → Option Text → Option Text → GatePupConfig F → GatePupConfig F
  with_scalars path bind token level c =
      with_metrics path (with_admin bind token (with_log level c))

  abbrev pub with_timeouts :
      GatePupConfig F → ConfigError ⊎ ℕ → ConfigError ⊎ ℕ → ConfigError ⊎ GatePupConfig F
  with_timeouts c (inl e) request = inl e
  with_timeouts c (inr connect) (inl e) = inl e
  with_timeouts c (inr connect) (inr request) = inr (record c {
    timeouts = record { connect_timeout_ms = connect; request_timeout_ms = request };
  })

  -- `apply_overrides`.
  unfoldable pub apply_overrides : GatePupConfig F → Env → ConfigError ⊎ GatePupConfig F
  apply_overrides config get =
      let c =
        with_scalars (get (codes "GATEPUP_METRICS_PATH")) (get (codes "GATEPUP_ADMIN"))
          (get (codes "GATEPUP_ADMIN_TOKEN")) (get (codes "GATEPUP_LOG")) config in
      with_timeouts c
        (override_ms (codes "GATEPUP_TIMEOUT_CONNECT_MS") c.timeouts.connect_timeout_ms
          (get (codes "GATEPUP_TIMEOUT_CONNECT_MS")))
        (override_ms (codes "GATEPUP_TIMEOUT_REQUEST_MS") c.timeouts.request_timeout_ms
          (get (codes "GATEPUP_TIMEOUT_REQUEST_MS")))

  abbrev pub from_source :
      ConfigSource → ConfigError ⊎ GatePupConfig F → ConfigError ⊎ (GatePupConfig F × ConfigSource)
  from_source source (inl e) = inl e
  from_source source (inr c) = inr (c, source)

  abbrev pub parsed : Option (GatePupConfig F) → ConfigError ⊎ GatePupConfig F
  parsed none = inl parse_inline
  parsed (some c) = inr c

  module _ (load : Text → ConfigError ⊎ GatePupConfig F)
      (json : Text → Option (GatePupConfig F)) where
    abbrev pub from_cli : Env → Option Text → ConfigError ⊎ (GatePupConfig F × ConfigSource)
    from_cli get (some path) = from_source (file path) (load path)
    from_cli get none =
        if is_some (get (codes "GATEPUP_LISTEN")) || is_some (get (codes "GATEPUP_UPSTREAM"))
        then inr (build_from_env get, env)
        else inl no_config_source

    abbrev pub from_inline :
        Env → Option Text → Option Text → ConfigError ⊎ (GatePupConfig F × ConfigSource)
    from_inline get cli (some text) = from_source inline (parsed (json text))
    from_inline get cli none = from_cli get cli

    abbrev pub from_file :
        Env → Option Text → Option Text → ConfigError ⊎ (GatePupConfig F × ConfigSource)
    from_file get cli (some path) = from_source (file path) (load path)
    from_file get cli none = from_inline get cli (get (codes "GATEPUP_CONFIG_JSON"))

    -- `base_config`.
    unfoldable pub base_config : Option Text → Env → ConfigError ⊎ (GatePupConfig F × ConfigSource)
    base_config cli get = from_file get cli (get (codes "GATEPUP_CONFIG"))

    abbrev pub overridden :
        Env
        → ConfigError ⊎ (GatePupConfig F × ConfigSource)
        → ConfigError ⊎ (GatePupConfig F × ConfigSource)
    overridden get (inl e) = inl e
    overridden get (inr (c, source)) = from_source source (apply_overrides c get)

    -- `resolve_with`.
    unfoldable pub resolve_with : Option Text → Env → ConfigError ⊎ (GatePupConfig F × ConfigSource)
    resolve_with cli get = overridden get (base_config cli get)
