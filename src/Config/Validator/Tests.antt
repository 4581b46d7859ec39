-- ===== src/Config/Validator/Tests.antt =====
-- A configuration that is valid, and one that is not.
use gatepup.Prelude.{
  table_get, ℕ, ◌≡◌, ◌⊎◌, inl, inr, refl, Bool, true, false, some, none, Option, [], ◌∷◌, ◌++◌,
  Text, codes, text_eq, strip_prefix, is_some, here,
}
use gatepup.Interfaces.{whole}
use gatepup.Interfaces.Assoc.{assoc}
use gatepup.Interfaces.Bytes.{bytes_ip}
use gatepup.Router.Filters.{parse_trusted_proxy}
use gatepup.Config.Model.{
  GatePupConfig, UpstreamConfig, ListenerConfig, RouteConfig, IpAccessConfig, match_is_empty,
  round_robin, http, default_limits, default_timeouts, default_compression, default_retries,
  TlsConfig,
}
use gatepup.Config.Errors.{zero_weight}
use gatepup.Config.Validator.{
  check_app, check_unique_upstreams, check_listener_tls, check_upstream, check_retries,
  check_timeouts, check_limits, check_compression, check_trusted_proxies, is_valid_target_url,
}
use gatepup.Config.Validator.Routes.{
  check_ip_acl, check_route, check_routes, check_listeners, seen_match, validate,
}
use gatepup.Config.Validator.Sound.{validate_builds}
use gatepup.Snapshot.{RuntimeConfig, build_reload_snapshot}

abbrev acl : IpAccessConfig
acl = record { allow = (7 ∷ []) ∷ []; deny = [] }

abbrev route : RouteConfig ℕ
route = record {
  name = codes "r";
  matcher = record { host = none; path_prefix = some (codes "/") };
  upstream = codes "u";
  strip_prefix = false;
  headers = none;
  ip_access = some acl;
  rate_limit = none;
  basic_auth = none;
}

abbrev listener : ListenerConfig ℕ
listener = record {
  name = codes "l";
  bind = codes "a:1";
  protocol = http;
  tls = none;
  routes = route ∷ [];
}

abbrev upstream_of_weight : ℕ → UpstreamConfig
upstream_of_weight w = record {
  name = codes "u";
  load_balancing = round_robin;
  targets = record { url = codes "a"; weight = w } ∷ [];
  health_check = none;
  retries = none;
  tls_insecure_skip_verify = false;
}

abbrev config_of_weight : ℕ → GatePupConfig ℕ
config_of_weight w = record {
  app = record { name = codes "g"; log_level = codes "INFO" };
  listeners = listener ∷ [];
  upstreams = upstream_of_weight w ∷ [];
  timeouts = default_timeouts;
  limits = default_limits;
  trusted_proxies = [];
  compression = none;
  admin = none;
  metrics = none;
}

abbrev any_url : Text → Option (Text × Bool)
any_url t = some (codes "http", true)

is_valid : validate whole bytes_ip any_url (config_of_weight 1) ≡ []
unfolding validate check_app check_unique_upstreams check_listeners check_listener_tls check_routes
    check_route check_ip_acl seen_match check_upstream check_retries check_timeouts check_limits
    check_trusted_proxies is_valid_target_url text_eq strip_prefix match_is_empty
    parse_trusted_proxy
is_valid = refl

zero_weight_found :
    validate whole bytes_ip any_url (config_of_weight 0) ≡ zero_weight (codes "u") (codes "a") ∷ []
unfolding validate check_app check_unique_upstreams check_listeners check_listener_tls check_routes
    check_route check_ip_acl seen_match check_upstream check_retries check_timeouts check_limits
    check_trusted_proxies is_valid_target_url text_eq strip_prefix match_is_empty
    parse_trusted_proxy
zero_weight_found = refl

abbrev no_tls : TlsConfig → Text ⊎ ℕ
no_tls c = inl []

validate_builds_example :
    (s : RuntimeConfig ℕ ℕ ℕ) × (build_reload_snapshot whole bytes_ip assoc no_tls
        (config_of_weight 1)
      ≡ inr s)
    × (is_some (table_get (codes "u") s.upstreams) ≡ true)
validate_builds_example =
    validate_builds whole bytes_ip assoc no_tls any_url (config_of_weight 1) listener route is_valid
      here here

-- What the defaults fill in is valid.
abbrev with_defaults : UpstreamConfig
with_defaults = record (upstream_of_weight 1) { retries = some default_retries }

defaults_valid :
    check_retries with_defaults
      ++ check_compression default_compression
      ++ check_timeouts default_timeouts
      ++ check_limits default_limits
    ≡ []
unfolding check_retries check_compression check_timeouts check_limits text_eq
defaults_valid = refl
