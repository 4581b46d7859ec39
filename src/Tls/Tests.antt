-- ===== src/Tls/Tests.antt =====
-- A listener whose files hold one certificate and a key, and files that do not.
use gatepup.Prelude.{
  ℕ, ◌≡◌, ◌⊎◌, inl, inr, refl, Bool, true, false, some, none, Option, List, [], ◌∷◌, In, here, Text,
  codes, text_eq, strip_prefix,
}
use gatepup.Interfaces.{whole}
use gatepup.Interfaces.Assoc.{assoc}
use gatepup.Interfaces.Bytes.{bytes_ip}
use gatepup.Router.Filters.{parse_trusted_proxy}
use gatepup.Router.Table.{build}
use gatepup.Config.Model.{
  GatePupConfig, UpstreamConfig, ListenerConfig, RouteConfig, TlsConfig, match_is_empty,
  round_robin, https, default_limits, default_timeouts,
}
use gatepup.Config.Validator.{
  check_app, check_unique_upstreams, check_listener_tls, check_upstream, check_retries,
  check_timeouts, check_limits, check_trusted_proxies, is_valid_target_url,
}
use gatepup.Config.Validator.Routes.{
  check_ip_acl, check_route, check_routes, check_listeners, seen_match, validate,
}
use gatepup.Snapshot.{
  ListenerRuntime, RuntimeConfig, runtime, build_listener, build_listeners, build_snapshot_inner,
  build_snapshot,
}
use gatepup.Tls.{
  Pem, read, no_certs, no_key, collect, load_certs, load_key, build_acceptor, acceptor,
}
use gatepup.Tls.Secured.{Secured, https_secured}

-- A reader is what is left of a file, and an acceptor the key that it has.
abbrev pem : List (Text ⊎ ℕ) → Option ℕ → Pem Text ℕ ℕ ℕ ℕ
pem certs key = record {
  file_open = λ path. inr path;
  certs = λ r. certs;
  private_key = λ r. inr key;
  default_versions = inr 13;
  single_cert = λ v cs k. inr k;
  debug = λ t. t;
}

abbrev files : TlsConfig
files = record { cert = codes "c.pem"; key = codes "k.pem" }

empty_file : build_acceptor (pem [] (some 7)) files ≡ inl (no_certs (codes "c.pem"))
unfolding build_acceptor load_certs collect
empty_file = refl

second_unreadable :
    build_acceptor (pem (inr 1 ∷ inl (codes "bad") ∷ []) (some 7)) files
    ≡ inl (read (codes "c.pem") (codes "bad"))
unfolding build_acceptor load_certs collect
second_unreadable = refl

key_missing : build_acceptor (pem (inr 1 ∷ []) none) files ≡ inl (no_key (codes "k.pem"))
unfolding build_acceptor load_certs load_key collect
key_missing = refl

abbrev route : RouteConfig ℕ
route = record {
  name = codes "r";
  matcher = record { host = none; path_prefix = some (codes "/") };
  upstream = codes "u";
  strip_prefix = false;
  headers = none;
  ip_access = none;
  rate_limit = none;
  basic_auth = none;
}

abbrev listener : ListenerConfig ℕ
listener = record {
  name = codes "l";
  bind = codes "a:1";
  protocol = https;
  tls = some files;
  routes = route ∷ [];
}

abbrev upstream : UpstreamConfig
upstream = record {
  name = codes "u";
  load_balancing = round_robin;
  targets = record { url = codes "a"; weight = 1 } ∷ [];
  health_check = none;
  retries = none;
  tls_insecure_skip_verify = false;
}

abbrev config : GatePupConfig ℕ
config = record {
  app = record { name = codes "g"; log_level = codes "INFO" };
  listeners = listener ∷ [];
  upstreams = upstream ∷ [];
  timeouts = default_timeouts;
  limits = default_limits;
  trusted_proxies = [];
  compression = none;
  admin = none;
  metrics = none;
}

abbrev any_url : Text → Option (Text × Bool)
any_url t = some (codes "http", true)

abbrev loaded : Pem Text ℕ ℕ ℕ ℕ
loaded = pem (inr 1 ∷ []) (some 7)

is_valid : validate whole bytes_ip any_url config ≡ []
unfolding validate check_app check_unique_upstreams check_listeners check_listener_tls check_routes
    check_route check_ip_acl seen_match check_upstream check_retries check_timeouts check_limits
    check_trusted_proxies is_valid_target_url text_eq strip_prefix match_is_empty
    parse_trusted_proxy
is_valid = refl

abbrev snapshot : RuntimeConfig ℕ ℕ ℕ
snapshot = runtime whole bytes_ip assoc config (
    record {
      name = codes "l";
      bind = codes "a:1";
      router = build whole bytes_ip assoc (route ∷ []);
      tls = some 7;
    }
    ∷ [])

builds : build_snapshot whole bytes_ip assoc (acceptor loaded) config ≡ inr snapshot
unfolding build_snapshot build_snapshot_inner build_listeners build_listener build_acceptor
    load_certs load_key collect
builds = refl

https_secured_example :
    (r : ListenerRuntime ℕ ℕ ℕ) × In r snapshot.listeners
    × (r.name ≡ codes "l")
    × Secured loaded listener r
https_secured_example =
    https_secured whole bytes_ip assoc loaded any_url config listener snapshot is_valid builds here
