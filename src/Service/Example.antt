-- ===== src/Service/Example.antt =====
-- A proxy with one route to two targets, and a network that times out.
use gatepup.Prelude.{
  ℕ, ◌≡◌, ◌⊎◌, inl, inr, refl, true, some, none, [], ◌∷◌, Text, codes, replicate, arith,
}
use gatepup.Interfaces.{whole}
use gatepup.Interfaces.Assoc.{Headers, assoc}
use gatepup.Interfaces.Bytes.{bytes_ip}
use gatepup.Config.Model.{
  GatePupConfig, UpstreamConfig, RouteConfig, round_robin, http, default_limits, default_timeouts,
  TlsConfig,
}
use gatepup.Schedule.{divisor, gcd_all, gcd}
use gatepup.Metrics
use gatepup.Router.Table.{build}
use gatepup.Upstream.{HealthCheckSettings}
use gatepup.Snapshot.{
  RuntimeConfig, build_snapshot, build_snapshot_inner, build_listeners, build_listener, runtime,
  build_reload_snapshot,
}
use gatepup.Snapshot.Build.{IsBalanced}
use gatepup.Proxy.Body.{Incoming}
use gatepup.Proxy.Attempts.{Network, timed_out}
use gatepup.Proxy.Forward.{World, Context}
use gatepup.Proxy.Handle.{Dialer, Arrival, unreachable}

abbrev pub route : RouteConfig ℕ
route = record {
  name = codes "r";
  matcher = record { host = none; path_prefix = some (codes "/") };
  upstream = codes "u";
  strip_prefix = true;
  headers = none;
  ip_access = none;
  rate_limit = none;
  basic_auth = none;
}

abbrev pub pair : UpstreamConfig
pair = record {
  name = codes "u";
  load_balancing = round_robin;
  targets = record { url = codes "a"; weight = 2 } ∷ record { url = codes "b"; weight = 4 } ∷ [];
  health_check = none;
  retries = none;
  tls_insecure_skip_verify = true;
}

abbrev pub config : GatePupConfig ℕ
config = record {
  app = record { name = codes "g"; log_level = codes "info" };
  listeners =
      record {
        name = codes "l";
        bind = codes "a:1";
        protocol = http;
        tls = none;
        routes = route ∷ [];
      }
      ∷ [];
  upstreams = pair ∷ [];
  timeouts = default_timeouts;
  limits = default_limits;
  trusted_proxies = [];
  compression = none;
  admin = none;
  metrics = none;
}

pub pair-IsBalanced : IsBalanced pair
unfolding divisor gcd_all gcd
pair-IsBalanced = record { positive = (omega arith, (omega arith, tt)); fits = omega arith }

abbrev pub no_tls : TlsConfig → Text ⊎ ℕ
no_tls c = inl []

abbrev pub snapshot : RuntimeConfig ℕ ℕ ℕ
snapshot = runtime whole bytes_ip assoc config (
    record {
      name = codes "l";
      bind = codes "a:1";
      router = build whole bytes_ip assoc (route ∷ []);
      tls = none;
    }
    ∷ [])

pub builds : build_snapshot whole bytes_ip assoc no_tls config ≡ inr snapshot
unfolding build_snapshot build_snapshot_inner build_listeners build_listener
builds = refl

pub rebuilds : build_reload_snapshot whole bytes_ip assoc no_tls config ≡ inr snapshot
unfolding build_reload_snapshot build_snapshot_inner build_listeners build_listener
rebuilds = refl

abbrev pub world : World whole bytes_ip Headers ℕ
world = record { snapshot = snapshot; limiter = replicate 32 []; metrics = Metrics.new; log = [] }

abbrev pub network : Network Headers
network = record { clock = λ n. n; buildable = λ t. true; send = λ attempt i b. timed_out }

abbrev pub context : Context Headers ℕ
context = record {
  listener_name = codes "l";
  scheme = codes "http";
  remote = 9;
  request_id = codes "1";
  decode = λ t. some t;
  hash = λ k. 0;
  encode = λ e t. t;
  client = record { verify = λ m h pq. network; insecure = λ m h pq. network };
}

abbrev pub dialer : Dialer Headers
dialer = record {
  parse_uri = λ t. some (some t, none);
  buildable = λ t m. true;
  dial = λ a t m. unreachable;
  clock = 0;
  authority_of = λ a. a.0;
}

abbrev pub arrival : Arrival Headers
arrival = record {
  method = codes "GET";
  path = codes "/";
  path_and_query = some (codes "/");
  authority = none;
  headers = [];
  now = 0;
}

abbrev pub no_body : Incoming
no_body = record { frames = []; complete = true }

abbrev pub settings : HealthCheckSettings
settings = record { path = codes "/health"; interval = 10000; timeout = 1000 }
