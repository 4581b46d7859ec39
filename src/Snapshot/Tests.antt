-- ===== src/Snapshot/Tests.antt =====
-- The snapshot of a small configuration.
use gatepup.Upstream.{UpstreamRuntime}
use gatepup.Prelude.{ℕ, ◌≡◌, ◌⊎◌, inl, inr, refl, true, false, none, [], ◌∷◌, Text, codes, arith}
use gatepup.Interfaces.{whole}
use gatepup.Interfaces.Assoc.{assoc}
use gatepup.Interfaces.Bytes.{bytes_ip}
use gatepup.Config.Model.{
  GatePupConfig, UpstreamConfig, round_robin, http, default_limits, default_timeouts, TlsConfig,
}
use gatepup.Schedule.{divisor, gcd_all, gcd}
use gatepup.Router.Table.{build}
use gatepup.Upstream.{UpstreamRuntime}
use gatepup.Snapshot.{RuntimeConfig, build_snapshot_inner, build_listeners, build_listener, runtime}
use gatepup.Snapshot.Build.{IsBalanced}

abbrev pair : UpstreamConfig
pair = record {
  name = codes "u";
  load_balancing = round_robin;
  targets = record { url = codes "a"; weight = 2 } ∷ record { url = codes "b"; weight = 4 } ∷ [];
  health_check = none;
  retries = none;
  tls_insecure_skip_verify = false;
}

abbrev small : GatePupConfig ℕ
small = record {
  app = record { name = codes "g"; log_level = codes "info" };
  listeners =
      record { name = codes "l"; bind = codes "a:1"; protocol = http; tls = none; routes = [] }
      ∷ [];
  upstreams = pair ∷ [];
  timeouts = default_timeouts;
  limits = default_limits;
  trusted_proxies = [];
  compression = none;
  admin = none;
  metrics = none;
}

pair-IsBalanced : IsBalanced pair
unfolding divisor gcd_all gcd
pair-IsBalanced = record { positive = (omega arith, (omega arith, tt)); fits = omega arith }

abbrev no_tls : TlsConfig → Text ⊎ ℕ
no_tls c = inl []

abbrev small_snapshot : RuntimeConfig ℕ ℕ ℕ
small_snapshot =
    runtime whole bytes_ip assoc small
      (record { name = codes "l"; bind = codes "a:1"; router = []; tls = none } ∷ [])

builds : build_snapshot_inner whole bytes_ip assoc no_tls small true ≡ inr small_snapshot
unfolding build_snapshot_inner build_listeners build_listener build
builds = refl

abbrev targetless : UpstreamRuntime
targetless = record {
  targets = [];
  health = none;
  retry = none;
  tls_insecure = false;
  schedule = [];
  next = 0;
}

abbrev two_upstreams : RuntimeConfig ℕ ℕ ℕ
two_upstreams = record {
  listeners = [];
  upstreams = (codes "b", targetless) ∷ (codes "a", targetless) ∷ [];
  connect_timeout = 5000;
  request_timeout = 30000;
  max_body_bytes = 0;
  header_read_timeout = none;
  max_header_bytes = none;
  trusted_proxies = [];
  compression = none;
}
