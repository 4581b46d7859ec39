-- ===== src/Admin/Tests.antt =====
-- Requests to an API with a token.
use gatepup.Prelude.{
  ℕ, ◌≡◌, ◌++◌, refl, true, some, [], ◌∷◌, codes, text_eq, table_get, false, none, here, inl, arith,
}
use gatepup.Interfaces.Assoc.{Headers, assoc, lookup}
use gatepup.Proxy.Auth.{constant_time_eq, fold_diff}
use gatepup.Health
use gatepup.Metrics
use gatepup.Upstream.{UpstreamRuntime}
use gatepup.Snapshot.{RuntimeConfig}
use gatepup.Admin.Serve
use gatepup.Admin.Serve.{Exchange, Reach, next, accepts, responds, respond, answers_guarded}
use gatepup.Admin.Documents.{Live, refreshed, scrape_gauge}
use gatepup.Admin.{AdminState, status, unauthorized, authorized, route}

abbrev guarded : AdminState
guarded = record {
  bind = codes "127.0.0.1:8080";
  metrics_path = some (codes "/metrics");
  version = codes "1";
  token = some (codes "t");
}

abbrev with_token : Headers
with_token = (codes "authorization", codes "Bearer t") ∷ []

without_token : route assoc guarded (codes "GET") (codes "/metrics") [] ≡ unauthorized
unfolding route authorized text_eq lookup
without_token = refl

admits : status (route assoc guarded (codes "GET") (codes "/routes") with_token) ≡ 200
unfolding route authorized text_eq lookup constant_time_eq fold_diff
admits = refl

abbrev upstream : UpstreamRuntime
upstream = record {
  targets =
      record { url = codes "a"; state = Health.new false 1 1 }
      ∷ record { url = codes "b"; state = record (Health.new true 1 1) { healthy = false } }
      ∷ [];
  health = none;
  retry = none;
  tls_insecure = false;
  schedule = 0 ∷ 1 ∷ [];
  next = 0;
}

abbrev snapshot : RuntimeConfig ℕ ℕ ℕ
snapshot = record {
  listeners = [];
  upstreams = (codes "u", upstream) ∷ [];
  connect_timeout = 5000;
  request_timeout = 30000;
  max_body_bytes = 0;
  header_read_timeout = none;
  max_header_bytes = none;
  trusted_proxies = [];
  compression = none;
}

-- A reload has taken the upstream `old` away.
abbrev live : Live ℕ ℕ ℕ
live = record {
  snapshot = snapshot;
  effective_config = codes "{}";
  metrics = record Metrics.new { upstream_healthy = (codes "old", 3) ∷ [] };
}

scrape_gauge_example : table_get (codes "old") (refreshed live).upstream_healthy ≡ some 3
unfolding table_get text_eq
scrape_gauge_example = scrape_gauge live (codes "old") (refl, tt)

abbrev exchange : Exchange Headers
exchange = record {
  method = codes "GET";
  path = codes "/routes";
  headers = with_token;
  reply = route assoc guarded (codes "GET") (codes "/routes") with_token;
}

abbrev answered : Serve.State Headers
answered = record (Serve.at_start 0) { conns = 1; log = exchange ∷ [] }

answered-Reach : Reach assoc guarded (Serve.at_start 0) answered
unfolding respond
answered-Reach =
    next (next Serve.here (accepts refl))
      (responds (codes "GET") (codes "/routes") with_token (omega arith))

answers_guarded_example :
    (text_eq (codes "GET") (codes "GET") ≡ true)
    × (assoc.get (codes "authorization") with_token ≡ some (codes "Bearer " ++ codes "t"))
unfolding text_eq
answers_guarded_example =
    answers_guarded assoc guarded exchange (codes "t") answered-Reach here refl refl admits

taken :
    Serve.start {Headers = Headers} (λ a. some (codes "in use")) guarded 0
    ≡ inl (Serve.bind (codes "127.0.0.1:8080") (codes "in use"))
unfolding Serve.start
taken = refl
