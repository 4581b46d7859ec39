-- ===== src/Proxy/Handle/Example.antt =====
-- One listener with one route, and a network whose first target fails.
use gatepup.Prelude.{
  ℕ, ◌==◌, ◌≡◌, refl, inr, true, false, some, none, [], ◌∷◌, replicate, codes, text_eq,
  strip_prefix, table_get, if◌then◌else◌,
}
use gatepup.Interfaces.{whole}
use gatepup.Interfaces.Assoc.{Headers, assoc}
use gatepup.Interfaces.Bytes.{bytes_ip}
use gatepup.Health
use gatepup.Metrics
use gatepup.Upstream.{RetryPolicy, UpstreamRuntime}
use gatepup.Router.Filters.{allow_all, no_ops, allows}
use gatepup.Router.Host.{any_host, host_matches, rank}
use gatepup.Router.Table.{CompiledRoute, route_matches, specificity}
use gatepup.Router.Select.{match_route, max_by_key}
use gatepup.Snapshot.{RuntimeConfig}
use gatepup.Proxy.Errors.{Response}
use gatepup.Proxy.Body.{Incoming}
use gatepup.Proxy.Admission.{Request, Admitted, admit, find_route}
use gatepup.Proxy.Attempts.{answered, failed, Network}
use gatepup.Proxy.Forward.{World, Context, decide}

abbrev pub twice : RetryPolicy
twice = record {
  max_attempts = 2;
  methods = codes "GET" ∷ [];
  on_connect_failure = true;
  on_5xx = false;
}

abbrev pub upstream : UpstreamRuntime
upstream = record {
  targets =
      record { url = codes "a"; state = Health.new false 1 1 }
      ∷ record { url = codes "b"; state = Health.new false 1 1 }
      ∷ [];
  health = none;
  retry = some twice;
  tls_insecure = false;
  schedule = 0 ∷ 1 ∷ [];
  next = 0;
}

abbrev pub page : Response Headers
page = record { status = 200; headers = []; body = [] }

abbrev pub network : Network Headers
network = record {
  clock = λ n. n;
  buildable = λ t. true;
  send = λ attempt i b. if i == 0 then failed false else answered page;
}

abbrev pub route : CompiledRoute ℕ ℕ
route = record {
  name = codes "r";
  upstream = codes "u";
  host = none;
  host_match = any_host;
  path_prefix = codes "/";
  strip_prefix = false;
  request_headers = no_ops;
  response_headers = no_ops;
  ip_access = allow_all;
  rate_limit = none;
  basic_auth = none;
}

abbrev pub snapshot : RuntimeConfig ℕ ℕ ℕ
snapshot = record {
  listeners = record { name = codes "l"; bind = []; router = route ∷ []; tls = none } ∷ [];
  upstreams = (codes "u", upstream) ∷ [];
  connect_timeout = 5000;
  request_timeout = 30000;
  max_body_bytes = 0;
  header_read_timeout = none;
  max_header_bytes = none;
  trusted_proxies = [];
  compression = none;
}

abbrev pub world : World whole bytes_ip Headers ℕ
world = record { snapshot = snapshot; limiter = replicate 32 []; metrics = Metrics.new; log = [] }

abbrev pub context : Context Headers ℕ
context = record {
  listener_name = codes "l";
  scheme = codes "http";
  remote = 9;
  request_id = codes "1";
  decode = λ t. some t;
  hash = λ k. 0;
  encode = λ e t. t;
  client = record { verify = λ m h pq. network; insecure = λ m h pq. network };
}

abbrev pub get : Request Headers ℕ
get = record {
  method = codes "GET";
  path = codes "/";
  path_and_query = some (codes "/");
  headers = [];
  host = codes "ex";
  client_ip = 9;
  now = 0;
}

abbrev pub no_body : Incoming
no_body = record { frames = []; complete = true }

abbrev pub admitted : Admitted ℕ ℕ
admitted = record { route = route; upstream = upstream }

pub is_admitted : (decide whole bytes_ip assoc context get world).0 ≡ inr admitted
unfolding admit find_route match_route max_by_key route_matches specificity host_matches rank allows
    table_get text_eq strip_prefix
is_admitted = refl
