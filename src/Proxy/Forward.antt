-- ===== src/Proxy/Forward.antt =====
-- crates/gatepup-proxy/src/proxy.rs: `forward`. The world is what a request can change: the upstreams
-- of the snapshot, whose counters and health are atomics, the rate limiter, the metrics, and the log of
-- the requests that went out. A request runs from its start to its end.
pub mod Guarded
pub mod Verified
use gatepup.Prelude.{
  table_insert, ℕ, zero, suc, ◌+◌, Bool, true, false, not, ◌&&◌, ◌||◌, Option, none, some, List, [],
  ◌∷◌, ltb, leb, ◌>>=◌, unwrap_or, ◌⊎◌, inl, inr, Text, codes, if◌then◌else◌,
}
use gatepup.Interfaces.{IpLib, HttpLib, Float}
use gatepup.Router.Filters.{apply}
use gatepup.Router.Table.{CompiledRoute}
use gatepup.Router.Rewrite.{rewritten_path_and_query}
use gatepup.Upstream.{RetryPolicy, UpstreamRuntime}
use gatepup.Compress.{Compression, Encoding, maybe_compress}
use gatepup.Snapshot.{RuntimeConfig, allows_method}
use gatepup.Proxy.Errors.{GatewayError, Response, payload_too_large, no_healthy_upstream}
use gatepup.Proxy.Body.{
  Incoming, body_buffer_cap, prepare_body_source, content_length, body_exceeds_limit,
}
use gatepup.Proxy.Client.{ProxyClient, for_upstream}
use gatepup.Proxy.Forwarding.{rewrite_headers}
use gatepup.Proxy.Admission.{Request, Admitted, admit}
use gatepup.Metrics.{Metrics}
use gatepup.RateLimiter.{RateLimiter}
use gatepup.Proxy.Attempts.{
  Sent, Answer, forwarded, refused, crashed, State, Network, attempts_loop,
}

pub record Forwarded (Headers : Type 0) : Type 0 where
  pub response : Response Headers
  pub route : Text
  pub upstream : Text

pub data Outcome (Headers : Type 0) : Type 0 where
  ok : Forwarded Headers → Outcome Headers
  err : GatewayError → Outcome Headers
  crash : Outcome Headers

-- `content_length(…).is_none_or(|len| len <= BODY_BUFFER_CAP)`.
abbrev pub fits_buffer : Option ℕ → Bool
fits_buffer none = true
fits_buffer (some len) = leb len body_buffer_cap

abbrev pub replayable : Option RetryPolicy → Text → Option ℕ → Bool
replayable none method len = false
replayable (some p) method len = ltb 1 p.max_attempts && allows_method p method && fits_buffer len

abbrev pub attempts_of : Option RetryPolicy → Bool → ℕ
attempts_of none b = 1
attempts_of (some p) false = 1
attempts_of (some p) true = p.max_attempts

module _ {F Addr Net : Type 0} (fl : Float F) (ip : IpLib Addr Net) where
  pub record World (Headers Tls : Type 0) : Type 0 where
    pub snapshot : RuntimeConfig F Net Tls
    pub limiter : RateLimiter fl ip.same
    pub metrics : Metrics
    pub log : List (ℕ × Sent Headers)

-- The rest of a request, and the code outside src/ that `forward` calls.
pub record Context (Headers Addr : Type 0) : Type 0 where
  pub listener_name : Text
  pub scheme : Text
  pub remote : Addr
  pub request_id : Text
  pub decode : Text → Option Text
  pub hash : Text × Addr → ℕ
  pub encode : Encoding → Text → Text
  -- A client that sends a method, headers and the path of a request.
  pub client : ProxyClient (Text → Headers → Text → Network Headers)

module _ {F Headers Addr Net : Type 0} (fl : Float F) (ip : IpLib Addr Net) (http : HttpLib Headers)
    (c : Context Headers Addr) where
  -- The headers that go to the upstream.
  abbrev pub upstream_headers : Request Headers Addr → CompiledRoute F Net → Headers
  upstream_headers req r =
      apply http r.request_headers
        (rewrite_headers http req.host c.scheme (ip.to_string c.remote) c.request_id req.headers)

  abbrev pub can_replay : Request Headers Addr → Admitted F Net → Bool
  can_replay req a =
      replayable a.upstream.retry req.method (content_length http (upstream_headers req a.route))

  abbrev pub max_attempts : Request Headers Addr → Admitted F Net → ℕ
  max_attempts req a = attempts_of a.upstream.retry (can_replay req a)

  abbrev pub compressed : Option Compression → Text → Response Headers → Response Headers
  compressed none accept resp = resp
  compressed (some comp) accept resp = maybe_compress http c.encode resp accept comp

  abbrev pub finish : Option Compression → Text → Admitted F Net → Answer Headers → Outcome Headers
  finish comp accept a (refused e) = err e
  finish comp accept a crashed = crash
  finish comp accept a (forwarded resp) = ok (record {
    response =
        compressed comp accept
          (record resp { headers = apply http a.route.response_headers resp.headers });
    route = a.route.name;
    upstream = a.route.upstream;
  })

  abbrev pub network_of : Request Headers Addr → Admitted F Net → Network Headers
  network_of req a =
      for_upstream c.client a.upstream.tls_insecure req.method (upstream_headers req a.route)
        (rewritten_path_and_query a.route req.path_and_query)

  module _ {Tls : Type 0} where
    abbrev pub decide :
        Request Headers Addr
        → World fl ip Headers Tls
        → (GatewayError ⊎ Admitted F Net) × RateLimiter fl ip.same
    decide req w = admit fl ip http c.decode c.hash w.snapshot c.listener_name req w.limiter

    abbrev pub start :
        Request Headers Addr → Incoming → World fl ip Headers Tls → Admitted F Net → State Headers
    start req body w a = record {
      upstream = a.upstream;
      body = prepare_body_source body (can_replay req a) w.snapshot.max_body_bytes;
      retries = w.metrics.upstream_retries;
      last_err = no_healthy_upstream;
      log = w.log;
    }

    -- The attempts, from the state that the request finds.
    abbrev pub run :
        Request Headers Addr
        → Incoming
        → World fl ip Headers Tls
        → Admitted F Net
        → Answer Headers × State Headers
    run req body w a =
        let n = max_attempts req a in
        attempts_loop (network_of req a) a.upstream.retry n n 0 (start req body w a)

    abbrev pub settled_world :
        World fl ip Headers Tls → Admitted F Net → State Headers → World fl ip Headers Tls
    settled_world w a s = record w {
      snapshot = record w.snapshot {
        upstreams = table_insert a.route.upstream s.upstream w.snapshot.upstreams;
      };
      metrics = record w.metrics { upstream_retries = s.retries };
      log = s.log;
    }

    abbrev pub on_admitted :
        Request Headers Addr
        → Incoming
        → World fl ip Headers Tls
        → GatewayError ⊎ Admitted F Net
        → Outcome Headers × World fl ip Headers Tls
    on_admitted req body w (inl e) = (err e, w)
    on_admitted req body w (inr a) =
        let accept =
          unwrap_or [] (http.get (codes "accept-encoding") req.headers >>= http.to_str) in
        let r = run req body w a in
        if body_exceeds_limit http req.headers w.snapshot.max_body_bytes
        then (err payload_too_large, w)
        else (finish w.snapshot.compression accept a r.0, settled_world w a r.1)

    -- `forward`.
    unfoldable pub forward :
        Request Headers Addr
        → Incoming
        → World fl ip Headers Tls
        → Outcome Headers × World fl ip Headers Tls
    forward req body w =
        let d = decide req w in on_admitted req body (record w { limiter = d.1 }) d.0
