-- ===== src/Proxy/Attempts.antt =====
-- crates/gatepup-proxy/src/proxy.rs: the attempts of `forward`, one upstream request each. What the
-- network does with the request of an attempt is an argument, and so are the clock and whether the
-- package http accepts the URI of the target. `attempts_loop` is the loop from
-- `for attempt in 0..max_attempts`; `once_through` is its body, which returns, breaks or goes on.
pub mod Retries
pub mod Served
pub mod Trace
use gatepup.Prelude.{
  ℕ, zero, suc, ◌+◌, Bool, true, false, not, ◌&&◌, ◌||◌, Option, none, some, List, [], ◌∷◌, ◌++◌,
  ◌==◌, ltb, leb, unwrap_or, Text, if◌then◌else◌,
}
use mathlib.Core.Option
use gatepup.Metrics.{inc_upstream_retries}
use gatepup.Upstream.{
  RetryPolicy, TargetRuntime, UpstreamRuntime, Picked, target, no_target, panic, target_at,
  pick_target, observe_target,
}
use gatepup.Proxy.Errors.{
  GatewayError, Response, upstream_timeout, upstream_connect, bad_gateway, payload_too_large,
  no_healthy_upstream,
}
use gatepup.Proxy.Body.{Body, BodySource, next, buffered, once}

-- `tokio::time::timeout(request_timeout, client.request(…))`. A failed send comes with the flag of the
-- capped body.
pub data Sent (Headers : Type 0) : Type 0 where
  timed_out : Sent Headers
  failed : Bool → Sent Headers
  answered : Response Headers → Sent Headers

-- The end of `forward`; `crashed` is an index out of range in `pick_target`.
pub data Answer (Headers : Type 0) : Type 0 where
  forwarded : Response Headers → Answer Headers
  refused : GatewayError → Answer Headers
  crashed : Answer Headers

-- What the attempts change: the upstream, with the health of its targets, the source of the body and
-- the counter of retries; `log` lists the requests that went out, each with its target.
pub record State (Headers : Type 0) : Type 0 where
  pub upstream : UpstreamRuntime
  pub body : BodySource
  pub retries : ℕ
  pub last_err : GatewayError
  pub log : List (ℕ × Sent Headers)

pub data Next (Headers : Type 0) : Type 0 where
  done : Answer Headers → State Headers → Next Headers
  again : State Headers → Next Headers

abbrev pub retries_on_failure : Option RetryPolicy → Bool
retries_on_failure none = false
retries_on_failure (some p) = p.on_connect_failure

abbrev pub retries_on_5xx : Option RetryPolicy → Bool
retries_on_5xx none = false
retries_on_5xx (some p) = p.on_5xx

-- The calls out of the loop.
pub record Network (Headers : Type 0) : Type 0 where
  pub clock : ℕ → ℕ
  pub buildable : Text → Bool
  pub send : ℕ → ℕ → Body → Sent Headers

module _ {Headers : Type 0} (net : Network Headers) (policy : Option RetryPolicy) where
  -- `metrics.inc_upstream_retries()`, before the next attempt.
  abbrev pub retry : State Headers → Next Headers
  retry s = again (record s { retries = inc_upstream_retries s.retries })

  abbrev pub observed : ℕ → ℕ → Bool → State Headers → State Headers
  observed attempt i ok s = record s {
    upstream = observe_target (net.clock attempt) ok i s.upstream;
  }

  -- The branches on the outcome.
  unfoldable pub settle : ℕ → Bool → ℕ → State Headers → Sent Headers → Next Headers
  settle attempt is_last i s timed_out =
      done (refused upstream_timeout) (observed attempt i false s)
  settle attempt is_last i s (failed true) = done (refused payload_too_large) s
  settle attempt is_last i s (failed false) =
      let t = record (observed attempt i false s) { last_err = upstream_connect } in
      if is_last || not (retries_on_failure policy) then done (refused t.last_err) t else retry t
  settle attempt is_last i s (answered resp) =
      let t = observed attempt i (ltb resp.status 500) s in
      let retry_5xx = leb 500 resp.status && retries_on_5xx policy in
      if ltb resp.status 500 || is_last || not retry_5xx then done (forwarded resp) t else retry t

  abbrev pub logged : ℕ → Sent Headers → State Headers → State Headers
  logged i o s = record s { log = s.log ++ (i, o) ∷ [] }

  -- From the target on: the body, the request, and the send.
  abbrev pub send_to :
      ℕ → Bool → ℕ → State Headers → Option TargetRuntime → Option Body → Next Headers
  send_to attempt is_last i s t none = done (refused s.last_err) s
  send_to attempt is_last i s none (some b) = done crashed s
  send_to attempt is_last i s (some t) (some b) =
      if net.buildable t.url
      then settle attempt is_last i (logged i (net.send attempt i b) s) (net.send attempt i b)
      else done (refused bad_gateway) s

  abbrev pub on_pick : ℕ → Bool → State Headers → Picked → Next Headers
  on_pick attempt is_last s no_target =
      done (refused no_healthy_upstream) (record s { last_err = no_healthy_upstream })
  on_pick attempt is_last s panic = done crashed s
  on_pick attempt is_last s (target i) =
      let n = next s.body in
      send_to attempt is_last i (record s { body = n.1 }) (target_at s.upstream i) n.0

  unfoldable pub once_through : ℕ → ℕ → State Headers → Next Headers
  once_through max_attempts attempt s =
      let p = pick_target s.upstream in
      on_pick attempt (attempt + 1 == max_attempts) (record s { upstream = p.1 }) p.0

  abbrev pub go_on :
      Next Headers
      → (State Headers → Answer Headers × State Headers)
      → Answer Headers × State Headers
  go_on (done a s) rest = (a, s)
  go_on (again s) rest = rest s

  -- `left` counts the attempts from this one to the last.
  unfoldable pub attempts_loop : ℕ → ℕ → ℕ → State Headers → Answer Headers × State Headers
  attempts_loop max_attempts zero attempt s = (refused s.last_err, s)
  attempts_loop max_attempts (suc left) attempt s =
      go_on (once_through max_attempts attempt s)
        (λ t. attempts_loop max_attempts left (attempt + 1) t)
