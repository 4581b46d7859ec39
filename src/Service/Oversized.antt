-- ===== src/Service/Oversized.antt =====
-- Bodies of undeclared length that do not fit the buffer for retries.
mod Tests
use gatepup.Prelude.{
  ℕ, zero, suc, ◌+◌, ◌<◌, ◌≡◌, ◌≢◌, inl, inr, refl, ap, Bool, true, false, ◌&&◌, Option, none, some,
  leb, ltb, length, ◌==◌, Bool-cases, arith, Text,
}
use gatepup.Interfaces.{IpLib, HttpLib, Float}
use gatepup.Upstream.{RetryPolicy, Picked, target, no_target, panic, pick_target}
use gatepup.Upstream.Pick.{IsValid, pick_target-ne-panic}
use gatepup.Snapshot.{allows_method}
use gatepup.Proxy.Errors.{no_healthy_upstream}
use gatepup.Proxy.Body.{
  Incoming, once, next, join, body_buffer_cap, prepare_body_source, content_length,
  body_exceeds_limit,
}
use gatepup.Proxy.Admission.{Request, Admitted}
use gatepup.Proxy.Attempts.{
  Answer, refused, State, Network, once_through, on_pick, go_on, attempts_loop,
}
use gatepup.Proxy.Forward.{
  World, Context, err, decide, can_replay, fits_buffer, replayable, attempts_of, on_admitted,
  network_of, start, forward,
}
use gatepup.Service.Valid.{AllValid}
use gatepup.Service.Forwarded.{admitted-IsValid}

prepare-once :
    (body : Incoming) (limit : ℕ)
    → body_buffer_cap < length (join body.frames)
    → prepare_body_source body true limit ≡ once none
unfolding prepare_body_source
prepare-once body limit h = elim (Bool-cases body.complete) [
  | inl e ↦
      let f : leb (length (join body.frames)) body_buffer_cap ≡ false = ground arith in
      rw (e, f) refl
  | inr e ↦ rw e refl
]

positive : (n : ℕ) (b c : Bool) → (ltb 1 n && b && c) ≡ true → (m : ℕ) × (n ≡ suc m)
positive zero b c h = absurd (ground arith)
positive (suc m) b c h = (m, refl)

replayable-attempts :
    (policy : Option RetryPolicy) (method : Text) (len : Option ℕ)
    → replayable policy method len ≡ true
    → (m : ℕ) × (attempts_of policy true ≡ suc m)
replayable-attempts none method len h = absurd (ground arith)
replayable-attempts (some p) method len h =
    positive p.max_attempts (allows_method p method) (fits_buffer len) h

module _ {Headers : Type 0} (net : Network Headers) (policy : Option RetryPolicy) where
  -- With no body to send, the first attempt is the last, and sends nothing.
  unsent :
      (attempt : ℕ) (is_last : Bool) (s : State Headers) (p : Picked)
      (rest : State Headers → Answer Headers × State Headers)
      → s.body ≡ once none
      → s.last_err ≡ no_healthy_upstream
      → p ≢ panic
      → let r = go_on net policy (on_pick net policy attempt is_last s p) rest in
        (r.0 ≡ refused no_healthy_upstream) × (r.1.log ≡ s.log)
  unfolding next
  unsent attempt is_last s no_target rest e f n = (refl, refl)
  unsent attempt is_last s panic rest e f n = absurd (n refl)
  unsent attempt is_last s (target i) rest e f n = rw e (ap refused f, refl)

  attempts_loop-unsent :
      (n left : ℕ) (s : State Headers)
      → s.body ≡ once none
      → s.last_err ≡ no_healthy_upstream
      → IsValid s.upstream
      → let r = attempts_loop net policy n (suc left) 0 s in
        (r.0 ≡ refused no_healthy_upstream) × (r.1.log ≡ s.log)
  unfolding attempts_loop once_through
  attempts_loop-unsent n left s e f v =
      unsent 0 (0 + 1 == n) (record s { upstream = (pick_target s.upstream).1 })
        (pick_target s.upstream).0 _ e f (pick_target-ne-panic s.upstream v)

module _ {Headers : Type 0} (http : HttpLib Headers) where
  undeclared-within :
      (m : Headers) (limit : ℕ)
      → content_length http m ≡ none
      → body_exceeds_limit http m limit ≡ false
  unfolding body_exceeds_limit
  undeclared-within m limit e = elim (Bool-cases (ltb 0 limit)) [
    | inl f ↦ rw (e, f) refl
    | inr f ↦ rw (e, f) refl
  ]

module _ {F Headers Addr Net Tls : Type 0} (fl : Float F) (ip : IpLib Addr Net)
    (http : HttpLib Headers) (c : Context Headers Addr) (req : Request Headers Addr)
    (body : Incoming) where
  admitted-unsent :
      (x : World fl ip Headers Tls) (a : Admitted F Net)
      → IsValid a.upstream
      → content_length http req.headers ≡ none
      → can_replay fl ip http c req a ≡ true
      → body_buffer_cap < length (join body.frames)
      → let r = on_admitted fl ip http c req body x (inr a) in
        (r.0 ≡ err no_healthy_upstream) × (r.1.log ≡ x.log)
  admitted-unsent x a v e p h =
      let (m, q) = replayable-attempts a.upstream.retry req.method _ p in
      let small = undeclared-within http req.headers x.snapshot.max_body_bytes e in
      let none_left = prepare-once body x.snapshot.max_body_bytes h in
      let s : State Headers = record (start fl ip http c req body x a) { body = once none } in
      let (f, g) =
        attempts_loop-unsent (network_of fl ip http c req a) a.upstream.retry (suc m) m s refl refl
          v in
      rw (small, p, q, none_left) (rw f refl, g)

  -- An admitted request that may be retried and declares no length, with a body that does not fit the
  -- buffer, reaches no upstream: no request goes out, and the client is told that no upstream is
  -- healthy, whatever the health of the targets. The upstreams of the world are valid.
  pub oversized_unsent :
      (w : World fl ip Headers Tls) (a : Admitted F Net)
      → AllValid w.snapshot.upstreams
      → (decide fl ip http c req w).0 ≡ inr a
      → content_length http req.headers ≡ none
      → can_replay fl ip http c req a ≡ true
      → body_buffer_cap < length (join body.frames)
      → let r = forward fl ip http c req body w in
        (r.0 ≡ err no_healthy_upstream) × (r.1.log ≡ w.log)
  unfolding forward
  oversized_unsent w a v d e p h = rw d (
      admitted-unsent (record w { limiter = (decide fl ip http c req w).1 }) a
        (admitted-IsValid fl ip http c req w a v d) e p h)
