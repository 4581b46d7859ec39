-- ===== src/Proxy/Attempts/Served.antt =====
-- The attempts on a valid upstream end with an answer, and leave the upstream valid. The lemmas on the
-- steps of an attempt are for any invariant of an upstream that observations keep.
use gatepup.Prelude.{
  ℕ, zero, suc, ◌+◌, ◌≡◌, ◌≢◌, refl, Bool, true, false, not, ◌&&◌, ◌||◌, Option, none, some, ◌==◌,
  ltb, leb, Bool-cases, inl, inr, arith,
}
use gatepup.Upstream.{
  RetryPolicy, TargetRuntime, UpstreamRuntime, Picked, target, no_target, panic, target_at,
  pick_target, observe_target,
}
use gatepup.Upstream.Pick.{IsValid, pick_target_sound, pick_target-ne-panic}
use gatepup.Upstream.Keeps.{pick_target-Same, Same-IsValid, observe_target-IsValid}
use gatepup.Proxy.Body.{Body, next}
use gatepup.Proxy.Attempts.{
  Sent, timed_out, failed, answered, Answer, crashed, State, Next, done, again, retries_on_failure,
  retries_on_5xx, Network, settle, logged, send_to, on_pick, once_through, go_on, attempts_loop,
}

module _ {Headers : Type 0} (Inv : UpstreamRuntime → Type 0) where
  -- No index was out of range, and the upstream keeps the invariant.
  abbrev pub Serves : Answer Headers × State Headers → Type 0
  Serves r = (r.0 ≢ crashed) × Inv r.1.upstream

  abbrev pub GoesOn : Next Headers → Type 0
  GoesOn (done a t) = Serves (a, t)
  GoesOn (again t) = Inv t.upstream

abbrev pub IsServed : {Headers : Type 0} → Answer Headers × State Headers → Type 0
IsServed r = Serves IsValid r

module _ {Headers : Type 0} (net : Network Headers) (policy : Option RetryPolicy)
    (Inv : UpstreamRuntime → Type 0)
    (observe-Inv : (now : ℕ) (ok : Bool) (i : ℕ) (u : UpstreamRuntime)
      → Inv u
      → Inv (observe_target now ok i u)) where
  settle-GoesOn :
      (attempt i : ℕ) (is_last : Bool) (s : State Headers) (o : Sent Headers)
      → Inv s.upstream
      → GoesOn Inv (settle net policy attempt is_last i s o)
  unfolding settle
  settle-GoesOn attempt i is_last s timed_out h =
      (λ q. ground arith, observe-Inv (net.clock attempt) false i s.upstream h)
  settle-GoesOn attempt i is_last s (failed true) h = (λ q. ground arith, h)
  settle-GoesOn attempt i is_last s (failed false) h =
      let v = observe-Inv (net.clock attempt) false i s.upstream h in
      elim (Bool-cases (is_last || not (retries_on_failure policy))) [
        | inl e ↦ rw e (λ q. ground arith, v)
        | inr e ↦ rw e v
      ]
  settle-GoesOn attempt i is_last s (answered resp) h =
      let v = observe-Inv (net.clock attempt) (ltb resp.status 500) i s.upstream h in
      elim (Bool-cases
        (ltb resp.status 500 || is_last || not (leb 500 resp.status && retries_on_5xx policy))) [
          | inl e ↦ rw e (λ q. ground arith, v)
          | inr e ↦ rw e v
        ]

  pub send_to-GoesOn :
      (attempt i : ℕ) (is_last : Bool) (s : State Headers) (t : TargetRuntime) (b : Option Body)
      → Inv s.upstream
      → GoesOn Inv (send_to net policy attempt is_last i s (some t) b)
  send_to-GoesOn attempt i is_last s t none h = (λ q. ground arith, h)
  send_to-GoesOn attempt i is_last s t (some b) h = elim (Bool-cases (net.buildable t.url)) [
    | inl e ↦ rw e (
        settle-GoesOn attempt i is_last (logged net policy i (net.send attempt i b) s)
          (net.send attempt i b) h)
    | inr e ↦ rw e (λ q. ground arith, h)
  ]

  pub on_pick-GoesOn :
      (attempt : ℕ) (is_last : Bool) (s : State Headers) (p : Picked)
      → Inv s.upstream
      → p ≢ panic
      → ((i : ℕ) → p ≡ target i → (t : TargetRuntime) × (target_at s.upstream i ≡ some t))
      → GoesOn Inv (on_pick net policy attempt is_last s p)
  on_pick-GoesOn attempt is_last s no_target h n up = (λ q. ground arith, h)
  on_pick-GoesOn attempt is_last s panic h n up = absurd (n refl)
  on_pick-GoesOn attempt is_last s (target i) h n up =
      let (t, e) = up i refl in
      rw e
        (send_to-GoesOn attempt i is_last (record s { body = (next s.body).1 }) t (next s.body).0 h)

  pub go_on-Serves :
      (o : Next Headers) (rest : State Headers → Answer Headers × State Headers)
      → GoesOn Inv o
      → ((t : State Headers) → Inv t.upstream → Serves Inv (rest t))
      → Serves Inv (go_on net policy o rest)
  go_on-Serves (done a t) rest h k = h
  go_on-Serves (again t) rest h k = k t h

module _ {Headers : Type 0} (net : Network Headers) (policy : Option RetryPolicy) where
  once_through-GoesOn :
      (max_attempts attempt : ℕ) (s : State Headers)
      → IsValid s.upstream
      → GoesOn IsValid (once_through net policy max_attempts attempt s)
  unfolding once_through
  once_through-GoesOn max_attempts attempt s h =
      let u = (pick_target s.upstream).1 in
      let same = pick_target-Same s.upstream h in
      on_pick-GoesOn net policy IsValid observe_target-IsValid attempt (attempt + 1 == max_attempts)
        (record s { upstream = u }) (pick_target s.upstream).0 (Same-IsValid s.upstream u same h)
        (pick_target-ne-panic s.upstream h)
        (λ i e.
          let ((t, f, live), m) = pick_target_sound s.upstream i h e in (t, rw (same.targets) f))

  -- The attempts on a valid upstream always end with a response or a refusal, and leave the upstream
  -- valid for the next request.
  pub attempts_loop-IsServed :
      (max_attempts left attempt : ℕ) (s : State Headers)
      → IsValid s.upstream
      → IsServed (attempts_loop net policy max_attempts left attempt s)
  unfolding attempts_loop
  attempts_loop-IsServed max_attempts zero attempt s h = (λ q. ground arith, h)
  attempts_loop-IsServed max_attempts (suc left) attempt s h =
      go_on-Serves net policy IsValid observe_target-IsValid
        (once_through net policy max_attempts attempt s) _
        (once_through-GoesOn max_attempts attempt s h)
        (λ t v. attempts_loop-IsServed max_attempts left (attempt + 1) t v)
