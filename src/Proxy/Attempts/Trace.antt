-- ===== src/Proxy/Attempts/Trace.antt =====
-- crates/gatepup-proxy/src/proxy.rs: what the attempts of `forward` may do, as a relation. It names the
-- reason of every end, and the target and the health that the next attempt finds.
use gatepup.Prelude.{
  ℕ, zero, suc, ◌+◌, ◌≡◌, ◌≢◌, ◌⊎◌, inl, inr, refl, sym, ◌∙◌, Bool, true, false, ◌&&◌, Option, none,
  some, List, [], ◌∷◌, ◌++◌, append_assoc, append-nil, ◌==◌, ltb, leb, Bool-cases, arith,
}
use gatepup.Upstream.{
  RetryPolicy, TargetRuntime, UpstreamRuntime, Picked, target, no_target, panic, target_at,
  pick_target, observe_target,
}
use gatepup.Proxy.Errors.{GatewayError, upstream_connect, bad_gateway, no_healthy_upstream}
use gatepup.Proxy.Body.{Body, BodySource, next}
use gatepup.Proxy.Attempts.{
  Sent, timed_out, failed, answered, Answer, refused, crashed, State, Next, done, again,
  retries_on_failure, retries_on_5xx, Network, settle, logged, send_to, on_pick, once_through,
  go_on, attempts_loop,
}
use gatepup.Proxy.Attempts.Retries.{retryable, answer_of}

module _ {Headers : Type 0} (policy : Option RetryPolicy) (net : Network Headers) where
  -- The error that the client gets if no later attempt has a better one.
  abbrev pub blamed : Sent Headers → GatewayError → GatewayError
  blamed timed_out e = e
  blamed (failed overflow) e = upstream_connect
  blamed (answered resp) e = e

  -- What an outcome says of the health of its target. A body over the limit says nothing.
  abbrev pub noted : ℕ → ℕ → Sent Headers → UpstreamRuntime → UpstreamRuntime
  noted attempt i timed_out u = observe_target (net.clock attempt) false i u
  noted attempt i (failed true) u = u
  noted attempt i (failed false) u = observe_target (net.clock attempt) false i u
  noted attempt i (answered resp) u = observe_target (net.clock attempt) (ltb resp.status 500) i u

  -- An attempt that sends: a target is picked, there is a body to send, the URI is legal, and `o` is
  -- what the network says of a request to that target.
  pub record Goes (attempt : ℕ) (u : UpstreamRuntime) (b : BodySource) (i : ℕ) (o : Sent Headers)
      : Type 0 where
    pub body : Body
    pub at_target : TargetRuntime
    pub picked : (pick_target u).0 ≡ target i
    pub has_body : (next b).0 ≡ some body
    pub has_target : target_at (pick_target u).1 i ≡ some at_target
    pub legal : net.buildable at_target.url ≡ true
    pub outcome : o ≡ net.send attempt i body

  -- The requests that go out with `n` attempts left, from the attempt, the upstream, the body and the
  -- last error on; then the answer, the number of retries, and the upstream at the end.
  pub data Trace
      : ℕ
        → ℕ
        → UpstreamRuntime
        → BodySource
        → GatewayError
        → List (ℕ × Sent Headers)
        → Answer Headers
        → ℕ
        → UpstreamRuntime
        → Type 0 where
    no_attempts :
        (attempt : ℕ) (u : UpstreamRuntime) (b : BodySource) (e : GatewayError)
        → Trace 0 attempt u b e [] (refused e) 0 u
    none_healthy :
        (n attempt : ℕ) (u : UpstreamRuntime) (b : BodySource) (e : GatewayError)
        → (pick_target u).0 ≡ no_target
        → Trace (suc n) attempt u b e [] (refused no_healthy_upstream) 0 (pick_target u).1
    panicked :
        (n attempt : ℕ) (u : UpstreamRuntime) (b : BodySource) (e : GatewayError)
        → (pick_target u).0 ≡ panic
        → Trace (suc n) attempt u b e [] crashed 0 (pick_target u).1
    out_of_range :
        (n attempt i : ℕ) (u : UpstreamRuntime) (b : BodySource) (e : GatewayError)
        → (pick_target u).0 ≡ target i
        → target_at (pick_target u).1 i ≡ none
        → Trace (suc n) attempt u b e [] crashed 0 (pick_target u).1
    body_gone :
        (n attempt i : ℕ) (u : UpstreamRuntime) (b : BodySource) (e : GatewayError)
        → (pick_target u).0 ≡ target i
        → (next b).0 ≡ none
        → Trace (suc n) attempt u b e [] (refused e) 0 (pick_target u).1
    illegal_uri :
        (n attempt i : ℕ) (u : UpstreamRuntime) (b : BodySource) (e : GatewayError)
        (t : TargetRuntime)
        → (pick_target u).0 ≡ target i
        → target_at (pick_target u).1 i ≡ some t
        → net.buildable t.url ≡ false
        → Trace (suc n) attempt u b e [] (refused bad_gateway) 0 (pick_target u).1
    settled :
        (n attempt i : ℕ) (u : UpstreamRuntime) (b : BodySource) (e : GatewayError)
        (o : Sent Headers)
        → Goes attempt u b i o
        → (retryable policy o ≡ false) ⊎ (n ≡ 0)
        → Trace
            (suc n)
            attempt
            u
            b
            e
            ((i, o) ∷ [])
            (answer_of policy o)
            0
            (noted attempt i o (pick_target u).1)
    retried :
        {n attempt : ℕ} {log : List (ℕ × Sent Headers)} {a : Answer Headers} {k : ℕ}
        {v : UpstreamRuntime}
        → (i : ℕ) (u : UpstreamRuntime) (b : BodySource) (e : GatewayError) (o : Sent Headers)
        → Goes attempt u b i o
        → retryable policy o ≡ true
        → n ≢ 0
        → Trace n
            (attempt + 1)
            (noted attempt i o (pick_target u).1)
            (next b).1
            (blamed o e)
            log
            a
            k
            v
        → Trace (suc n) attempt u b e ((i, o) ∷ log) a (k + 1) v

  pub record IsTrace (n attempt : ℕ) (s : State Headers) (a : Answer Headers) (t : State Headers)
      : Type 0 where
    pub sent : List (ℕ × Sent Headers)
    pub retries : ℕ
    pub extends : t.log ≡ s.log ++ sent
    pub counted : t.retries ≡ s.retries + retries
    pub trace : Trace n attempt s.upstream s.body s.last_err sent a retries t.upstream

  -- One attempt: it ends the run, or leaves a retryable request behind it.
  data OneStep (n attempt : ℕ) (s : State Headers) : Next Headers → Type 0 where
    ends :
        (a : Answer Headers) (t : State Headers)
        → IsTrace (suc n) attempt s a t
        → OneStep n attempt s (done a t)
    sends_again :
        (i : ℕ) (o : Sent Headers) (v : UpstreamRuntime)
        → Goes attempt s.upstream s.body i o
        → retryable policy o ≡ true
        → n ≢ 0
        → v ≡ noted attempt i o (pick_target s.upstream).1
        → OneStep n attempt s (
            again (record {
              upstream = v;
              body = (next s.body).1;
              retries = s.retries + 1;
              last_err = blamed o s.last_err;
              log = s.log ++ (i, o) ∷ [];
            }))

  module _ (n attempt : ℕ) (is_last : Bool) (s : State Headers) (last : is_last ≡ true → n ≡ 0)
      (more : is_last ≡ false → n ≢ 0) where
    -- The state once a target is picked, and once the body is taken.
    after_pick : State Headers
    after_pick = record s { upstream = (pick_target s.upstream).1 }

    after_body : State Headers
    after_body = record after_pick { body = (next s.body).1 }

    settled-OneStep :
        (i : ℕ) (o : Sent Headers) (t : State Headers)
        → Goes attempt s.upstream s.body i o
        → (retryable policy o ≡ false) ⊎ (n ≡ 0)
        → t.log ≡ s.log ++ (i, o) ∷ []
        → t.retries ≡ s.retries
        → t.upstream ≡ noted attempt i o (pick_target s.upstream).1
        → OneStep n attempt s (done (answer_of policy o) t)
    settled-OneStep i o t g c l r u = ends _ t (record {
      sent = (i, o) ∷ [];
      retries = 0;
      extends = l;
      counted = omega arith;
      trace = rw u (settled n attempt i s.upstream s.body s.last_err o g c);
    })

    unsent-OneStep :
        (a : Answer Headers) (t : State Headers)
        → Trace (suc n) attempt s.upstream s.body s.last_err [] a 0 t.upstream
        → t.log ≡ s.log
        → t.retries ≡ s.retries
        → OneStep n attempt s (done a t)
    unsent-OneStep a t trace l r = ends a t (record {
      sent = [];
      retries = 0;
      extends = l ∙ sym (append-nil s.log);
      counted = omega arith;
      trace = trace;
    })

    settle-OneStep :
        (i : ℕ) (o : Sent Headers)
        → Goes attempt s.upstream s.body i o
        → OneStep n attempt s
            (settle net policy attempt is_last i (logged net policy i o after_body) o)
    unfolding settle after_body after_pick
    settle-OneStep i timed_out g = settled-OneStep i timed_out _ g (inl refl) refl refl refl
    settle-OneStep i (failed true) g = settled-OneStep i (failed true) _ g (inl refl) refl refl refl
    settle-OneStep i (failed false) g = elim (Bool-cases is_last) [
      | inl e ↦ rw e (settled-OneStep i (failed false) _ g (inr (last e)) refl refl refl)
      | inr e ↦ elim (Bool-cases (retries_on_failure policy)) [
        | inl f ↦ rw (e, f) (sends_again i (failed false) _ g f (more e) refl)
        | inr f ↦ rw (e, f) (settled-OneStep i (failed false) _ g (inl f) refl refl refl)
      ]
    ]
    settle-OneStep i (answered resp) g = elim (Bool-cases (ltb resp.status 500)) [
      | inl l ↦
          rw l (settled-OneStep i (answered resp) _ g (inl (ground arith)) refl refl (rw l refl))
      | inr l ↦ elim (Bool-cases is_last) [
        | inl e ↦
            rw (l, e) (settled-OneStep i (answered resp) _ g (inr (last e)) refl refl (rw l refl))
        | inr e ↦ elim (Bool-cases (leb 500 resp.status && retries_on_5xx policy)) [
          | inl f ↦ rw (l, e, f) (sends_again i (answered resp) _ g f (more e) (rw l refl))
          | inr f ↦
              rw (l, e, f) (settled-OneStep i (answered resp) _ g (inl f) refl refl (rw l refl))
        ]
      ]
    ]

    send_to-OneStep :
        (i : ℕ) (t : Option TargetRuntime) (b : Option Body)
        → (pick_target s.upstream).0 ≡ target i
        → target_at (pick_target s.upstream).1 i ≡ t
        → (next s.body).0 ≡ b
        → OneStep n attempt s (send_to net policy attempt is_last i after_body t b)
    unfolding after_body after_pick
    send_to-OneStep i t none p q h =
        unsent-OneStep _ _ (body_gone n attempt i s.upstream s.body s.last_err p h) refl refl
    send_to-OneStep i none (some b) p q h =
        unsent-OneStep _ _ (out_of_range n attempt i s.upstream s.body s.last_err p q) refl refl
    send_to-OneStep i (some t) (some b) p q h = elim (Bool-cases (net.buildable t.url)) [
      | inl e ↦
          let g : Goes attempt s.upstream s.body i (net.send attempt i b) = record {
            body = b;
            at_target = t;
            picked = p;
            has_body = h;
            has_target = q;
            legal = e;
            outcome = refl;
          } in
          rw e (settle-OneStep i (net.send attempt i b) g)
      | inr e ↦ rw e (
          unsent-OneStep _ after_body (illegal_uri n attempt i s.upstream s.body s.last_err t p q e)
            refl refl)
    ]

    on_pick-OneStep :
        (p : Picked)
        → (pick_target s.upstream).0 ≡ p
        → OneStep n attempt s (on_pick net policy attempt is_last after_pick p)
    unfolding after_pick
    on_pick-OneStep no_target e =
        unsent-OneStep _ _ (none_healthy n attempt s.upstream s.body s.last_err e) refl refl
    on_pick-OneStep panic e =
        unsent-OneStep _ _ (panicked n attempt s.upstream s.body s.last_err e) refl refl
    on_pick-OneStep (target i) e =
        unfold after_body in
        send_to-OneStep i (target_at (pick_target s.upstream).1 i) (next s.body).0 e refl refl

  once_through-OneStep :
      (max_attempts n attempt : ℕ) (s : State Headers)
      → attempt + suc n ≡ max_attempts
      → OneStep n attempt s (once_through net policy max_attempts attempt s)
  unfolding once_through after_pick
  once_through-OneStep max_attempts n attempt s h =
      on_pick-OneStep n attempt (attempt + 1 == max_attempts) s (λ e. ground arith)
        (λ e z. ground arith) (pick_target s.upstream).0 refl

  go_on-IsTrace :
      (n attempt : ℕ) (s : State Headers) (o : Next Headers)
      (rest : State Headers → Answer Headers × State Headers)
      → OneStep n attempt s o
      → ((t : State Headers) → IsTrace n (attempt + 1) t (rest t).0 (rest t).1)
      → IsTrace (suc n) attempt s (go_on net policy o rest).0 (go_on net policy o rest).1
  go_on-IsTrace n attempt s o rest (ends a t r) k = r
  go_on-IsTrace n attempt s (again t) rest (sends_again i o v g y more q) k =
      let r = k t in
      record {
        sent = (i, o) ∷ r.sent;
        retries = r.retries + 1;
        extends = r.extends ∙ append_assoc s.log ((i, o) ∷ []) r.sent;
        counted = omega (arith, r.counted);
        trace = retried i s.upstream s.body s.last_err o g y more (rw (← q) r.trace);
      }

  -- The attempts follow the policy exactly. Each request goes to the target that is picked from the
  -- upstream as the attempts before it left its health and counter, with the body of that attempt. A
  -- retryable outcome is followed by a further attempt unless it is that of the last, and no other
  -- outcome is; where the last attempt sends, its outcome decides the answer. An attempt sends nothing
  -- only if no target is healthy, the body is used up, an index is out of range, or the URI of the target
  -- is illegal, and it then ends the run with the answer for that reason. The counter of retries goes
  -- up by the number of outcomes that are followed by a further attempt, and the upstream is left with
  -- the health that the outcomes say.
  pub attempts_loop-IsTrace :
      (max_attempts left attempt : ℕ) (s : State Headers)
      → attempt + left ≡ max_attempts
      → let r = attempts_loop net policy max_attempts left attempt s in
        IsTrace left attempt s r.0 r.1
  unfolding attempts_loop
  attempts_loop-IsTrace max_attempts zero attempt s h = record {
    sent = [];
    retries = 0;
    extends = sym (append-nil s.log);
    counted = omega arith;
    trace = no_attempts attempt s.upstream s.body s.last_err;
  }
  attempts_loop-IsTrace max_attempts (suc left) attempt s h =
      go_on-IsTrace left attempt s (once_through net policy max_attempts attempt s) _
        (once_through-OneStep max_attempts left attempt s h)
        (λ t. attempts_loop-IsTrace max_attempts left (attempt + 1) t (omega arith))
