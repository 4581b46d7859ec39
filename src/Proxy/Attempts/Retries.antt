-- ===== src/Proxy/Attempts/Retries.antt =====
-- Which outcomes are tried again, how often, and what the client gets.
use gatepup.Prelude.{
  ℕ, suc, ◌+◌, ◌≡◌, ◌⊎◌, inl, inr, refl, sym, ◌∙◌, Bool, true, false, not, ◌&&◌, Option, none, some,
  List, [], ◌∷◌, ◌++◌, append-nil, ltb, leb, length, Bool-cases, arith,
}
use gatepup.Upstream.{RetryPolicy, TargetRuntime}
use gatepup.Proxy.Errors.{
  GatewayError, upstream_timeout, upstream_connect, payload_too_large, bad_gateway,
}
use gatepup.Proxy.Body.{Body}
use gatepup.Proxy.Attempts.{
  Sent, timed_out, failed, answered, Answer, forwarded, refused, crashed, State, Next, done, again,
  retries_on_failure, retries_on_5xx, Network, settle, logged, send_to,
}

module _ {Headers : Type 0} (policy : Option RetryPolicy) where
  -- A failure to connect and a 5xx are tried again where the policy says so; nothing else is.
  abbrev pub retryable : Sent Headers → Bool
  retryable timed_out = false
  retryable (failed overflow) = not overflow && retries_on_failure policy
  retryable (answered resp) = leb 500 resp.status && retries_on_5xx policy

  abbrev pub answer_of : Sent Headers → Answer Headers
  answer_of timed_out = refused upstream_timeout
  answer_of (failed true) = refused payload_too_large
  answer_of (failed false) = refused upstream_connect
  answer_of (answered resp) = forwarded resp

  -- The requests that go out with `n` attempts left, and the answer.
  pub data Run : ℕ → List (ℕ × Sent Headers) → Answer Headers → Type 0 where
    settled :
        (n i : ℕ) (o : Sent Headers)
        → (retryable o ≡ false) ⊎ (n ≡ 0)
        → Run (suc n) ((i, o) ∷ []) (answer_of o)
    retried :
        {n : ℕ} {log : List (ℕ × Sent Headers)} {a : Answer Headers}
        → (i : ℕ) (o : Sent Headers) → retryable o ≡ true
        → Run n log a
        → Run (suc n) ((i, o) ∷ log) a
    stopped : (n : ℕ) (e : GatewayError) → Run n [] (refused e)
    crash : (n : ℕ) → Run n [] crashed

  pub record IsRun (n : ℕ) (before : List (ℕ × Sent Headers)) (count : ℕ) (a : Answer Headers)
      (t : State Headers) : Type 0 where
    pub sent : List (ℕ × Sent Headers)
    pub extends : t.log ≡ before ++ sent
    pub run : Run n sent a
    pub counted : (t.retries ≡ count + length sent) ⊎ (t.retries + 1 ≡ count + length sent)

  -- What one attempt does: it ends the run, or leaves one request more in the log and the counter.
  unfoldable pub Step : ℕ → State Headers → Next Headers → Type 0
  Step n s (done a t) = IsRun (suc n) s.log s.retries a t
  Step n s (again t) =
      (i : ℕ) × (o : Sent Headers) × (t.log ≡ s.log ++ (i, o) ∷ [])
      × (retryable o ≡ true)
      × (t.retries ≡ s.retries + 1)

  module _ (net : Network Headers) where
    ends_with_request :
        (n i : ℕ) (s t : State Headers) (o : Sent Headers)
        → (retryable o ≡ false) ⊎ (n ≡ 0)
        → t.log ≡ s.log ++ (i, o) ∷ []
        → t.retries ≡ s.retries
        → IsRun (suc n) s.log s.retries (answer_of o) t
    ends_with_request n i s t o c l r = record {
      sent = (i, o) ∷ [];
      extends = l;
      run = settled n i o c;
      counted = inr (omega arith);
    }

    settle-Step :
        (n attempt i : ℕ) (is_last : Bool) (s : State Headers) (o : Sent Headers)
        → (is_last ≡ true → n ≡ 0)
        → Step n s (settle net policy attempt is_last i (logged net policy i o s) o)
    unfolding settle Step
    settle-Step n attempt i is_last s timed_out z =
        ends_with_request n i s _ timed_out (inl refl) refl refl
    settle-Step n attempt i is_last s (failed true) z =
        ends_with_request n i s _ (failed true) (inl refl) refl refl
    settle-Step n attempt i is_last s (failed false) z = elim (Bool-cases is_last) [
      | inl e ↦ rw e (ends_with_request n i s _ (failed false) (inr (z e)) refl refl)
      | inr e ↦ elim (Bool-cases (retries_on_failure policy)) [
        | inl f ↦ rw (e, f) (i, failed false, refl, f, refl)
        | inr f ↦ rw (e, f) (ends_with_request n i s _ (failed false) (inl f) refl refl)
      ]
    ]
    settle-Step n attempt i is_last s (answered resp) z = elim (Bool-cases is_last) [
      | inl e ↦ elim (Bool-cases (ltb resp.status 500)) [
        | inl l ↦ rw (l) (ends_with_request n i s _ (answered resp) (inr (z e)) refl refl)
        | inr l ↦ rw (l, e) (ends_with_request n i s _ (answered resp) (inr (z e)) refl refl)
      ]
      | inr e ↦ elim (Bool-cases (ltb resp.status 500)) [
        | inl l ↦ rw (l) (ends_with_request n i s _ (answered resp) (inl (ground arith)) refl refl)
        | inr l ↦ elim (Bool-cases (leb 500 resp.status && retries_on_5xx policy)) [
          | inl f ↦ rw (l, e, f) (i, answered resp, refl, f, refl)
          | inr f ↦ rw (l, e, f) (ends_with_request n i s _ (answered resp) (inl f) refl refl)
        ]
      ]
    ]

    not_sent :
        (n : ℕ) (s t : State Headers) (e : GatewayError)
        → t.log ≡ s.log
        → t.retries ≡ s.retries
        → IsRun (suc n) s.log s.retries (refused e) t
    not_sent n s t e l r = record {
      sent = [];
      extends = l ∙ sym (append-nil s.log);
      run = stopped (suc n) e;
      counted = inl (omega arith);
    }

    crashed-IsRun :
        (n : ℕ) (s t : State Headers)
        → t.log ≡ s.log
        → t.retries ≡ s.retries
        → IsRun (suc n) s.log s.retries crashed t
    crashed-IsRun n s t l r = record {
      sent = [];
      extends = l ∙ sym (append-nil s.log);
      run = crash (suc n);
      counted = inl (omega arith);
    }

    pub send_to-Step :
        (n attempt i : ℕ) (is_last : Bool) (s : State Headers) (t : Option TargetRuntime)
        (b : Option Body)
        → (is_last ≡ true → n ≡ 0)
        → Step n s (send_to net policy attempt is_last i s t b)
    unfolding Step
    send_to-Step n attempt i is_last s t none z = not_sent n s s s.last_err refl refl
    send_to-Step n attempt i is_last s none (some b) z = crashed-IsRun n s s refl refl
    send_to-Step n attempt i is_last s (some t) (some b) z =
        elim (Bool-cases (net.buildable t.url)) [
          | inl e ↦ rw e (settle-Step n attempt i is_last s (net.send attempt i b) z)
          | inr e ↦ rw e (not_sent n s s bad_gateway refl refl)
        ]
