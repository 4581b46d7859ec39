-- ===== src/Traffic/Tunnels.antt =====
-- What the tunnel of an upgrade changes.
use gatepup.Prelude.{
  ℕ, ◌≡◌, ◌≢◌, ◌⊎◌, refl, true, false, Option, none, some, [], ◌∷◌, ◌++◌, ltb, ◌==◌, inl, inr,
  Bool-cases, Text, arith,
}
use gatepup.Interfaces.{IpLib, HttpLib, Float}
use gatepup.Upstream.{UpstreamRuntime, observe_target}
use gatepup.Upstream.Shared.Sound.{Shape, observe_target-Shape}
use gatepup.Router.Rewrite.{rewritten_path_and_query}
use gatepup.Proxy.Admission.{Request, Admitted}
use gatepup.Proxy.Attempts.{Sent}
use gatepup.Proxy.Forward.{World, Context, Outcome, crash}
use gatepup.Proxy.Handle.{
  Tunnel, unreachable, no_handshake, no_reply, replied, Dialer, tunnelled, on_authority,
  header_of_upgrade,
}
use gatepup.Traffic.Heap.{Shape-refl, with_upstream}

module _ {F Headers Addr Net Tls : Type 0} (fl : Float F) (ip : IpLib Addr Net) where
  -- No crash, one upstream observed, one request sent at most, nothing counted but the upgrade, and
  -- the rate limiter as it was.
  pub record IsTunnelled (w : World fl ip Headers Tls) (a : Admitted F Net) (u : UpstreamRuntime)
      (r : Outcome Headers × World fl ip Headers Tls) : Type 0 where
    pub outcome : r.0 ≢ crash
    pub after : UpstreamRuntime
    pub shape : Shape u after
    pub snapshot : r.1.snapshot ≡ with_upstream w.snapshot a.route.upstream after
    pub log : (r.1.log ≡ w.log) ⊎ ((x : ℕ × Sent Headers) × (r.1.log ≡ w.log ++ x ∷ []))
    pub requests : r.1.metrics.requests ≡ w.metrics.requests
    pub durations : r.1.metrics.durations ≡ w.metrics.durations
    pub limiter : r.1.limiter ≡ w.limiter

  module _ (http : HttpLib Headers) (d : Dialer Headers) (w : World fl ip Headers Tls)
      (a : Admitted F Net) (u : UpstreamRuntime) (i : ℕ) where
    tunnelled-IsTunnelled :
        (t : Tunnel Headers) → IsTunnelled w a u (tunnelled fl ip http d w a u i t)
    tunnelled-IsTunnelled unreachable = record {
      outcome = λ q. ground arith;
      after = observe_target d.clock false i u;
      shape = observe_target-Shape d.clock false i u;
      snapshot = refl;
      log = inl refl;
      requests = refl;
      durations = refl;
      limiter = refl;
    }
    tunnelled-IsTunnelled no_handshake = record {
      outcome = λ q. ground arith;
      after = observe_target d.clock false i u;
      shape = observe_target-Shape d.clock false i u;
      snapshot = refl;
      log = inl refl;
      requests = refl;
      durations = refl;
      limiter = refl;
    }
    tunnelled-IsTunnelled no_reply = record {
      outcome = λ q. ground arith;
      after = observe_target d.clock false i u;
      shape = observe_target-Shape d.clock false i u;
      snapshot = refl;
      log = inr (_, refl);
      requests = refl;
      durations = refl;
      limiter = refl;
    }
    tunnelled-IsTunnelled (replied resp) = elim (Bool-cases (resp.status == 101)) [
      | inl e ↦ rw e (record {
        outcome = λ q. ground arith;
        after = observe_target d.clock true i u;
        shape = observe_target-Shape d.clock true i u;
        snapshot = refl;
        log = inr (_, refl);
        requests = refl;
        durations = refl;
        limiter = refl;
      })
      | inr e ↦ rw e (record {
        outcome = λ q. ground arith;
        after = observe_target d.clock (ltb resp.status 500) i u;
        shape = observe_target-Shape d.clock (ltb resp.status 500) i u;
        snapshot = refl;
        log = inr (_, refl);
        requests = refl;
        durations = refl;
        limiter = refl;
      })
    ]

    unsent :
        (o : Outcome Headers)
        → o ≢ crash
        → IsTunnelled w a u (o, record w { snapshot = with_upstream w.snapshot a.route.upstream u })
    unsent o n = record {
      outcome = n;
      after = u;
      shape = Shape-refl u;
      snapshot = refl;
      log = inl refl;
      requests = refl;
      durations = refl;
      limiter = refl;
    }

    pub on_authority-IsTunnelled :
        (c : Context Headers Addr) (req : Request Headers Addr) (o : Option (Text × ℕ))
        → IsTunnelled w a u (on_authority fl ip http d c req w a u i o)
    on_authority-IsTunnelled c req none = unsent _ (λ q. ground arith)
    on_authority-IsTunnelled c req (some t) =
        let pq = rewritten_path_and_query a.route req.path_and_query in
        let m = header_of_upgrade fl ip http d c req t in
        elim (Bool-cases (d.buildable pq m)) [
          | inl e ↦ rw e (tunnelled-IsTunnelled (d.dial t pq m))
          | inr e ↦ rw e (unsent _ (λ q. ground arith))
        ]
