-- ===== src/Traffic/Alone/Whole.antt =====
-- What one request finds and leaves, when nothing interrupts it.
use gatepup.Prelude.{ℕ, ◌≡◌, ◌⊎◌, refl, sym, ap, some, List, [], get_elem?, set}
use gatepup.Interfaces.{IpLib, HttpLib, Float}
use gatepup.Snapshot.{RuntimeConfig}
use gatepup.Proxy.Errors.{GatewayError}
use gatepup.Proxy.Admission.{Admitted}
use gatepup.Proxy.Attempts.{Sent}
use gatepup.RateLimiter.{RateLimiter}
use gatepup.Proxy.Forward.{err, decide, World, Outcome}
use gatepup.Traffic.{Stage, refused, ended, Call, Shared}
use gatepup.Traffic.Heap.{set_same}
use gatepup.Traffic.Run.{outcome_of}
use gatepup.Traffic.Ends.{act_among}
use gatepup.Traffic.Alone.{Leads}

abbrev pub sent_of : {F Headers Net : Type 0} → Stage F Headers Net → List (ℕ × Sent Headers)
sent_of (ended o go) = go.sent
sent_of st = []

module _ {F Headers Addr Net Tls : Type 0} (fl : Float F) (ip : IpLib Addr Net)
    (http : HttpLib Headers) (f : Call Headers Addr) (s : Shared fl ip Tls) where
  -- The world that `forward` finds, and what is shared after it.
  abbrev pub world_at : RuntimeConfig F Net Tls → World fl ip Headers Tls
  world_at snap = record { snapshot = snap; limiter = s.limiter; metrics = s.metrics; log = [] }

  abbrev pub after : World fl ip Headers Tls → Shared fl ip Tls
  after w = record {
    heap = set s.heap f.snapshot w.snapshot;
    limiter = w.limiter;
    metrics = w.metrics;
  }

  -- From the pair, the actions lead to the outcome and the world.
  abbrev pub LeadsTo :
      Stage F Headers Net × Shared fl ip Tls → Outcome Headers × World fl ip Headers Tls → Type 0
  LeadsTo x r =
      (st : Stage F Headers Net) × (outcome_of st ≡ some r.0)
      × (sent_of st ≡ r.1.log)
      × Leads fl ip http f x (st, after r.1)

  -- The world behind the admission.
  module _ (snap : RuntimeConfig F Net Tls) where
    abbrev pub decision : (GatewayError ⊎ Admitted F Net) × RateLimiter fl ip.same
    decision = decide fl ip http f.context f.request (world_at snap)

    abbrev pub admitted : Shared fl ip Tls
    admitted = record s { limiter = decision.1 }

    abbrev pub admitted_world : World fl ip Headers Tls
    admitted_world = record (world_at snap) { limiter = decision.1 }

    pub refuses :
        (e : GatewayError)
        → get_elem? s.heap f.snapshot ≡ some snap
        → LeadsTo (refused e, admitted) (err e, admitted_world)
    unfolding act_among
    refuses e here = (
      refused e,
      refl,
      refl,
      (
        0,
        ap (λ h. (refused e, record admitted { heap = h }))
            (sym (set_same s.heap f.snapshot snap here)),
      ),
    )
