-- ===== src/Traffic/Acts.antt =====
-- One action of a request: what it does to the heap, to the counters and to the request itself.
pub mod Steps
use native.Mathlib.Nat.{mod-lt}
use gatepup.Prelude.{
  ℕ, zero, suc, ◌+◌, ◌%◌, ◌<◌, ◌≤◌, ◌≡◌, refl, true, false, Option, some, [], ◌∷◌, append_assoc,
  length, ◌==◌, get_elem?, set, table_get, table_get-insert, text_eq_self, if◌then◌else◌, Bool,
  Bool-cases, inl, inr, Text, arith,
}
use gatepup.Interfaces.{IpLib, HttpLib, Float}
use gatepup.Health.{is_healthy}
use gatepup.RateLimiter.{RateLimiter}
use gatepup.Metrics.{Metrics}
use gatepup.Upstream.{UpstreamRuntime, TargetRuntime, target_at, advance}
use gatepup.Upstream.Pick.{slot_target}
use gatepup.Upstream.Shared.Sound.{Shape, Shape-trans, Shape-Bounded, observe_target-Shape}
use gatepup.Snapshot.{RuntimeConfig}
use gatepup.Proxy.Errors.{no_healthy_upstream}
use gatepup.Proxy.Body.{Body}
use gatepup.Proxy.Admission.{admit}
use gatepup.Proxy.Attempts.{Next, done, again, send_to}
use gatepup.Proxy.Attempts.Retries.{Step, retried, send_to-Step}
use gatepup.Proxy.Attempts.Served.{GoesOn, send_to-GoesOn}
use gatepup.Proxy.Forward.{World, Outcome, err, network_of}
use gatepup.Proxy.Handle.{parse_authority}
use gatepup.Service.Forwarded.{finish-ne-crash}
use gatepup.Traffic.{
  Going, Stage, arrived, picking, counted, waiting, refused, ended, Call, Shared, loaded, state_of,
  going_of, attempts, entered, settled_on, forwarded_on, tunnelled_on, world_of, act_on,
  upstream_of, stage_act,
}
use gatepup.Traffic.Heap.{
  Shape-refl, Kept, KeptAll, KeptAll-refl, with_upstream, with_upstream-Kept, with_upstream-IsSound,
  set-KeptAll, Sounds, set-Sounds, get_elem?-set_same,
}
use gatepup.Traffic.Tunnels.{IsTunnelled, on_authority-IsTunnelled}
use gatepup.Traffic.Flights.{
  Entered-Kept, Along-Finished, IsGoing, StageOk, StageOk-Kept, begin-StageOk, entered-StageOk,
}

module _ {F Headers Addr Net : Type 0} (fl : Float F) (ip : IpLib Addr Net) (http : HttpLib Headers)
    (f : Call Headers Addr) (go : Going F Headers Net) (u : UpstreamRuntime) (retries : ℕ) where
  -- The answer of an attempt to a target that exists keeps the upstream's shape.
  pub answer-GoesOn :
      (i : ℕ) (t : TargetRuntime) (b : Option Body)
      → GoesOn (Shape u) (
          send_to
            (network_of fl ip http f.context f.request go.admitted)
            go.admitted.upstream.retry
            go.attempt
            (go.attempt + 1 == attempts fl ip http f go.admitted)
            i
            (state_of fl ip http f go u retries)
            (some t)
            b)
  answer-GoesOn i t b =
      send_to-GoesOn (network_of fl ip http f.context f.request go.admitted)
        go.admitted.upstream.retry (Shape u)
        (λ now ok j v p. Shape-trans u v _ p (observe_target-Shape now ok j v)) go.attempt i
        (go.attempt + 1 == attempts fl ip http f go.admitted) (state_of fl ip http f go u retries) t
        b (Shape-refl u)

module _ {F Headers Addr Net Tls : Type 0} (fl : Float F) (ip : IpLib Addr Net)
    (http : HttpLib Headers) (f : Call Headers Addr) (s : Shared fl ip Tls) where
  -- What an action keeps: the routes of the heap, its soundness, and what was counted of requests.
  pub record IsAct (r : Stage F Headers Net × Shared fl ip Tls) : Type 0 where
    pub heap : KeptAll s.heap r.1.heap
    pub sound : Sounds r.1.heap
    pub stage :
        (a : RuntimeConfig F Net Tls) × (get_elem? r.1.heap f.snapshot ≡ some a)
        × StageOk fl ip http f a r.0
    pub requests : r.1.metrics.requests ≡ s.metrics.requests
    pub durations : r.1.metrics.durations ≡ s.metrics.durations

  module _ (snap : RuntimeConfig F Net Tls) (e : get_elem? s.heap f.snapshot ≡ some snap)
      (sound : Sounds s.heap) where
    pub idle-IsAct :
        (st : Stage F Headers Net) (limiter : RateLimiter fl ip.same)
        → StageOk fl ip http f snap st
        → IsAct (st, record s { limiter = limiter })
    idle-IsAct st limiter h = record {
      heap = KeptAll-refl s.heap;
      sound = sound;
      stage = (snap, e, h);
      requests = refl;
      durations = refl;
    }

    module _ (name : Text) (u v : UpstreamRuntime) (d : table_get name snap.upstreams ≡ some u)
        (shape : Shape u v) where
      pub kept : Kept snap (with_upstream snap name v)
      kept = with_upstream-Kept snap name u v d shape

      pub written-IsAct :
          (m : Metrics) (st : Stage F Headers Net)
          → StageOk fl ip http f (with_upstream snap name v) st
          → m.requests ≡ s.metrics.requests
          → m.durations ≡ s.metrics.durations
          → IsAct (
            st,
            record s { heap = set s.heap f.snapshot (with_upstream snap name v); metrics = m },
          )
      written-IsAct m st h r q = record {
        heap = set-KeptAll s.heap f.snapshot snap (with_upstream snap name v) e kept;
        sound = set-Sounds s.heap f.snapshot (with_upstream snap name v) sound (
            with_upstream-IsSound snap name v (sound f.snapshot snap e)
              (Shape-Bounded u v shape (sound f.snapshot snap e name u d)));
        stage = (with_upstream snap name v, get_elem?-set_same s.heap f.snapshot _ e, h);
        requests = r;
        durations = q;
      }

    target-IsAct :
        (n k : ℕ) (go : Going F Headers Net) (u : UpstreamRuntime) (i : ℕ) (t : TargetRuntime)
        → table_get go.admitted.route.upstream snap.upstreams ≡ some u
        → target_at u i ≡ some t
        → IsGoing fl ip http f snap (suc k) go
        → suc k ≤ length u.schedule
        → IsAct (loaded fl ip http f n k go u (some i), s)
    target-IsAct n k go u i t d y h l =
        rw (y, loaded)
          (elim (Bool-cases (is_healthy t.state)) [
            | inl q ↦ rw q (
                idle-IsAct _ s.limiter (record {
                  site = (u, d, omega arith);
                  entered = h.entered;
                  along = record {
                    total = h.along.total;
                    continues = h.along.continues;
                    quiet = h.along.quiet;
                  };
                }))
            | inr q ↦ rw q (
                idle-IsAct _ s.limiter
                  (record { site = (u, d, omega arith); entered = h.entered; along = h.along }))
          ])

    pub loaded-IsAct :
        (n k : ℕ) (go : Going F Headers Net) (u : UpstreamRuntime)
        → table_get go.admitted.route.upstream snap.upstreams ≡ some u
        → IsGoing fl ip http f snap (suc k) go
        → suc k ≤ length u.schedule
        → IsAct (loaded fl ip http f n k go u (get_elem? u.schedule (n % length u.schedule)), s)
    loaded-IsAct n k go u d h l =
        let p : 0 < length u.schedule = omega arith in
        let (i, t, x, y, _) =
          slot_target u (sound f.snapshot snap e go.admitted.route.upstream u d)
            (n % length u.schedule) (mod-lt n p) in
        rw x (target-IsAct n k go u i t d y h l)
