-- ===== src/Traffic/Invariant.antt =====
-- What holds of every state that the requests, the probes and the reloads reach.
use gatepup.Prelude.{
  ℕ, suc, ◌+◌, ◌≡◌, ◌≢◌, ◌⊎◌, inl, inr, refl, some, List, [], ◌∷◌, ◌++◌, length, get_elem?, set,
  Bool-cases, not, table_get, All, All-split, All-join, All-mapped, length-join, Text, arith,
}
use gatepup.Interfaces.{IpLib, HttpLib, Float}
use gatepup.Config.Model.{TlsConfig}
use gatepup.Metrics.{Metrics}
use gatepup.Proxy.Errors.{is_client_error}
use gatepup.RateLimiter.{RateLimiter}
use gatepup.Upstream.{UpstreamRuntime, observe_target}
use gatepup.Upstream.Shared.Sound.{Shape, Shape-Bounded, observe_target-Shape}
use gatepup.Snapshot.{RuntimeConfig}
use gatepup.Proxy.Forward.{Outcome, err, ok, crash}
use gatepup.Proxy.Handle.{count_outcome, is_route_not_found}
use gatepup.Service.Valid.{AllValid, build_reload_snapshot-AllValid}
use gatepup.Traffic.{
  Stage, arrived, picking, counted, waiting, refused, ended, Call, Flight, Shared, write, act,
}
use gatepup.Traffic.Heap.{
  KeptAll, KeptAll-append, with_upstream, with_upstream-Kept, with_upstream-IsSound, set-KeptAll,
  IsSound, Sounds, set-Sounds, append-Sounds, get_elem?-last,
}
use gatepup.Traffic.Flights.{StageOk, StageOk-Kept}
use gatepup.Traffic.Acts.{IsAct}
use gatepup.Traffic.Acts.Steps.{stage_act-IsAct}
use gatepup.Traffic.Run.{
  System, started, outcome_of, Step, arrives, acts, answers, leaves, probes, reloads, Reach, here,
  next,
}

module _ {Headers : Type 0} where
  counted_one :
      (o : Outcome Headers) (m : Metrics)
      → o ≢ crash
      → ((count_outcome o m).requests ≡ m.requests)
        × ((count_outcome o m).durations ≡ m.durations + 1)
  counted_one (ok x) m n = (refl, refl)
  counted_one (err e) m n = elim (Bool-cases (is_route_not_found e)) [
    | inl p ↦ rw p (refl, refl)
    | inr p ↦ elim (Bool-cases (not (is_client_error e))) [
      | inl q ↦ rw (p, q) (refl, refl)
      | inr q ↦ rw (p, q) (refl, refl)
    ]
  ]
  counted_one crash m n = absurd (n refl)

module _ {F Headers Addr Net Tls : Type 0} (fl : Float F) (ip : IpLib Addr Net)
    (http : HttpLib Headers) where
  -- The snapshot that a request holds is in the heap, and the request is sound in it.
  abbrev pub FlightOk : List (RuntimeConfig F Net Tls) → Flight F Headers Addr Net → Type 0
  FlightOk heap f =
      (a : RuntimeConfig F Net Tls) × (get_elem? heap f.call.snapshot ≡ some a)
      × StageOk fl ip http f.call a f.stage

  FlightOk-Kept :
      (h k : List (RuntimeConfig F Net Tls))
      → KeptAll h k
      → (f : Flight F Headers Addr Net) → FlightOk h f
      → FlightOk k f
  FlightOk-Kept h k s f (a, e, o) =
      let (b, d, q) = s f.call.snapshot a e in
      (b, d, StageOk-Kept fl ip http f.call a b f.stage q o)

  -- Every request in flight is sound; and each request that came is in flight, answered or cancelled.
  pub record IsRunning (w : System fl ip Headers Tls) : Type 0 where
    pub sound : Sounds w.shared.heap
    pub loaded : (a : RuntimeConfig F Net Tls) × (get_elem? w.shared.heap w.current ≡ some a)
    pub flights : All (FlightOk w.shared.heap) w.flights
    pub counted :
        w.shared.metrics.requests ≡ length w.flights + (w.shared.metrics.durations + w.cancelled)

  AllValid-IsSound : (s : RuntimeConfig F Net Tls) → AllValid s.upstreams → IsSound s
  AllValid-IsSound s v name u e = (v name u e).bounded

  pub started-IsRunning :
      (s : RuntimeConfig F Net Tls) (limiter : RateLimiter fl ip.same)
      → AllValid s.upstreams
      → IsRunning (started fl ip s limiter)
  started-IsRunning s limiter v = record {
    sound = append-Sounds [] s (λ g a e. absurd (ground arith)) (AllValid-IsSound s v);
    loaded = (s, refl);
    flights = tt;
    counted = refl;
  }

  act-IsAct :
      (f : Flight F Headers Addr Net) (s : Shared fl ip Tls)
      → Sounds s.heap
      → FlightOk s.heap f
      → IsAct fl ip http f.call s (act fl ip http f.call s f.stage)
  unfolding act
  act-IsAct f s h (a, e, o) = rw e (stage_act-IsAct fl ip http f.call s a e h f.stage o)

  outcome-ne-crash :
      (f : Call Headers Addr) (a : RuntimeConfig F Net Tls) (st : Stage F Headers Net)
      (o : Outcome Headers)
      → StageOk fl ip http f a st
      → outcome_of st ≡ some o
      → o ≢ crash
  outcome-ne-crash f a (refused e) o h q = λ c. ground arith
  outcome-ne-crash f a (ended x go) o (n, m, h) q = λ c. n (ground arith)
  outcome-ne-crash f a arrived o h q = absurd (ground arith)
  outcome-ne-crash f a (picking k go) o h q = absurd (ground arith)
  outcome-ne-crash f a (counted n k go) o h q = absurd (ground arith)
  outcome-ne-crash f a (waiting i t b go) o h q = absurd (ground arith)

  module _ (w : System fl ip Headers Tls) (h : IsRunning w) where
    -- The heap of a step grows, and all requests go on in it.
    moved :
        (heap : List (RuntimeConfig F Net Tls)) (fs : List (Flight F Headers Addr Net))
        → KeptAll w.shared.heap heap
        → All (FlightOk w.shared.heap) fs
        → All (FlightOk heap) fs
    moved heap fs k a =
        All-mapped (FlightOk w.shared.heap) (FlightOk heap) fs (FlightOk-Kept w.shared.heap heap k)
          a

    at_current :
        (heap : List (RuntimeConfig F Net Tls))
        → KeptAll w.shared.heap heap
        → (a : RuntimeConfig F Net Tls) × (get_elem? heap w.current ≡ some a)
    at_current heap k = let (a, e) = h.loaded in let (b, d, q) = k w.current a e in (b, d)

    module _ (before after : List (Flight F Headers Addr Net)) (f : Flight F Headers Addr Net)
        (e : w.flights ≡ before ++ f ∷ after) where
      parted : FlightOk w.shared.heap f × All (FlightOk w.shared.heap) (before ++ after)
      parted = All-split (FlightOk w.shared.heap) before after f (rw e at h.flights)

      total :
          w.shared.metrics.requests
          ≡ suc (length (before ++ after)) + (w.shared.metrics.durations + w.cancelled)
      total =
          let c = h.counted in
          let l = length-join before after f in
          let m : length w.flights ≡ suc (length (before ++ after)) = rw e l in omega arith

      acts-IsRunning : IsRunning (record w {
        shared = (act fl ip http f.call w.shared f.stage).1;
        flights = before ++ record f { stage = (act fl ip http f.call w.shared f.stage).0 } ∷ after;
      })
      acts-IsRunning =
          let (fine, rest) = parted in
          let r = act fl ip http f.call w.shared f.stage in
          let a = act-IsAct f w.shared h.sound fine in
          record {
            sound = a.sound;
            loaded = at_current r.1.heap a.heap;
            flights =
                All-join (FlightOk r.1.heap) before after (record f { stage = r.0 }) a.stage
                  (moved r.1.heap (before ++ after) a.heap rest);
            counted =
                rw (length-join before after (record f { stage = r.0 }), a.requests, a.durations)
                  total;
          }

      answers-IsRunning :
          (o : Outcome Headers)
          → outcome_of f.stage ≡ some o
          → IsRunning (record w {
            shared = record w.shared { metrics = count_outcome o w.shared.metrics };
            flights = before ++ after;
          })
      answers-IsRunning o q =
          let ((a, d, fine), rest) = parted in
          let (r, t) =
            counted_one o w.shared.metrics (outcome-ne-crash f.call a f.stage o fine q) in
          let n = total in
          record {
            sound = h.sound;
            loaded = h.loaded;
            flights = rest;
            counted = rw (r, t) (omega arith);
          }

      leaves-IsRunning :
          IsRunning (record w { flights = before ++ after; cancelled = w.cancelled + 1 })
      leaves-IsRunning =
          let n = total in
          record { sound = h.sound; loaded = h.loaded; flights = parted.1; counted = omega arith }

    probes-IsRunning :
        (g : ℕ) (snap : RuntimeConfig F Net Tls) (name : Text) (u v : UpstreamRuntime)
        → get_elem? w.shared.heap g ≡ some snap
        → table_get name snap.upstreams ≡ some u
        → Shape u v
        → IsRunning (record w { shared = write fl ip g name v w.shared })
    probes-IsRunning g snap name u v e d s =
        let x = with_upstream snap name v in
        let k = set-KeptAll w.shared.heap g snap x e (with_upstream-Kept snap name u v d s) in
        rw e (record {
          sound = set-Sounds w.shared.heap g x h.sound (
              with_upstream-IsSound snap name v (h.sound g snap e)
                (Shape-Bounded u v s (h.sound g snap e name u d)));
          loaded = at_current (set w.shared.heap g x) k;
          flights = moved (set w.shared.heap g x) w.flights k h.flights;
          counted = h.counted;
        })

    reloads-IsRunning :
        (s : RuntimeConfig F Net Tls)
        → AllValid s.upstreams
        → IsRunning (record w {
          shared = record w.shared { heap = w.shared.heap ++ s ∷ [] };
          current = length w.shared.heap;
        })
    reloads-IsRunning s v = record {
      sound = append-Sounds w.shared.heap s h.sound (AllValid-IsSound s v);
      loaded = (s, get_elem?-last w.shared.heap s);
      flights =
          moved (w.shared.heap ++ s ∷ []) w.flights (KeptAll-append w.shared.heap (s ∷ []))
            h.flights;
      counted = h.counted;
    }

  module _ (acceptor : TlsConfig → Text ⊎ Tls) where
    Step-IsRunning :
        {w v : System fl ip Headers Tls} → Step fl ip http acceptor w v → IsRunning w → IsRunning v
    Step-IsRunning {w} (arrives d c generated req body snap e) h = record {
      sound = h.sound;
      loaded = h.loaded;
      flights = ((snap, e, tt), h.flights);
      counted = omega (arith, h.counted);
    }
    Step-IsRunning {w} (acts before after f e) h = acts-IsRunning w h before after f e
    Step-IsRunning {w} (answers before after f o e q) h = answers-IsRunning w h before after f e o q
    Step-IsRunning {w} (leaves before after f e) h = leaves-IsRunning w h before after f e
    Step-IsRunning {w} (probes g snap name u now i good e d) h =
        probes-IsRunning w h g snap name u (observe_target now good i u) e d
          (observe_target-Shape now good i u)
    Step-IsRunning {w} (reloads config s b e) h =
        reloads-IsRunning w h s (build_reload_snapshot-AllValid fl ip http acceptor config s b e)

    pub Reach-IsRunning :
        {w v : System fl ip Headers Tls} → IsRunning w → Reach fl ip http acceptor w v → IsRunning v
    Reach-IsRunning h here = h
    Reach-IsRunning h (next r s) = Step-IsRunning s (Reach-IsRunning h r)
