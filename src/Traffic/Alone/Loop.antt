-- ===== src/Traffic/Alone/Loop.antt =====
-- The attempts of one request in single actions are `attempts_loop`.
use mathlib.Core.Path.{subst}
use gatepup.Prelude.{
  ℕ, zero, suc, ◌+◌, ◌≡◌, refl, sym, ap, ◌∙◌, false, Option, none, some, ◌==◌, length, get_elem?,
  if◌then◌else◌,
}
use gatepup.Interfaces.{IpLib, HttpLib, Float}
use gatepup.Upstream.{UpstreamRuntime, TargetRuntime, Picked, target, no_target, panic, pick_loop}
use gatepup.Snapshot.{RuntimeConfig}
use gatepup.Proxy.Body.{Body, next}
use gatepup.Proxy.Attempts.{
  Answer, State, Next, done, again, send_to, on_pick, once_through, go_on, attempts_loop,
}
use gatepup.Proxy.Forward.{crash, network_of, max_attempts, finish}
use gatepup.Traffic.{
  Going, Stage, waiting, ended, Call, Shared, begin, attempts, state_of, going_of, settled_on,
  forwarded_on, tunnelled_on, accept_encoding,
}
use gatepup.Traffic.Heap.{with_upstream}
use gatepup.Traffic.Alone.{Leads, stays, acts_first, at, write-at, acts_at}
use gatepup.Traffic.Alone.Picks.{
  stage_of, picks, IsFound, pick_loop-IsFound, pick_target-eq-pick_loop,
}

module _ {F Headers Addr Net Tls : Type 0} (fl : Float F) (ip : IpLib Addr Net)
    (http : HttpLib Headers) (f : Call Headers Addr) (s : Shared fl ip Tls)
    (snap : RuntimeConfig F Net Tls) (here : get_elem? s.heap f.snapshot ≡ some snap)
    (plain : f.upgrade ≡ false) where
  -- The request ends with the answer, having sent what the log says.
  abbrev pub EndsWith :
      Going F Headers Net
      → Answer Headers × State Headers
      → Stage F Headers Net × Shared fl ip Tls
      → Type 0
  EndsWith go r x =
      (g : Going F Headers Net) × (g.sent ≡ r.1.log)
      × Leads fl ip http f x (
        ended
            (finish fl ip http f.context snap.compression (accept_encoding fl ip http f) go.admitted
              r.0)
            g,
        at fl ip f s snap go.admitted.route.upstream r.1.upstream r.1.retries,
      )

  module _ (go : Going F Headers Net) (rest : State Headers → Answer Headers × State Headers)
      (goes_on : (t : State Headers)
        → EndsWith go (rest t) (
          begin fl ip http f go.left (go.attempt + 1) (going_of fl ip http f go t) t.upstream,
          at fl ip f s snap go.admitted.route.upstream t.upstream t.retries,
        )) where
    settles :
        (n : Next Headers) (u : UpstreamRuntime) (r : ℕ)
        → let name = go.admitted.route.upstream in
          EndsWith go
            (go_on
              (network_of fl ip http f.context f.request go.admitted)
              go.admitted.upstream.retry
              n
              rest)
            (settled_on fl ip http f (with_upstream snap name u) go (at fl ip f s snap name u r) n)
    settles (done a t) u r =
        rw (write-at fl ip http f s snap here go.admitted.route.upstream u t.upstream r t.retries)
          (going_of fl ip http f go t, refl, stays fl ip http f _)
    settles (again t) u r =
        rw (write-at fl ip http f s snap here go.admitted.route.upstream u t.upstream r t.retries)
          (goes_on t)

    answers_at :
        (i : ℕ) (t : TargetRuntime) (b : Option Body) (u : UpstreamRuntime) (r : ℕ)
        → let name = go.admitted.route.upstream in
          let n = max_attempts fl ip http f.context f.request go.admitted in
          let net = network_of fl ip http f.context f.request go.admitted in
          EndsWith go
            (go_on net go.admitted.upstream.retry
              (send_to net go.admitted.upstream.retry go.attempt
                (go.attempt + 1 == n)
                i
                (state_of fl ip http f go u r)
                (some t)
                b)
              rest)
            (waiting i t b go, at fl ip f s snap name u r)
    answers_at i t b u r =
        let name = go.admitted.route.upstream in
        let net = network_of fl ip http f.context f.request go.admitted in
        let n = max_attempts fl ip http f.context f.request go.admitted in
        let x = with_upstream snap name u in
        let y = at fl ip f s snap name u r in
        let sent = λ (m : ℕ).
          send_to net go.admitted.upstream.retry go.attempt (go.attempt + 1 == m) i
            (state_of fl ip http f go u r) (some t) b in
        let (g, l, h) = settles (sent n) u r in
        let tries : attempts fl ip http f go.admitted ≡ n = ap (λ c. if c then 1 else n) plain in
        (
          g,
          l,
          acts_first fl ip http f _ _ _
              (acts_at fl ip http f s snap here go u r (waiting i t b go) refl
                ∙ ap
                    (λ c.
                      if c
                      then tunnelled_on fl ip http f x i t go u y
                      else forwarded_on fl ip http f x i t b go u y)
                    plain
                ∙ ap (λ m. settled_on fl ip http f x go y (sent m)) tries)
              h,
        )

  module _ (go : Going F Headers Net) (rest : State Headers → Answer Headers × State Headers)
      (goes_on : (t : State Headers)
        → EndsWith go (rest t) (
          begin fl ip http f go.left (go.attempt + 1) (going_of fl ip http f go t) t.upstream,
          at fl ip f s snap go.admitted.route.upstream t.upstream t.retries,
        )) where
    picked :
        (p : Picked) (u : UpstreamRuntime) (r : ℕ)
        → IsFound (p, u)
        → let name = go.admitted.route.upstream in
          let n = max_attempts fl ip http f.context f.request go.admitted in
          let net = network_of fl ip http f.context f.request go.admitted in
          EndsWith go
            (go_on net go.admitted.upstream.retry
              (on_pick net go.admitted.upstream.retry go.attempt
                (go.attempt + 1 == n)
                (state_of fl ip http f go u r)
                p)
              rest)
            (stage_of fl ip http f s snap here go u p, at fl ip f s snap name u r)
    picked no_target u r h = (go, refl, stays fl ip http f _)
    picked panic u r h = (go, refl, stays fl ip http f _)
    picked (target i) u r h =
        let (t, e) = h i refl in
        let b = next go.body in
        let n = max_attempts fl ip http f.context f.request go.admitted in
        let net = network_of fl ip http f.context f.request go.admitted in
        subst
          (λ (o : Option TargetRuntime).
            EndsWith go
              (go_on net go.admitted.upstream.retry
                (send_to net go.admitted.upstream.retry go.attempt (go.attempt + 1 == n) i
                  (state_of fl ip http f (record go { body = b.1 }) u r) o b.0)
                rest)
              (
                elim o [
                  | none ↦ ended crash go
                  | some x ↦ waiting i x b.0 (record go { body = b.1 })
                ],
                at fl ip f s snap go.admitted.route.upstream u r,
              ))
          (sym e) (answers_at (record go { body = b.1 }) rest goes_on i t b.0 u r)

  -- With `left` attempts from this one on.
  pub loop :
      (left attempt : ℕ) (go : Going F Headers Net) (u : UpstreamRuntime) (r : ℕ)
      → let n = max_attempts fl ip http f.context f.request go.admitted in
        EndsWith go
          (attempts_loop
            (network_of fl ip http f.context f.request go.admitted)
            go.admitted.upstream.retry
            n
            left
            attempt
            (state_of fl ip http f go u r))
          (begin fl ip http f left attempt go u, at fl ip f s snap go.admitted.route.upstream u r)
  unfolding attempts_loop once_through
  loop zero attempt go u r = (go, refl, stays fl ip http f _)
  loop (suc left) attempt go u r =
      let n = max_attempts fl ip http f.context f.request go.admitted in
      let net = network_of fl ip http f.context f.request go.admitted in
      let go1 = record go { left = left; attempt = attempt } in
      let rest = attempts_loop net go.admitted.upstream.retry n left (attempt + 1) in
      let p = pick_loop (length u.schedule) u in
      let (g, l, h) =
        picked go1 rest
          (λ t. loop left (attempt + 1) (going_of fl ip http f go1 t) t.upstream t.retries) p.0 p.1
          r (pick_loop-IsFound (length u.schedule) u) in
      subst
        (λ (q : Picked × UpstreamRuntime).
          EndsWith go
            (go_on net go.admitted.upstream.retry
              (on_pick net go.admitted.upstream.retry attempt (attempt + 1 == n)
                (state_of fl ip http f go q.1 r) q.0)
              rest)
            (
              begin fl ip http f (suc left) attempt go u,
              at fl ip f s snap go.admitted.route.upstream u r,
            ))
        (sym (pick_target-eq-pick_loop u))
        (g, l, picks fl ip http f s snap here (length u.schedule) go1 u r _ h)
