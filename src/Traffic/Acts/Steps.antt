-- ===== src/Traffic/Acts/Steps.antt =====
-- Each stage of a request, and its action.
use gatepup.Prelude.{
  ℕ, zero, suc, ◌+◌, ◌≡◌, refl, true, false, Option, some, [], ◌∷◌, append_assoc, ◌==◌, get_elem?,
  set, table_get, table_get-insert, text_eq_self, if◌then◌else◌, Bool, inl, inr, arith,
}
use gatepup.Interfaces.{IpLib, HttpLib, Float}
use gatepup.Upstream.{UpstreamRuntime, TargetRuntime, advance}
use gatepup.Upstream.Shared.Sound.{Shape}
use gatepup.Snapshot.{RuntimeConfig}
use gatepup.Proxy.Errors.{no_healthy_upstream}
use gatepup.Proxy.Body.{Body}
use gatepup.Proxy.Admission.{admit}
use gatepup.Proxy.Attempts.{Next, done, again}
use gatepup.Proxy.Attempts.Retries.{Step, retried, send_to-Step}
use gatepup.Proxy.Attempts.Served.{GoesOn}
use gatepup.Proxy.Forward.{World, Outcome, err, network_of}
use gatepup.Proxy.Handle.{parse_authority}
use gatepup.Service.Forwarded.{finish-ne-crash}
use gatepup.Traffic.{
  Going, Stage, arrived, picking, counted, waiting, refused, ended, Call, Shared, state_of,
  going_of, attempts, entered, settled_on, forwarded_on, tunnelled_on, world_of, act_on,
  upstream_of, stage_act,
}
use gatepup.Traffic.Heap.{with_upstream, with_upstream-Kept, Sounds}
use gatepup.Traffic.Tunnels.{IsTunnelled, on_authority-IsTunnelled}
use gatepup.Traffic.Flights.{
  Entered-Kept, Along-Finished, IsGoing, StageOk, StageOk-Kept, begin-StageOk, entered-StageOk,
}
use gatepup.Traffic.Acts.{answer-GoesOn, IsAct, idle-IsAct, kept, written-IsAct, loaded-IsAct}

module _ {F Headers Addr Net Tls : Type 0} (fl : Float F) (ip : IpLib Addr Net)
    (http : HttpLib Headers) (f : Call Headers Addr) (s : Shared fl ip Tls)
    (snap : RuntimeConfig F Net Tls) (e : get_elem? s.heap f.snapshot ≡ some snap)
    (sound : Sounds s.heap) where
  module _ (go : Going F Headers Net) (u : UpstreamRuntime)
      (d : table_get go.admitted.route.upstream snap.upstreams ≡ some u)
      (h : IsGoing fl ip http f snap 0 go) where
    settled-IsAct :
        (r : Next Headers)
        → f.upgrade ≡ false
        → Step go.admitted.upstream.retry go.left
            (state_of fl ip http f go u s.metrics.upstream_retries)
            r
        → GoesOn (Shape u) r
        → IsAct fl ip http f s (settled_on fl ip http f snap go s r)
    unfolding Step
    settled-IsAct (done a t) b run (n, shape) = rw e (
        written-IsAct fl ip http f s snap e sound go.admitted.route.upstream u t.upstream d shape _
          _
          (
            finish-ne-crash fl ip http f.context snap.compression _ go.admitted a n,
            Entered-Kept fl ip http f snap _ go.admitted
                (kept fl ip http f s snap e sound go.admitted.route.upstream u t.upstream d shape)
                h.entered,
            record {
              of_forward = λ q. (a, refl, rw run.extends (h.along.continues run.sent a run.run));
              of_upgrade = λ q. absurd (ground arith);
            },
          )
          refl refl)
    settled-IsAct (again t) b (i, o, l, y, c) shape =
        let v = with_upstream snap go.admitted.route.upstream t.upstream in
        rw e (
          written-IsAct fl ip http f s snap e sound go.admitted.route.upstream u t.upstream d shape
            _ _
            (begin-StageOk fl ip http f v go.left (go.attempt + 1) (going_of fl ip http f go t)
              t.upstream
              (rw
                (
                  table_get-insert go.admitted.route.upstream go.admitted.route.upstream t.upstream
                      snap.upstreams,
                  text_eq_self go.admitted.route.upstream,
                )
                refl)
              (Entered-Kept fl ip http f snap _ go.admitted
                (kept fl ip http f s snap e sound go.admitted.route.upstream u t.upstream d shape)
                h.entered)
              (record {
                total = omega (arith, h.along.total);
                continues = λ rest a r.
                    rw (l, append_assoc go.sent ((i, o) ∷ []) rest)
                      (h.along.continues ((i, o) ∷ rest) a (retried i o y r));
                quiet = λ q. absurd (ground arith);
              }))
            refl refl)

    forwarded-IsAct :
        (i : ℕ) (t : TargetRuntime) (b : Option Body)
        → f.upgrade ≡ false
        → IsAct fl ip http f s (forwarded_on fl ip http f snap i t b go u s)
    forwarded-IsAct i t b q =
        let total = h.along.total in
        settled-IsAct _ q
          (send_to-Step go.admitted.upstream.retry
            (network_of fl ip http f.context f.request go.admitted) go.left go.attempt i
            (go.attempt + 1 == attempts fl ip http f go.admitted)
            (state_of fl ip http f go u s.metrics.upstream_retries) (some t) b (λ x. ground arith))
          (answer-GoesOn fl ip http f go u s.metrics.upstream_retries i t b)

    ended_tunnel-IsAct :
        (r : Outcome Headers × World fl ip Headers Tls)
        → f.upgrade ≡ true
        → IsTunnelled fl ip (world_of fl ip http f snap go s) go.admitted u r
        → IsAct fl ip http f s (
          ended r.0 (record go { sent = r.1.log }),
          record s { heap = set s.heap f.snapshot r.1.snapshot; metrics = r.1.metrics },
        )
    ended_tunnel-IsAct r q p =
        let k = kept fl ip http f s snap e sound go.admitted.route.upstream u p.after d p.shape in
        rw p.snapshot (
          written-IsAct fl ip http f s snap e sound go.admitted.route.upstream u p.after d p.shape
            r.1.metrics _
            (
              p.outcome,
              Entered-Kept fl ip http f snap _ go.admitted k h.entered,
              record {
                of_forward = λ x. absurd (ground arith);
                of_upgrade = λ x. elim p.log [
                  | inl y ↦ rw (y, h.along.quiet q) (omega arith)
                  | inr (z, y) ↦ rw (y, h.along.quiet q) (omega arith)
                ];
              },
            )
            p.requests p.durations)

    tunnelled-IsAct :
        (i : ℕ) (t : TargetRuntime)
        → f.upgrade ≡ true
        → IsAct fl ip http f s (tunnelled_on fl ip http f snap i t go u s)
    tunnelled-IsAct i t q = ended_tunnel-IsAct _ q (
        on_authority-IsTunnelled fl ip http f.dialer (world_of fl ip http f snap go s) go.admitted u
          i f.context f.request (parse_authority f.dialer t.url))

    waiting-IsAct :
        (i : ℕ) (t : TargetRuntime) (b : Option Body) (upgrade : Bool)
        → f.upgrade ≡ upgrade
        → IsAct fl ip http f s (
            if upgrade
            then tunnelled_on fl ip http f snap i t go u s
            else forwarded_on fl ip http f snap i t b go u s)
    waiting-IsAct i t b true q = tunnelled-IsAct i t q
    waiting-IsAct i t b false q = forwarded-IsAct i t b q

  pub act_on-IsAct :
      (st : Stage F Headers Net)
      → StageOk fl ip http f snap st
      → IsAct fl ip http f s (act_on fl ip http f snap s st (upstream_of fl ip http f snap st))
  act_on-IsAct arrived h = idle-IsAct fl ip http f s snap e sound arrived s.limiter h
  act_on-IsAct (refused x) h = idle-IsAct fl ip http f s snap e sound (refused x) s.limiter h
  act_on-IsAct (ended o go) h = idle-IsAct fl ip http f s snap e sound (ended o go) s.limiter h
  act_on-IsAct (picking zero go) h =
      let (u, d, l) = h.site in
      rw d (
        idle-IsAct fl ip http f s snap e sound (ended (err no_healthy_upstream) go) s.limiter (
          (λ q. ground arith),
          h.entered,
          Along-Finished fl ip http f snap.compression (suc go.left) go.attempt go
              no_healthy_upstream h.along,
        ))
  act_on-IsAct (picking (suc k) go) h =
      let (u, d, l) = h.site in
      let shape : Shape u (advance u) = record { schedule = refl; targets = refl } in
      let w = with_upstream-Kept snap go.admitted.route.upstream u (advance u) d shape in
      rw (d, e)
        (written-IsAct fl ip http f s snap e sound go.admitted.route.upstream u (advance u) d shape
          s.metrics (counted u.next k go)
          (StageOk-Kept fl ip http f snap _ (counted u.next k go) w h) refl refl)
  act_on-IsAct (counted n k go) h =
      let (u, d, l) = h.site in rw d (loaded-IsAct fl ip http f s snap e sound n k go u d h l)
  act_on-IsAct (waiting i t b go) h =
      let (u, d, l) = h.site in rw d (waiting-IsAct go u d h i t b f.upgrade refl)

  pub stage_act-IsAct :
      (st : Stage F Headers Net)
      → StageOk fl ip http f snap st
      → IsAct fl ip http f s (stage_act fl ip http f s st (some snap))
  stage_act-IsAct arrived h =
      let v =
        admit fl ip http f.context.decode f.context.hash snap f.context.listener_name f.request
          s.limiter in
      idle-IsAct fl ip http f s snap e sound (entered fl ip http f snap v.0) v.1
        (entered-StageOk fl ip http f snap s.limiter v.0 refl)
  stage_act-IsAct (refused x) h = act_on-IsAct (refused x) h
  stage_act-IsAct (ended o go) h = act_on-IsAct (ended o go) h
  stage_act-IsAct (picking k go) h = act_on-IsAct (picking k go) h
  stage_act-IsAct (counted n k go) h = act_on-IsAct (counted n k go) h
  stage_act-IsAct (waiting i t b go) h = act_on-IsAct (waiting i t b go) h
