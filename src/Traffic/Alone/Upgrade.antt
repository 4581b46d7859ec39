-- ===== src/Traffic/Alone/Upgrade.antt =====
-- An upgrade that nothing interrupts does what crates/gatepup-proxy/src/proxy.rs, `handle_upgrade`, does
-- in one.
use mathlib.Core.Path.{subst}
use gatepup.Prelude.{
  ℕ, ◌≡◌, ◌⊎◌, inl, inr, refl, sym, ap, ◌∙◌, true, not, ◌&&◌, Option, none, some, length, get_elem?,
  set, if◌then◌else◌,
}
use gatepup.Interfaces.{IpLib, HttpLib, Float}
use gatepup.Upstream.{UpstreamRuntime, TargetRuntime, Picked, target, no_target, panic, pick_loop}
use gatepup.Snapshot.{RuntimeConfig}
use gatepup.Proxy.Errors.{GatewayError, payload_too_large}
use gatepup.Proxy.Body.{body_exceeds_limit, next}
use gatepup.Proxy.Admission.{Admitted, admit-Decision}
use gatepup.Proxy.Forward.{World, Outcome, crash, max_attempts}
use gatepup.Proxy.Handle.{
  on_authority, on_pick, on_admitted, url_of, parse_authority, handle_upgrade,
}
use gatepup.Service.Forwarded.{upstream_of}
use gatepup.Traffic.{
  Going, Stage, arrived, picking, refused, waiting, ended, Call, Shared, act, stage_act, begin,
  going, entered, tunnelled_on, forwarded_on,
}
use gatepup.Traffic.Heap.{with_upstream, set_twice}
use gatepup.Traffic.Alone.Written.{on_authority-written}
use gatepup.Traffic.Tunnels.{on_authority-IsTunnelled}
use gatepup.Traffic.Alone.{Leads-from, stays, acts_first, at, at_start, acts_at}
use gatepup.Traffic.Alone.Picks.{
  stage_of, picks, IsFound, pick_loop-IsFound, pick_target-eq-pick_loop,
}
use gatepup.Traffic.Alone.Whole.{
  LeadsTo, after, decision, admitted, admitted_world, refuses, world_at,
}

module _ {F Headers Addr Net Tls : Type 0} (fl : Float F) (ip : IpLib Addr Net)
    (http : HttpLib Headers) (f : Call Headers Addr) (s : Shared fl ip Tls)
    (snap : RuntimeConfig F Net Tls) (here : get_elem? s.heap f.snapshot ≡ some snap)
    (rises : f.upgrade ≡ true) where
  module _ (a : Admitted F Net) where
    abbrev go0 : Going F Headers Net
    go0 = record (going fl ip http f snap a) { left = 0; attempt = 0 }

    -- What is shared from the admission to the tunnel.
    abbrev at_pick : UpstreamRuntime → Shared fl ip Tls
    at_pick u =
        at fl ip f (admitted fl ip http f s snap) snap a.route.upstream u s.metrics.upstream_retries

    -- The request has ended, and the snapshot is written back.
    abbrev left :
        Going F Headers Net
        → UpstreamRuntime
        → Outcome Headers × World fl ip Headers Tls
        → Stage F Headers Net × Shared fl ip Tls
    left go u q = (
      ended q.0 (record go { sent = q.1.log }),
      record (at_pick u) {
        heap = set (at_pick u).heap f.snapshot q.1.snapshot;
        metrics = q.1.metrics;
      },
    )

    shared :
        (go : Going F Headers Net) (u : UpstreamRuntime)
        (q : Outcome Headers × World fl ip Headers Tls)
        → q.1.limiter ≡ (admitted_world fl ip http f s snap).limiter
        → left go u q ≡ (ended q.0 (record go { sent = q.1.log }), after fl ip http f s q.1)
    shared go u q e =
        let x = with_upstream snap a.route.upstream u in
        λ j. (
          ended q.0 (record go { sent = q.1.log }),
          record {
            heap = set_twice s.heap f.snapshot x q.1.snapshot j;
            limiter = sym e j;
            metrics = q.1.metrics;
          },
        )

    dials :
        (i : ℕ) (t : TargetRuntime) (u : UpstreamRuntime)
        → let b = next go0.body in
          LeadsTo fl ip http f s
            (waiting i t b.0 (record go0 { body = b.1 }), at_pick u)
            (on_authority fl ip http f.dialer f.context f.request
              (admitted_world fl ip http f s snap)
              a
              u
              i
              (parse_authority f.dialer t.url))
    dials i t u =
        let b = next go0.body in
        let go = record go0 { body = b.1 } in
        let x = with_upstream snap a.route.upstream u in
        let w = admitted_world fl ip http f s snap in
        let o = parse_authority f.dialer t.url in
        let r = on_authority fl ip http f.dialer f.context f.request w a u i o in
        let p = on_authority-IsTunnelled fl ip http f.dialer w a u i f.context f.request o in
        (
          ended r.0 (record go { sent = r.1.log }),
          refl,
          refl,
          acts_first fl ip http f _ _ _
              (acts_at fl ip http f (admitted fl ip http f s snap) snap here go u
                  s.metrics.upstream_retries (waiting i t b.0 go) refl
                ∙ ap
                    (λ c.
                      if c
                      then tunnelled_on fl ip http f x i t go u (at_pick u)
                      else forwarded_on fl ip http f x i t b.0 go u (at_pick u))
                    rises
                ∙ ap (left go u)
                    (on_authority-written fl ip http f.dialer a u f.context f.request w u i o)
                ∙ shared go u r p.limiter)
              (stays fl ip http f _),
        )

    picked :
        (p : Picked) (u : UpstreamRuntime)
        → IsFound (p, u)
        → LeadsTo fl ip http f s
            (stage_of fl ip http f (admitted fl ip http f s snap) snap here go0 u p, at_pick u)
            (on_pick fl ip http f.dialer f.context f.request
              (admitted_world fl ip http f s snap)
              a
              u
              p)
    picked no_target u h = (_, refl, refl, stays fl ip http f _)
    picked panic u h = (_, refl, refl, stays fl ip http f _)
    picked (target i) u h =
        let (t, e) = h i refl in
        let b = next go0.body in
        subst
          (λ (o : Option TargetRuntime).
            LeadsTo fl ip http f s
              (
                elim o [
                  | none ↦ ended crash go0
                  | some x ↦ waiting i x b.0 (record go0 { body = b.1 })
                ],
                at_pick u,
              )
              (on_authority fl ip http f.dialer f.context f.request
                (admitted_world fl ip http f s snap) a u i (parse_authority f.dialer (url_of o))))
          (sym e) (dials i t u)

    begun :
        (decision fl ip http f s snap).0 ≡ inr a
        → LeadsTo fl ip http f s
            (
              begin fl ip http f 1 0 (going fl ip http f snap a) a.upstream,
              admitted fl ip http f s snap,
            )
            (on_admitted fl ip http f.dialer f.context f.request
              (admitted_world fl ip http f s snap)
              (inr a))
    begun q =
        let k = length a.upstream.schedule in
        let p = pick_loop k a.upstream in
        let u =
          upstream_of fl ip http f.context snap f.request a
            (admit-Decision fl ip http f.context.decode f.context.hash snap f.context.listener_name
              f.request s.limiter)
            q in
        let still =
          at_start fl ip http f (admitted fl ip http f s snap) snap here a.route.upstream a.upstream
            u in
        let (st, o, l, h) = picked p.0 p.1 (pick_loop-IsFound k a.upstream) in
        subst
          (λ (x : Picked × UpstreamRuntime).
            LeadsTo fl ip http f s (picking k go0, admitted fl ip http f s snap)
              (on_pick fl ip http f.dialer f.context f.request (admitted_world fl ip http f s snap)
                a x.1 x.0))
          (sym (pick_target-eq-pick_loop a.upstream))
          (
            st,
            o,
            l,
            Leads-from fl ip http f (ap (λ x. (picking k go0, x)) (sym still)) (
                picks fl ip http f (admitted fl ip http f s snap) snap here k go0 a.upstream
                  s.metrics.upstream_retries _ h),
          )

  decided :
      (d : GatewayError ⊎ Admitted F Net)
      → (decision fl ip http f s snap).0 ≡ d
      → LeadsTo fl ip http f s
          (entered fl ip http f snap d, admitted fl ip http f s snap)
          (on_admitted fl ip http f.dialer f.context f.request
            (admitted_world fl ip http f s snap)
            d)
  decided (inl e) q = refuses fl ip http f s snap e here
  decided (inr a) q =
      let big = body_exceeds_limit http f.request.headers snap.max_body_bytes in
      let n = max_attempts fl ip http f.context f.request a in
      let start = λ (m : ℕ). begin fl ip http f m 0 (going fl ip http f snap a) a.upstream in
      let (st, o, l, h) = begun a q in
      (
        st,
        o,
        l,
        Leads-from fl ip http f
            (ap
              (λ c. (
                if not c && big then refused payload_too_large else start (if c then 1 else n),
                admitted fl ip http f s snap,
              ))
              rises)
            h,
      )

  pub alone-eq-handle_upgrade :
      LeadsTo fl ip http f s
        (arrived, s)
        (handle_upgrade fl ip http f.dialer f.context f.request (world_at fl ip http f s snap))
  unfolding handle_upgrade act
  alone-eq-handle_upgrade =
      let d = (decision fl ip http f s snap).0 in
      let (st, o, l, h) = decided d refl in
      (
        st,
        o,
        l,
        acts_first fl ip http f (arrived, s)
            (entered fl ip http f snap d, admitted fl ip http f s snap) _
            (ap (stage_act fl ip http f s arrived) here) h,
      )
