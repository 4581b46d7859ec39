-- ===== src/Traffic/Alone/Forward.antt =====
-- A request that nothing interrupts does what crates/gatepup-proxy/src/proxy.rs, `forward`, does in one.
use gatepup.Prelude.{
  ◌≡◌, ◌⊎◌, inl, inr, refl, sym, ap, ◌∙◌, true, false, not, ◌&&◌, Bool, some, get_elem?,
  if◌then◌else◌,
}
use gatepup.Interfaces.{IpLib, HttpLib, Float}
use gatepup.Snapshot.{RuntimeConfig}
use gatepup.Proxy.Errors.{GatewayError, payload_too_large}
use gatepup.Proxy.Body.{body_exceeds_limit}
use gatepup.Proxy.Admission.{Admitted, admit-Decision}
use gatepup.Proxy.Forward.{
  err, decide, finish, settled_world, World, Outcome, max_attempts, run, forward,
}
use gatepup.Proxy.Forward
use gatepup.Service.Forwarded.{upstream_of}
use gatepup.Traffic.{
  arrived, refused, ended, Call, Shared, act, stage_act, begin, attempts, going, entered,
  accept_encoding,
}
use gatepup.Traffic.Alone.{Leads-from, acts_first, at_start}
use gatepup.Traffic.Alone.Loop.{loop}
use gatepup.Traffic.Alone.Whole.{LeadsTo, decision, admitted, admitted_world, refuses, world_at}

module _ {F Headers Addr Net Tls : Type 0} (fl : Float F) (ip : IpLib Addr Net)
    (http : HttpLib Headers) (f : Call Headers Addr) (s : Shared fl ip Tls)
    (snap : RuntimeConfig F Net Tls) (here : get_elem? s.heap f.snapshot ≡ some snap)
    (plain : f.upgrade ≡ false) where
  attempts_run :
      (a : Admitted F Net)
      → (decision fl ip http f s snap).0 ≡ inr a
      → let accept = accept_encoding fl ip http f in
        let r = run fl ip http f.context f.request f.body (admitted_world fl ip http f s snap) a in
        LeadsTo fl ip http f s
          (
            begin fl ip http f (attempts fl ip http f a) 0 (going fl ip http f snap a) a.upstream,
            (admitted fl ip http f s snap),
          )
          (
            finish fl ip http f.context snap.compression accept a r.0,
            settled_world fl ip http f.context (admitted_world fl ip http f s snap) a r.1,
          )
  attempts_run a e =
      let n = max_attempts fl ip http f.context f.request a in
      let go = going fl ip http f snap a in
      let u =
        upstream_of fl ip http f.context snap f.request a
          (admit-Decision fl ip http f.context.decode f.context.hash snap f.context.listener_name
            f.request s.limiter)
          e in
      let (g, l, h) =
        loop fl ip http f (admitted fl ip http f s snap) snap here plain n 0 go a.upstream
          s.metrics.upstream_retries in
      let tries : attempts fl ip http f a ≡ n = ap (λ c. if c then 1 else n) plain in
      let still =
        at_start fl ip http f (admitted fl ip http f s snap) snap here a.route.upstream a.upstream
          u in
      (
        ended _ g,
        refl,
        l,
        Leads-from fl ip http f
            (ap (λ m. (begin fl ip http f m 0 go a.upstream, (admitted fl ip http f s snap))) tries
              ∙ ap (λ x. (begin fl ip http f n 0 go a.upstream, x)) (sym still))
            h,
      )

  measured :
      (a : Admitted F Net) (big : Bool)
      → (decision fl ip http f s snap).0 ≡ inr a
      → let accept = accept_encoding fl ip http f in
        let r = run fl ip http f.context f.request f.body (admitted_world fl ip http f s snap) a in
        let x = admitted_world fl ip http f s snap in
        LeadsTo fl ip http f s
          (
            if big
                then refused payload_too_large
                else begin fl ip http f
                    (attempts fl ip http f a)
                    0
                    (going fl ip http f snap a)
                    a.upstream,
            (admitted fl ip http f s snap),
          )
          (if big then (err payload_too_large, x) else (
            finish fl ip http f.context snap.compression accept a r.0,
            settled_world fl ip http f.context x a r.1,
          ))
  measured a true q = refuses fl ip http f s snap payload_too_large here
  measured a false q = attempts_run a q

  decided :
      (d : GatewayError ⊎ Admitted F Net)
      → (decision fl ip http f s snap).0 ≡ d
      → LeadsTo fl ip http f s
          (entered fl ip http f snap d, (admitted fl ip http f s snap))
          (Forward.on_admitted fl ip http f.context f.request f.body
            (admitted_world fl ip http f s snap)
            d)
  decided (inl e) q = refuses fl ip http f s snap e here
  decided (inr a) q =
      let big = body_exceeds_limit http f.request.headers snap.max_body_bytes in
      let start =
        begin fl ip http f (attempts fl ip http f a) 0 (going fl ip http f snap a) a.upstream in
      let (st, o, l, h) = measured a big q in
      (
        st,
        o,
        l,
        Leads-from fl ip http f
            (ap
              (λ c. (
                if not c && big then refused payload_too_large else start,
                (admitted fl ip http f s snap),
              ))
              plain)
            h,
      )

  -- On a snapshot of the heap, the actions of a request that is no upgrade, with nothing between
  -- them, lead to the outcome of `forward` and to what it leaves: the health and the counters of the
  -- snapshot, the buckets of the rate limiter, the metrics, and the requests that were sent.
  pub alone-eq-forward :
      LeadsTo fl ip http f s
        (arrived, s)
        (forward fl ip http f.context f.request f.body (world_at fl ip http f s snap))
  unfolding forward act
  alone-eq-forward =
      let (st, o, l, h) = decided (decision fl ip http f s snap).0 refl in
      (
        st,
        o,
        l,
        acts_first fl ip http f (arrived, s)
            (
              entered fl ip http f snap (decision fl ip http f s snap).0,
              (admitted fl ip http f s snap),
            )
            _ (ap (stage_act fl ip http f s arrived) here) h,
      )
