-- ===== src/Service/Answered.antt =====
-- Every request gets a response: no pick leaves the range of its schedule or its targets.
use gatepup.Prelude.{◌≡◌, ◌≢◌, ◌⊎◌, inr, refl, some, All, Text}
use gatepup.Interfaces.{IpLib, HttpLib, Float}
use gatepup.Config.Model.{GatePupConfig, TlsConfig}
use gatepup.Snapshot.{build_snapshot}
use gatepup.Snapshot.Build.{IsBalanced}
use gatepup.Proxy.Errors.{Response}
use gatepup.Proxy.Body.{Incoming}
use gatepup.Proxy.Forward.{World, Context, Outcome, ok, err, crash}
use gatepup.Proxy.Handle.{Dialer, Arrival, respond, handle, ensure_request_id}
use gatepup.Service.{Step, request, probes, reload, Reach, here, next}
use gatepup.Service.Valid.{
  AllValid, table_insert-AllValid, run_health_checks-IsValid, build_snapshot-AllValid,
  build_reload_snapshot-AllValid,
}
use gatepup.Service.Upgraded.{dispatch-IsGood}

module _ {F Headers Addr Net : Type 0} (fl : Float F) (ip : IpLib Addr Net) (http : HttpLib Headers)
    (d : Dialer Headers) where
  respond-some :
      (id : Text) (o : Outcome Headers)
      → o ≢ crash
      → (r : Response Headers) × (respond fl ip http d id o ≡ some r)
  respond-some id (ok f) n = (_, refl)
  respond-some id (err e) n = (_, refl)
  respond-some id crash n = absurd (n refl)

module _ {F Headers Addr Net Tls : Type 0} (fl : Float F) (ip : IpLib Addr Net)
    (http : HttpLib Headers) where
  handle-answers :
      (d : Dialer Headers) (c : Context Headers Addr) (generated : Text) (req : Arrival Headers)
      (body : Incoming) (w : World fl ip Headers Tls)
      → AllValid w.snapshot.upstreams
      → ((r : Response Headers) × ((handle fl ip http d c generated req body w).0 ≡ some r))
        × AllValid (handle fl ip http d c generated req body w).1.snapshot.upstreams
  unfolding handle
  handle-answers d c generated req body w v =
      let id = ensure_request_id fl ip http d generated req.headers in
      let (n, u) = dispatch-IsGood fl ip http d (record c { request_id = id }) req body w v in
      (respond-some fl ip http d id _ n, u)

module _ {F Headers Addr Net Tls : Type 0} (Uri Query : Type 0) (fl : Float F) (ip : IpLib Addr Net)
    (http : HttpLib Headers) (acceptor : TlsConfig → Text ⊎ Tls) where
  Step-AllValid :
      {w x : World fl ip Headers Tls}
      → Step Uri Query fl ip http acceptor w x
      → AllValid w.snapshot.upstreams
      → AllValid x.snapshot.upstreams
  Step-AllValid {w} (request d c generated req body) v =
      (handle-answers fl ip http d c generated req body w v).1
  Step-AllValid {w} (probes name u settings turns e) v =
      table_insert-AllValid w.snapshot.upstreams name _ v
        (run_health_checks-IsValid settings turns u (v name u e))
  Step-AllValid (reload config s b e) v =
      build_reload_snapshot-AllValid fl ip http acceptor config s b e

  Reach-AllValid :
      {w x : World fl ip Headers Tls}
      → AllValid w.snapshot.upstreams
      → Reach Uri Query fl ip http acceptor w x
      → AllValid x.snapshot.upstreams
  Reach-AllValid v here = v
  Reach-AllValid v (next r st) = Step-AllValid st (Reach-AllValid v r)

  -- Every request gets a response. From a start with a configuration whose weights are positive and
  -- sum to less than 2^32, whatever requests, passes of probes and reloads of such configurations came
  -- before, `handle` never indexes out of range: it returns a response, to a forward and to an upgrade.
  pub every_request_answered :
      {w x : World fl ip Headers Tls} (config : GatePupConfig F) (d : Dialer Headers)
      (c : Context Headers Addr) (generated : Text) (req : Arrival Headers) (body : Incoming)
      → All IsBalanced config.upstreams
      → build_snapshot fl ip http acceptor config ≡ inr w.snapshot
      → Reach Uri Query fl ip http acceptor w x
      → (r : Response Headers) × ((handle fl ip http d c generated req body x).0 ≡ some r)
  every_request_answered {w} {x} config d c generated req body b e r =
      let v = build_snapshot-AllValid fl ip http acceptor config w.snapshot b e in
      (handle-answers fl ip http d c generated req body x (Reach-AllValid v r)).0
