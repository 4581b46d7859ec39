-- ===== src/Service/Valid.antt =====
-- Every upstream of the table stays valid, whatever is done to it.
use gatepup.Prelude.{
  Bool, true, false, ◌≡◌, ◌⊎◌, inl, inr, ap, sym, ◌∙◌, List, [], ◌∷◌, some, table_get, table_insert,
  table_insert-some, All, Text, arith,
}
use gatepup.Interfaces.{IpLib, HttpLib, Float}
use gatepup.Config.Model.{GatePupConfig, TlsConfig}
use gatepup.Upstream.{HealthCheckSettings, UpstreamRuntime}
use gatepup.Upstream.Pick.{IsValid}
use gatepup.Upstream.Keeps.{resized-IsValid}
use gatepup.Snapshot.{
  ProxyError, RuntimeConfig, ListenerRuntime, build_upstreams, build_listeners, with_listeners,
  build_snapshot_inner, build_reload_snapshot, build_snapshot,
}
use gatepup.Snapshot.Build.{IsBalanced, build_upstreams-IsValid, no_entry}
use gatepup.Probes.{Turn, shutdown, gen_stop, tick, run_health_checks}
use gatepup.Probes.Recovery.{length-probe_targets}

abbrev pub AllValid : List (Text × UpstreamRuntime) → Type 0
AllValid t = (name : Text) (u : UpstreamRuntime) → table_get name t ≡ some u → IsValid u

pub table_insert-AllValid :
    (t : List (Text × UpstreamRuntime)) (name : Text) (u : UpstreamRuntime)
    → AllValid t
    → IsValid u
    → AllValid (table_insert name u t)
table_insert-AllValid t name u h v k w e = elim (table_insert-some k name u t e) [
  | inl q ↦ rw q v
  | inr q ↦ h k w q
]

module _ {Uri Query : Type 0} where
  pub run_health_checks-IsValid :
      (settings : HealthCheckSettings) (turns : List (Turn Uri Query)) (u : UpstreamRuntime)
      → IsValid u
      → IsValid (run_health_checks settings turns u)
  unfolding run_health_checks
  run_health_checks-IsValid settings [] u h = h
  run_health_checks-IsValid settings (shutdown ∷ turns) u h = h
  run_health_checks-IsValid settings (gen_stop ∷ turns) u h = h
  run_health_checks-IsValid settings (tick r ∷ turns) u h =
      run_health_checks-IsValid settings turns _
        (resized-IsValid u _ (length-probe_targets settings r 0 u.targets) h)

abbrev upstreams_of :
    {F Net Tls : Type 0} → ProxyError ⊎ RuntimeConfig F Net Tls → List (Text × UpstreamRuntime)
upstreams_of (inl e) = []
upstreams_of (inr s) = s.upstreams

module _ {F Headers Addr Net Tls : Type 0} (fl : Float F) (ip : IpLib Addr Net)
    (http : HttpLib Headers) (acceptor : TlsConfig → Text ⊎ Tls) where
  built_upstreams :
      (config : GatePupConfig F) (o : ProxyError ⊎ List (ListenerRuntime F Net Tls))
      (s : RuntimeConfig F Net Tls)
      → with_listeners fl ip http config o ≡ inr s
      → s.upstreams ≡ build_upstreams http.method config.upstreams []
  built_upstreams config (inl e) s h = absurd (ground arith)
  built_upstreams config (inr ls) s h = sym (ap upstreams_of h)

  inner-AllValid :
      (with_tls : Bool) (config : GatePupConfig F) (s : RuntimeConfig F Net Tls)
      → All IsBalanced config.upstreams
      → build_snapshot_inner fl ip http acceptor config with_tls ≡ inr s
      → AllValid s.upstreams
  unfolding build_snapshot_inner
  inner-AllValid with_tls config s b h name u e =
      let q =
        built_upstreams config (build_listeners fl ip http acceptor with_tls config.listeners) s
          h in
      build_upstreams-IsValid http.method config.upstreams [] name u b (no_entry name)
        (ap (table_get name) (sym q) ∙ e)

  pub build_snapshot-AllValid :
      (config : GatePupConfig F) (s : RuntimeConfig F Net Tls)
      → All IsBalanced config.upstreams
      → build_snapshot fl ip http acceptor config ≡ inr s
      → AllValid s.upstreams
  unfolding build_snapshot
  build_snapshot-AllValid config s b h = inner-AllValid true config s b h

  pub build_reload_snapshot-AllValid :
      (config : GatePupConfig F) (s : RuntimeConfig F Net Tls)
      → All IsBalanced config.upstreams
      → build_reload_snapshot fl ip http acceptor config ≡ inr s
      → AllValid s.upstreams
  unfolding build_reload_snapshot
  build_reload_snapshot-AllValid config s b h = inner-AllValid false config s b h
