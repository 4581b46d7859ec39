-- ===== src/Core/Reload.antt =====
-- A reload swaps in a valid configuration, or keeps what runs.
use gatepup.Prelude.{
  false, ◌+◌, ◌≡◌, ◌⊎◌, inl, inr, refl, Option, none, some, List, [], ◌∷◌, Text, length, arith,
}
use gatepup.Interfaces.{IpLib, HttpLib, Float}
use gatepup.Config.Model.{GatePupConfig}
use gatepup.Config.Errors.{ValidationError}
use gatepup.Config.Validator.Routes.{validate}
use gatepup.Config.Resolve.{ConfigError, ConfigSource, Env, resolve_with, load_from_file}
use gatepup.Metrics.{inc_config_reload}
use gatepup.Metrics.Counts.{succeeded, failed, inc-success, inc-failure}
use gatepup.Snapshot.{ProxyError, RuntimeConfig, build_reload_snapshot}
use gatepup.Core.{
  CoreError, Running, Platform, accept, validated, resolve_validated, with_snapshot, prepare, swap,
  reload, reloads,
}

module _ {F Headers Addr Net Tls : Type 0} (fl : Float F) (ip : IpLib Addr Net)
    (http : HttpLib Headers) (p : Platform F Tls) where
  -- A snapshot of a configuration that validation passes.
  pub record IsSound (s : RuntimeConfig F Net Tls) (text : Text) : Type 0 where
    pub config : GatePupConfig F
    pub valid : validate fl ip p.parse_url config ≡ []
    pub built : build_reload_snapshot fl ip http p.acceptor config ≡ inr s
    pub shown : p.render config ≡ some text

  -- A reload keeps everything that runs and counts a failure, or swaps in the snapshot of a valid
  -- configuration together with its text, and counts a success.
  pub data Reloaded (r : Running F Net Tls) : Running F Net Tls → Type 0 where
    kept : Reloaded r (record r { metrics = inc_config_reload false r.metrics })
    swapped :
        (s : RuntimeConfig F Net Tls) (text : Text)
        → IsSound s text
        → Reloaded r (swap fl ip http p r (inr (s, text)))

  accepted :
      (c : GatePupConfig F × ConfigSource) (es : List ValidationError)
      (d : GatePupConfig F × ConfigSource)
      → accept fl ip http p c es ≡ inr d
      → (es ≡ []) × (c ≡ d)
  accepted c [] d h = (refl, cc)
  accepted c (e ∷ es) d h = absurd (ground arith)

  validated-inr :
      (o : ConfigError ⊎ (GatePupConfig F × ConfigSource)) (d : GatePupConfig F × ConfigSource)
      → validated fl ip http p o ≡ inr d
      → validate fl ip p.parse_url d.0 ≡ []
  validated-inr (inl e) d h = absurd (ground arith)
  validated-inr (inr c) d h = let (v, e) = accepted c _ d h in rw (← e) v

  rendered-Reloaded :
      (r : Running F Net Tls) (c : GatePupConfig F) (b : ProxyError ⊎ RuntimeConfig F Net Tls)
      (t : Option Text)
      → validate fl ip p.parse_url c ≡ []
      → build_reload_snapshot fl ip http p.acceptor c ≡ b
      → p.render c ≡ t
      → Reloaded r (swap fl ip http p r (with_snapshot fl ip http p c b))
  rendered-Reloaded r c (inl e) t v b h = kept
  rendered-Reloaded r c (inr s) none v b h = rw h kept
  rendered-Reloaded r c (inr s) (some text) v b h =
      rw h (swapped s text (record { config = c; valid = v; built = b; shown = h }))

  prepare-Reloaded :
      (r : Running F Net Tls) (o : CoreError ⊎ (GatePupConfig F × ConfigSource))
      → ((d : GatePupConfig F × ConfigSource) → o ≡ inr d → validate fl ip p.parse_url d.0 ≡ [])
      → Reloaded r (swap fl ip http p r (prepare fl ip http p o))
  prepare-Reloaded r (inl e) v = kept
  prepare-Reloaded r (inr d) v = rendered-Reloaded r d.0 _ (p.render d.0) (v d refl) refl refl

  -- A bad reload never breaks what runs, and a good one installs a valid configuration.
  pub reload-Reloaded :
      (cli : Option Text) (get : Env) (r : Running F Net Tls)
      → Reloaded r (reload fl ip http p cli get r)
  unfolding reload resolve_validated
  reload-Reloaded cli get r = prepare-Reloaded r (resolve_validated fl ip http p cli get) (λ d e.
      validated-inr (resolve_with (load_from_file p.read_to_string p.json) p.json cli get) d e)

  IsCurrent : Running F Net Tls → Running F Net Tls → Type 0
  IsCurrent r t =
      ((t.shared ≡ r.shared) × (t.effective ≡ r.effective)) ⊎ IsSound t.shared t.effective

  step-IsCurrent : (r t u : Running F Net Tls) → IsCurrent r t → Reloaded t u → IsCurrent r u
  unfolding IsCurrent
  step-IsCurrent r t u c kept = c
  step-IsCurrent r t u c (swapped s text v) = inr v

  -- After any history of reloads, with the files and the environment changing between them, the
  -- snapshot and the text that runs are those of the start, or belong together to one configuration that
  -- validation passed; and every reload was counted once.
  pub reloads_consistent :
      (cli : Option Text) (gets : List Env) (r : Running F Net Tls)
      → let t = reloads fl ip http p cli gets r in
        (((t.shared ≡ r.shared) × (t.effective ≡ r.effective)) ⊎ IsSound t.shared t.effective)
        × (succeeded t.metrics + failed t.metrics
            ≡ succeeded r.metrics + failed r.metrics + length gets)
  unfolding reloads IsCurrent
  reloads_consistent cli [] r = (inl (refl, refl), omega arith)
  reloads_consistent cli (get ∷ gets) r =
      let t = reloads fl ip http p cli gets r in
      let (c, n) = reloads_consistent cli gets r in
      let step = reload-Reloaded cli get t in (step-IsCurrent r t _ c step, counted t _ n step)
    where
      counted :
          (t u : Running F Net Tls)
          → succeeded t.metrics + failed t.metrics
            ≡ succeeded r.metrics + failed r.metrics + length gets
          → Reloaded t u
          → succeeded u.metrics + failed u.metrics
            ≡ succeeded r.metrics + failed r.metrics + length (get ∷ gets)
      counted t u n kept = let (a, b) = inc-failure t.metrics in omega (arith, a, b)
      counted t u n (swapped s text v) = let (a, b) = inc-success t.metrics in omega (arith, a, b)
