-- ===== src/Config/Resolve/Precedence.antt =====
-- What the overrides of the environment do.
use gatepup.Prelude.{ℕ, ◌≡◌, ◌⊎◌, inl, inr, refl, Option, none, some, Text, codes, arith}
use gatepup.Config.Model.{GatePupConfig, TimeoutConfig}
use gatepup.Config.Resolve.{
  ConfigError, Env, override_ms, with_scalars, with_timeouts, apply_overrides,
}

override_again :
    (var : Text) (before x : ℕ) (o : Option Text)
    → override_ms var before o ≡ inr x
    → override_ms var x o ≡ inr x
override_again var before x none h = refl
override_again var before x (some v) h = h

module _ {F : Type 0} where
  scalars_again :
      (path bind token level : Option Text) (t : TimeoutConfig) (c : GatePupConfig F)
      → with_scalars path bind token level
          (record (with_scalars path bind token level c) { timeouts = t })
        ≡ record (with_scalars path bind token level c) { timeouts = t }
  scalars_again none none token none t c = refl
  scalars_again none none token (some l) t c = refl
  scalars_again none (some b) token none t c = refl
  scalars_again none (some b) token (some l) t c = refl
  scalars_again (some p) none token none t c = refl
  scalars_again (some p) none token (some l) t c = refl
  scalars_again (some p) (some b) token none t c = refl
  scalars_again (some p) (some b) token (some l) t c = refl

  timeouts-inr :
      (c d : GatePupConfig F) (connect request : ConfigError ⊎ ℕ)
      → with_timeouts c connect request ≡ inr d
      → (x : ℕ) × (y : ℕ) × (connect ≡ inr x)
        × (request ≡ inr y)
        × (d ≡ record c { timeouts = record { connect_timeout_ms = x; request_timeout_ms = y } })
  timeouts-inr c d (inl e) request h = absurd (ground arith)
  timeouts-inr c d (inr x) (inl e) h = absurd (ground arith)
  timeouts-inr c d (inr x) (inr y) h = (x, y, refl, refl, cc)

  -- The overrides are settled after one application: applied to their own result, they succeed and
  -- change nothing.
  pub apply_overrides_idem :
      (config result : GatePupConfig F) (get : Env)
      → apply_overrides config get ≡ inr result
      → apply_overrides result get ≡ inr result
  unfolding apply_overrides
  apply_overrides_idem config result get h =
      let c =
        with_scalars (get (codes "GATEPUP_METRICS_PATH")) (get (codes "GATEPUP_ADMIN"))
          (get (codes "GATEPUP_ADMIN_TOKEN")) (get (codes "GATEPUP_LOG")) config in
      let (x, y, p, q, e) = timeouts-inr c result _ _ h in
      let again =
        scalars_again (get (codes "GATEPUP_METRICS_PATH")) (get (codes "GATEPUP_ADMIN"))
          (get (codes "GATEPUP_ADMIN_TOKEN")) (get (codes "GATEPUP_LOG"))
          (record { connect_timeout_ms = x; request_timeout_ms = y }) config in
      rw (e, again, override_again _ _ x _ p, override_again _ _ y _ q) refl
