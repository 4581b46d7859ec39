-- ===== src/Config/Resolve/Tests.antt =====
-- Overrides of the simple mode.
use gatepup.Prelude.{
  ℕ, ◌≡◌, inl, inr, refl, none, some, codes, text_eq, parse_digits, strip_prefix, if◌then◌else◌,
}
use gatepup.Config.Model.{GatePupConfig}
use gatepup.Config.Resolve.{
  Env, env, build_from_env, base_config, apply_overrides, resolve_with, no_config_source,
}

abbrev simple : Env
simple name =
    if text_eq name (codes "GATEPUP_UPSTREAM")
    then some (codes "http://a, http://b,")
    else (if text_eq name (codes "GATEPUP_TIMEOUT_CONNECT_MS") then some (codes "250") else none)

abbrev from_env : GatePupConfig ℕ
from_env = build_from_env simple

abbrev overridden : GatePupConfig ℕ
overridden = record from_env {
  timeouts = record { connect_timeout_ms = 250; request_timeout_ms = 30000 };
}

applied : apply_overrides from_env simple ≡ inr overridden
unfolding apply_overrides build_from_env text_eq parse_digits strip_prefix
applied = refl

resolved :
    resolve_with (λ path. inl no_config_source) (λ text. none) none simple ≡ inr (overridden, env)
unfolding resolve_with base_config apply_overrides build_from_env text_eq parse_digits strip_prefix
resolved = refl
