-- ===== src/Metrics/Counts.antt =====
-- The counter of reloads over its two labels.
use gatepup.Prelude.{ℕ, ◌+◌, ◌≡◌, refl, true, false, codes, text_eq, table_get-insert}
use gatepup.Metrics.{Metrics, count_of, inc_config_reload}

abbrev pub succeeded : Metrics → ℕ
succeeded m = count_of (codes "success") m.config_reloads

abbrev pub failed : Metrics → ℕ
failed m = count_of (codes "failure") m.config_reloads

pub inc-success :
    (m : Metrics)
    → (succeeded (inc_config_reload true m) ≡ succeeded m + 1)
      × (failed (inc_config_reload true m) ≡ failed m)
unfolding inc_config_reload text_eq
inc-success m = (
  rw (table_get-insert (codes "success") (codes "success") (succeeded m + 1) m.config_reloads) refl,
  rw (table_get-insert (codes "failure") (codes "success") (succeeded m + 1) m.config_reloads) refl,
)

pub inc-failure :
    (m : Metrics)
    → (succeeded (inc_config_reload false m) ≡ succeeded m)
      × (failed (inc_config_reload false m) ≡ failed m + 1)
unfolding inc_config_reload text_eq
inc-failure m = (
  rw (table_get-insert (codes "success") (codes "failure") (failed m + 1) m.config_reloads) refl,
  rw (table_get-insert (codes "failure") (codes "failure") (failed m + 1) m.config_reloads) refl,
)
