-- ===== src/Snapshot/Views/Counts.antt =====
-- The names of a map are distinct, and how many targets of each upstream are healthy.
use mathlib.Core.Option
use gatepup.Prelude.{
  ◌≡◌, refl, ◌∙◌, none, List, [], ◌∷◌, map, Bool-cases, inl, inr, Text, text_eq, table_get,
}
use gatepup.Upstream.{UpstreamRuntime}
use gatepup.Snapshot.Views.{healthy_targets, healthy_count}

module _ {A : Type 0} where
  -- No entry is hidden by another.
  abbrev pub Distinct : List (Text × A) → Type 0
  Distinct [] = Unit
  Distinct (e ∷ t) = (table_get e.0 t ≡ none) × Distinct t

pub table_get-healthy_count :
    (k : Text) (t : List (Text × UpstreamRuntime))
    → table_get k (map healthy_count t) ≡ Option.map healthy_targets (table_get k t)
unfolding table_get
table_get-healthy_count k [] = refl
table_get-healthy_count k (e ∷ t) = elim (Bool-cases (text_eq e.0 k)) [
  | inl p ↦ rw p refl
  | inr p ↦ rw p (table_get-healthy_count k t)
]

pub map-healthy_count-Distinct :
    (t : List (Text × UpstreamRuntime)) → Distinct t → Distinct (map healthy_count t)
map-healthy_count-Distinct [] h = tt
map-healthy_count-Distinct (e ∷ t) h =
    (table_get-healthy_count e.0 t ∙ (rw (h.0) refl), map-healthy_count-Distinct t h.1)
