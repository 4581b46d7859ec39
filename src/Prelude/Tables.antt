-- ===== src/Prelude/Tables.antt =====
-- Maps from texts, as lists of entries.
use mathlib.Core.Path.{◌≡◌, refl, sym, ap, ◌∙◌}
use mathlib.Core.Logic.{◌⊎◌, inl, inr}
use mathlib.Core.Bool.{Bool, true, false}
use mathlib.Core.List.{List, [], ◌∷◌}
use mathlib.Core.Option.{Option, none, some}
use native.Mathlib.Omega.{arith}
use gatepup.Prelude.Tests.{if◌then◌else◌, Bool-cases}
use gatepup.Prelude.Texts.{Text, text_eq, text_eq→eq, text_eq_self, is_some}

-- `HashMap<String, _>` by its `get` and `insert`.
unfoldable pub table_get {ℓ} : {A : Type ℓ} → Text → List (Text × A) → Option A
table_get k [] = none
table_get k (e ∷ es) = if text_eq e.0 k then some e.1 else table_get k es

unfoldable pub table_insert {ℓ} : {A : Type ℓ} → Text → A → List (Text × A) → List (Text × A)
table_insert k a [] = (k, a) ∷ []
table_insert k a (e ∷ es) = if text_eq e.0 k then (k, a) ∷ es else e ∷ table_insert k a es

module _ {ℓ} {A : Type ℓ} where
  if_twice :
      (b : Bool) (x y z : Option A) → (if b then x else z) ≡ (if b then x else (if b then y else z))
  if_twice true x y z = refl
  if_twice false x y z = refl

  pub table_get-insert :
      (k n : Text) (a : A) (m : List (Text × A))
      → table_get k (table_insert n a m) ≡ (if text_eq n k then some a else table_get k m)
  unfolding table_get table_insert
  table_get-insert k n a [] = refl
  table_get-insert k n a (e ∷ m) = elim (Bool-cases (text_eq e.0 n)) [
    | inl p ↦
        rw (p, text_eq→eq e.0 n p) (if_twice (text_eq n k) (some a) (some e.1) (table_get k m))
    | inr p ↦ elim (Bool-cases (text_eq n k)) [
      | inl q ↦
          let ne : text_eq e.0 k ≡ false = rw (← text_eq→eq n k q) p in
          ground (arith, table_get-insert k n a m)
      | inr q ↦ ground (arith, table_get-insert k n a m)
    ]
  ]

  pub table_insert-some :
      {b : A} (k n : Text) (a : A) (m : List (Text × A))
      → table_get k (table_insert n a m) ≡ some b
      → (b ≡ a) ⊎ (table_get k m ≡ some b)
  table_insert-some {b} k n a m h = elim (Bool-cases (text_eq n k)) [
    | inl e ↦ inl (let f : some a ≡ some b = sym (rw (table_get-insert k n a m, e) refl) ∙ h in cc)
    | inr e ↦ inr (sym (rw (table_get-insert k n a m, e) refl) ∙ h)
  ]

  pub table_insert-is_some :
      (k n : Text) (a : A) (m : List (Text × A))
      → is_some (table_get k m) ≡ true
      → is_some (table_get k (table_insert n a m)) ≡ true
  table_insert-is_some k n a m h = elim (Bool-cases (text_eq n k)) [
    | inl e ↦ rw (table_get-insert k n a m, e) refl
    | inr e ↦ rw (table_get-insert k n a m, e) h
  ]

  pub table_insert_twice :
      (k : Text) (a b : A) (m : List (Text × A))
      → table_insert k b (table_insert k a m) ≡ table_insert k b m
  unfolding table_insert
  table_insert_twice k a b [] = rw (text_eq_self k) refl
  table_insert_twice k a b (e ∷ m) = elim (Bool-cases (text_eq e.0 k)) [
    | inl p ↦ rw (p, text_eq_self k) refl
    | inr p ↦ rw (p, p) (ap (λ n. e ∷ n) (table_insert_twice k a b m))
  ]

  pub table_insert_same :
      (k : Text) (a : A) (m : List (Text × A)) → table_get k m ≡ some a → table_insert k a m ≡ m
  unfolding table_get table_insert
  table_insert_same k a [] h = absurd (ground arith)
  table_insert_same k a (e ∷ m) h = elim (Bool-cases (text_eq e.0 k)) [
    | inl p ↦
        let x : k ≡ e.0 = sym (text_eq→eq e.0 k p) in
        let found : some e.1 ≡ some a = rw p at h in
        let y : a ≡ e.1 = cc in rw p (λ j. (x j, y j) ∷ m)
    | inr p ↦ rw p (ap (λ n. e ∷ n) (table_insert_same k a m (rw p at h)))
  ]

  pub table_get-insert_self :
      (k : Text) (a : A) (m : List (Text × A)) → table_get k (table_insert k a m) ≡ some a
  table_get-insert_self k a m = rw (table_get-insert k k a m, text_eq_self k) refl
