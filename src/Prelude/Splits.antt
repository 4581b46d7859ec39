-- ===== src/Prelude/Splits.antt =====
-- Lists with an element taken out of their middle.
use Prim.Native.Nat.{suc}
use mathlib.Core.Path.{◌≡◌, refl}
use mathlib.Core.List.{List, [], ◌∷◌, ◌++◌}
use native.Mathlib.Omega.{arith}
use gatepup.Prelude.Lists.{All, length}

module _ {ℓ κ} {A : Type ℓ} (P : A → Type κ) where
  pub All-split : (xs ys : List A) (y : A) → All P (xs ++ y ∷ ys) → P y × All P (xs ++ ys)
  All-split [] ys y h = h
  All-split (x ∷ xs) ys y h = let (p, q) = All-split xs ys y h.1 in (p, (h.0, q))

  pub All-join : (xs ys : List A) (y : A) → P y → All P (xs ++ ys) → All P (xs ++ y ∷ ys)
  All-join [] ys y p h = (p, h)
  All-join (x ∷ xs) ys y p h = (h.0, All-join xs ys y p h.1)

module _ {ℓ} {A : Type ℓ} where
  pub length-join : (xs ys : List A) (y : A) → length (xs ++ y ∷ ys) ≡ suc (length (xs ++ ys))
  length-join [] ys y = refl
  length-join (x ∷ xs) ys y = ground (arith, length-join xs ys y)

module _ {ℓ κ ι} {A : Type ℓ} (P : A → Type κ) (Q : A → Type ι) where
  pub All-mapped : (xs : List A) → ((x : A) → P x → Q x) → All P xs → All Q xs
  All-mapped [] f h = tt
  All-mapped (x ∷ xs) f h = (f x h.0, All-mapped xs f h.1)
