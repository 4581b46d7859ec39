-- ===== src/Prelude/Lists.antt =====
-- Lists measured and indexed by native numbers, Boolean searches, and predicates on the members.
use Prim.Native.Nat.{ℕ, zero, suc, ◌+◌, ◌<◌}
use mathlib.Core.Path.{◌≡◌, refl, ap}
use mathlib.Core.Logic.{◌⊎◌, inl, inr}
use mathlib.Core.Bool.{Bool, true, false, ◌||◌, ◌&&◌}
use mathlib.Core.List.{List, [], ◌∷◌, ◌++◌, map}
use mathlib.Core.Option.{Option, none, some}
use native.Mathlib.Omega.{arith}
use gatepup.Prelude.Tests.{if◌then◌else◌, Bool-cases, ◌==◌}

module _ {ℓ} {A : Type ℓ} where
  abbrev pub length : List A → ℕ
  length [] = 0
  length (x ∷ xs) = suc (length xs)

  abbrev pub get_elem? : List A → ℕ → Option A
  get_elem? [] i = none
  get_elem? (x ∷ xs) zero = some x
  get_elem? (x ∷ xs) (suc i) = get_elem? xs i

  abbrev pub set : List A → ℕ → A → List A
  set [] i v = []
  set (x ∷ xs) zero v = v ∷ xs
  set (x ∷ xs) (suc i) v = x ∷ set xs i v

  abbrev pub replicate : ℕ → A → List A
  replicate zero a = []
  replicate (suc n) a = a ∷ replicate n a

  pub length-append : (xs ys : List A) → length (xs ++ ys) ≡ length xs + length ys
  length-append [] ys = omega arith
  length-append (x ∷ xs) ys = omega (arith, length-append xs ys)

  pub length-set : (xs : List A) (i : ℕ) (x : A) → length (set xs i x) ≡ length xs
  length-set [] i x = refl
  length-set (y ∷ xs) zero x = refl
  length-set (y ∷ xs) (suc i) x = ap suc (length-set xs i x)

  abbrev pub any : (A → Bool) → List A → Bool
  any p [] = false
  any p (x ∷ xs) = p x || any p xs

  abbrev pub all : (A → Bool) → List A → Bool
  all p [] = true
  all p (x ∷ xs) = p x && all p xs

  -- `iter().filter(p)` and `iter().find(p)`, with a Boolean test.
  abbrev pub keep : (A → Bool) → List A → List A
  keep p [] = []
  keep p (x ∷ xs) = if p x then x ∷ keep p xs else keep p xs

  abbrev pub find : (A → Bool) → List A → Option A
  find p [] = none
  find p (x ∷ xs) = if p x then some x else find p xs

-- `iter().filter_map(f)`.
module _ {ℓ} {B : Type ℓ} where
  abbrev pub push_some : Option B → List B → List B
  push_some none ys = ys
  push_some (some y) ys = y ∷ ys

  abbrev pub filter_map {κ} : {A : Type κ} → (A → Option B) → List A → List B
  filter_map f [] = []
  filter_map f (x ∷ xs) = push_some (f x) (filter_map f xs)

module _ {ℓ} {A : Type ℓ} where
  pub length-map {κ} : {B : Type κ} (f : A → B) (xs : List A) → length (map f xs) ≡ length xs
  length-map f [] = refl
  length-map f (x ∷ xs) = ap suc (length-map f xs)

  -- Membership as an inductive family, which a proof may take apart.
  pub data In (x : A) : List A → Type ℓ where
    here : {xs : List A} → In x (x ∷ xs)
    there : {y : A} {xs : List A} → In x xs → In x (y ∷ xs)

module _ {ℓ κ} {A : Type ℓ} (P : A → Type κ) where
  abbrev pub All : List A → Type κ
  All [] = Unit
  All (x ∷ xs) = P x × All xs

  pub All-In : {x : A} {xs : List A} → All xs → In x xs → P x
  All-In h here = h.0
  All-In h (there m) = All-In h.1 m

  pub All-of_In : (xs : List A) → ((x : A) → In x xs → P x) → All xs
  All-of_In [] h = tt
  All-of_In (x ∷ xs) h = (h x here, All-of_In xs (λ y m. h y (there m)))

module _ {ℓ} {A : Type ℓ} where
  pub In-append_left : {x : A} {xs : List A} (ys : List A) → In x xs → In x (xs ++ ys)
  In-append_left ys here = here
  In-append_left ys (there m) = there (In-append_left ys m)

  pub In-append_right : {x : A} (xs : List A) {ys : List A} → In x ys → In x (xs ++ ys)
  In-append_right [] m = m
  In-append_right (y ∷ xs) m = there (In-append_right xs m)

  pub In-append : {x : A} (xs : List A) {ys : List A} → In x (xs ++ ys) → In x xs ⊎ In x ys
  In-append [] m = inr m
  In-append (y ∷ xs) here = inl here
  In-append (y ∷ xs) (there m) = elim (In-append xs m) [ inl l ↦ inl (there l) | inr r ↦ inr r ]

  pub In-get_elem? : (xs : List A) (i : ℕ) {x : A} → get_elem? xs i ≡ some x → In x xs
  In-get_elem? [] i h = absurd (ground arith)
  In-get_elem? (y ∷ xs) zero {x} h = let e : y ≡ x = cc in rw (e) here
  In-get_elem? (y ∷ xs) (suc i) h = there (In-get_elem? xs i h)

  pub get_elem?-some : (xs : List A) (i : ℕ) → i < length xs → (x : A) × (get_elem? xs i ≡ some x)
  get_elem?-some [] i h = absurd (omega arith)
  get_elem?-some (x ∷ xs) zero h = (x, refl)
  get_elem?-some (x ∷ xs) (suc i) h = get_elem?-some xs i (omega arith)

module _ {ℓ} {A : Type ℓ} (p : A → Bool) where
  pub any-In : {x : A} (xs : List A) → In x xs → p x ≡ true → any p xs ≡ true
  any-In [] m e = elim m [ ]
  any-In {x} (y ∷ xs) here e = ground arith
  any-In (y ∷ xs) (there m) e = ground (arith, any-In xs m e)

  pub In-any : (xs : List A) → any p xs ≡ true → (x : A) × In x xs × (p x ≡ true)
  In-any [] h = absurd (ground arith)
  In-any (x ∷ xs) h = elim (Bool-cases (p x)) [
    | inl e ↦ (x, here, e)
    | inr e ↦ let (y, m, q) = In-any xs (ground arith) in (y, there m, q)
  ]

  pub find_sound : (xs : List A) {x : A} → find p xs ≡ some x → In x xs × (p x ≡ true)
  find_sound [] h = absurd (ground arith)
  find_sound (y ∷ xs) {x} h = elim (Bool-cases (p y)) [
    | inl e ↦ let s : y ≡ x = ground arith in rw (← s) (here, e)
    | inr e ↦ let (m, q) = find_sound xs (ground arith) in (there m, q)
  ]

  pub find-append : {x : A} (xs ys : List A) → find p xs ≡ some x → find p (xs ++ ys) ≡ some x
  find-append [] ys h = absurd (ground arith)
  find-append {x} (y ∷ xs) ys h = elim (Bool-cases (p y)) [
    | inl e ↦ ground arith
    | inr e ↦ ground (arith, find-append {x = x} xs ys)
  ]

  pub find-none : (xs : List A) {x : A} → find p xs ≡ none → In x xs → p x ≡ false
  find-none [] h m = elim m [ ]
  find-none (y ∷ xs) h here = ground arith
  find-none (y ∷ xs) h (there m) = find-none xs (ground arith) m

abbrev pub get_or {ℓ} : {A : Type ℓ} → List A → ℕ → A → A
get_or [] i d = d
get_or (x ∷ xs) zero d = x
get_or (x ∷ xs) (suc i) d = get_or xs i d

-- How often a number stands in a list.
abbrev pub once : ℕ → ℕ → ℕ
once i j = if j == i then 1 else 0

abbrev pub count : ℕ → List ℕ → ℕ
count i [] = 0
count i (j ∷ js) = count i js + once i j

pub count-append : (i : ℕ) (js ks : List ℕ) → count i (js ++ ks) ≡ count i js + count i ks
count-append i [] ks = omega arith
count-append i (j ∷ js) ks = omega (arith, count-append i js ks)

In-push_some {ℓ} :
    {B : Type ℓ} {b : B} (o : Option B) (ys : List B)
    → In b (push_some o ys)
    → (o ≡ some b) ⊎ In b ys
In-push_some none ys m = inr m
In-push_some (some y) ys here = inl refl
In-push_some (some y) ys (there m) = inr m

In-push_some_later {ℓ} :
    {B : Type ℓ} {b : B} (o : Option B) (ys : List B) → In b ys → In b (push_some o ys)
In-push_some_later none ys m = m
In-push_some_later (some y) ys m = there m

module _ {ℓ κ} {A : Type ℓ} {B : Type κ} (f : A → Option B) where
  pub In-filter_map :
      {a : A} {b : B} (xs : List A) → In a xs → f a ≡ some b → In b (filter_map f xs)
  In-filter_map [] m e = elim m [ ]
  In-filter_map (x ∷ xs) here e = rw e here
  In-filter_map (x ∷ xs) (there m) e =
      In-push_some_later (f x) (filter_map f xs) (In-filter_map xs m e)

  pub filter_map-In :
      {b : B} (xs : List A) → In b (filter_map f xs) → (a : A) × In a xs × (f a ≡ some b)
  filter_map-In [] m = elim m [ ]
  filter_map-In (x ∷ xs) m = elim (In-push_some (f x) (filter_map f xs) m) [
    | inl e ↦ (x, here, e)
    | inr k ↦ let (a, l, e) = filter_map-In xs k in (a, there l, e)
  ]

  pub filter_map-append :
      (xs ys : List A) → filter_map f (xs ++ ys) ≡ filter_map f xs ++ filter_map f ys
  filter_map-append [] ys = refl
  filter_map-append (x ∷ xs) ys = ground (arith, filter_map-append xs ys)
