-- ===== src/Router/Select.antt =====
-- crates/gatepup-proxy/src/router.rs: `Router::match_route`. `max_by_key` returns the last of the
-- elements with the greatest key.
use gatepup.Prelude.{
  ℕ, ◌≡◌, ◌↔◌, ◌⊎◌, refl, sym, ap, ◌∙◌, Bool, true, false, ◌&&◌, ◌||◌, Option, none, some, List, [],
  ◌∷◌, ◌++◌, ltb, leb, ◌==◌, Text, keep, In, here, there, In-append_right, arith, Bool-cases, inl,
  inr, if◌then◌else◌,
}
use mathlib.Core.Bool.{false≢true}
use gatepup.Router.Table.{CompiledRoute, route_matches, specificity}

-- The order of pairs.
abbrev pub key_le : ℕ × ℕ → ℕ × ℕ → Bool
key_le (a, b) (c, d) = ltb a c || (a == c && leb b d)

-- The fold of `max_by_key`: a later element replaces an earlier one that is not greater.
abbrev pub later_max {ℓ} : {A : Type ℓ} → (A → ℕ × ℕ) → Option A → A → Option A
later_max key none x = some x
later_max key (some y) x = if key_le (key y) (key x) then some x else some y

unfoldable pub max_from {ℓ} : {A : Type ℓ} → (A → ℕ × ℕ) → Option A → List A → Option A
max_from key best [] = best
max_from key best (x ∷ xs) = max_from key (later_max key best x) xs

unfoldable pub max_by_key {ℓ} : {A : Type ℓ} → (A → ℕ × ℕ) → List A → Option A
unfolding max_from
max_by_key key xs = max_from key none xs

module _ {F Net : Type 0} where
  unfoldable pub match_route :
      List (CompiledRoute F Net) → Text → Text → Option (CompiledRoute F Net)
  match_route routes host path =
      max_by_key specificity (keep (λ r. route_matches r host path) routes)

key_le_refl : (a : ℕ × ℕ) → key_le a a ≡ true
key_le_refl (a, b) = ground arith

key_le_trans : (a b c : ℕ × ℕ) → key_le a b ≡ true → key_le b c ≡ true → key_le a c ≡ true
key_le_trans (a, a') (b, b') (c, c') h k = ground arith

key_le_total : (a b : ℕ × ℕ) → key_le a b ≡ false → key_le b a ≡ true
key_le_total (a, a') (b, b') h = ground arith

key_lt_le : (a b c : ℕ × ℕ) → key_le a b ≡ true → key_le c b ≡ false → key_le c a ≡ false
key_lt_le (a, a') (b, b') (c, c') h k = ground arith

module _ {ℓ} {A : Type ℓ} (key : A → ℕ × ℕ) where
  abbrev Below : A → List A → Type ℓ
  Below x xs = (y : A) → In y xs → key_le (key x) (key y) ≡ false

  -- The last of the greatest: nothing before it is greater, all behind it is smaller.
  data LastMax (x : A) : List A → Type ℓ where
    chosen : {xs : List A} → Below x xs → LastMax x (x ∷ xs)
    later :
        {y : A} {xs : List A} → key_le (key y) (key x) ≡ true → LastMax x xs → LastMax x (y ∷ xs)

  LastMax-In : {x : A} {xs : List A} → LastMax x xs → In x xs
  LastMax-In (chosen b) = here
  LastMax-In (later h m) = there (LastMax-In m)

  LastMax-le : {x y : A} {xs : List A} → LastMax x xs → In y xs → key_le (key y) (key x) ≡ true
  LastMax-le {x} (chosen b) here = key_le_refl (key x)
  LastMax-le {x} {y} (chosen b) (there m) = key_le_total (key x) (key y) (b y m)
  LastMax-le (later h l) here = h
  LastMax-le (later h l) (there m) = LastMax-le l m

  LastMax-insert :
      {x b c : A} {xs : List A}
      → key_le (key b) (key c) ≡ false
      → LastMax x (b ∷ xs)
      → LastMax x (b ∷ c ∷ xs)
  LastMax-insert {b} {c} {xs} h (chosen l) = chosen (below l)
    where
      below : Below b xs → Below b (c ∷ xs)
      below l y here = h
      below l y (there m) = l y m
  LastMax-insert {x} {b} {c} h (later p m) =
      let q = key_le_trans (key c) (key b) (key x) (key_le_total (key b) (key c) h) p in
      later p (later q m)

  -- The fold with a best element that stands before the rest of the list.
  max_from-some :
      (b : A) (xs : List A) → (x : A) × (max_from key (some b) xs ≡ some x) × LastMax x (b ∷ xs)
  unfolding max_from
  max_from-some b [] = (b, refl, chosen (λ y m. elim m [ ]))
  max_from-some b (c ∷ xs) = elim (Bool-cases (key_le (key b) (key c))) [
    | inl le ↦
        let (x, e, m) = max_from-some c xs in
        (x, rw le e, later (key_le_trans (key b) (key c) (key x) le (LastMax-le m here)) m)
    | inr lt ↦ let (x, e, m) = max_from-some b xs in (x, rw lt e, LastMax-insert lt m)
  ]

  max_by_key-cases :
      (xs : List A)
      → ((max_by_key key xs ≡ none) × (xs ≡ []))
        ⊎ ((x : A) × (max_by_key key xs ≡ some x) × LastMax x xs)
  unfolding max_by_key
  max_by_key-cases [] = inl (refl, refl)
  max_by_key-cases (x ∷ xs) = inr (max_from-some x xs)

  module _ (p : A → Bool) where
    In-keep : {x : A} (xs : List A) → In x xs → p x ≡ true → In x (keep p xs)
    In-keep [] m h = elim m [ ]
    In-keep (x ∷ xs) here h = rw h here
    In-keep (y ∷ xs) (there m) h = elim (Bool-cases (p y)) [
      | inl e ↦ rw e (there (In-keep xs m h))
      | inr e ↦ rw e (In-keep xs m h)
    ]

    -- The same of the choice among the elements that pass a test, in the list itself.
    pub record IsChoice (x : A) (xs : List A) : Type ℓ where
      pub before : List A
      pub after : List A
      pub split : xs ≡ before ++ x ∷ after
      pub passes : p x ≡ true
      pub at_most : (y : A) → In y before → p y ≡ true → key_le (key y) (key x) ≡ true
      pub below : (y : A) → In y after → p y ≡ true → key_le (key x) (key y) ≡ false

    extend :
        {x : A} (y : A) (xs : List A)
        → (p y ≡ true → key_le (key y) (key x) ≡ true)
        → IsChoice x xs
        → IsChoice x (y ∷ xs)
    extend {x} y xs h c = record {
      before = y ∷ c.before;
      after = c.after;
      split = ap (◌∷◌ y) c.split;
      passes = c.passes;
      at_most = at_most;
      below = c.below;
    }
      where
        at_most : (z : A) → In z (y ∷ c.before) → p z ≡ true → key_le (key z) (key x) ≡ true
        at_most z here q = h q
        at_most z (there m) q = c.at_most z m q

    IsChoice-kept :
        {x : A} (y : A) (xs : List A)
        → p y ≡ true
        → (LastMax x (keep p xs) → IsChoice x xs)
        → LastMax x (y ∷ keep p xs)
        → IsChoice x (y ∷ xs)
    IsChoice-kept y xs e rec (chosen b) = record {
      before = [];
      after = xs;
      split = refl;
      passes = e;
      at_most = λ z m q. elim m [ ];
      below = λ z m q. b z (In-keep xs m q);
    }
    IsChoice-kept y xs e rec (later h m) = extend y xs (λ _. h) (rec m)

    IsChoice-keep : {x : A} (xs : List A) → LastMax x (keep p xs) → IsChoice x xs
    IsChoice-keep [] m = elim m [ ]
    IsChoice-keep (y ∷ xs) m = elim (Bool-cases (p y)) [
      | inl e ↦ IsChoice-kept y xs e (IsChoice-keep xs) (rw e at m)
      | inr e ↦ extend y xs (λ q. absurd (false≢true (sym e ∙ q))) (IsChoice-keep xs (rw e at m))
    ]

    keep_none : (xs : List A) → keep p xs ≡ [] → (y : A) → In y xs → p y ≡ false
    keep_none xs h y m = elim (Bool-cases (p y)) [
      | inl e ↦ let k : In y [] = rw h at (In-keep xs m e) in elim k [ ]
      | inr e ↦ e
    ]

    pub max_by_key-keep :
        (xs : List A)
        → ((max_by_key key (keep p xs) ≡ none) × ((y : A) → In y xs → p y ≡ false))
          ⊎ ((x : A) × (max_by_key key (keep p xs) ≡ some x) × IsChoice x xs)
    max_by_key-keep xs = elim (max_by_key-cases (keep p xs)) [
      | inl h ↦ inl (h.0, keep_none xs h.1)
      | inr h ↦ inr (h.0, h.1, IsChoice-keep xs h.2)
    ]

some_not_none {ℓ} : {A : Type ℓ} {o : Option A} {x : A} → o ≡ some x → o ≡ none → ⊥
some_not_none e h = cc

module _ {F Net : Type 0} (routes : List (CompiledRoute F Net)) (host path : Text) where
  abbrev matching : CompiledRoute F Net → Bool
  matching r = route_matches r host path

  -- The route that is chosen matches; no matching route listed before it is more specific, and every
  -- matching route listed behind it is less specific.
  pub match_route_sound :
      (r : CompiledRoute F Net)
      → match_route routes host path ≡ some r
      → IsChoice specificity (λ q. route_matches q host path) r routes
  unfolding match_route
  match_route_sound r h = elim (max_by_key-keep specificity matching routes) [
    | inl k ↦ absurd (some_not_none h k.0)
    | inr (x, e, c) ↦ let same : r ≡ x = cc in rw same c
  ]

  -- No route is found exactly when none matches.
  pub match_route-eq-none_iff :
      (match_route routes host path ≡ none)
      ↔ ((r : CompiledRoute F Net) → In r routes → route_matches r host path ≡ false)
  unfolding match_route
  match_route-eq-none_iff = elim (max_by_key-keep specificity matching routes) [
    | inl k ↦ (λ _. k.1, λ _. k.0)
    | inr (x, e, c) ↦ (
      λ h. absurd (some_not_none e h),
      λ h. absurd (false≢true (sym (h x (rw c.split (In-append_right c.before here))) ∙ c.passes)),
    )
  ]
