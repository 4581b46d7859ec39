-- ===== src/Traffic/Heap.antt =====
-- The heap of snapshots: what a change of one upstream leaves as it was.
use gatepup.Prelude.{
  ℕ, zero, suc, ◌≡◌, ◌⊎◌, refl, ap, ◌∙◌, false, some, List, [], ◌∷◌, ◌++◌, length, ◌==◌, get_elem?,
  set, table_get, table_insert, table_get-insert, table_insert-some, text_eq, text_eq→eq,
  Bool-cases, inl, inr, Text, arith,
}
use gatepup.Upstream.{UpstreamRuntime}
use gatepup.Upstream.Shared.Sound.{Shape, Shape-trans, Bounded}
use gatepup.Snapshot.{RuntimeConfig}

module _ {ℓ} {A : Type ℓ} where
  pub get_elem?-set_same :
      (xs : List A) (i : ℕ) (x : A) {y : A}
      → get_elem? xs i ≡ some y
      → get_elem? (set xs i x) i ≡ some x
  get_elem?-set_same [] i x h = absurd (ground arith)
  get_elem?-set_same (z ∷ xs) zero x h = refl
  get_elem?-set_same (z ∷ xs) (suc i) x h = get_elem?-set_same xs i x h

  pub get_elem?-set_other :
      (xs : List A) (i j : ℕ) (x : A) → (j == i) ≡ false → get_elem? (set xs i x) j ≡ get_elem? xs j
  get_elem?-set_other [] i j x h = refl
  get_elem?-set_other (z ∷ xs) zero zero x h = absurd (ground arith)
  get_elem?-set_other (z ∷ xs) zero (suc j) x h = refl
  get_elem?-set_other (z ∷ xs) (suc i) zero x h = refl
  get_elem?-set_other (z ∷ xs) (suc i) (suc j) x h = get_elem?-set_other xs i j x (ground arith)

  pub get_elem?-append :
      (xs ys : List A) (i : ℕ) {y : A} → get_elem? xs i ≡ some y → get_elem? (xs ++ ys) i ≡ some y
  get_elem?-append [] ys i h = absurd (ground arith)
  get_elem?-append (z ∷ xs) ys zero h = h
  get_elem?-append (z ∷ xs) ys (suc i) h = get_elem?-append xs ys i h

  pub get_elem?-last : (xs : List A) (y : A) → get_elem? (xs ++ y ∷ []) (length xs) ≡ some y
  get_elem?-last [] y = refl
  get_elem?-last (z ∷ xs) y = get_elem?-last xs y

  pub get_elem?-set :
      (xs : List A) (i j : ℕ) (x : A) {y : A}
      → get_elem? (set xs i x) j ≡ some y
      → (y ≡ x) ⊎ (get_elem? xs j ≡ some y)
  get_elem?-set [] i j x h = inr h
  get_elem?-set (z ∷ xs) zero zero x h = inl (ground arith)
  get_elem?-set (z ∷ xs) zero (suc j) x h = inr h
  get_elem?-set (z ∷ xs) (suc i) zero x h = inr h
  get_elem?-set (z ∷ xs) (suc i) (suc j) x h = get_elem?-set xs i j x h

  pub get_elem?-append_one :
      (xs : List A) (j : ℕ) (x : A) {y : A}
      → get_elem? (xs ++ x ∷ []) j ≡ some y
      → (y ≡ x) ⊎ (get_elem? xs j ≡ some y)
  get_elem?-append_one [] zero x h = inl (ground arith)
  get_elem?-append_one [] (suc j) x h = inr h
  get_elem?-append_one (z ∷ xs) zero x h = inr h
  get_elem?-append_one (z ∷ xs) (suc j) x h = get_elem?-append_one xs j x h

  pub set_twice : (xs : List A) (i : ℕ) (x y : A) → set (set xs i x) i y ≡ set xs i y
  set_twice [] i x y = refl
  set_twice (z ∷ xs) zero x y = refl
  set_twice (z ∷ xs) (suc i) x y = ap (λ ys. z ∷ ys) (set_twice xs i x y)

  pub set_same : (xs : List A) (i : ℕ) (x : A) → get_elem? xs i ≡ some x → set xs i x ≡ xs
  set_same [] i x h = refl
  set_same (z ∷ xs) zero x h = ground arith
  set_same (z ∷ xs) (suc i) x h = ap (λ ys. z ∷ ys) (set_same xs i x h)

pub Shape-refl : (u : UpstreamRuntime) → Shape u u
Shape-refl u = record { schedule = refl; targets = refl }

module _ {F Net Tls : Type 0} where
  -- The same routes and settings, and every upstream with its schedule and its number of targets.
  pub record Kept (a b : RuntimeConfig F Net Tls) : Type 0 where
    pub listeners : b.listeners ≡ a.listeners
    pub limit : b.max_body_bytes ≡ a.max_body_bytes
    pub compression : b.compression ≡ a.compression
    pub upstreams :
        (name : Text) (u : UpstreamRuntime)
        → table_get name a.upstreams ≡ some u
        → (v : UpstreamRuntime) × (table_get name b.upstreams ≡ some v) × Shape u v

  pub Kept-refl : (a : RuntimeConfig F Net Tls) → Kept a a
  Kept-refl a = record {
    listeners = refl;
    limit = refl;
    compression = refl;
    upstreams = λ name u e. (u, e, Shape-refl u);
  }

  pub Kept-trans : (a b c : RuntimeConfig F Net Tls) → Kept a b → Kept b c → Kept a c
  Kept-trans a b c p q = record {
    listeners = q.listeners ∙ p.listeners;
    limit = q.limit ∙ p.limit;
    compression = q.compression ∙ p.compression;
    upstreams = λ name u e.
        let (v, f, s) = p.upstreams name u e in
        let (w, g, t) = q.upstreams name v f in (w, g, Shape-trans u v w s t);
  }

  abbrev pub KeptAll : List (RuntimeConfig F Net Tls) → List (RuntimeConfig F Net Tls) → Type 0
  KeptAll h k =
      (g : ℕ) (a : RuntimeConfig F Net Tls)
      → get_elem? h g ≡ some a
      → (b : RuntimeConfig F Net Tls) × (get_elem? k g ≡ some b) × Kept a b

  pub KeptAll-refl : (h : List (RuntimeConfig F Net Tls)) → KeptAll h h
  KeptAll-refl h g a e = (a, e, Kept-refl a)

  pub KeptAll-append : (h k : List (RuntimeConfig F Net Tls)) → KeptAll h (h ++ k)
  KeptAll-append h k g a e = (a, get_elem?-append h k g e, Kept-refl a)

  abbrev pub with_upstream :
      RuntimeConfig F Net Tls → Text → UpstreamRuntime → RuntimeConfig F Net Tls
  with_upstream a name u = record a { upstreams = table_insert name u a.upstreams }

  pub with_upstream-Kept :
      (a : RuntimeConfig F Net Tls) (name : Text) (u v : UpstreamRuntime)
      → table_get name a.upstreams ≡ some u
      → Shape u v
      → Kept a (with_upstream a name v)
  with_upstream-Kept a name u v e s = record {
    listeners = refl;
    limit = refl;
    compression = refl;
    upstreams = λ k w f. elim (Bool-cases (text_eq name k)) [
      | inl q ↦
          let same : name ≡ k = text_eq→eq name k q in
          let t : u ≡ w = cc in (v, rw (table_get-insert k name v a.upstreams, q) refl, rw (← t) s)
      | inr q ↦ (w, rw (table_get-insert k name v a.upstreams, q) f, Shape-refl w)
    ];
  }

  pub set-KeptAll :
      (h : List (RuntimeConfig F Net Tls)) (g : ℕ) (a b : RuntimeConfig F Net Tls)
      → get_elem? h g ≡ some a
      → Kept a b
      → KeptAll h (set h g b)
  set-KeptAll h g a b e s j c f = elim (Bool-cases (j == g)) [
    | inl q ↦
        let same : j ≡ g = ground arith in
        let t : a ≡ c = cc in (b, rw same (get_elem?-set_same h g b e), rw (← t) s)
    | inr q ↦ (c, get_elem?-set_other h g j b q ∙ f, Kept-refl c)
  ]

  -- Every slot of every upstream names a target.
  abbrev pub IsSound : RuntimeConfig F Net Tls → Type 0
  IsSound a = (name : Text) (u : UpstreamRuntime) → table_get name a.upstreams ≡ some u → Bounded u

  pub with_upstream-IsSound :
      (a : RuntimeConfig F Net Tls) (name : Text) (v : UpstreamRuntime)
      → IsSound a
      → Bounded v
      → IsSound (with_upstream a name v)
  with_upstream-IsSound a name v h b k w e = elim (table_insert-some k name v a.upstreams e) [
    | inl q ↦ rw q b
    | inr q ↦ h k w q
  ]

  -- Every snapshot of the heap is sound.
  abbrev pub Sounds : List (RuntimeConfig F Net Tls) → Type 0
  Sounds h = (g : ℕ) (a : RuntimeConfig F Net Tls) → get_elem? h g ≡ some a → IsSound a

  pub set-Sounds :
      (h : List (RuntimeConfig F Net Tls)) (g : ℕ) (b : RuntimeConfig F Net Tls)
      → Sounds h
      → IsSound b
      → Sounds (set h g b)
  set-Sounds h g b s t j c e = elim (get_elem?-set h g j b e) [ inl q ↦ rw q t | inr q ↦ s j c q ]

  pub append-Sounds :
      (h : List (RuntimeConfig F Net Tls)) (b : RuntimeConfig F Net Tls)
      → Sounds h
      → IsSound b
      → Sounds (h ++ b ∷ [])
  append-Sounds h b s t j c e = elim (get_elem?-append_one h j b e) [
    | inl q ↦ rw q t
    | inr q ↦ s j c q
  ]
