-- ===== src/Router/Filters/Headers.antt =====
-- What a route's rewriting does to one header.
use gatepup.Prelude.{
  ◌≡◌, refl, Bool, Option, none, some, List, [], ◌∷◌, Text, text_eq, text_eq→eq, text_eq-false, any,
  arith, Bool-cases, inl, inr, if◌then◌else◌,
}
use gatepup.Interfaces.{HttpLib, IsHeaderMap}
use gatepup.Router.Filters.{HeaderOps, remove_all, set_all, apply}

-- The last value that a list of assignments gives to a name.
abbrev pub assigned : Text → List (Text × Text) → Option Text → Option Text
assigned k [] before = before
assigned k ((n, v) ∷ es) before = assigned k es (if text_eq n k then some v else before)

abbrev pub listed : Text → List Text → Bool
listed k ns = any (λ n. text_eq n k) ns

module _ {Headers : Type 0} (http : HttpLib Headers) (laws : IsHeaderMap http) where
  pub get-insert :
      (n k v : Text) (m : Headers)
      → http.get k (http.insert n v m) ≡ (if text_eq n k then some v else http.get k m)
  get-insert n k v m = elim (Bool-cases (text_eq n k)) [
    | inl e ↦ rw (e, text_eq→eq n k e) (laws.get-insert_self k v m)
    | inr e ↦ rw e (laws.get-insert_ne n k v m (text_eq-false n k e))
  ]

  pub get-remove :
      (n k : Text) (m : Headers)
      → http.get k (http.remove n m) ≡ (if text_eq n k then none else http.get k m)
  get-remove n k m = elim (Bool-cases (text_eq n k)) [
    | inl e ↦ rw (e, text_eq→eq n k e) (laws.get-remove_self k m)
    | inr e ↦ rw e (laws.get-remove_ne n k m (text_eq-false n k e))
  ]

  pub get-remove_all :
      (k : Text) (ns : List Text) (m : Headers)
      → http.get k (remove_all http ns m) ≡ (if listed k ns then none else http.get k m)
  unfolding remove_all
  get-remove_all k [] m = refl
  get-remove_all k (n ∷ ns) m =
      ground (arith, get-remove_all k ns (http.remove n m), get-remove n k m)

  get-set_all :
      (k : Text) (es : List (Text × Text)) (m : Headers)
      → http.get k (set_all http es m) ≡ assigned k es (http.get k m)
  unfolding set_all
  get-set_all k [] m = refl
  get-set_all k ((n, v) ∷ es) m = rw (get-set_all k es (http.insert n v m), get-insert n k v m)

  -- After a route's rewriting a header has the last value that `set` gives it; if `set` does not
  -- name it, it is gone when `remove` names it, and as before when not.
  pub get-apply :
      (k : Text) (ops : HeaderOps) (m : Headers)
      → http.get k (apply http ops m)
        ≡ assigned k ops.set (if listed k ops.remove then none else http.get k m)
  unfolding apply
  get-apply k ops m =
      rw (get-set_all k ops.set (remove_all http ops.remove m), get-remove_all k ops.remove m)
