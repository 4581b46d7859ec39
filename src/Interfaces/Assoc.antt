-- ===== src/Interfaces/Assoc.antt =====
-- A header map that meets the laws: a list of names and values, the first of a name being the one
-- that `get` reads.
use gatepup.Prelude.{
  ◌≡◌, ◌≢◌, refl, false, not, Option, none, some, List, [], ◌∷◌, ◌++◌, keep, Text, text_eq,
  text_eq_self, text_eq→eq, Bool-cases, inl, inr, if◌then◌else◌, arith,
}
use gatepup.Interfaces.{HttpLib, IsHeaderMap}

abbrev pub Headers : Type 0
Headers = List (Text × Text)

unfoldable pub lookup : Text → Headers → Option Text
lookup n [] = none
lookup n (e ∷ m) = if text_eq e.0 n then some e.1 else lookup n m

unfoldable pub delete : Text → Headers → Headers
delete n m = keep (λ e. not (text_eq e.0 n)) m

abbrev pub assoc : HttpLib Headers
assoc = record {
  header_name = λ t. some t;
  header_value = λ t. some t;
  method = λ t. some t;
  empty = [];
  get = lookup;
  to_str = λ t. some t;
  insert = λ n v m. (n, v) ∷ delete n m;
  append = λ n v m. m ++ (n, v) ∷ [];
  remove = delete;
}

text_eq-ne : (n k : Text) → n ≢ k → text_eq n k ≡ false
text_eq-ne n k d = elim (Bool-cases (text_eq n k)) [
  | inl e ↦ absurd (d (text_eq→eq n k e))
  | inr e ↦ e
]

lookup-delete_self : (n : Text) (m : Headers) → lookup n (delete n m) ≡ none
unfolding lookup delete
lookup-delete_self n [] = refl
lookup-delete_self n (e ∷ m) = ground (arith, lookup-delete_self n m)

lookup-delete_ne : (n k : Text) (m : Headers) → n ≢ k → lookup k (delete n m) ≡ lookup k m
unfolding lookup delete
lookup-delete_ne n k [] d = refl
lookup-delete_ne n k (e ∷ m) d = elim (Bool-cases (text_eq e.0 n)) [
  | inl s ↦
      let f : text_eq e.0 k ≡ false = rw (text_eq→eq e.0 n s) (text_eq-ne n k d) in
      ground (arith, lookup-delete_ne n k m d)
  | inr s ↦ ground (arith, lookup-delete_ne n k m d)
]

lookup-append_ne : (n k v : Text) (m : Headers) → n ≢ k → lookup k (m ++ (n, v) ∷ []) ≡ lookup k m
unfolding lookup
lookup-append_ne n k v [] d = rw (text_eq-ne n k d) refl
lookup-append_ne n k v (e ∷ m) d = ground (arith, lookup-append_ne n k v m d)

pub assoc-IsHeaderMap : IsHeaderMap assoc
unfolding lookup
assoc-IsHeaderMap = record {
  get-empty = λ n. refl;
  get-insert_self = λ n v m. rw (text_eq_self n) refl;
  get-insert_ne = λ n k v m d. rw (text_eq-ne n k d) (lookup-delete_ne n k m d);
  get-remove_self = lookup-delete_self;
  get-remove_ne = lookup-delete_ne;
  get-append_ne = lookup-append_ne;
}
