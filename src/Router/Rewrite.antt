-- ===== src/Router/Rewrite.antt =====
-- crates/gatepup-proxy/src/router.rs: `CompiledRoute::rewritten_path_and_query`. The argument is
-- `uri.path_and_query()` as a text, where the URI has one.
use gatepup.Prelude.{
  ◌≡◌, ◌≢◌, refl, true, Option, none, some, [], ◌∷◌, ◌++◌, ◌==◌, Text, codes, strip_prefix,
  strip_prefix-append, split_once, unwrap_or, All, arith, Bool-cases, inl, inr, if◌then◌else◌,
}
use gatepup.Router.Table.{CompiledRoute}

-- The three branches for `new_path`: an empty rest, one that begins with a slash, any other.
unfoldable pub with_slash : Text → Text
with_slash [] = codes "/"
with_slash (c ∷ s) = if c == b'/' then c ∷ s else b'/' ∷ c ∷ s

abbrev pub rejoin : Text → Option Text → Text
rejoin path none = path
rejoin path (some q) = path ++ b'?' ∷ q

-- `match original.split_once('?')`.
abbrev pub path_and_query : Option (Text × Text) → Text → Text × Option Text
path_and_query none original = (original, none)
path_and_query (some p) original = (p.0, some p.1)

unfoldable pub stripped : Text → Text → Text
unfolding with_slash
stripped prefix original =
    let parts = path_and_query (split_once b'?' original) original in
    rejoin (with_slash (unwrap_or parts.0 (strip_prefix prefix parts.0))) parts.1

unfoldable pub rewritten_path_and_query :
    {F Net : Type 0} → CompiledRoute F Net → Option Text → Text
rewritten_path_and_query r uri =
    let original = unwrap_or (codes "/") uri in
    if r.strip_prefix then stripped r.path_prefix original else original

-- A path has no question mark.
abbrev pub NoQuery : Text → Type 0
NoQuery path = All (λ c. c ≢ b'?') path

pub split_once-query :
    (path q : Text) → NoQuery path → split_once b'?' (path ++ b'?' ∷ q) ≡ some (path, q)
unfolding split_once
split_once-query [] q h = refl
split_once-query (c ∷ path) q h = ground (arith, split_once-query path q h.1)

pub split_once-path : (path : Text) → NoQuery path → split_once b'?' path ≡ none
unfolding split_once
split_once-path [] h = refl
split_once-path (c ∷ path) h = ground (arith, split_once-path path h.1)

with_slash-NoQuery : (s : Text) → NoQuery s → NoQuery (with_slash s)
unfolding with_slash
with_slash-NoQuery [] h = (omega arith, tt)
with_slash-NoQuery (c ∷ s) h = ground arith

NoQuery-suffix : (p s : Text) → NoQuery (p ++ s) → NoQuery s
NoQuery-suffix [] s h = h
NoQuery-suffix (c ∷ p) s h = NoQuery-suffix p s h.1

with_slash-cons : (s : Text) → (t : Text) × (with_slash s ≡ b'/' ∷ t)
unfolding with_slash
with_slash-cons [] = ([], refl)
with_slash-cons (c ∷ s) = elim (Bool-cases (c == b'/')) [
  | inl e ↦ (s, ground arith)
  | inr e ↦ (c ∷ s, ground arith)
]

rejoin-cons : (s : Text) (q : Option Text) → (t : Text) × (rejoin (with_slash s) q ≡ b'/' ∷ t)
rejoin-cons s none = with_slash-cons s
rejoin-cons s (some q) = let (t, e) = with_slash-cons s in (t ++ b'?' ∷ q, rw e)

stripped-cons : (prefix original : Text) → (t : Text) × (stripped prefix original ≡ b'/' ∷ t)
unfolding stripped
stripped-cons prefix original =
    let parts = path_and_query (split_once b'?' original) original in
    rejoin-cons (unwrap_or parts.0 (strip_prefix prefix parts.0)) parts.1

module _ {F Net : Type 0} (r : CompiledRoute F Net) (on : r.strip_prefix ≡ true) where
  -- With `stripPrefix` on, and a path that carries the prefix, the upstream sees the rest of the path,
  -- with a slash put in front where it has none, and the query unchanged.
  pub rewritten-query :
      (rest q : Text)
      → NoQuery (r.path_prefix ++ rest)
      → rewritten_path_and_query r (some ((r.path_prefix ++ rest) ++ b'?' ∷ q))
        ≡ with_slash rest ++ b'?' ∷ q
  unfolding rewritten_path_and_query stripped
  rewritten-query rest q h = rw (on, split_once-query _ q h, strip_prefix-append r.path_prefix rest)

  pub rewritten-path :
      (rest : Text)
      → NoQuery (r.path_prefix ++ rest)
      → rewritten_path_and_query r (some (r.path_prefix ++ rest)) ≡ with_slash rest
  unfolding rewritten_path_and_query stripped
  rewritten-path rest h = rw (on, split_once-path _ h, strip_prefix-append r.path_prefix rest)

  -- The rewritten target begins with a slash, whatever the request asked for.
  pub rewritten_absolute :
      (uri : Option Text) → (t : Text) × (rewritten_path_and_query r uri ≡ b'/' ∷ t)
  unfolding rewritten_path_and_query
  rewritten_absolute uri = rw on (stripped-cons r.path_prefix (unwrap_or (codes "/") uri))
