-- ===== src/Router/Host.antt =====
-- crates/gatepup-proxy/src/router.rs: `HostMatch`.
use gatepup.Prelude.{
  ℕ, ◌-◌, ◌<◌, ◌≡◌, ◌≢◌, ◌↔◌, refl, sym, ap, ◌∙◌, Bool, true, ◌&&◌, Option, none, some, [], ◌∷◌,
  ◌++◌, ltb, leb, ltb→lt, lt→ltb, length, length-append, Text, codes, text_eq, text_eq→eq,
  text_eq_self, starts_with, ends_with, drop, take, take-append-drop, length-take_le, drop-append,
  arith, if◌then◌else◌,
}

pub data HostMatch : Type 0 where
  any_host : HostMatch
  exact : Text → HostMatch
  wildcard : Text → HostMatch

-- `HostMatch::compile`; `h[1..]` keeps the dot.
unfoldable pub compile_host : Option Text → HostMatch
compile_host none = any_host
compile_host (some []) = any_host
compile_host (some (c ∷ h)) = if starts_with (codes "*.") (c ∷ h) then wildcard h else exact (c ∷ h)

-- `HostMatch::matches`.
unfoldable pub host_matches : HostMatch → Text → Bool
host_matches any_host host = true
host_matches (exact h) host = text_eq h host
host_matches (wildcard suffix) host = ltb (length suffix) (length host) && ends_with suffix host

-- `HostMatch::rank`.
unfoldable pub rank : HostMatch → ℕ
rank (exact h) = 2
rank (wildcard s) = 1
rank any_host = 0

ends_with_sound :
    (suffix s : Text) → ends_with suffix s ≡ true → s ≡ take (length s - length suffix) s ++ suffix
ends_with_sound suffix s h =
    let e : drop (length s - length suffix) s ≡ suffix = text_eq→eq _ _ (ground arith) in
    sym (take-append-drop (length s - length suffix) s)
    ∙ ap (λ t. take (length s - length suffix) s ++ t) e

ends_with-append : (label suffix : Text) → ends_with suffix (label ++ suffix) ≡ true
ends_with-append label suffix =
    let size = length-append label suffix in
    let cut : length (label ++ suffix) - length suffix ≡ length label = omega arith in
    let fits : leb (length suffix) (length (label ++ suffix)) ≡ true = ground arith in
    rw (fits, cut, drop-append label suffix) (text_eq_self suffix)

-- A wildcard host matches exactly the texts that are a non-empty label before its suffix; an exact
-- host matches itself alone.
abbrev pub Admits : HostMatch → Text → Type 0
Admits any_host host = Unit
Admits (exact h) host = h ≡ host
Admits (wildcard suffix) host = (label : Text) × (label ≢ []) × (host ≡ label ++ suffix)

wildcard_sound :
    (suffix host : Text)
    → host_matches (wildcard suffix) host ≡ true
    → Admits (wildcard suffix) host
unfolding host_matches
wildcard_sound suffix host h =
    let longer : length suffix < length host = ltb→lt _ _ (ground arith) in
    let label = take (length host - length suffix) host in
    let size : length label ≡ length host - length suffix = length-take_le _ host (omega arith) in
    (label, (λ e. no_label label size longer e), ends_with_sound suffix host (ground arith))
  where
    no_label :
        (label : Text)
        → length label ≡ length host - length suffix
        → length suffix < length host
        → label ≢ []
    no_label label size longer e = let z : length label ≡ 0 = ap length e in absurd (omega arith)

wildcard_complete :
    (suffix label : Text) → label ≢ [] → host_matches (wildcard suffix) (label ++ suffix) ≡ true
unfolding host_matches
wildcard_complete suffix [] h = absurd (h refl)
wildcard_complete suffix (c ∷ label) h =
    let size = length-append (c ∷ label) suffix in
    let longer : ltb (length suffix) (length ((c ∷ label) ++ suffix)) ≡ true =
      lt→ltb _ _ (omega arith) in
    rw longer (ends_with-append (c ∷ label) suffix)

-- `matches` decides `Admits`.
pub host_matches_iff : (m : HostMatch) (host : Text) → (host_matches m host ≡ true) ↔ Admits m host
unfolding host_matches
host_matches_iff any_host host = (λ _. tt, λ _. refl)
host_matches_iff (exact h) host = (text_eq→eq h host, λ e. rw e (text_eq_self host))
host_matches_iff (wildcard suffix) host =
    (wildcard_sound suffix host, λ (label, ne, e). rw e (wildcard_complete suffix label ne))
