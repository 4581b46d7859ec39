-- ===== src/Proxy/Auth.antt =====
-- crates/gatepup-proxy/src/proxy.rs: `basic_auth_ok` and `constant_time_eq`, which
-- crates/gatepup-admin/src/api.rs repeats. Base64 is an argument; a decoded text is one that
-- `from_utf8` accepts.
pub mod Credentials
use gatepup.Prelude.{
  ℕ, ◌≡◌, ◌↔◌, refl, Bool, true, false, not, Option, none, some, List, [], ◌∷◌, ◌==◌, bit_or,
  bit_xor, bit_xor-zero_iff, bit_or-zero_iff, length, Text, codes, text_eq, strip_prefix, or_else,
  ◌>>=◌, trim, split_once, if◌then◌else◌, arith,
}
use gatepup.Interfaces.{HttpLib}

-- The loop of `constant_time_eq` over `a.iter().zip(b.iter())`.
unfoldable pub fold_diff : ℕ → Text → Text → ℕ
fold_diff diff [] b = diff
fold_diff diff (x ∷ a) [] = diff
fold_diff diff (x ∷ a) (y ∷ b) = fold_diff (bit_or diff (bit_xor x y)) a b

-- `constant_time_eq`.
unfoldable pub constant_time_eq : Text → Text → Bool
constant_time_eq a b = if not (length a == length b) then false else fold_diff 0 a b == 0

fold_diff-zero :
    (diff : ℕ) (a b : Text) → length a ≡ length b → fold_diff diff a b ≡ 0 → (diff ≡ 0) × (a ≡ b)
unfolding fold_diff
fold_diff-zero diff [] [] l h = (h, refl)
fold_diff-zero diff [] (y ∷ b) l h = absurd (omega arith)
fold_diff-zero diff (x ∷ a) [] l h = absurd (omega arith)
fold_diff-zero diff (x ∷ a) (y ∷ b) l h =
    let (z, e) = fold_diff-zero (bit_or diff (bit_xor x y)) a b (omega arith) h in
    let (d, f) = (bit_or-zero_iff diff (bit_xor x y)).0 z in
    let g = (bit_xor-zero_iff x y).0 f in (d, rw (e, g) refl)

fold_diff_self : (a : Text) → fold_diff 0 a a ≡ 0
unfolding fold_diff
fold_diff_self [] = refl
fold_diff_self (x ∷ a) = rw ((bit_xor-zero_iff x x).1 refl) (fold_diff_self a)

-- The comparison that reads every byte answers what equality answers.
pub constant_time_eq_iff : (a b : Text) → (constant_time_eq a b ≡ true) ↔ (a ≡ b)
unfolding constant_time_eq
constant_time_eq_iff a b = (
  λ h. (fold_diff-zero 0 a b (ground arith) (ground arith)).1,
  λ e. rw e (ground (arith, fold_diff_self b)),
)

-- `HashMap::get` on the users of a route, in the order of the configuration.
abbrev pub user_get : Text → List (Text × Text) → Option Text
user_get user [] = none
user_get user (e ∷ es) = if text_eq e.0 user then some e.1 else user_get user es

abbrev pub check_password : Text → Option Text → Bool
check_password pass none = false
check_password pass (some expected) = constant_time_eq pass expected

check_password_sound :
    (pass : Text) (found : Option Text) → check_password pass found ≡ true → found ≡ some pass
check_password_sound pass none h = absurd (ground arith)
check_password_sound pass (some expected) h = rw ((constant_time_eq_iff pass expected).0 h) refl

abbrev pub passes : Option (Text × Text) → List (Text × Text) → Bool
passes none users = false
passes (some c) users = check_password c.1 (user_get c.0 users)

pub passes_iff :
    (o : Option (Text × Text)) (users : List (Text × Text))
    → (passes o users ≡ true) ↔ (
        (user : Text) × (pass : Text) × (o ≡ some (user, pass)) × (user_get user users ≡ some pass))
passes_iff none users =
    (λ h. absurd (ground arith), λ w. let (u, p, f, g) = w in absurd (ground arith))
passes_iff (some c) users = (
  λ h. (c.0, c.1, refl, check_password_sound c.1 (user_get c.0 users) h),
  λ w.
      let (u, p, f, g) = w in
      let e : c ≡ (u, p) = cc in rw (e, g) ((constant_time_eq_iff p p).1 refl),
)

module _ {Headers : Type 0} (http : HttpLib Headers) (decode : Text → Option Text) where
  -- The credentials of a request: the early returns of `basic_auth_ok`.
  abbrev pub credentials : Headers → Option (Text × Text)
  credentials m =
      http.get (codes "authorization") m
      >>= http.to_str
      >>= (λ value.
          or_else (strip_prefix (codes "Basic ") value) (strip_prefix (codes "basic ") value))
      >>= (λ b64. decode (trim b64))
      >>= split_once b':'

  -- `basic_auth_ok`.
  unfoldable pub basic_auth_ok : Headers → List (Text × Text) → Bool
  basic_auth_ok m users = passes (credentials m) users
