-- ===== src/Proxy/Auth/Credentials.antt =====
-- Which requests carry credentials that pass.
use gatepup.Prelude.{
  ℕ, ◌≡◌, ◌↔◌, ◌⊎◌, inl, inr, refl, true, false, Option, none, some, List, [], ◌∷◌, ◌++◌, ◌==◌, All,
  Bool-cases, Option-cases, Text, codes, strip_prefix, strip_prefix_sound, or_else, ◌>>=◌, trim,
  split_once, arith,
}
use gatepup.Interfaces.{HttpLib}
use gatepup.Proxy.Auth.{user_get, passes_iff, credentials, basic_auth_ok}

-- The split is at the first separator.
split_once_sound :
    (sep : ℕ) (s a b : Text)
    → split_once sep s ≡ some (a, b)
    → (s ≡ a ++ sep ∷ b) × All (λ c. (c == sep) ≡ false) a
unfolding split_once
split_once_sound sep [] a b h = absurd (ground arith)
split_once_sound sep (c ∷ s) a b h = elim (Bool-cases (c == sep)) [
  | inl e ↦
      let f : ◌≡◌ {A = Option (Text × Text)} (some ([], s)) (some (a, b)) = rw e at h in
      let x : [] ≡ a = cc in
      let y : s ≡ b = cc in let z : c ≡ sep = ground arith in rw (← x, ← y, z) (refl, tt)
  | inr e ↦ elim (Option-cases (split_once sep s)) [
    | inl n ↦ absurd (ground (arith, e, n))
    | inr p ↦
        let f : ◌≡◌ {A = Option (Text × Text)} (some (c ∷ p.0.0, p.0.1)) (some (a, b)) =
          rw (e, p.1) at h in
        let x : c ∷ p.0.0 ≡ a = cc in
        let y : p.0.1 ≡ b = cc in
        let (t, l) = split_once_sound sep s p.0.0 p.0.1 p.1 in rw (← x, ← y, t) (refl, (e, l))
  ]
]

split_once-first :
    (sep : ℕ) (a b : Text)
    → All (λ c. (c == sep) ≡ false) a
    → split_once sep (a ++ sep ∷ b) ≡ some (a, b)
unfolding split_once
split_once-first sep [] b l = ground arith
split_once-first sep (c ∷ a) b l = rw (l.0, split_once-first sep a b l.1) refl

-- The two spellings of the scheme that the code takes.
abbrev strip_basic : Text → Option Text
strip_basic value =
    or_else (strip_prefix (codes "Basic ") value) (strip_prefix (codes "basic ") value)

strip_basic_sound :
    (value b64 : Text)
    → strip_basic value ≡ some b64
    → (value ≡ codes "Basic " ++ b64) ⊎ (value ≡ codes "basic " ++ b64)
strip_basic_sound value b64 h = elim (Option-cases (strip_prefix (codes "Basic ") value)) [
  | inl n ↦ inr (strip_prefix_sound (codes "basic ") value b64 (rw n at h))
  | inr p ↦ inl (strip_prefix_sound (codes "Basic ") value b64 (ground (arith, p.1)))
]

strip_basic_complete :
    (value b64 : Text)
    → (value ≡ codes "Basic " ++ b64) ⊎ (value ≡ codes "basic " ++ b64)
    → strip_basic value ≡ some b64
unfolding strip_prefix
strip_basic_complete value b64 (inl e) = rw e refl
strip_basic_complete value b64 (inr e) = rw e refl

module _ {Headers : Type 0} (http : HttpLib Headers) (decode : Text → Option Text) where
  -- A header Authorization of visible text, with the scheme Basic, whose rest decodes to a user, the
  -- first colon, and a password.
  pub record Presents (m : Headers) (user pass : Text) : Type 0 where
    pub header : Text
    pub value : Text
    pub b64 : Text
    pub decoded : Text
    pub has_header : http.get (codes "authorization") m ≡ some header
    pub is_text : http.to_str header ≡ some value
    pub is_basic : (value ≡ codes "Basic " ++ b64) ⊎ (value ≡ codes "basic " ++ b64)
    pub decodes : decode (trim b64) ≡ some decoded
    pub splits : decoded ≡ user ++ b':' ∷ pass
    pub first_colon : All (λ c. (c == b':') ≡ false) user

  bind_some :
      {A B : Type 0} (o : Option A) (f : A → Option B) (b : B)
      → (o >>= f) ≡ some b
      → (a : A) × (o ≡ some a) × (f a ≡ some b)
  bind_some none f b h = absurd (ground arith)
  bind_some (some a) f b h = (a, refl, h)

  credentials-Presents :
      (m : Headers) (user pass : Text)
      → credentials http decode m ≡ some (user, pass)
      → Presents m user pass
  credentials-Presents m user pass h =
      let (decoded, h1, s) = bind_some _ (split_once b':') (user, pass) h in
      let (b64, h2, t) = bind_some _ (λ b. decode (trim b)) decoded h1 in
      let (value, h3, b) = bind_some _ strip_basic b64 h2 in
      let (header, g, v) = bind_some _ http.to_str value h3 in
      let (d, c) = split_once_sound b':' decoded user pass s in
      record {
        header = header;
        value = value;
        b64 = b64;
        decoded = decoded;
        has_header = g;
        is_text = v;
        is_basic = strip_basic_sound value b64 b;
        decodes = t;
        splits = d;
        first_colon = c;
      }

  Presents-credentials :
      (m : Headers) (user pass : Text)
      → Presents m user pass
      → credentials http decode m ≡ some (user, pass)
  Presents-credentials m user pass p =
      let b = strip_basic_complete p.value p.b64 p.is_basic in
      rw (p.has_header, p.is_text, b, p.decodes, p.splits)
        (split_once-first b':' user pass p.first_colon)

  -- A request passes exactly when its header Authorization is visible text that starts with `Basic ` or
  -- `basic `, the rest decodes, the decoded text has a colon, and what stands before the first colon is
  -- a user of the route whose password is what stands behind it. Every other request is refused: one
  -- without the header, with another scheme, with a text that does not decode or has no colon, with an
  -- unknown user or another password.
  pub basic_auth_ok_iff :
      (m : Headers) (users : List (Text × Text))
      → (basic_auth_ok http decode m users ≡ true)
        ↔ ((user : Text) × (pass : Text) × Presents m user pass × (user_get user users ≡ some pass))
  unfolding basic_auth_ok
  basic_auth_ok_iff m users = (
    λ h.
        let (user, pass, c, g) = (passes_iff (credentials http decode m) users).0 h in
        (user, pass, credentials-Presents m user pass c, g),
    λ w.
        let (user, pass, p, g) = w in
        (passes_iff (credentials http decode m) users).1
          (user, pass, Presents-credentials m user pass p, g),
  )
