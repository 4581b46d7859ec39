-- ===== src/Proxy/Host.antt =====
-- crates/gatepup-proxy/src/proxy.rs: `request_host`, the host that the router looks up.
use gatepup.Prelude.{
  ◌≡◌, ◌≢◌, refl, ap, false, Option, some, [], ◌∷◌, or_else, unwrap_or, ◌>>=◌, first_or, split,
  to_ascii_lowercase, lower_idem, All, ◌==◌, ◌++◌, split_from, append-nil, append_assoc, ◌⊎◌, inl,
  inr, sym, ◌∙◌, starts_with, text_eq, Text, codes, Bool-cases, text_eq→eq,
}
use gatepup.Interfaces.{HttpLib}
use gatepup.Router.Host.{compile_host, host_matches}

-- `request_host`: the Host header, else the authority of the URI, without the port.
unfoldable pub request_host : {Headers : Type 0} → HttpLib Headers → Headers → Option Text → Text
request_host http m authority =
    let raw = unwrap_or [] (or_else (http.get (codes "host") m >>= http.to_str) authority) in
    to_ascii_lowercase (first_or [] (split b':' raw))

to_ascii_lowercase_idem :
    (s : Text) → to_ascii_lowercase (to_ascii_lowercase s) ≡ to_ascii_lowercase s
to_ascii_lowercase_idem [] = refl
to_ascii_lowercase_idem (c ∷ s) =
    let h = lower_idem c in let t = to_ascii_lowercase_idem s in rw (h, t) refl

request_host_lower :
    {Headers : Type 0} (http : HttpLib Headers) (m : Headers) (authority : Option Text)
    → to_ascii_lowercase (request_host http m authority) ≡ request_host http m authority
unfolding request_host
request_host_lower http m authority = to_ascii_lowercase_idem _

-- A configured host that has an upper-case letter, and is no wildcard, matches no request.
pub uppercase_host_unreachable :
    {Headers : Type 0} (http : HttpLib Headers) (m : Headers) (authority : Option Text) (h : Text)
    → h ≢ []
    → starts_with (codes "*.") h ≡ false
    → to_ascii_lowercase h ≢ h
    → host_matches (compile_host (some h)) (request_host http m authority) ≡ false
unfolding compile_host host_matches
uppercase_host_unreachable http m authority [] n w u = absurd (n refl)
uppercase_host_unreachable http m authority (c ∷ h) n w u =
    elim (Bool-cases (text_eq (c ∷ h) (request_host http m authority))) [
      | inl e ↦
          let s : (c ∷ h) ≡ request_host http m authority = text_eq→eq _ _ e in
          absurd (u (ap to_ascii_lowercase s ∙ request_host_lower http m authority ∙ sym s))
      | inr e ↦ rw (w) e
    ]

first_part :
    (cur h rest : Text)
    → All (λ c. (c == b':') ≡ false) h
    → (rest ≡ []) ⊎ ((p : Text) × (rest ≡ b':' ∷ p))
    → first_or [] (split_from b':' cur (h ++ rest)) ≡ cur ++ h
unfolding split_from
first_part cur [] rest a (inl e) = rw e (sym (append-nil cur))
first_part cur [] rest a (inr p) = rw (p.1) (sym (append-nil cur))
first_part cur (c ∷ h) rest a p =
    rw (a.0, first_part (cur ++ c ∷ []) h rest a.1 p) (append_assoc cur (c ∷ []) h)

-- The Host header decides by its name alone: any port after it is cut off, and its case is ignored.
pub request_host_port :
    {Headers : Type 0} (http : HttpLib Headers) (m : Headers) (authority : Option Text)
    (v h rest : Text)
    → http.get (codes "host") m ≡ some v
    → http.to_str v ≡ some (h ++ rest)
    → All (λ c. (c == b':') ≡ false) h
    → (rest ≡ []) ⊎ ((p : Text) × (rest ≡ b':' ∷ p))
    → request_host http m authority ≡ to_ascii_lowercase h
unfolding request_host
request_host_port http m authority v h rest g s a p = rw (g, s, first_part [] h rest a p) refl
