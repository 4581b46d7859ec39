-- ===== src/Compress/Negotiation.antt =====
-- Which encoding the client gets, and that a response is compressed at most once.
use gatepup.Prelude.{
  ◌≡◌, refl, ap, sym, ◌⊎◌, ◌∙◌, Bool, true, false, ◌&&◌, ◌||◌, none, some, List, [], ◌∷◌, any,
  split, Text, codes, text_eq, text_eq→eq, text_eq-false, if◌then◌else◌, Bool-cases, Option-cases,
  inl, inr, arith,
}
use gatepup.Interfaces.{HttpLib, IsHeaderMap}
use gatepup.Proxy.Errors.{Response}
use gatepup.Router.Filters.Headers.{get-insert, get-remove}
use gatepup.Compress.{
  Compression, Encoding, gzip, br, encoding_token, main_part, Offers, note_token, read_tokens,
  choose_encoding, should_compress, append_vary, compress, maybe_compress,
}

-- Whether the client's list has a token.
abbrev pub offered : Text → List Text → Bool
offered name ts = any (λ t. text_eq (main_part t) name) ts

read_tokens-br :
    (ts : List Text) (o : Offers) → (read_tokens ts o).br ≡ (offered (codes "br") ts || o.br)
unfolding read_tokens
read_tokens-br [] o = refl
read_tokens-br (t ∷ ts) o = ground (arith, read_tokens-br ts (note_token (main_part t) o))

exclusive : (s a b : Text) → text_eq a b ≡ false → text_eq s a ≡ true → text_eq s b ≡ false
exclusive s a b d e = rw (text_eq→eq s a e) d

note-gzip :
    (name : Text) (o : Offers) → (note_token name o).gzip ≡ (text_eq name (codes "gzip") || o.gzip)
unfolding text_eq
note-gzip name o = elim (Bool-cases (text_eq name (codes "gzip"))) [
  | inl e ↦ rw (e, exclusive name (codes "gzip") (codes "br") refl e) refl
  | inr e ↦ ground arith
]

note-any :
    (name : Text) (o : Offers) → (note_token name o).any ≡ (text_eq name (codes "*") || o.any)
unfolding text_eq
note-any name o = elim (Bool-cases (text_eq name (codes "*"))) [
  | inl e ↦
      rw
        (
          e,
          exclusive name (codes "*") (codes "br") refl e,
          exclusive name (codes "*") (codes "gzip") refl e,
        )
        refl
  | inr e ↦ ground arith
]

read_tokens-gzip :
    (ts : List Text) (o : Offers) → (read_tokens ts o).gzip ≡ (offered (codes "gzip") ts || o.gzip)
unfolding read_tokens
read_tokens-gzip [] o = refl
read_tokens-gzip (t ∷ ts) o =
    ground (arith, read_tokens-gzip ts (note_token (main_part t) o), note-gzip (main_part t) o)

read_tokens-any :
    (ts : List Text) (o : Offers) → (read_tokens ts o).any ≡ (offered (codes "*") ts || o.any)
unfolding read_tokens
read_tokens-any [] o = refl
read_tokens-any (t ∷ ts) o =
    ground (arith, read_tokens-any ts (note_token (main_part t) o), note-any (main_part t) o)

-- Brotli is chosen exactly when it is enabled and offered, by name or by the star; gzip exactly when
-- it is enabled and offered and brotli is not chosen.
pub choose_encoding_cases :
    (accept : Text) (comp : Compression)
    → let ts = split b',' accept in
      let use_br = comp.br && (offered (codes "br") ts || offered (codes "*") ts) in
      let use_gzip = comp.gzip && (offered (codes "gzip") ts || offered (codes "*") ts) in
      choose_encoding accept comp
      ≡ (if use_br then some br else if use_gzip then some gzip else none)
unfolding choose_encoding
choose_encoding_cases accept comp =
    let ts = split b',' accept in
    let o : Offers = record { br = false; gzip = false; any = false } in
    rw (read_tokens-br ts o, read_tokens-gzip ts o, read_tokens-any ts o) (ground arith)

module _ {Headers : Type 0} (http : HttpLib Headers) (laws : IsHeaderMap http)
    (encode : Encoding → Text → Text) where
  get-append_vary :
      (k : Text) (m : Headers)
      → text_eq (codes "vary") k ≡ false
      → http.get k (append_vary http m) ≡ http.get k m
  unfolding append_vary
  get-append_vary k m d = ground (
    arith,
    laws.get-append_ne (codes "vary") k (codes "Accept-Encoding") m
        (text_eq-false (codes "vary") k d),
  )

  -- A compressed response names its encoding, and its length is gone.
  pub compress_headers :
      (resp : Response Headers) (enc : Encoding)
      → (http.get (codes "content-encoding") (compress http encode resp enc).headers
          ≡ some (encoding_token enc))
        × (http.get (codes "content-length") (compress http encode resp enc).headers ≡ none)
  unfolding compress text_eq
  compress_headers resp enc =
      let m = http.remove (codes "content-length") resp.headers in
      let e = http.insert (codes "content-encoding") (encoding_token enc) m in
      (
        get-append_vary (codes "content-encoding") e refl
            ∙ get-insert http laws (codes "content-encoding") (codes "content-encoding") _ m,
        get-append_vary (codes "content-length") e refl
            ∙ get-insert http laws (codes "content-encoding") (codes "content-length") _ m
            ∙ get-remove http laws (codes "content-length") (codes "content-length") resp.headers,
      )

  encoded_stays :
      (resp : Response Headers) (accept v : Text) (comp : Compression)
      → http.get (codes "content-encoding") resp.headers ≡ some v
      → maybe_compress http encode resp accept comp ≡ resp
  unfolding maybe_compress should_compress
  encoded_stays resp accept v comp e = rw e refl

  -- A response is left as it is, or compressed.
  pub maybe_compress_cases :
      (resp : Response Headers) (accept : Text) (comp : Compression)
      → (maybe_compress http encode resp accept comp ≡ resp)
        ⊎ ((enc : Encoding) × (maybe_compress http encode resp accept comp
              ≡ compress http encode resp enc))
  unfolding maybe_compress
  maybe_compress_cases resp accept comp =
      elim (Bool-cases (should_compress http resp.headers comp)) [
        | inl e ↦ elim (Option-cases (choose_encoding accept comp)) [
          | inl n ↦ inl (rw (e, n) refl)
          | inr c ↦ inr (c.0, rw (e, c.1) refl)
        ]
        | inr e ↦ inl (rw e refl)
      ]

  -- A response is compressed at most once: the second run leaves the result of the first alone,
  -- whatever the client accepts.
  pub maybe_compress_idem :
      (resp : Response Headers) (accept : Text) (comp : Compression)
      → maybe_compress http encode (maybe_compress http encode resp accept comp) accept comp
        ≡ maybe_compress http encode resp accept comp
  maybe_compress_idem resp accept comp =
      let again = λ (r : Response Headers). maybe_compress http encode r accept comp in
      elim (maybe_compress_cases resp accept comp) [
        | inl e ↦ ap again e
        | inr c ↦
            ap again c.1
            ∙ encoded_stays _ accept (encoding_token c.0) comp (compress_headers resp c.0).0
            ∙ sym c.1
      ]
