-- ===== src/Tls/Material.antt =====
-- What an acceptor is made of.
use gatepup.Prelude.{
  ◌≡◌, ◌≢◌, ◌⊎◌, inl, inr, refl, ap, ◌∙◌, Option, none, some, List, [], ◌∷◌, Text, arith,
}
use gatepup.Config.Model.{TlsConfig}
use gatepup.Tls.{
  TlsError, read, invalid, Pem, and_then, bind, collect, printed, some_certs, ok_or, open_file,
  load_certs, load_key, build_acceptor, acceptor,
}

module _ {ℓ κ} {A : Type ℓ} {B : Type κ} where
  and_then-inr :
      (e : Text → TlsError) (x : Text ⊎ A) (f : A → TlsError ⊎ B) {b : B}
      → and_then e x f ≡ inr b
      → (a : A) × (x ≡ inr a) × (f a ≡ inr b)
  and_then-inr e (inl m) f h = absurd (ground arith)
  and_then-inr e (inr a) f h = (a, refl, h)

  bind-inr :
      (x : TlsError ⊎ A) (f : A → TlsError ⊎ B) {b : B}
      → bind x f ≡ inr b
      → (a : A) × (x ≡ inr a) × (f a ≡ inr b)
  bind-inr (inl m) f h = absurd (ground arith)
  bind-inr (inr a) f h = (a, refl, h)

module _ {Reader Cert Key Versions Acceptor : Type 0}
    (pem : Pem Reader Cert Key Versions Acceptor) where
  -- What an acceptor is made of: every certificate of the file of certificates, at least one, and the key
  -- of the file of the key.
  pub record Material (tls : TlsConfig) (t : Acceptor) : Type 0 where
    pub cert_file : Reader
    pub key_file : Reader
    pub certs : List Cert
    pub key : Key
    pub versions : Versions
    pub cert_opened : pem.file_open tls.cert ≡ inr cert_file
    pub certs_read : collect (pem.certs cert_file) ≡ inr certs
    pub some_cert : certs ≢ []
    pub key_opened : pem.file_open tls.key ≡ inr key_file
    pub key_read : pem.private_key key_file ≡ inr (some key)
    pub built : pem.single_cert versions certs key ≡ inr t

  opened : (path : Text) (r : Reader) → open_file pem path ≡ inr r → pem.file_open path ≡ inr r
  opened path r h =
      let (q, e, f) = and_then-inr (read path) (pem.file_open path) inr h in
      let s : q ≡ r = cc in e ∙ ap inr s

  some_certs-inr :
      (path : Text) (found cs : List Cert)
      → some_certs pem path found ≡ inr cs
      → (found ≡ cs) × (cs ≢ [])
  some_certs-inr path [] cs h = absurd (ground arith)
  some_certs-inr path (c ∷ found) cs h = let s : c ∷ found ≡ cs = cc in (s, λ e. ground arith)

  ok_or-inr : (path : Text) (o : Option Key) (k : Key) → ok_or pem path o ≡ inr k → o ≡ some k
  ok_or-inr path none k h = absurd (ground arith)
  ok_or-inr path (some j) k h = let s : j ≡ k = cc in ap some s

  load_certs-inr :
      (path : Text) (cs : List Cert)
      → load_certs pem path ≡ inr cs
      → (r : Reader) × (pem.file_open path ≡ inr r) × (collect (pem.certs r) ≡ inr cs) × (cs ≢ [])
  unfolding load_certs
  load_certs-inr path cs h =
      let (r, o, g) = bind-inr (open_file pem path) _ h in
      let (ds, e, f) = and_then-inr (read path) (collect (pem.certs r)) (some_certs pem path) g in
      let (s, n) = some_certs-inr path ds cs f in (r, opened path r o, e ∙ ap inr s, n)

  load_key-inr :
      (path : Text) (k : Key)
      → load_key pem path ≡ inr k
      → (r : Reader) × (pem.file_open path ≡ inr r) × (pem.private_key r ≡ inr (some k))
  unfolding load_key
  load_key-inr path k h =
      let (r, o, g) = bind-inr (open_file pem path) _ h in
      let (x, e, f) = and_then-inr (read path) (pem.private_key r) (ok_or pem path) g in
      (r, opened path r o, e ∙ ap inr (ok_or-inr path x k f))

  build_acceptor-Material :
      (tls : TlsConfig) (t : Acceptor) → build_acceptor pem tls ≡ inr t → Material tls t
  unfolding build_acceptor
  build_acceptor-Material tls t h =
      let (cs, c, h1) = bind-inr (load_certs pem tls.cert) _ h in
      let (k, d, h2) = bind-inr (load_key pem tls.key) _ h1 in
      let (v, e, h3) = and_then-inr invalid pem.default_versions _ h2 in
      let (q, f, h4) = and_then-inr invalid (pem.single_cert v cs k) inr h3 in
      let s : q ≡ t = cc in
      let (r, o, g, n) = load_certs-inr tls.cert cs c in
      let (p, j, i) = load_key-inr tls.key k d in
      record {
        cert_file = r;
        key_file = p;
        certs = cs;
        key = k;
        versions = v;
        cert_opened = o;
        certs_read = g;
        some_cert = n;
        key_opened = j;
        key_read = i;
        built = f ∙ ap inr s;
      }

  pub acceptor-Material :
      (tls : TlsConfig) (t : Acceptor) → acceptor pem tls ≡ inr t → Material tls t
  acceptor-Material tls t h = of_result (build_acceptor pem tls) h refl
    where
      of_result :
          (r : TlsError ⊎ Acceptor)
          → printed pem r ≡ inr t
          → build_acceptor pem tls ≡ r
          → Material tls t
      of_result (inl e) g d = absurd (ground arith)
      of_result (inr a) g d = let s : a ≡ t = cc in build_acceptor-Material tls t (d ∙ ap inr s)
