-- ===== src/Tls.antt =====
-- crates/gatepup-proxy/src/tls.rs: the acceptor of a TLS listener from the files of its configuration. The
-- file system and the packages rustls and rustls-pemfile are arguments.
pub mod Material
pub mod Secured
mod Tests
use gatepup.Prelude.{Option, none, some, List, [], ◌∷◌, ◌++◌, ◌⊎◌, inl, inr, Text, codes}
use gatepup.Config.Model.{TlsConfig}

pub data TlsError : Type 0 where
  read : Text → Text → TlsError
  no_certs : Text → TlsError
  no_key : Text → TlsError
  invalid : Text → TlsError

-- `File::open` and a `BufReader`, `rustls_pemfile::certs`, which gives a certificate or an error for each
-- section of the file, `rustls_pemfile::private_key`, and the two steps of the builder of a
-- `ServerConfig` that can fail. Their errors are the texts that they print, and `debug` is how a path is
-- printed.
pub record Pem (Reader Cert Key Versions Acceptor : Type 0) : Type 0 where
  pub file_open : Text → Text ⊎ Reader
  pub certs : Reader → List (Text ⊎ Cert)
  pub private_key : Reader → Text ⊎ Option Key
  pub default_versions : Text ⊎ Versions
  pub single_cert : Versions → List Cert → Key → Text ⊎ Acceptor
  pub debug : Text → Text

-- The `Display` of a `TlsError`.
abbrev pub message : (Text → Text) → TlsError → Text
message debug (read path source) =
    codes "failed to read TLS file " ++ debug path ++ codes ": " ++ source
message debug (no_certs path) = codes "no certificates found in " ++ debug path
message debug (no_key path) = codes "no private key found in " ++ debug path
message debug (invalid e) = codes "invalid TLS material: " ++ e

-- `map_err`, and what is done with a value.
abbrev pub and_then {ℓ κ} :
    {A : Type ℓ} {B : Type κ} → (Text → TlsError) → Text ⊎ A → (A → TlsError ⊎ B) → TlsError ⊎ B
and_then e (inl m) f = inl (e m)
and_then e (inr a) f = f a

abbrev pub bind {ℓ κ} : {A : Type ℓ} {B : Type κ} → TlsError ⊎ A → (A → TlsError ⊎ B) → TlsError ⊎ B
bind (inl e) f = inl e
bind (inr a) f = f a

-- `collect::<Result<Vec<_>, _>>()`: the first error, or every certificate.
abbrev pub cons {ℓ} : {A : Type ℓ} → Text ⊎ A → Text ⊎ List A → Text ⊎ List A
cons (inl e) rest = inl e
cons (inr a) (inl e) = inl e
cons (inr a) (inr rest) = inr (a ∷ rest)

unfoldable pub collect {ℓ} : {A : Type ℓ} → List (Text ⊎ A) → Text ⊎ List A
collect [] = inr []
collect (x ∷ xs) = cons x (collect xs)

module _ {Reader Cert Key Versions Acceptor : Type 0}
    (pem : Pem Reader Cert Key Versions Acceptor) where
  abbrev pub open_file : Text → TlsError ⊎ Reader
  open_file path = and_then (read path) (pem.file_open path) inr

  abbrev pub some_certs : Text → List Cert → TlsError ⊎ List Cert
  some_certs path [] = inl (no_certs path)
  some_certs path (c ∷ cs) = inr (c ∷ cs)

  unfoldable pub load_certs : Text → TlsError ⊎ List Cert
  load_certs path =
      bind (open_file path) (λ r. and_then (read path) (collect (pem.certs r)) (some_certs path))

  abbrev pub ok_or : Text → Option Key → TlsError ⊎ Key
  ok_or path none = inl (no_key path)
  ok_or path (some k) = inr k

  unfoldable pub load_key : Text → TlsError ⊎ Key
  load_key path = bind (open_file path) (λ r. and_then (read path) (pem.private_key r) (ok_or path))

  unfoldable pub build_acceptor : TlsConfig → TlsError ⊎ Acceptor
  build_acceptor tls = bind (load_certs tls.cert) (λ certs. bind (load_key tls.key) (λ key.
      and_then invalid pem.default_versions
        (λ v. and_then invalid (pem.single_cert v certs key) inr)))

  -- `map_err(|e| … e.to_string())`, as `build_snapshot` calls it.
  abbrev pub printed : TlsError ⊎ Acceptor → Text ⊎ Acceptor
  printed (inl e) = inl (message pem.debug e)
  printed (inr a) = inr a

  abbrev pub acceptor : TlsConfig → Text ⊎ Acceptor
  acceptor tls = printed (build_acceptor tls)
