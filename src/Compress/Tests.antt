-- ===== src/Compress/Tests.antt =====
-- Negotiation and compression of concrete responses.
use gatepup.Prelude.{
  ◌≡◌, refl, true, false, some, none, [], ◌∷◌, ◌&&◌, ◌||◌, split, Text, codes, text_eq, split_from,
  if◌then◌else◌,
}
use gatepup.Interfaces.Assoc.{Headers, assoc, lookup}
use gatepup.Proxy.Errors.{Response}
use gatepup.Compress.{
  Compression, Encoding, gzip, br, read_tokens, choose_encoding, should_compress, maybe_compress,
  compress,
}
use gatepup.Compress.Negotiation.{offered, choose_encoding_cases}

abbrev gzip_only : Compression
gzip_only = record { gzip = true; br = false; min_bytes = 1; types = codes "text/html" ∷ [] }

star_means_gzip : choose_encoding (codes "br, *;q=0.5") gzip_only ≡ some gzip
unfolding choose_encoding read_tokens split_from text_eq
star_means_gzip = refl

choose_encoding_cases_example :
    let ts = split b',' (codes "br, *;q=0.5") in
    choose_encoding (codes "br, *;q=0.5") gzip_only ≡ (
      if false && (offered (codes "br") ts || offered (codes "*") ts)
      then some br
      else if true && (offered (codes "gzip") ts || offered (codes "*") ts)
      then some gzip
      else none)
choose_encoding_cases_example = choose_encoding_cases (codes "br, *;q=0.5") gzip_only

abbrev page : Response Headers
page = record {
  status = 200;
  headers = (codes "content-type", codes "text/html") ∷ [];
  body = codes "hello";
}

abbrev marked : Encoding → Text → Text
marked e t = 0 ∷ t

compresses : (maybe_compress assoc marked page (codes "gzip") gzip_only).body ≡ 0 ∷ codes "hello"
unfolding maybe_compress should_compress choose_encoding read_tokens split_from text_eq lookup
    compress
compresses = refl
