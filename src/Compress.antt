-- ===== src/Compress.antt =====
-- crates/gatepup-proxy/src/compress.rs: the compression of responses. The encoders are an argument;
-- a streamed body is the text that it carries.
pub mod Negotiation
mod Tests
use gatepup.Prelude.{
  ℕ, Bool, true, false, not, ◌&&◌, ◌||◌, Option, none, some, List, [], ◌∷◌, ltb, any, is_some,
  unwrap_or, ◌>>=◌, first_or, split, trim, to_ascii_lowercase, parse_u64, contains_text, Text,
  codes, text_eq, if◌then◌else◌,
}
use mathlib.Core.Option
use gatepup.Interfaces.{HttpLib}
use gatepup.Proxy.Errors.{Response}

-- `Compression` of crates/gatepup-proxy/src/snapshot.rs.
pub record Compression : Type 0 where
  pub gzip : Bool
  pub br : Bool
  pub min_bytes : ℕ
  pub types : List Text

pub data Encoding : Type 0 where
  gzip br : Encoding

abbrev pub encoding_token : Encoding → Text
encoding_token gzip = codes "gzip"
encoding_token br = codes "br"

-- The part before a semicolon, trimmed and in lower case.
abbrev pub main_part : Text → Text
main_part t = to_ascii_lowercase (trim (first_or [] (split b';' t)))

-- The three flags of `choose_encoding`.
pub record Offers : Type 0 where
  pub br : Bool
  pub gzip : Bool
  pub any : Bool

abbrev pub note_token : Text → Offers → Offers
note_token name o =
    if text_eq name (codes "br")
    then record o { br = true }
    else if text_eq name (codes "gzip")
    then record o { gzip = true }
    else if text_eq name (codes "*")
    then record o { any = true }
    else o

-- The loop over the tokens.
unfoldable pub read_tokens : List Text → Offers → Offers
read_tokens [] o = o
read_tokens (t ∷ ts) o = read_tokens ts (note_token (main_part t) o)

unfoldable pub choose_encoding : Text → Compression → Option Encoding
choose_encoding accept comp =
    let o = read_tokens (split b',' accept) (record { br = false; gzip = false; any = false }) in
    if comp.br && (o.br || o.any)
    then some br
    else if comp.gzip && (o.gzip || o.any)
    then some gzip
    else none

module _ {Headers : Type 0} (http : HttpLib Headers) where
  abbrev pub too_small : Option ℕ → ℕ → Bool
  too_small none min_bytes = false
  too_small (some len) min_bytes = ltb len min_bytes

  unfoldable pub should_compress : Headers → Compression → Bool
  should_compress m comp =
      let content_type =
        unwrap_or [] (Option.map main_part (http.get (codes "content-type") m >>= http.to_str)) in
      let len = http.get (codes "content-length") m >>= http.to_str >>= parse_u64 in
      if is_some (http.get (codes "content-encoding") m)
      then false
      else if not (any (text_eq content_type) comp.types)
      then false
      else if too_small len comp.min_bytes
      then false
      else true

  -- `append_vary_accept_encoding`.
  unfoldable pub append_vary : Headers → Headers
  append_vary m =
      let already = unwrap_or false (
        Option.map (λ v. contains_text (codes "accept-encoding") (to_ascii_lowercase v))
          (http.get (codes "vary") m >>= http.to_str)) in
      if not already then http.append (codes "vary") (codes "Accept-Encoding") m else m

  unfoldable pub compress :
      (Encoding → Text → Text) → Response Headers → Encoding → Response Headers
  compress encode resp enc = record resp {
    headers = append_vary (
        http.insert (codes "content-encoding") (encoding_token enc)
          (http.remove (codes "content-length") resp.headers));
    body = encode enc resp.body;
  }

  abbrev pub compress_with :
      (Encoding → Text → Text) → Response Headers → Option Encoding → Response Headers
  compress_with encode resp none = resp
  compress_with encode resp (some enc) = compress encode resp enc

  unfoldable pub maybe_compress :
      (Encoding → Text → Text) → Response Headers → Text → Compression → Response Headers
  maybe_compress encode resp accept comp =
      if not (should_compress resp.headers comp)
      then resp
      else compress_with encode resp (choose_encoding accept comp)
