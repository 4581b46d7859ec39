-- ===== src/Proxy/Body.antt =====
-- crates/gatepup-proxy/src/proxy.rs: the body of a request. An incoming body is the list of the data
-- frames that it will yield, and whether it ends well; a frame that carries trailers has no data.
use gatepup.Prelude.{
  ℕ, ◌+◌, ◌*◌, ◌^◌, ◌%◌, ◌≡◌, ◌≤◌, ◌<◌, refl, Bool, true, false, ◌&&◌, Option, none, some, List, [],
  ◌∷◌, ◌++◌, leb, ltb, length, length-append, ◌>>=◌, parse_u64, Text, codes, if◌then◌else◌,
  Bool-cases, inl, inr, ◌⊎◌, ltb→lt, arith,
}
use gatepup.Interfaces.{HttpLib}

-- `BODY_BUFFER_CAP`.
abbrev pub body_buffer_cap : ℕ
body_buffer_cap = 64 * 1024

pub record Incoming : Type 0 where
  pub frames : List Text
  pub complete : Bool

-- The body of one attempt, `ResponseBody`: buffered bytes, the client's stream, or a `CappedBody`.
pub data Body : Type 0 where
  bytes : Text → Body
  stream : Incoming → Body
  capped : ℕ → Incoming → Body

pub data BodySource : Type 0 where
  buffered : Text → BodySource
  once : Option Body → BodySource

-- `BodySource::next`.
unfoldable pub next : BodySource → Option Body × BodySource
next (buffered b) = (some (bytes b), buffered b)
next (once slot) = (slot, once none)

abbrev pub join : List Text → Text
join [] = []
join (f ∷ fs) = f ++ join fs

-- What `CappedBody::poll_frame` gives until the end or an error: the frames that pass, and the flag
-- `exceeded`. `seen` is a `u64`.
unfoldable pub poll_frames : ℕ → ℕ → List Text → List Text × Bool
poll_frames limit seen [] = ([], false)
poll_frames limit seen (f ∷ fs) =
    let now = (seen + length f) % 2 ^ 64 in
    let rest = poll_frames limit now fs in
    if ltb limit now then ([], true) else (f ∷ rest.0, rest.1)

-- `prepare_body_source`; the flag that it also returns belongs to the capped body.
unfoldable pub prepare_body_source : Incoming → Bool → ℕ → BodySource
prepare_body_source body true max_body_bytes =
    if body.complete && leb (length (join body.frames)) body_buffer_cap
    then buffered (join body.frames)
    else once none
prepare_body_source body false max_body_bytes =
    if ltb 0 max_body_bytes
    then once (some (capped max_body_bytes body))
    else once (some (stream body))

-- `content_length` and `body_exceeds_limit`.
abbrev pub above : ℕ → Option ℕ → Bool
above limit none = false
above limit (some len) = ltb limit len

module _ {Headers : Type 0} (http : HttpLib Headers) where
  unfoldable pub content_length : Headers → Option ℕ
  content_length m = http.get (codes "content-length") m >>= http.to_str >>= parse_u64

  unfoldable pub body_exceeds_limit : Headers → ℕ → Bool
  body_exceeds_limit m max_body_bytes =
      ltb 0 max_body_bytes && above max_body_bytes (content_length m)

-- A capped body lets the client's frames through when they fit the limit together. When they do not,
-- the flag is set, and what has passed is still within the limit.
pub poll_frames_cases :
    (limit seen : ℕ) (fs : List Text)
    → seen ≤ limit
    → seen + length (join fs) < 2 ^ 64
    → ((seen + length (join fs) ≤ limit) × (poll_frames limit seen fs ≡ (fs, false)))
      ⊎ ((limit < seen + length (join fs))
          × ((poll_frames limit seen fs).1 ≡ true)
          × (seen + length (join (poll_frames limit seen fs).0) ≤ limit))
unfolding poll_frames
poll_frames_cases limit seen [] l h = inl (omega arith, refl)
poll_frames_cases limit seen (f ∷ fs) l h =
    let total : length (join (f ∷ fs)) ≡ length f + length (join fs) = length-append f (join fs) in
    let fits : (seen + length f) % 2 ^ 64 ≡ seen + length f = omega arith in
    elim (Bool-cases (ltb limit (seen + length f))) [
      | inl e ↦ inr (
        omega (arith, ltb→lt limit (seen + length f) e),
        rw (fits, e) refl,
        rw (fits, e) (omega arith),
      )
      | inr e ↦ elim (poll_frames_cases limit (seen + length f) fs (ground arith) (omega arith)) [
        | inl r ↦ inl (omega arith, rw (fits, e, r.1) refl)
        | inr r ↦ inr (
          omega arith,
          rw (fits, e) r.1,
          rw (fits, e)
              (omega
                (arith, r.2, length-append f (join (poll_frames limit (seen + length f) fs).0))),
        )
      ]
    ]
