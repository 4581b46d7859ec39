-- ===== src/Service/Oversized/Tests.antt =====
-- A request whose body does not fit the buffer for retries.
use gatepup.Prelude.{
  ℕ, zero, suc, ◌++◌, ◌<◌, ◌≡◌, refl, ap, true, none, [], ◌∷◌, In, here, there, Text, codes, length,
  length-append, table_get, table_insert, arith, text_eq,
}
use gatepup.Interfaces.{whole}
use gatepup.Interfaces.Assoc.{assoc, lookup, delete}
use gatepup.Interfaces.Bytes.{bytes_ip}
use gatepup.Router.Filters.{apply, remove_all, set_all}
use gatepup.Upstream.Pick.{IsValid}
use gatepup.Snapshot.{allows_method}
use gatepup.Proxy.Errors.{no_healthy_upstream}
use gatepup.Proxy.Body.{Incoming, join, body_buffer_cap, content_length}
use gatepup.Proxy.Forwarding.{rewrite_headers, set_header, append_forwarded_for}
use gatepup.Proxy.Forward.{err, can_replay, forward}
use gatepup.Proxy.Handle.Example.{admitted, is_admitted, upstream, snapshot, world, context, get}
use gatepup.Service.Valid.{AllValid, table_insert-AllValid}
use gatepup.Service.Oversized.{oversized_unsent}

unfoldable letters : ℕ → Text
letters zero = []
letters (suc n) = 97 ∷ letters n

length-letters : (n : ℕ) → length (letters n) ≡ n
unfolding letters
length-letters zero = refl
length-letters (suc n) = ap suc (length-letters n)

abbrev chunked : Incoming
chunked = record { frames = letters 40000 ∷ letters 40000 ∷ []; complete = true }

chunked_over : body_buffer_cap < length (join chunked.frames)
chunked_over = omega (
  arith,
  length-letters 40000,
  length-append (letters 40000) (letters 40000 ++ []),
  length-append (letters 40000) [],
)

is_replayed : can_replay whole bytes_ip assoc context get admitted ≡ true
unfolding rewrite_headers apply remove_all set_all content_length allows_method lookup delete
    set_header append_forwarded_for text_eq
is_replayed = refl

undeclared : content_length assoc get.headers ≡ none
unfolding content_length lookup
undeclared = refl

upstream-served : (i : ℕ) → i < 2 → In i (0 ∷ 1 ∷ [])
upstream-served zero h = here
upstream-served (suc zero) h = there here
upstream-served (suc (suc i)) h = absurd (omega arith)

upstream-IsValid : IsValid upstream
upstream-IsValid = record { bounded = omega arith; served = upstream-served; counted = omega arith }

world-AllValid : AllValid snapshot.upstreams
unfolding table_insert table_get
world-AllValid =
    table_insert-AllValid [] (codes "u") upstream (λ n u e. absurd (ground arith)) upstream-IsValid

oversized_unsent_example :
    let r = forward whole bytes_ip assoc context get chunked world in
    (r.0 ≡ err no_healthy_upstream) × (r.1.log ≡ [])
oversized_unsent_example =
    oversized_unsent whole bytes_ip assoc context get chunked world admitted world-AllValid
      is_admitted undeclared is_replayed chunked_over
