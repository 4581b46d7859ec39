-- ===== src/Proxy/Forward/Verified.antt =====
-- Which client a forward uses.
use gatepup.Prelude.{◌≡◌, inr, refl, false, Text}
use gatepup.Interfaces.{IpLib, HttpLib, Float}
use gatepup.Proxy.Body.{Incoming}
use gatepup.Proxy.Admission.{Request, Admitted}
use gatepup.Proxy.Attempts.{Network}
use gatepup.Proxy.Client.{for_upstream}
use gatepup.Proxy.Forward.{World, Context, decide, on_admitted, forward}

-- With another client in place of the one that skips the verification of certificates.
abbrev pub without_insecure :
    {Headers Addr : Type 0}
    → Context Headers Addr
    → (Text → Headers → Text → Network Headers)
    → Context Headers Addr
without_insecure c other = record c { client = record c.client { insecure = other } }

module _ {F Headers Addr Net Tls : Type 0} (fl : Float F) (ip : IpLib Addr Net)
    (http : HttpLib Headers) (c : Context Headers Addr) (req : Request Headers Addr)
    (body : Incoming) where
  admitted_verified :
      (other : Text → Headers → Text → Network Headers) (w : World fl ip Headers Tls)
      (a : Admitted F Net)
      → a.upstream.tls_insecure ≡ false
      → on_admitted fl ip http (without_insecure c other) req body w (inr a)
        ≡ on_admitted fl ip http c req body w (inr a)
  unfolding for_upstream
  admitted_verified other w a e = rw e refl

  -- The client that skips the verification of certificates has no part in a forward to an upstream that
  -- does not ask for it: with any other client in its place the response, the world and the requests
  -- that go out are the same.
  pub forward_verified :
      (other : Text → Headers → Text → Network Headers) (w : World fl ip Headers Tls)
      (a : Admitted F Net)
      → (decide fl ip http c req w).0 ≡ inr a
      → a.upstream.tls_insecure ≡ false
      → forward fl ip http (without_insecure c other) req body w ≡ forward fl ip http c req body w
  unfolding forward
  forward_verified other w a d e =
      rw d (admitted_verified other (record w { limiter = (decide fl ip http c req w).1 }) a e)
