-- ===== src/Proxy/Tests.antt =====
-- Requests with concrete headers and bodies.
use gatepup.Prelude.{
  ◌+◌, ◌≡◌, ◌≢◌, ◌↔◌, ◌⊎◌, ◌≤◌, ◌<◌, refl, true, false, some, none, Option, List, [], ◌∷◌, ◌++◌,
  length, Text, codes, text_eq, strip_prefix, split_from, split_once, arith,
}
use gatepup.Interfaces.Assoc.{Headers, assoc, assoc-IsHeaderMap, lookup}
use gatepup.Interfaces.Bytes.{bytes_ip}
use gatepup.Router.Host.{compile_host, host_matches}
use gatepup.Proxy.ClientIp.{
  is_trusted, walk, hops, resolve_client_ip, Origin, resolve_client_ip-Origin,
  resolve_client_ip_no_spoof,
}
use gatepup.Proxy.ClientIp.Chain.{IsPrinted, resolve-append_forwarded_for}
use gatepup.Proxy.Host.{request_host, uppercase_host_unreachable}
use gatepup.Proxy.Auth.Credentials.{Presents, basic_auth_ok_iff}
use gatepup.Proxy.Auth.{fold_diff, constant_time_eq, user_get, basic_auth_ok}
use gatepup.Proxy.Body.{join, poll_frames, poll_frames_cases}
use gatepup.Proxy.Forwarding.{get_str, append_forwarded_for}

-- The peer 9 and the hop 9 are proxies.
resolve_client_ip-Origin_example :
    Origin bytes_ip
      (9 ∷ [])
      9
      (some (codes "a,b"))
      (resolve_client_ip bytes_ip 9 (some (codes "a,b")) (9 ∷ []))
resolve_client_ip-Origin_example = resolve_client_ip-Origin bytes_ip 9 (some (codes "a,b")) (9 ∷ [])

resolve_client_ip_no_spoof_example :
    resolve_client_ip bytes_ip 9 (some (codes "x" ++ b',' ∷ codes "a")) (9 ∷ []) ≡ b'a'
unfolding is_trusted walk split_from
resolve_client_ip_no_spoof_example =
    resolve_client_ip_no_spoof bytes_ip 9 (codes "x") (codes "a") (9 ∷ []) b'a' behind_proxy found
  where
    behind_proxy : is_trusted bytes_ip (9 ∷ []) 9 ≡ true
    behind_proxy = refl

    found : walk bytes_ip (9 ∷ []) (hops bytes_ip (codes "a")) ≡ some b'a'
    found = refl

capital_differs : codes "ex" ≢ codes "Ex"
capital_differs e = ground arith

uppercase_host_unreachable_example :
    host_matches
      (compile_host (some (codes "Ex")))
      (request_host assoc ((codes "host", codes "Ex") ∷ []) none)
    ≡ false
unfolding strip_prefix
uppercase_host_unreachable_example =
    uppercase_host_unreachable assoc ((codes "host", codes "Ex") ∷ []) none (codes "Ex")
      (λ e. ground arith) refl capital_differs

abbrev plain : Text → Option Text
plain t = some t

abbrev with_credentials : Headers
with_credentials = (codes "authorization", codes "Basic bo:pw") ∷ []

right_password : basic_auth_ok assoc plain with_credentials ((codes "bo", codes "pw") ∷ []) ≡ true
unfolding basic_auth_ok lookup text_eq strip_prefix split_once constant_time_eq fold_diff
right_password = refl

basic_auth_ok_iff_example :
    (basic_auth_ok assoc plain with_credentials ((codes "bo", codes "pw") ∷ []) ≡ true) ↔ (
      (user : Text) × (pass : Text) × Presents assoc plain with_credentials user pass
      × (user_get user ((codes "bo", codes "pw") ∷ []) ≡ some pass))
basic_auth_ok_iff_example =
    basic_auth_ok_iff assoc plain with_credentials ((codes "bo", codes "pw") ∷ [])

abbrev frames : List Text
frames = codes "abc" ∷ codes "def" ∷ []

poll_frames_cases_example :
    ((0 + length (join frames) ≤ 4) × (poll_frames 4 0 frames ≡ (frames, false)))
    ⊎ ((4 < 0 + length (join frames))
        × ((poll_frames 4 0 frames).1 ≡ true)
        × (0 + length (join (poll_frames 4 0 frames).0) ≤ 4))
poll_frames_cases_example = poll_frames_cases 4 0 frames (omega arith) (omega arith)

client_a-IsPrinted : IsPrinted bytes_ip b'a'
client_a-IsPrinted = record { parses = refl; one_part = (refl, tt); trimmed = refl }

-- The client has sent a hop of its own.
abbrev spoofed : Headers
spoofed = (codes "x-forwarded-for", codes "b") ∷ []

resolve-append_forwarded_for_example :
    resolve_client_ip bytes_ip 9
      (get_str assoc (codes "x-forwarded-for") (append_forwarded_for assoc (codes "a") spoofed))
      (9 ∷ [])
    ≡ b'a'
unfolding is_trusted
resolve-append_forwarded_for_example =
    resolve-append_forwarded_for bytes_ip assoc b'a' 9 (9 ∷ []) spoofed assoc-IsHeaderMap
      client_a-IsPrinted refl refl refl refl
