-- ===== src/Router/Filters/Tests.antt =====
-- The filters on concrete lists.
use gatepup.Prelude.{ℕ, ◌≡◌, ◌↔◌, ◌⊎◌, refl, true, [], ◌∷◌, codes}
use gatepup.Interfaces.Bytes.{bytes_ip}
use gatepup.Config.Model.{IpAccessConfig}
use gatepup.Router.Filters.{HeaderOps, compile_access, allows, parse_trusted_proxy}
use gatepup.Router.Filters.Access.{Covers, allows_iff}

abbrev only_seven : IpAccessConfig
only_seven = record { allow = (7 ∷ []) ∷ []; deny = (8 ∷ []) ∷ [] }

allows_iff_example : (allows bytes_ip (compile_access bytes_ip only_seven) 7 ≡ true) ↔ (
    (¬ Covers bytes_ip only_seven.deny 7)
    × ((only_seven.allow ≡ []) ⊎ Covers bytes_ip only_seven.allow 7))
unfolding parse_trusted_proxy
allows_iff_example = allows_iff bytes_ip only_seven 7 ((7, refl), tt)

abbrev seven : ℕ
seven = 7

abbrev ops : HeaderOps
ops = record { set = (codes "b", codes "2") ∷ []; remove = codes "a" ∷ [] }
