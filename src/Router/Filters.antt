-- ===== src/Router/Filters.antt =====
-- crates/gatepup-proxy/src/router.rs: the filters of a route, `RateLimit`, `IpAccess`, `HeaderOps`,
-- and `parse_trusted_proxy` of crates/gatepup-config/src/validator.rs, which they share.
pub mod Access
pub mod Headers
mod Tests
use gatepup.Prelude.{
  ℕ, Bool, true, false, not, ◌&&◌, Option, none, some, List, [], ◌∷◌, ◌==◌, Text, any, filter_map,
  or_else, ◌>>=◌, if◌then◌else◌,
}
use gatepup.Interfaces.{IpLib, HttpLib, Float}
use gatepup.Config.Model.{RateLimitConfig, IpAccessConfig, HeaderOpsConfig}

pub record RateLimit (F : Type 0) : Type 0 where
  pub rate : F
  pub capacity : F

-- `RateLimit::compile`.
unfoldable pub compile_rate : {F : Type 0} → Float F → RateLimitConfig F → RateLimit F
compile_rate fl cfg = record {
  rate = cfg.requests_per_second;
  capacity =
      if cfg.burst == 0 then fl.max (fl.ceil cfg.requests_per_second) fl.one else fl.of_ℕ cfg.burst;
}

pub record IpAccess (Net : Type 0) : Type 0 where
  pub allow : List Net
  pub deny : List Net

abbrev pub allow_all : {Net : Type 0} → IpAccess Net
allow_all = record { allow = []; deny = [] }

module _ {Addr Net : Type 0} (ip : IpLib Addr Net) where
  -- A network, or else a bare address as a network of its own.
  unfoldable pub parse_trusted_proxy : Text → Option Net
  parse_trusted_proxy value = or_else (ip.parse_net value) (ip.parse_addr value >>= ip.single)

  unfoldable pub compile_access : IpAccessConfig → IpAccess Net
  compile_access cfg = record {
    allow = filter_map parse_trusted_proxy cfg.allow;
    deny = filter_map parse_trusted_proxy cfg.deny;
  }

  abbrev pub covered : List Net → Addr → Bool
  covered nets a = any (λ net. ip.contains net a) nets

  abbrev pub no_nets : List Net → Bool
  no_nets [] = true
  no_nets (n ∷ ns) = false

  unfoldable pub allows : IpAccess Net → Addr → Bool
  allows acl a =
      if covered acl.deny a
      then false
      else (if not (no_nets acl.allow) && not (covered acl.allow a) then false else true)

pub record HeaderOps : Type 0 where
  pub set : List (Text × Text)
  pub remove : List Text

abbrev pub no_ops : HeaderOps
no_ops = record { set = []; remove = [] }

module _ {Headers : Type 0} (http : HttpLib Headers) where
  abbrev pub compile_entry : Text × Text → Option (Text × Text)
  compile_entry e = do n ← http.header_name e.0; v ← http.header_value e.1; some (n, v)

  unfoldable pub compile_ops : HeaderOpsConfig → HeaderOps
  compile_ops cfg = record {
    set = filter_map compile_entry cfg.set;
    remove = filter_map http.header_name cfg.remove;
  }

  unfoldable pub remove_all : List Text → Headers → Headers
  remove_all [] m = m
  remove_all (n ∷ ns) m = remove_all ns (http.remove n m)

  unfoldable pub set_all : List (Text × Text) → Headers → Headers
  set_all [] m = m
  set_all ((n, v) ∷ es) m = set_all es (http.insert n v m)

  -- `HeaderOps::apply`.
  unfoldable pub apply : HeaderOps → Headers → Headers
  apply ops m = set_all ops.set (remove_all ops.remove m)
