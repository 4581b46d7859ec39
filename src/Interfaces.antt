-- ===== src/Interfaces.antt =====
-- What the program takes from other packages and from the floating-point unit, as records of
-- operations. The laws that a theorem needs are records of their own.
pub mod Assoc
pub mod Bytes
use native.Mathlib.Nat.{mul-le-mul_right}
use gatepup.Prelude.{
  false, suc, ◌+◌, ◌-◌, ◌*◌, ◌/◌, ◌^◌, ◌≤◌, ◌<◌, leb, leb→le, le→leb, refl, [], arith,
  if◌then◌else◌, ℕ, ◌≡◌, ◌≢◌, ◌↔◌, Bool, true, Option, none, some, Text,
}

-- Addresses and networks: the parsers of `std::net` and the package ipnet. `single` is
-- `Ipv4Net::new(v4, 32).ok()` or `Ipv6Net::new(v6, 128).ok()`, by the kind of the address.
pub record IpLib (Addr Net : Type 0) : Type 0 where
  pub parse_net : Text → Option Net
  pub parse_addr : Text → Option Addr
  pub parse_socket_addr : Text → Option Text
  pub single : Addr → Option Net
  pub contains : Net → Addr → Bool
  pub same : Addr → Addr → Bool
  pub to_string : Addr → Text

-- A prefix of full length is legal, and its network has the one address.
pub record IsSingleHost {Addr Net : Type 0} (ip : IpLib Addr Net) : Type 0 where
  pub single_valid : (a : Addr) → (n : Net) × (ip.single a ≡ some n)
  pub single_exact :
      (a b : Addr) (n : Net) → ip.single a ≡ some n → (ip.contains n b ≡ true) ↔ (a ≡ b)

-- The package http: names and values of headers, which normalise or refuse a text, and the map.
-- `get` is the first value of a name, and `to_str` its text where it is visible ASCII.
pub record HttpLib (Headers : Type 0) : Type 0 where
  pub header_name : Text → Option Text
  pub header_value : Text → Option Text
  pub method : Text → Option Text
  pub empty : Headers
  pub get : Text → Headers → Option Text
  pub to_str : Text → Option Text
  pub insert : Text → Text → Headers → Headers
  pub append : Text → Text → Headers → Headers
  pub remove : Text → Headers → Headers

-- `insert` replaces all values of its name, `remove` deletes them, `append` adds one, and none touches
-- another name.
pub record IsHeaderMap {Headers : Type 0} (h : HttpLib Headers) : Type 0 where
  pub get-empty : (n : Text) → h.get n h.empty ≡ none
  pub get-insert_self : (n v : Text) (m : Headers) → h.get n (h.insert n v m) ≡ some v
  pub get-insert_ne : (n k v : Text) (m : Headers) → n ≢ k → h.get k (h.insert n v m) ≡ h.get k m
  pub get-remove_self : (n : Text) (m : Headers) → h.get n (h.remove n m) ≡ none
  pub get-remove_ne : (n k : Text) (m : Headers) → n ≢ k → h.get k (h.remove n m) ≡ h.get k m
  pub get-append_ne : (n k v : Text) (m : Headers) → n ≢ k → h.get k (h.append n v m) ≡ h.get k m

-- `f64`: the constants and operations of the program. `secs` is `Duration::as_secs_f64`, of a number
-- of nanoseconds.
pub record Float (F : Type 0) : Type 0 where
  pub zero : F
  pub one : F
  pub of_ℕ : ℕ → F
  pub secs : ℕ → F
  pub add : F → F → F
  pub sub : F → F → F
  pub mul : F → F → F
  pub min : F → F → F
  pub max : F → F → F
  pub ceil : F → F
  pub le : F → F → Bool
  pub is_finite : F → Bool
  pub to_string : F → Text

-- What IEEE 754 promises of the values that the rate limiter meets. `F` is `f64` without NaN and
-- without a negative zero: the operands are never negative, and the rates are finite. Rounding is
-- monotone, and whole numbers below 2^53 are exact.
pub record IsFloat {F : Type 0} (fl : Float F) : Type 0 where
  pub le_refl : (a : F) → fl.le a a ≡ true
  pub le_trans : (a b c : F) → fl.le a b ≡ true → fl.le b c ≡ true → fl.le a c ≡ true
  pub le_total : (a b : F) → fl.le a b ≡ false → fl.le b a ≡ true
  pub min-left : (a b : F) → fl.le a b ≡ true → fl.min a b ≡ a
  pub min-right : (a b : F) → fl.le b a ≡ true → fl.min a b ≡ b
  pub add-zero : (a : F) → fl.add a fl.zero ≡ a
  pub zero-mul : (r : F) → fl.is_finite r ≡ true → fl.mul fl.zero r ≡ fl.zero
  pub add_mono : (a b c : F) → fl.le b c ≡ true → fl.le (fl.add a b) (fl.add a c) ≡ true
  pub mul_mono :
      (a b r : F)
      → fl.is_finite r ≡ true
      → fl.le fl.zero r ≡ true
      → fl.le a b ≡ true
      → fl.le (fl.mul a r) (fl.mul b r) ≡ true
  pub secs-zero : fl.secs 0 ≡ fl.zero
  pub secs_mono : (m n : ℕ) → m ≤ n → fl.le (fl.secs m) (fl.secs n) ≡ true
  pub le-of_ℕ : (m n : ℕ) → m ≤ n → fl.le (fl.of_ℕ m) (fl.of_ℕ n) ≡ true
  pub one_le : (n : ℕ) → fl.le fl.one (fl.of_ℕ (suc n)) ≡ true
  pub one_gt_zero : fl.le fl.one (fl.of_ℕ 0) ≡ false
  pub of_ℕ_lt : (m n : ℕ) → m < n → n < 2 ^ 53 → fl.le (fl.of_ℕ n) (fl.of_ℕ m) ≡ false
  pub sub_le : (a : F) → fl.le (fl.sub a fl.one) a ≡ true
  pub sub_one : (n : ℕ) → suc n < 2 ^ 53 → fl.sub (fl.of_ℕ (suc n)) fl.one ≡ fl.of_ℕ n

-- Whole seconds and whole tokens meet the laws.
abbrev pub whole : Float ℕ
whole = record {
  zero = 0;
  one = 1;
  of_ℕ = λ n. n;
  secs = λ n. n / 1000000000;
  add = λ a b. a + b;
  sub = λ a b. a - b;
  mul = λ a b. a * b;
  min = λ a b. if leb a b then a else b;
  max = λ a b. if leb a b then b else a;
  ceil = λ a. a;
  le = leb;
  is_finite = λ a. true;
  to_string = λ a. [];
}

whole-secs_mono : (m n : ℕ) → m ≤ n → leb (m / 1000000000) (n / 1000000000) ≡ true
whole-secs_mono m n h = le→leb (m / 1000000000) (n / 1000000000) (omega arith)

pub whole-IsFloat : IsFloat whole
whole-IsFloat = record {
  le_refl = λ a. ground arith;
  le_trans = λ a b c h k. ground arith;
  le_total = λ a b h. ground arith;
  min-left = λ a b h. ground arith;
  min-right = λ a b h. ground arith;
  add-zero = λ a. omega arith;
  zero-mul = λ r h. omega arith;
  add_mono = λ a b c h. ground arith;
  mul_mono = λ a b r h k l. le→leb (a * r) (b * r) (mul-le-mul_right r (leb→le a b l));
  secs-zero = refl;
  secs_mono = whole-secs_mono;
  le-of_ℕ = λ m n h. ground arith;
  one_le = λ n. ground arith;
  one_gt_zero = refl;
  of_ℕ_lt = λ m n h k. ground arith;
  sub_le = λ a. le→leb (a - 1) a (omega arith);
  sub_one = λ n h. omega arith;
}
