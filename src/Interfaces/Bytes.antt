-- ===== src/Interfaces/Bytes.antt =====
-- Addresses that are a byte each, and networks of one address: a small meeting of `IpLib`.
use gatepup.Prelude.{ℕ, Option, none, some, [], ◌∷◌, ◌==◌, Text, if◌then◌else◌}
use gatepup.Interfaces.{IpLib}

-- An address is its byte, and a network a slash and a byte.
abbrev pub one_byte : Text → Option ℕ
one_byte [] = none
one_byte (c ∷ []) = some c
one_byte (_ ∷ _ ∷ _) = none

abbrev pub slash_byte : Text → Option ℕ
slash_byte [] = none
slash_byte (s ∷ rest) = if s == b'/' then one_byte rest else none

abbrev pub bytes_ip : IpLib ℕ ℕ
bytes_ip = record {
  parse_net = slash_byte;
  parse_addr = one_byte;
  parse_socket_addr = λ t. some t;
  single = λ a. some a;
  contains = λ n a. n == a;
  same = λ a b. a == b;
  to_string = λ a. a ∷ [];
}
