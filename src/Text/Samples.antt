-- ===== src/Text/Samples.antt =====
-- A library for ASCII texts with decimal numbers and IPv4 addresses, for tests.
use Prim.Native.Nat.{ℕ, ◌+◌, ◌-◌, ◌*◌}
use go_openlawsvpn.Base.{
  ◌&&◌, List, [], ◌∷◌, map, leb, ◌==◌, if◌then◌else◌, Option, none, some, Bytes, bytes_eq, ℤ, pos,
}
use go_openlawsvpn.Text.{Library, split}

abbrev lower_byte : ℕ → ℕ
lower_byte c = if leb b'A' c && leb c b'Z' then c + 32 else c

abbrev upper_byte : ℕ → ℕ
upper_byte c = if leb b'a' c && leb c b'z' then c - 32 else c

abbrev drop_empty : List Bytes → List Bytes
drop_empty [] = []
drop_empty ([] ∷ parts) = drop_empty parts
drop_empty ((c ∷ part) ∷ parts) = (c ∷ part) ∷ drop_empty parts

abbrev trim_left : Bytes → Bytes
trim_left [] = []
trim_left (c ∷ s) = let rest = trim_left s in if c == b' ' then rest else c ∷ s

abbrev number : ℕ → Bytes → Option ℕ
number acc [] = some acc
number acc (c ∷ s) =
    let rest = number (acc * 10 + (c - b'0')) s in if leb b'0' c && leb c b'9' then rest else none

abbrev decimal : Bytes → Option ℕ
decimal [] = none
decimal (c ∷ s) = number 0 (c ∷ s)

abbrev integer : Bytes → Option ℤ
integer s = elim (decimal s) [ none ↦ none | some n ↦ some (pos n) ]

abbrev octets : List Bytes → Option Bytes
octets [] = some []
octets (part ∷ parts) =
    let rest = octets parts in
    elim (decimal part) [
      | none ↦ none
      | some n ↦ elim rest [ none ↦ none | some ns ↦ some (n ∷ ns) ]
    ]

abbrev four : Bytes → Option Bytes
four (a ∷ b ∷ c ∷ d ∷ []) = some (a ∷ b ∷ c ∷ d ∷ [])
four _ = none

abbrev address : Bytes → Option Bytes
address s = elim (octets (split b'.' s)) [ none ↦ none | some ns ↦ four ns ]

-- The whole text is the address, and the prefix is that of a host.
abbrev pub ascii : Library
ascii = record {
  to_lower = map lower_byte;
  to_upper = map upper_byte;
  equal_fold = λ a b. bytes_eq (map lower_byte a) (map lower_byte b);
  trim_space = trim_left;
  fields = λ s. drop_empty (split b' ' s);
  atoi = integer;
  parse_int = integer;
  parse_uint = decimal;
  scan_int = integer;
  parse_ip = address;
  to4 = four;
  parse_cidr = λ s. elim (address s) [ none ↦ none | some ip ↦ some (ip, ip, 32) ];
}
