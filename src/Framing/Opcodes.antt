-- ===== src/Framing/Opcodes.antt =====
-- The first byte of a packet carries the opcode over the key ID (opcodes.go).
use Prim.Native.Nat.{bit_or}
use go_openlawsvpn.Base.{ℕ, ◌+◌, ◌*◌, ◌/◌, ◌%◌, ◌<◌, ◌≡◌, refl, ◌∙◌, arith}
use go_openlawsvpn.Base.Bits.{eq_below, low_three, check_table}
use go_openlawsvpn.Framing.{opcode_from_byte, key_id_from_byte, first_byte}

-- `bit_or` of a multiple of eight and a three-bit number is their sum: 32 times 8 cases.
or_table : (x : ℕ) → x < 256 → bit_or (x / 8 * 8) (x % 8) ≡ x
unfolding check_table
or_table = eq_below (λ x. bit_or (x / 8 * 8) (x % 8)) (λ x. x) 256 refl

or_eight : (o k : ℕ) → o < 32 → k < 8 → bit_or (o * 8) k ≡ o * 8 + k
or_eight o k ho hk =
    let quotient : (o * 8 + k) / 8 ≡ o = omega arith in
    let remainder : (o * 8 + k) % 8 ≡ k = omega arith in
    let table = or_table (o * 8 + k) (omega arith) in rw (quotient, remainder) at table

pub first_byte-eq : (o k : ℕ) → o < 32 → k < 256 → first_byte o k ≡ o * 8 + k % 8
unfolding first_byte
first_byte-eq o k ho hk =
    let small : o * 8 % 256 ≡ o * 8 = omega arith in
    rw (small, low_three k hk) (or_eight o (k % 8) ho (omega arith))

-- Every first byte that `FirstByte` builds from a five-bit opcode and any key ID is a byte, and
-- `OpcodeFromByte` and `KeyIDFromByte` read back the opcode and the three low bits of the key ID.
pub first_byte_fields :
    (o k : ℕ)
    → o < 32
    → k < 256
    → (first_byte o k < 256)
      × (opcode_from_byte (first_byte o k) ≡ o)
      × (key_id_from_byte (first_byte o k) ≡ k % 8)
unfolding opcode_from_byte key_id_from_byte
first_byte_fields o k ho hk =
    rw (first_byte-eq o k ho hk)
      (omega arith, omega arith, low_three (o * 8 + k % 8) (omega arith) ∙ omega arith)
