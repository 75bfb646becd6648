-- ===== src/Base/Masks.antt =====
-- Exclusive or on bytes, from a table checked by evaluation.
use Prim.Native.Nat.{ℕ, ◌<◌, bit_xor, bit_and, ◌%◌, ◌/◌, ◌*◌}
use mathlib.Core.Path.{◌≡◌, refl}
use mathlib.Core.Bool.{Bool, true}
use go_openlawsvpn.Base.Tests.{◌==◌, ==_iff}
use go_openlawsvpn.Base.Bits.{check_table, check_table_sound, eq_below}

-- Whether the mask `k` undoes itself on every byte.
unfoldable undone : ℕ → Bool
undone k = check_table (λ b. bit_xor (bit_xor b k) k == b) 256

all_undone : check_table undone 256 ≡ true
unfolding check_table undone
all_undone = refl

pub bit_xor_twice : (b k : ℕ) → b < 256 → k < 256 → bit_xor (bit_xor b k) k ≡ b
unfolding undone
bit_xor_twice b k hb hk = (==_iff _ _).0 (
    check_table_sound (λ x. bit_xor (bit_xor x k) k == x) 256
      (check_table_sound undone 256 all_undone k hk) b hb)

-- The seven low bits, and the four low ones.
pub low_seven : (b : ℕ) → b < 256 → bit_and b 0x7F ≡ b % 128
unfolding check_table
low_seven b h = eq_below (λ x. bit_and x 0x7F) (λ x. x % 128) 256 refl b h

pub low_four : (b : ℕ) → b < 256 → bit_and b 0x0F ≡ b % 16
unfolding check_table
low_four b h = eq_below (λ x. bit_and x 0x0F) (λ x. x % 16) 256 refl b h

-- Whether the highest bit is set.
pub high_bit : (b : ℕ) → b < 256 → bit_and b 0x80 ≡ b / 128 * 128
unfolding check_table
high_bit b h = eq_below (λ x. bit_and x 0x80) (λ x. x / 128 * 128) 256 refl b h
