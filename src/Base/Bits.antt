-- ===== src/Base/Bits.antt =====
-- Masks and shifts on one byte as arithmetic, each from a table checked by evaluation.
use Prim.Native.Nat.{ℕ, zero, suc, ◌%◌, ◌<◌, bit_and}
use mathlib.Core.Path.{◌≡◌, refl}
use mathlib.Core.Bool.{Bool, true, ◌&&◌}
use native.Mathlib.Omega.{arith}
use go_openlawsvpn.Base.Tests.{◌==◌, ==_iff}

-- Whether a test holds of every number below a bound, by running it.
unfoldable pub check_table : (ℕ → Bool) → ℕ → Bool
check_table test zero = true
check_table test (suc last) = check_table test last && test last

pub check_table_sound :
    (test : ℕ → Bool) (bound : ℕ)
    → check_table test bound ≡ true
    → (n : ℕ) → n < bound
    → test n ≡ true
unfolding check_table
check_table_sound test zero passed n inside = elim inside [ ]
check_table_sound test (suc last) passed n inside =
    ground (arith, check_table_sound test last (ground (arith, passed)) n)

module _ (f g : ℕ → ℕ) where
  pub eq_below : (n : ℕ) → check_table (λ x. f x == g x) n ≡ true → (x : ℕ) → x < n → f x ≡ g x
  eq_below n table x h = (==_iff _ _).0 (check_table_sound (λ x. f x == g x) n table x h)

-- The three low bits, which hold a packet's key ID.
pub low_three : (b : ℕ) → b < 256 → bit_and b 0x07 ≡ b % 8
unfolding check_table
low_three b h = eq_below (λ x. bit_and x 0x07) (λ x. x % 8) 256 refl b h
