-- ===== src/Base/Endian.antt =====
-- encoding/binary's big-endian integers, as the program uses them. A byte slice is a list of numbers.
use Prim.Native.Nat.{ℕ, ◌+◌, ◌*◌, ◌/◌, ◌%◌, ◌^◌, ◌<◌, ◌≤◌}
use mathlib.Core.Path.{◌≡◌, refl, ap}
use mathlib.Core.Bool.{Bool, true, false, ◌&&◌}
use mathlib.Core.Logic.{◌↔◌}
use go_openlawsvpn.Base.Tests.{◌==◌}
use mathlib.Core.List.{List, [], ◌∷◌, ◌++◌}
use native.Mathlib.Omega.{arith}
use go_openlawsvpn.Base.Lists.{length}
use go_openlawsvpn.Base.Results.{Result, ok, panic}

abbrev pub Bytes : Type 0
Bytes = List ℕ

abbrev pub IsByte : ℕ → Type 0
IsByte b = b < 256

abbrev pub IsU32 : ℕ → Type 0
IsU32 n = n < 2 ^ 32

-- PutUint16 and PutUint32: the bytes written.
abbrev pub put_uint16 : ℕ → Bytes
put_uint16 n = n / 256 % 256 ∷ n % 256 ∷ []

abbrev pub put_uint32 : ℕ → Bytes
put_uint32 n = n / 2 ^ 24 % 256 ∷ n / 2 ^ 16 % 256 ∷ n / 256 % 256 ∷ n % 256 ∷ []

-- Uint16 and Uint32 read the front of a slice, and panic if it is too short.
abbrev pub uint16 {κ} : {E : Type κ} → Bytes → Result E ℕ
uint16 (a ∷ b ∷ rest) = ok (a * 256 + b)
uint16 _ = panic

abbrev pub uint32 {κ} : {E : Type κ} → Bytes → Result E ℕ
uint32 (a ∷ b ∷ c ∷ d ∷ rest) = ok (a * 2 ^ 24 + b * 2 ^ 16 + c * 256 + d)
uint32 _ = panic

pub uint16-put {κ} :
    {E : Type κ} (n : ℕ) (rest : Bytes) → n < 2 ^ 16 → uint16 {E = E} (put_uint16 n ++ rest) ≡ ok n
uint16-put n rest h = ap ok (omega arith)

pub uint32-put {κ} :
    {E : Type κ} (n : ℕ) (rest : Bytes) → IsU32 n → uint32 {E = E} (put_uint32 n ++ rest) ≡ ok n
uint32-put n rest h = ap ok (omega arith)

-- Four bytes at hand are enough for Uint32.
pub uint32_total {κ} : {E : Type κ} (b : Bytes) → 4 ≤ length b → (n : ℕ) × (uint32 {E = E} b ≡ ok n)
uint32_total (a ∷ b ∷ c ∷ d ∷ rest) h = (_, refl)
uint32_total [] h = absurd (omega arith)
uint32_total (a ∷ []) h = absurd (omega arith)
uint32_total (a ∷ b ∷ []) h = absurd (omega arith)
uint32_total (a ∷ b ∷ c ∷ []) h = absurd (omega arith)

pub uint32-any_error {κ ι} :
    {E : Type κ} {F : Type ι} (b : Bytes) {n : ℕ}
    → uint32 {E = E} b ≡ ok n
    → uint32 {E = F} b ≡ ok n
uint32-any_error (a ∷ b ∷ c ∷ d ∷ rest) h = ground (arith, h)
uint32-any_error [] h = cc
uint32-any_error (a ∷ []) h = cc
uint32-any_error (a ∷ b ∷ []) h = cc
uint32-any_error (a ∷ b ∷ c ∷ []) h = cc

-- Whether two slices, or two strings, hold the same bytes.
unfoldable pub bytes_eq : Bytes → Bytes → Bool
bytes_eq [] [] = true
bytes_eq (a ∷ as') (b ∷ bs) = a == b && bytes_eq as' bs
bytes_eq _ _ = false

pub bytes_eq_iff : (a b : Bytes) → (bytes_eq a b ≡ true) ↔ (a ≡ b)
unfolding bytes_eq
bytes_eq_iff (x ∷ a) (y ∷ b) = ground (arith, bytes_eq_iff a b)
bytes_eq_iff _ _ = ground arith
