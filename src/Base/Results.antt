-- ===== src/Base/Results.antt =====
-- Go's (value, error) pair, and a run-time panic such as an index out of range.
use Prim.Native.Nat.{ℕ}
use mathlib.Core.Path.{◌≡◌, refl}
use mathlib.Core.Logic.{◌≢◌}
use mathlib.Core.List.{List}
use mathlib.Core.Option.{none, some}
use go_openlawsvpn.Base.Tests.{ltb, if◌then◌else◌}
use go_openlawsvpn.Base.Lists.{length, get_elem?, drop}

pub data Result {ℓ κ} (E : Type κ) (A : Type ℓ) : Type (ℓ ⊔ κ) where
  ok : A → Result E A
  err : E → Result E A
  panic : Result E A

infixl 5 ◌>>=◌
abbrev pub ◌>>=◌ {ℓ κ ι} :
    {E : Type κ} {A : Type ℓ} {B : Type ι} → Result E A → (A → Result E B) → Result E B
panic >>= next = panic
err reason >>= next = err reason
ok value >>= next = next value

-- `xs[i]`
abbrev pub index {ℓ κ} : {E : Type κ} {A : Type ℓ} → List A → ℕ → Result E A
index xs i = elim (get_elem? xs i) [ none ↦ panic | some x ↦ ok x ]

-- `xs[i:]`
abbrev pub slice_from {ℓ κ} : {E : Type κ} {A : Type ℓ} → List A → ℕ → Result E (List A)
slice_from xs i = if ltb (length xs) i then panic else ok (drop i xs)

-- A chain that succeeds has passed through a value of its first part.
pub >>=-eq-ok {ℓ κ ι} :
    {E : Type κ} {A : Type ℓ} {B : Type ι} (first : Result E A) (next : A → Result E B) {out : B}
    → (first >>= next) ≡ ok out
    → (value : A) × (first ≡ ok value) × (next value ≡ ok out)
>>=-eq-ok panic next passed = cc
>>=-eq-ok (err reason) next passed = cc
>>=-eq-ok (ok value) next passed = (value, refl, passed)

pub >>=-ne-panic {ℓ κ ι} :
    {E : Type κ} {A : Type ℓ} {B : Type ι} (m : Result E A) (f : A → Result E B)
    → m ≢ panic
    → ((a : A) → f a ≢ panic)
    → (m >>= f) ≢ panic
>>=-ne-panic (ok a) f h k = k a
>>=-ne-panic (err e) f h k = λ q. cc
>>=-ne-panic panic f h k = absurd (h refl)
