-- ===== src/Relay/Masking.antt =====
-- The masking of a WebSocket payload (RFC 6455, section 5.3), and the loop of readMessage that undoes it.
use Prim.Native.Nat.{bit_xor}
use go_openlawsvpn.Base.{
  ℕ, suc, ◌%◌, ◌<◌, ◌≡◌, refl, sym, ap, ◌∙◌, arith, [], ◌∷◌, length, get_elem?, Option, none, some,
  Bytes, IsByte, All,
}
use go_openlawsvpn.Base.Masks.{bit_xor_twice}
use go_openlawsvpn.Relay.{key_at, mask_from, unmask}

-- Masking by a key of four bytes: the first byte of the payload takes the first one, and the key turns.
abbrev pub masked_by : ℕ → ℕ → ℕ → ℕ → Bytes → Bytes
masked_by w x y z [] = []
masked_by w x y z (b ∷ payload) = bit_xor b w ∷ masked_by x y z w payload

abbrev pub masked : Option Bytes → Bytes → Bytes
masked (some (w ∷ x ∷ y ∷ z ∷ [])) payload = masked_by w x y z payload
masked _ payload = payload

-- No mask key, or one of four bytes.
abbrev pub IsKey : Option Bytes → Type 0
IsKey none = Unit {0}
IsKey (some key) = (length key ≡ 4) × All IsByte key

-- The key byte of an index, by what is left of it modulo four.
key_at-turned :
    (w x y z i r : ℕ) → i % 4 ≡ r → key_at (w ∷ x ∷ y ∷ z ∷ []) i ≡ key_at (w ∷ x ∷ y ∷ z ∷ []) r
key_at-turned w x y z i r e =
    let small : r % 4 ≡ i % 4 = omega (arith, e) in
    ap (λ n. elim (get_elem? (w ∷ x ∷ y ∷ z ∷ []) n) [ none ↦ 0 | some k ↦ k ]) (sym small)

-- The loop of readMessage, from an index on, takes the key turned by that index.
mask_from-turned :
    (w x y z i : ℕ) (payload : Bytes)
    → (i % 4 ≡ 0 → mask_from (w ∷ x ∷ y ∷ z ∷ []) i payload ≡ masked_by w x y z payload)
      × (i % 4 ≡ 1 → mask_from (w ∷ x ∷ y ∷ z ∷ []) i payload ≡ masked_by x y z w payload)
      × (i % 4 ≡ 2 → mask_from (w ∷ x ∷ y ∷ z ∷ []) i payload ≡ masked_by y z w x payload)
      × (i % 4 ≡ 3 → mask_from (w ∷ x ∷ y ∷ z ∷ []) i payload ≡ masked_by z w x y payload)
unfolding mask_from
mask_from-turned w x y z i [] = ((λ e. refl), (λ e. refl), (λ e. refl), (λ e. refl))
mask_from-turned w x y z i (b ∷ payload) =
    let next = mask_from-turned w x y z (suc i) payload in
    (
      (λ e. rw (key_at-turned w x y z i 0 e, next.1 (omega (arith, e))) refl),
      (λ e. rw (key_at-turned w x y z i 1 e, next.2 (omega (arith, e))) refl),
      (λ e. rw (key_at-turned w x y z i 2 e, next.3 (omega (arith, e))) refl),
      (λ e. rw (key_at-turned w x y z i 3 e, next.0 (omega (arith, e))) refl),
    )

pub mask_from-masked :
    (key payload : Bytes) → length key ≡ 4 → mask_from key 0 payload ≡ masked (some key) payload
mask_from-masked (w ∷ (x ∷ (y ∷ (z ∷ [])))) payload h = (mask_from-turned w x y z 0 payload).0 refl
mask_from-masked [] payload h = absurd (omega (arith, h))
mask_from-masked (w ∷ []) payload h = absurd (omega (arith, h))
mask_from-masked (w ∷ (x ∷ [])) payload h = absurd (omega (arith, h))
mask_from-masked (w ∷ (x ∷ (y ∷ []))) payload h = absurd (omega (arith, h))
mask_from-masked (w ∷ (x ∷ (y ∷ (z ∷ (k ∷ key))))) payload h = absurd (omega (arith, h))

unmask-masked :
    (key : Option Bytes) (payload : Bytes) → IsKey key → unmask key payload ≡ masked key payload
unmask-masked none payload k = refl
unmask-masked (some key) payload (four, _) = mask_from-masked key payload four

length-masked_by :
    (w x y z : ℕ) (payload : Bytes) → length (masked_by w x y z payload) ≡ length payload
length-masked_by w x y z [] = refl
length-masked_by w x y z (b ∷ payload) = ap suc (length-masked_by x y z w payload)

pub length-masked :
    (key : Option Bytes) (payload : Bytes)
    → IsKey key
    → length (masked key payload) ≡ length payload
length-masked none payload k = refl
length-masked (some (w ∷ (x ∷ (y ∷ (z ∷ []))))) payload k = length-masked_by w x y z payload
length-masked (some []) payload k = refl
length-masked (some (w ∷ [])) payload k = refl
length-masked (some (w ∷ (x ∷ []))) payload k = refl
length-masked (some (w ∷ (x ∷ (y ∷ [])))) payload k = refl
length-masked (some (w ∷ (x ∷ (y ∷ (z ∷ (v ∷ key)))))) payload k = refl

masked_by_twice :
    (w x y z : ℕ) (payload : Bytes)
    → (w < 256) × (x < 256) × (y < 256) × (z < 256)
    → All IsByte payload
    → masked_by w x y z (masked_by w x y z payload) ≡ payload
masked_by_twice w x y z [] k h = refl
masked_by_twice w x y z (b ∷ payload) (kw, kx, ky, kz) (hb, h) =
    ap (λ c. c ∷ masked_by x y z w (masked_by x y z w payload)) (bit_xor_twice b w hb kw)
    ∙ ap (λ l. b ∷ l) (masked_by_twice x y z w payload (kx, ky, kz, kw) h)

masked_twice :
    (key : Option Bytes) (payload : Bytes)
    → IsKey key
    → All IsByte payload
    → masked key (masked key payload) ≡ payload
masked_twice none payload k h = refl
masked_twice (some (w ∷ (x ∷ (y ∷ (z ∷ []))))) payload (four, (kw, (kx, (ky, (kz, _))))) h =
    masked_by_twice w x y z payload (kw, kx, ky, kz) h
masked_twice (some []) payload k h = refl
masked_twice (some (w ∷ [])) payload k h = refl
masked_twice (some (w ∷ (x ∷ []))) payload k h = refl
masked_twice (some (w ∷ (x ∷ (y ∷ [])))) payload k h = refl
masked_twice (some (w ∷ (x ∷ (y ∷ (z ∷ (v ∷ key)))))) payload k h = refl

-- What is masked on the wire is unmasked by readMessage.
pub unmask-undoes :
    (key : Option Bytes) (payload : Bytes)
    → IsKey key
    → All IsByte payload
    → unmask key (masked key payload) ≡ payload
unmask-undoes key payload k h =
    unmask-masked key (masked key payload) k ∙ masked_twice key payload k h
