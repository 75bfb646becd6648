-- ===== src/Crypto/Padding.antt =====
-- internal/crypto/cbc.go: the PKCS #7 padding.
use go_openlawsvpn.Base.{
  ℕ, zero, suc, ◌+◌, ◌-◌, ◌%◌, ◌≤◌, ◌<◌, ◌≡◌, ◌≢◌, ◌↔◌, refl, ap, sym, arith, Bool, true, not, ◌||◌,
  ◌&&◌, inl, inr, some, Option-cases, ◌==◌, ==_refl, if◌then◌else◌, Bytes, ltb, Result, ok, err,
  ◌>>=◌, index, [], ◌∷◌, ◌++◌, length, length-append, length-take, length-drop, length-replicate,
  get_elem?, take, drop, take-append, drop-append, take-append-drop, replicate,
}
use go_openlawsvpn.Crypto.{Error, pkcs7_length, pkcs7_value, pkcs7_bytes}

unfoldable pub pkcs7_pad : Bytes → ℕ → Bytes
pkcs7_pad src block_size =
    let pad_len = block_size - length src % block_size in src ++ replicate pad_len (pad_len % 256)

-- The loop over the last bytes: all of them are `b`.
unfoldable pub all_equal : ℕ → Bytes → Bool
all_equal b [] = true
all_equal b (x ∷ xs) = x == b && all_equal b xs

-- The checks on the value of the last byte, and the cut.
unfoldable pub unpad_by : Bytes → ℕ → ℕ → Result Error Bytes
unfolding all_equal
unpad_by src block_size pad_len =
    if pad_len == 0 || ltb block_size pad_len
    then err pkcs7_value
    else if all_equal (pad_len % 256) (drop (length src - pad_len) src)
    then ok (take (length src - pad_len) src)
    else err pkcs7_bytes

unfoldable pub pkcs7_unpad : Bytes → ℕ → Result Error Bytes
pkcs7_unpad src block_size =
    if length src == 0 || not (length src % block_size == 0)
    then err pkcs7_length
    else index src (length src - 1) >>= λ pad_len. unpad_by src block_size pad_len

all_equal-replicate : (n b : ℕ) → all_equal b (replicate n b) ≡ true
unfolding all_equal
all_equal-replicate zero b = refl
all_equal-replicate (suc n) b = rw ==_refl (all_equal-replicate n b)

get_elem?-last :
    (xs : Bytes) (n b : ℕ) → 0 < n → get_elem? (xs ++ replicate n b) (length xs + n - 1) ≡ some b
get_elem?-last [] zero b h = absurd (omega arith)
get_elem?-last [] (suc zero) b h = refl
get_elem?-last [] (suc (suc n)) b h =
    let i : 0 + suc (suc n) - 1 ≡ suc (0 + suc n - 1) = omega arith in
    rw i (get_elem?-last [] (suc n) b (omega arith))
get_elem?-last (x ∷ xs) n b h =
    let i : suc (length xs) + n - 1 ≡ suc (length xs + n - 1) = omega arith in
    rw i (get_elem?-last xs n b h)

-- The block size of AES.
abbrev pub block_size : ℕ
block_size = 16

-- The padded text is a whole number of blocks, and at least one.
pub length-pkcs7_pad :
    (src : Bytes)
    → (length (pkcs7_pad src block_size) % block_size ≡ 0)
      × (block_size ≤ length (pkcs7_pad src block_size))
      × (length src < length (pkcs7_pad src block_size))
unfolding pkcs7_pad
length-pkcs7_pad src =
    let n : ℕ = block_size - length src % block_size in
    omega (arith, length-append src (replicate n (n % 256)), length-replicate n (n % 256))

pub length-pkcs7_pad_le :
    (src : Bytes) → length (pkcs7_pad src block_size) ≤ length src + block_size
unfolding pkcs7_pad
length-pkcs7_pad_le src =
    let n : ℕ = block_size - length src % block_size in
    omega (arith, length-append src (replicate n (n % 256)), length-replicate n (n % 256))

all_equal→replicate : (b : ℕ) (xs : Bytes) → all_equal b xs ≡ true → xs ≡ replicate (length xs) b
unfolding all_equal
all_equal→replicate b [] h = refl
all_equal→replicate b (x ∷ xs) h = ground (arith, all_equal→replicate b xs)

unpad_by-pad :
    (src : Bytes) (n : ℕ)
    → 0 < n
    → n ≤ block_size
    → unpad_by (src ++ replicate n (n % 256)) block_size n ≡ ok src
unfolding unpad_by
unpad_by-pad src n lo hi =
    let tail : Bytes = replicate n (n % 256) in
    let cut : length (src ++ tail) - n ≡ length src =
      omega (arith, length-append src tail, length-replicate n (n % 256)) in
    let equal = all_equal-replicate n (n % 256) in
    let front = take-append (length src) src tail refl in
    let back = drop-append (length src) src tail refl in rw cut (ground (arith, equal, front, back))

pkcs7_unpad-pad : (src : Bytes) → pkcs7_unpad (pkcs7_pad src block_size) block_size ≡ ok src
unfolding pkcs7_unpad
pkcs7_unpad-pad src =
    let n : ℕ = block_size - length src % block_size in
    let padded : Bytes = src ++ replicate n (n % 256) in
    let e : pkcs7_pad src block_size ≡ padded = unfold pkcs7_pad in refl in
    let (aligned, long, _) = length-pkcs7_pad src in
    let whole : length padded ≡ length src + n =
      omega (arith, length-append src (replicate n (n % 256)), length-replicate n (n % 256)) in
    let last : get_elem? padded (length padded - 1) ≡ some (n % 256) =
      rw whole (get_elem?-last src n (n % 256) (omega arith)) in
    let small : n % 256 ≡ n = omega arith in
    rw e (
      ground (
        arith,
        ap length e,
        aligned,
        long,
        last,
        small,
        unpad_by-pad src n (omega arith) (omega arith),
      ))

unpad_by-inv :
    (src p : Bytes) (n : ℕ)
    → unpad_by src block_size n ≡ ok p
    → (0 < n)
      × (n ≤ block_size)
      × (all_equal (n % 256) (drop (length src - n) src) ≡ true)
      × (p ≡ take (length src - n) src)
unfolding unpad_by
unpad_by-inv src p n e = ground arith

-- What stands behind a successful call: the value of the last byte.
unpad_parts :
    (src p : Bytes)
    → pkcs7_unpad src block_size ≡ ok p
    → (n : ℕ) × ((length src % block_size ≡ 0) × (length src ≢ 0))
      × (unpad_by src block_size n ≡ ok p)
unfolding pkcs7_unpad
unpad_parts src p e = elim (Option-cases (get_elem? src (length src - 1))) [
  | inl missing ↦ absurd (ground (arith, missing, e))
  | inr (n, last) ↦ (n, ground (arith, last, e), ground (arith, last, e))
]

pkcs7_unpad-inv : (src p : Bytes) → pkcs7_unpad src block_size ≡ ok p → src ≡ pkcs7_pad p block_size
unfolding pkcs7_pad
pkcs7_unpad-inv src p e =
    let (n, (aligned, nonempty), cut) = unpad_parts src p e in
    let (lo, hi, equal, front) = unpad_by-inv src p n cut in
    let k : ℕ = length src - n in
    let rest : length (drop k src) ≡ n = omega (arith, length-drop k src) in
    let tail : drop k src ≡ replicate n (n % 256) =
      rw rest at (all_equal→replicate (n % 256) (drop k src) equal) in
    let size : length p ≡ k = omega (arith, ap length front, length-take k src) in
    let pad : block_size - length p % block_size ≡ n = omega arith in
    rw (pad, front, ← tail) (sym (take-append-drop k src))

-- Under AES's block size of 16, unpadding accepts exactly what padding makes, and returns the text:
-- every padded text is recovered, and whatever is accepted is the padding of what is returned.
pub pkcs7_unpad_iff :
    (src p : Bytes) → (pkcs7_unpad src block_size ≡ ok p) ↔ (src ≡ pkcs7_pad p block_size)
pkcs7_unpad_iff src p = (pkcs7_unpad-inv src p, λ e. rw e (pkcs7_unpad-pad p))
