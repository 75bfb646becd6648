-- ===== src/Mssfix/Checksum.antt =====
-- The Internet checksum of mssfix.go (RFC 1071): the sum over a range whose checksum field was computed
-- by `checksum` or `checksumVec` comes out as zero, which is what the receiver tests.
use go_openlawsvpn.Base.{
  drop-drop, le→ltb, ℕ, zero, suc, ◌+◌, ◌*◌, ◌/◌, ◌%◌, ◌^◌, ◌≤◌, ◌<◌, ◌≡◌, refl, sym, ap, ◌∙◌,
  arith, [], ◌∷◌, ◌++◌, length, length-append, length-take, length-drop, take, drop, take-append,
  drop-append, ok, Bytes, All, IsByte, put_uint16,
}
use go_openlawsvpn.Mssfix.{
  put_uint16_at, add_bytes, fold_carries, complement, checksum_vec, refresh_checksum,
}

-- The 16-bit words of a range added up, without the wrap-around of uint32.
abbrev pub word_sum : Bytes → ℕ
word_sum [] = 0
word_sum (last ∷ []) = last * 256
word_sum (high ∷ (low ∷ rest)) = high * 256 + low + word_sum rest

pub word_sum_bound : (b : Bytes) → All IsByte b → 2 * word_sum b ≤ 65535 * suc (length b)
word_sum_bound [] h = omega arith
word_sum_bound (last ∷ []) (h, tt) = omega arith
word_sum_bound (high ∷ (low ∷ rest)) (h, (l, r)) = omega (arith, word_sum_bound rest r)

add_bytes_lem :
    (sum : ℕ) (b : Bytes) → sum + word_sum b < 2 ^ 32 → add_bytes sum b ≡ sum + word_sum b
unfolding add_bytes
add_bytes_lem sum [] h = omega arith
add_bytes_lem sum (last ∷ []) h = omega arith
add_bytes_lem sum (high ∷ (low ∷ rest)) h =
    let e : (sum + (high * 256 + low)) % 2 ^ 32 ≡ sum + (high * 256 + low) = omega arith in
    rw e (add_bytes_lem (sum + (high * 256 + low)) rest (omega arith) ∙ omega arith)

-- Folding keeps the sum modulo 65535, and tells zero from its other multiples.
fold_carries_lem :
    (sum : ℕ)
    → sum < 2 ^ 32
    → (k : ℕ) × (fold_carries 2 sum + k * 65535 ≡ sum)
      × (fold_carries 2 sum ≤ 65535)
      × (1 ≤ sum → 1 ≤ fold_carries 2 sum)
unfolding fold_carries
fold_carries_lem sum h =
    (sum / 65536 + (sum % 65536 + sum / 65536) / 65536, ground arith, ground arith, ground arith)

-- A sum with its complement added folds to all ones.
complement_verifies :
    (sum : ℕ) → 1 ≤ sum → sum + 65535 < 2 ^ 32 → complement (sum + complement sum) ≡ 0
complement_verifies sum positive h =
    let (k, e, le, ge) = fold_carries_lem sum (omega arith) in
    let (k', e', le', ge') = fold_carries_lem (sum + complement sum) (omega arith) in
    omega (arith, ge (omega arith), ge' (omega arith))

pub word_sum-append :
    (m : ℕ) (a b : Bytes) → length a ≡ m * 2 → word_sum (a ++ b) ≡ word_sum a + word_sum b
word_sum-append m [] b h = omega arith
word_sum-append m (x ∷ []) b h = absurd (omega arith)
word_sum-append zero (x ∷ (y ∷ a)) b h = absurd (omega arith)
word_sum-append (suc m) (x ∷ (y ∷ a)) b h = omega (arith, word_sum-append m a b (omega arith))

-- A field of two bytes behind an even number of bytes.
word_sum-field :
    (m high low : ℕ) (a b : Bytes)
    → length a ≡ m * 2
    → word_sum (a ++ (high ∷ (low ∷ b))) ≡ word_sum a + (high * 256 + low) + word_sum b
word_sum-field m high low a b h = omega (arith, word_sum-append m a (high ∷ (low ∷ b)) h)

checksum_vec_lem :
    (a b : Bytes)
    → word_sum a + word_sum b < 2 ^ 32
    → checksum_vec a b ≡ complement (word_sum a + word_sum b)
unfolding checksum_vec
checksum_vec_lem a b h =
    let first : add_bytes 0 a ≡ word_sum a = add_bytes_lem 0 a (omega arith) ∙ omega arith in
    rw (first, add_bytes_lem (word_sum a) b h) refl

put_uint16_at_lem :
    (i n : ℕ) (b : Bytes)
    → i + 2 ≤ length b
    → put_uint16_at i n b ≡ ok (take i b ++ (put_uint16 n ++ drop (i + 2) b))
unfolding put_uint16_at
put_uint16_at_lem i n b h = rw (le→ltb (length b) (i + 2) h) refl

-- The checksum of `sum` stands in the field at `i`, whatever stood there.
abbrev pub refreshed : ℕ → (Bytes → ℕ) → Bytes → Bytes
refreshed i sum b =
    take i b ++ (put_uint16 (sum (take i b ++ (0 ∷ (0 ∷ drop (i + 2) b)))) ++ drop (i + 2) b)

pub refresh_checksum_lem :
    (i : ℕ) (sum : Bytes → ℕ) (b : Bytes)
    → i + 2 ≤ length b
    → refresh_checksum i sum b ≡ ok (refreshed i sum b)
unfolding refresh_checksum
refresh_checksum_lem i sum b h =
    let front : length (take i b) ≡ i = omega (arith, length-take i b) in
    let zeroed = take i b ++ (0 ∷ (0 ∷ drop (i + 2) b)) in
    let wide : i + 2 ≤ length zeroed =
      omega (arith, length-append (take i b) (0 ∷ (0 ∷ drop (i + 2) b)), length-drop (i + 2) b) in
    let behind : drop (i + 2) zeroed ≡ drop (i + 2) b =
      sym (drop-drop 2 i zeroed)
      ∙ ap (drop 2) (drop-append i (take i b) (0 ∷ (0 ∷ drop (i + 2) b)) front) in
    rw (put_uint16_at_lem i 0 b h) (
      put_uint16_at_lem i (sum zeroed) zeroed wide
      ∙ rw (take-append i (take i b) _ front, behind) refl)

-- The sum over the pseudo-header and the range, once its checksum stands in the field at an even place,
-- verifies.
pub refreshed_verifies :
    (m : ℕ) (pseudo b : Bytes)
    → m * 2 + 2 ≤ length b
    → 1 ≤ word_sum pseudo + word_sum (take (m * 2) b) + word_sum (drop (m * 2 + 2) b)
    → word_sum pseudo + word_sum (take (m * 2) b) + word_sum (drop (m * 2 + 2) b) + 65535 < 2 ^ 32
    → checksum_vec pseudo (refreshed (m * 2) (checksum_vec pseudo) b) ≡ 0
refreshed_verifies m pseudo b h positive small =
    let front = take (m * 2) b in
    let rest = drop (m * 2 + 2) b in
    let even : length front ≡ m * 2 = omega (arith, length-take (m * 2) b) in
    let sum = word_sum pseudo + word_sum front + word_sum rest in
    let zeroed : checksum_vec pseudo (front ++ (0 ∷ (0 ∷ rest))) ≡ complement sum =
      checksum_vec_lem pseudo (front ++ (0 ∷ (0 ∷ rest)))
        (omega (arith, word_sum-field m 0 0 front rest even))
      ∙ ap complement (omega (arith, word_sum-field m 0 0 front rest even)) in
    let c = complement sum in
    let field = word_sum-field m (c / 256 % 256) (c % 256) front rest even in
    let total : word_sum pseudo + word_sum (front ++ (put_uint16 c ++ rest)) ≡ sum + c =
      omega (arith, field) in
    let bound : word_sum pseudo + word_sum (front ++ (put_uint16 c ++ rest)) < 2 ^ 32 =
      omega (arith, total) in
    rw zeroed (
      checksum_vec_lem pseudo (front ++ (put_uint16 c ++ rest)) bound
      ∙ ap complement total
      ∙ complement_verifies sum positive small)
