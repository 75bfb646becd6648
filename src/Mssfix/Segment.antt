-- ===== src/Mssfix/Segment.antt =====
-- The checksums that fixTCPChecksum4, fixTCPChecksum6 and clamp4 compute, over the pseudo-headers and the
-- IPv4 header, verify.

use go_openlawsvpn.Base.{
  ℕ, zero, suc, ◌+◌, ◌^◌, ◌≤◌, ◌<◌, ◌≡◌, refl, ◌∙◌, arith, [], ◌∷◌, ◌++◌, some, length,
  length-append, length-take, length-drop, take, drop, get_elem?, Bytes, All, IsByte, All-append,
  All-take, All-drop, put_uint16, put_uint32, get_elem?-take, take-drop-append,
}
use go_openlawsvpn.Mssfix.{add_bytes, checksum, checksum_vec, pseudo_header4, pseudo_header6}
use go_openlawsvpn.Mssfix.Checksum.{
  refreshed, refreshed_verifies, word_sum, word_sum_bound, word_sum-append,
}
use go_openlawsvpn.Mssfix.Packet.{header4}

pub get_elem?-word_sum : (b : Bytes) (i : ℕ) {x : ℕ} → get_elem? b i ≡ some x → x ≤ word_sum b
get_elem?-word_sum [] i h = cc
get_elem?-word_sum (y ∷ []) zero h = ground (arith, h)
get_elem?-word_sum (y ∷ []) (suc i) h = cc
get_elem?-word_sum (y ∷ (z ∷ b)) zero h = ground (arith, h)
get_elem?-word_sum (y ∷ (z ∷ b)) (suc zero) h = ground (arith, h)
get_elem?-word_sum (y ∷ (z ∷ b)) (suc (suc i)) h = omega (arith, get_elem?-word_sum b i h)

-- The sums of a refreshed range are far from the limit of uint32.
small_sums :
    (m : ℕ) (pseudo b : Bytes)
    → All IsByte pseudo
    → All IsByte b
    → length pseudo ≤ 40
    → length b < 2 ^ 16
    → word_sum pseudo + word_sum (take m b) + word_sum (drop (m + 2) b) + 65535 < 2 ^ 32
small_sums m pseudo b h k short long =
    let front = word_sum_bound (take m b) (All-take IsByte m b k) in
    let rest = word_sum_bound (drop (m + 2) b) (All-drop IsByte (m + 2) b k) in
    omega (arith, word_sum_bound pseudo h, front, rest, length-take m b, length-drop (m + 2) b)

pub header4_verifies :
    (pkt : Bytes) (ihl : ℕ)
    → All IsByte pkt
    → length pkt < 2 ^ 16
    → 20 ≤ ihl
    → ihl ≤ length pkt
    → get_elem? pkt 9 ≡ some 6
    → checksum (header4 pkt ihl) ≡ 0
unfolding checksum checksum_vec add_bytes
header4_verifies pkt ihl bytes short h k tcp =
    let header = take ihl pkt in
    let size = length-take ihl pkt in
    let protocol : get_elem? (take 10 header) 9 ≡ some 6 =
      get_elem?-take 10 9 header (omega arith) ∙ get_elem?-take ihl 9 pkt (omega arith) ∙ tcp in
    refreshed_verifies 5 [] header (omega (arith, size))
      (omega (arith, get_elem?-word_sum (take 10 header) 9 protocol))
      (small_sums 10 [] header tt (All-take IsByte ihl pkt bytes) (omega arith)
        (omega (arith, size)))

All-put_uint16 : (n : ℕ) → All IsByte (put_uint16 n)
All-put_uint16 n = (omega arith, (omega arith, tt))

pub All-refreshed :
    (i : ℕ) (sum : Bytes → ℕ) (b : Bytes) → All IsByte b → All IsByte (refreshed i sum b)
All-refreshed i sum b h =
    let c = sum (take i b ++ (0 ∷ (0 ∷ drop (i + 2) b))) in
    All-append IsByte (take i b) (put_uint16 c ++ drop (i + 2) b) (All-take IsByte i b h) (
      All-append IsByte (put_uint16 c) (drop (i + 2) b) (All-put_uint16 c)
        (All-drop IsByte (i + 2) b h))

-- A segment behind a pseudo-header that names TCP.
pub segment_verifies :
    (pseudo tcp : Bytes)
    → All IsByte pseudo
    → All IsByte tcp
    → length pseudo ≤ 40
    → 20 ≤ length tcp
    → length tcp < 2 ^ 16
    → 1 ≤ word_sum pseudo
    → checksum_vec pseudo (refreshed 16 (checksum_vec pseudo) tcp) ≡ 0
segment_verifies pseudo tcp h k short long less positive =
    refreshed_verifies 8 pseudo tcp (omega arith) (omega arith)
      (small_sums 16 pseudo tcp h k short less)

pub pseudo_header4-bytes :
    (header : Bytes) (n : ℕ)
    → All IsByte header
    → 20 ≤ length header
    → All IsByte (pseudo_header4 header n)
      × (length (pseudo_header4 header n) ≡ 12)
      × (1 ≤ word_sum (pseudo_header4 header n))
unfolding pseudo_header4
pseudo_header4-bytes header n h k =
    let src = take 4 (drop 12 header) in
    let dst = take 4 (drop 16 header) in
    let tail = 0 ∷ (6 ∷ put_uint16 n) in
    let src_len : length src ≡ 4 =
      omega (arith, length-take 4 (drop 12 header), length-drop 12 header) in
    let dst_len : length dst ≡ 4 =
      omega (arith, length-take 4 (drop 16 header), length-drop 16 header) in
    (
      All-append IsByte src (dst ++ tail)
          (All-take IsByte 4 (drop 12 header) (All-drop IsByte 12 header h))
          (All-append IsByte dst tail
            (All-take IsByte 4 (drop 16 header) (All-drop IsByte 16 header h))
            (omega arith, (omega arith, All-put_uint16 n))),
      omega (arith, length-append src (dst ++ tail), length-append dst tail),
      omega
          (arith, word_sum-append 2 src (dst ++ tail) src_len, word_sum-append 2 dst tail dst_len),
    )

pub pseudo_header4-append :
    (header tcp : Bytes) (n : ℕ)
    → 20 ≤ length header
    → pseudo_header4 (header ++ tcp) n ≡ pseudo_header4 header n
unfolding pseudo_header4
pseudo_header4-append header tcp n h =
    rw
      (
        take-drop-append 4 12 header tcp (omega arith),
        take-drop-append 4 16 header tcp (omega arith),
      )
      refl

pub pseudo_header6-bytes :
    (header : Bytes) (n : ℕ)
    → All IsByte header
    → 40 ≤ length header
    → All IsByte (pseudo_header6 header n)
      × (length (pseudo_header6 header n) ≡ 40)
      × (1 ≤ word_sum (pseudo_header6 header n))
unfolding pseudo_header6
pseudo_header6-bytes header n h k =
    let src = take 16 (drop 8 header) in
    let dst = take 16 (drop 24 header) in
    let tail = put_uint32 n ++ (0 ∷ (0 ∷ (0 ∷ (6 ∷ [])))) in
    let src_len : length src ≡ 16 =
      omega (arith, length-take 16 (drop 8 header), length-drop 8 header) in
    let dst_len : length dst ≡ 16 =
      omega (arith, length-take 16 (drop 24 header), length-drop 24 header) in
    let number : All IsByte tail = (
      omega arith,
      (
        omega arith,
        (
          omega arith,
          (omega arith, (omega arith, (omega arith, (omega arith, (omega arith, tt))))),
        ),
      ),
    ) in
    (
      All-append IsByte src (dst ++ tail)
          (All-take IsByte 16 (drop 8 header) (All-drop IsByte 8 header h))
          (All-append IsByte dst tail
            (All-take IsByte 16 (drop 24 header) (All-drop IsByte 24 header h)) number),
      omega (arith, length-append src (dst ++ tail), length-append dst tail),
      omega
          (arith, word_sum-append 8 src (dst ++ tail) src_len, word_sum-append 8 dst tail dst_len),
    )

pub pseudo_header6-append :
    (header tcp : Bytes) (n : ℕ)
    → 40 ≤ length header
    → pseudo_header6 (header ++ tcp) n ≡ pseudo_header6 header n
unfolding pseudo_header6
pseudo_header6-append header tcp n h =
    rw
      (
        take-drop-append 16 8 header tcp (omega arith),
        take-drop-append 16 24 header tcp (omega arith),
      )
      refl
