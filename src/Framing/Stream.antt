-- ===== src/Framing/Stream.antt =====
-- The TCP transport's stream of length-prefixed packets (framing.go, ReadTCP and WriteTCP).
use go_openlawsvpn.Base.{
  ℕ, ◌+◌, ◌*◌, ◌/◌, ◌%◌, ◌≤◌, ◌≡◌, ◌↔◌, refl, arith, [], ◌∷◌, ◌++◌, length, length-append, take,
  drop, take-append, drop-append, append_assoc, ok, Bytes, put_uint16, All, IsByte, le→ltb,
  length-take, take-append-drop, min,
}
use go_openlawsvpn.Framing.{read_full, read_tcp, write_tcp, max_packet_size}

read_full-append : (n : ℕ) (xs ys : Bytes) → length xs ≡ n → read_full n (xs ++ ys) ≡ ok (xs, ys)
read_full-append n xs ys h = rw (
  le→ltb (length (xs ++ ys)) n (omega (arith, length-append xs ys)),
  take-append n xs ys h,
  drop-append n xs ys h,
)

-- A payload that the length field can carry.
abbrev pub IsPayload : Bytes → Type 0
IsPayload p = (1 ≤ length p) × (length p ≤ max_packet_size)

pub write_tcp_lem : (p : Bytes) → IsPayload p → write_tcp p ≡ ok (put_uint16 (length p) ++ p)
unfolding write_tcp
write_tcp_lem p h = ground arith

read_tcp-prefix :
    (p rest : Bytes) → IsPayload p → read_tcp (put_uint16 (length p) ++ (p ++ rest)) ≡ ok (p, rest)
unfolding read_tcp
read_tcp-prefix p rest (lo, hi) = ground (
  arith,
  read_full-append 2 (put_uint16 (length p)) (p ++ rest) refl,
  read_full-append (length p) p rest refl,
)

-- What a successful io.ReadFull returns.
read_full-inv :
    (n : ℕ) (r p rest : Bytes) → read_full n r ≡ ok (p, rest) → (length p ≡ n) × (r ≡ p ++ rest)
read_full-inv n r p rest h =
    let cut : length (take n r) ≡ min n (length r) = length-take n r in
    let whole : take n r ++ drop n r ≡ r = take-append-drop n r in ground (arith, cut, whole)

-- A successful `ReadTCP` on a stream of bytes has read one whole frame, and nothing behind it.
read_tcp-inv :
    (r p rest : Bytes)
    → All IsByte r
    → read_tcp r ≡ ok (p, rest)
    → IsPayload p × (r ≡ put_uint16 (length p) ++ (p ++ rest))
unfolding read_tcp
read_tcp-inv [] p rest h e = ground arith
read_tcp-inv (a ∷ []) p rest h e = ground arith
read_tcp-inv (a ∷ b ∷ r) p rest (ha, (hb, _)) e =
    let n : ℕ = a * 256 + b in
    let high : n / 256 % 256 ≡ a = omega arith in
    let low : n % 256 ≡ b = omega arith in ground (arith, high, low, read_full-inv n r p rest)

-- On a stream of bytes `ReadTCP` returns a packet exactly when the stream begins with its frame: the
-- big-endian length, which is neither 0 nor over 65535, and that many bytes. It leaves the rest.
pub read_tcp_iff :
    (r p rest : Bytes)
    → All IsByte r
    → (read_tcp r ≡ ok (p, rest)) ↔ (IsPayload p × (r ≡ put_uint16 (length p) ++ (p ++ rest)))
read_tcp_iff r p rest h = (read_tcp-inv r p rest h, λ (v, e). rw e (read_tcp-prefix p rest v))

-- Whatever `WriteTCP` writes is read back by `ReadTCP` as the same payload, whatever follows it in
-- the stream.
read_tcp-write_tcp : (p w rest : Bytes) → write_tcp p ≡ ok w → read_tcp (w ++ rest) ≡ ok (p, rest)
unfolding write_tcp
read_tcp-write_tcp p w rest e =
    ground (arith, read_tcp-prefix p rest, append_assoc (put_uint16 (length p)) p rest)
