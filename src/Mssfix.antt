-- ===== src/Mssfix.antt =====
-- internal/mssfix/mssfix.go: the MSS option of a TCP SYN is lowered to a maximum, and the checksums of
-- the packet are computed again. A call returns the packet as it leaves it; `none` stands for the
-- functions' early returns, which leave the packet as it was. A slice `tcp` of the packet shares its
-- bytes, so what is written to it is put back in its place.
pub mod Options
pub mod Checksum
pub mod Packet
pub mod Segment
pub mod Clamped
mod Tests
use Prim.Native.Nat.{bit_and}
use go_openlawsvpn.Base.{
  ℕ, zero, suc, ◌+◌, ◌-◌, ◌*◌, ◌/◌, ◌%◌, ◌^◌, Bool, true, false, ◌&&◌, ◌||◌, not, List, [], ◌∷◌,
  ◌++◌, length, take, drop, replicate, ◌==◌, ltb, leb, if◌then◌else◌, Option, none, some, Result,
  ok, panic, ◌>>=◌, index, Bytes, put_uint16, put_uint32, uint16, ℤ, pos, negsuc, ◌+ℤ◌,
}

-- No error values: a call ends with a packet or it panics.
abbrev pub Go {ℓ} : Type ℓ → Type ℓ
Go A = Result ⊥ A

-- `binary.BigEndian.PutUint16(b[i:i+2], uint16(n))`
unfoldable pub put_uint16_at : ℕ → ℕ → Bytes → Go Bytes
put_uint16_at i n b =
    if ltb (length b) (i + 2) then panic else ok (take i b ++ (put_uint16 n ++ drop (i + 2) b))

-- The loop `for i := 0; i+1 < len(buf); i += 2` with the odd byte behind it. The sum is a uint32.
unfoldable pub add_bytes : ℕ → Bytes → ℕ
add_bytes sum [] = sum
add_bytes sum (last ∷ []) = (sum + last * 256) % 2 ^ 32
add_bytes sum (high ∷ (low ∷ rest)) = add_bytes ((sum + (high * 256 + low)) % 2 ^ 32) rest

-- The loop `for sum>>16 != 0`, with fuel.
unfoldable pub fold_carries : ℕ → ℕ → ℕ
fold_carries zero sum = sum
fold_carries (suc fuel) sum =
    let folded = fold_carries fuel (sum % 65536 + sum / 65536) in
    if sum / 65536 == 0 then sum else folded

-- `^uint16(sum)`, where two rounds of folding are enough for a uint32.
abbrev pub complement : ℕ → ℕ
complement sum = 65535 - fold_carries 2 sum % 65536

unfoldable pub checksum : Bytes → ℕ
checksum b = complement (add_bytes 0 b)

unfoldable pub checksum_vec : Bytes → Bytes → ℕ
checksum_vec a b = complement (add_bytes (add_bytes 0 a) b)

-- The field at `i` is zeroed, and the checksum of the pseudo-header and the bytes put there.
unfoldable pub refresh_checksum : ℕ → (Bytes → ℕ) → Bytes → Go Bytes
refresh_checksum i sum b = do zeroed ← put_uint16_at i 0 b; put_uint16_at i (sum zeroed) zeroed

unfoldable pub pseudo_header4 : Bytes → ℕ → Bytes
pseudo_header4 pkt tcp_len =
    take 4 (drop 12 pkt) ++ (take 4 (drop 16 pkt) ++ (0 ∷ 6 ∷ put_uint16 tcp_len))

unfoldable pub fix_tcp_checksum4 : Bytes → ℕ → Go Bytes
fix_tcp_checksum4 pkt ihl = do
  let pseudo = pseudo_header4 pkt (length pkt - ihl)
  tcp ← refresh_checksum 16 (checksum_vec pseudo) (drop ihl pkt)
  ok (take ihl pkt ++ tcp)

unfoldable pub pseudo_header6 : Bytes → ℕ → Bytes
pseudo_header6 pkt tcp_len =
    take 16 (drop 8 pkt) ++ (take 16 (drop 24 pkt) ++ (put_uint32 tcp_len ++ (0 ∷ 0 ∷ 0 ∷ 6 ∷ [])))

unfoldable pub fix_tcp_checksum6 : Bytes → Go Bytes
fix_tcp_checksum6 pkt = do
  let pseudo = pseudo_header6 pkt (length (drop 40 pkt))
  tcp ← refresh_checksum 16 (checksum_vec pseudo) (drop 40 pkt)
  ok (take 40 pkt ++ tcp)

-- The MSS option at the front of `opts`: lowered if it exceeds the maximum.
unfoldable pub lower_mss : ℕ → Bytes → Go (Option Bytes)
lower_mss max_mss opts = do
  cur ← uint16 (drop 2 opts)
  if ltb max_mss cur
      then put_uint16_at 2 max_mss opts >>= (λ lowered. ok (some lowered))
      else ok none

-- `length := int(opts[i+1])`, and 1 for a NOP.
unfoldable pub option_length : Bytes → ℕ
option_length [] = 0
option_length (kind ∷ []) = 1
option_length (kind ∷ (len ∷ rest)) = if kind == 1 then 1 else len

unfoldable pub put_before : Bytes → Option Bytes → Option Bytes
put_before passed none = none
put_before passed (some rest) = some (passed ++ rest)

-- One round at `opts[i:]`, where `next` is what the rounds behind this option return.
unfoldable pub clamp_option : ℕ → Bytes → Go (Option Bytes) → Go (Option Bytes)
clamp_option max_mss [] next = ok none
clamp_option max_mss (kind ∷ []) next = if kind == 1 then next else ok none
clamp_option max_mss (kind ∷ (len ∷ rest)) next =
    if kind == 0
    then ok none
    else if kind == 1
    then next
    else if ltb len 2 || ltb (length (kind ∷ (len ∷ rest))) len
    then ok none
    else if kind == 2 && len == 4
    then lower_mss max_mss (kind ∷ (len ∷ rest))
    else next

-- What the loop over the options makes of `opts[i:]`; each round passes over one byte at least, so the
-- number of bytes is enough fuel.
unfoldable pub clamp_options : ℕ → ℕ → Bytes → Go (Option Bytes)
unfolding option_length clamp_option put_before
clamp_options zero max_mss opts = ok none
clamp_options (suc fuel) max_mss opts =
    let next = clamp_options fuel max_mss (drop (option_length opts) opts) in
    clamp_option max_mss opts (next >>= λ o. ok (put_before (take (option_length opts) opts) o))

unfoldable pub clamp_tcp : Bytes → ℕ → Go (Option Bytes)
unfolding clamp_options
clamp_tcp tcp max_mss = if ltb (length tcp) 20 then ok none else do
  flags ← index tcp 13
  if bit_and flags 0x02 == 0 then ok none else do
    offset_byte ← index tcp 12
    let data_offset = offset_byte / 16 * 4
    if ltb data_offset 20 || ltb (length tcp) data_offset then ok none else do
      let opts = drop 20 (take data_offset tcp)
      lowered ← clamp_options (length opts) max_mss opts
      ok (
          put_before (take 20 tcp)
            (elim lowered [ none ↦ none | some o ↦ some (o ++ drop data_offset tcp) ]))

-- clamp4 behind the call of clampTCP that returned true.
unfoldable pub rebuild4 : Bytes → ℕ → Option Bytes → Go Bytes
rebuild4 pkt ihl none = ok pkt
rebuild4 pkt ihl (some tcp) = do
  header ← refresh_checksum 10 checksum (take ihl pkt)
  fix_tcp_checksum4 (header ++ tcp) ihl

unfoldable pub clamp4 : Bytes → ℕ → Go Bytes
clamp4 pkt max_mss = if ltb (length pkt) 20 then ok pkt else do
  first ← index pkt 0
  let ihl = bit_and first 0x0f * 4
  if ltb ihl 20 || ltb (length pkt) ihl then ok pkt else do
    protocol ← index pkt 9
    if not (protocol == 6)
        then ok pkt
        else do tcp ← clamp_tcp (drop ihl pkt) max_mss; rebuild4 pkt ihl tcp

unfoldable pub rebuild6 : Bytes → Option Bytes → Go Bytes
rebuild6 pkt none = ok pkt
rebuild6 pkt (some tcp) = fix_tcp_checksum6 (take 40 pkt ++ tcp)

unfoldable pub clamp6 : Bytes → ℕ → Go Bytes
clamp6 pkt max_mss = if ltb (length pkt) 40 then ok pkt else do
  next_header ← index pkt 6
  if not (next_header == 6)
      then ok pkt
      else do tcp ← clamp_tcp (drop 40 pkt) max_mss; rebuild6 pkt tcp

unfoldable pub clamp : Bytes → ℤ → Go Bytes
clamp pkt (negsuc _) = ok pkt
clamp pkt (pos max_mss) = if max_mss == 0 || ltb (length pkt) 20 then ok pkt else do
  first ← index pkt 0
  if first / 16 == 4
      then clamp4 pkt max_mss
      else if first / 16 == 6
      then clamp6 pkt max_mss
      else ok pkt

unfoldable pub clamp_to_mtu : Bytes → ℤ → Go Bytes
clamp_to_mtu pkt (negsuc _) = ok pkt
clamp_to_mtu pkt (pos mtu) = if mtu == 0 || length pkt == 0 then ok pkt else do
  first ← index pkt 0
  if first / 16 == 4
      then clamp pkt (pos mtu +ℤ negsuc 39)
      else if first / 16 == 6
      then clamp pkt (pos mtu +ℤ negsuc 59)
      else ok pkt
