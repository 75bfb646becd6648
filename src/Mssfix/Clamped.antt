-- ===== src/Mssfix/Clamped.antt =====
-- Clamp on any packet: it never indexes out of range, it keeps the length, and the checksums of a packet
-- that it changes verify.
use Prim.Native.Nat.{bit_and}
use go_openlawsvpn.Base.{ℕ, ◌*◌, ◌≡◌, ◌⊎◌, ◌++◌, some, length, get_elem?, Bytes}
use go_openlawsvpn.Mssfix.{checksum, checksum_vec, pseudo_header4, pseudo_header6}

-- The checksums of a TCP packet under IPv4 or IPv6, as a receiver tests them: the sums over the header,
-- as long as its first byte says, and over the segment with the pseudo-header come out as zero.
abbrev pub Verifies4 : Bytes → Type 0
Verifies4 out =
    (first : ℕ) × (header : Bytes) × (tcp : Bytes) × (out ≡ header ++ tcp)
    × (get_elem? out 0 ≡ some first)
    × (length header ≡ bit_and first 0x0f * 4)
    × (checksum header ≡ 0)
    × (checksum_vec (pseudo_header4 out (length tcp)) tcp ≡ 0)

abbrev pub Verifies6 : Bytes → Type 0
Verifies6 out =
    (header : Bytes) × (tcp : Bytes) × (out ≡ header ++ tcp)
    × (length header ≡ 40)
    × (checksum_vec (pseudo_header6 out (length tcp)) tcp ≡ 0)

abbrev pub Clamped : Bytes → Bytes → Type 0
Clamped pkt out = (length out ≡ length pkt) × ((out ≡ pkt) ⊎ (Verifies4 out ⊎ Verifies6 out))
