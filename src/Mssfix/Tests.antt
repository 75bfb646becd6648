-- ===== src/Mssfix/Tests.antt =====
-- A SYN with an MSS of 1460 over IPv4 and over IPv6, and the theorems at them.
use go_openlawsvpn.Base.{◌≡◌, refl, Bool, true, ◌&&◌, [], ◌∷◌, ◌++◌, ltb, ok, Bytes, pos}
use go_openlawsvpn.Mssfix.{
  clamp, clamp4, clamp_tcp, clamp_options, lower_mss, put_uint16_at, rebuild4, refresh_checksum,
  fix_tcp_checksum4, checksum, checksum_vec, fold_carries, add_bytes, pseudo_header4,
}
use go_openlawsvpn.Mssfix.Clamped.{Clamped}

-- Whether all numbers are bytes.
abbrev are_bytes : Bytes → Bool
are_bytes [] = true
are_bytes (b ∷ rest) = ltb b 256 && are_bytes rest

abbrev ip_header : Bytes
ip_header =
    0x45 ∷ 0 ∷ 0 ∷ 44 ∷ 0 ∷ 1 ∷ 0 ∷ 0 ∷ 64 ∷ 6 ∷ 0 ∷ 0 ∷ 10 ∷ 0 ∷ 0 ∷ 1 ∷ 10 ∷ 0 ∷ 0 ∷ 2 ∷ []

abbrev tcp_header : Bytes
tcp_header =
    0x12 ∷ 0x34 ∷ 0 ∷ 80 ∷ 0 ∷ 0 ∷ 0 ∷ 1 ∷ 0 ∷ 0 ∷ 0 ∷ 0 ∷ 0x60 ∷ 2 ∷ 0xff ∷ 0xff ∷ 0 ∷ 0 ∷ 0 ∷ 0
    ∷ []

abbrev syn : Bytes
syn = ip_header ++ (tcp_header ++ (2 ∷ 4 ∷ 5 ∷ 0xb4 ∷ []))

abbrev clamped_syn : Bytes
clamped_syn =
    69 ∷ 0 ∷ 0 ∷ 44 ∷ 0 ∷ 1 ∷ 0 ∷ 0 ∷ 64 ∷ 6 ∷ 102 ∷ 201 ∷ 10 ∷ 0 ∷ 0 ∷ 1 ∷ 10 ∷ 0 ∷ 0 ∷ 2 ∷ 18 ∷ 52
    ∷ 0 ∷ 80 ∷ 0 ∷ 0 ∷ 0 ∷ 1 ∷ 0 ∷ 0 ∷ 0 ∷ 0 ∷ 96 ∷ 2 ∷ 255 ∷ 255 ∷ 114 ∷ 63 ∷ 0 ∷ 0 ∷ 2 ∷ 4 ∷ 5
    ∷ 20 ∷ []

syn_clamped : clamp syn (pos 1300) ≡ ok clamped_syn
unfolding clamp clamp4 clamp_tcp clamp_options lower_mss put_uint16_at rebuild4 refresh_checksum
    fix_tcp_checksum4 checksum checksum_vec fold_carries add_bytes pseudo_header4
syn_clamped = refl

abbrev options : Bytes
options = 1 ∷ 2 ∷ 4 ∷ 5 ∷ 0xb4 ∷ []
