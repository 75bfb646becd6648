-- ===== src/Client/Settings/Budget.antt =====
-- The MTU that effectiveMSSFix derives, against what the manager puts on the wire: a packet of that size
-- fits, encrypted and framed, within the link budget of 1450 bytes.
use go_openlawsvpn.Base.{
  ap, sym, pos_part, ℕ, ◌+◌, ◌-◌, ◌≤◌, ◌≡◌, arith, Bool, true, false, not, Option, none, some,
  Bytes, length, if◌then◌else◌, [], put_uint16, put_uint32, ◌++◌, refl, ℤ, pos,
}
use go_openlawsvpn.Compress
use go_openlawsvpn.Compress.{Mode, mode_none, mode_lz4, mode_lzo}
use go_openlawsvpn.Crypto.{IsBounded}
use go_openlawsvpn.DataChannel
use go_openlawsvpn.DataChannel.{Channel, build_header, encrypt_gcm, encrypt_cbc}
use go_openlawsvpn.Framing.{p_data_v2}
use go_openlawsvpn.Manager.{Manager}
use go_openlawsvpn.Manager
use go_openlawsvpn.Client.Settings.{
  Profile, Proto, proto_tcp, proto_udp, is_positive, outer_ip_len, transport_overhead,
  stub_overhead, data_overhead, is_outer_ipv6, is_cbc, effective_mss_fix,
}

length-wrap :
    (m : Mode) (payload : Bytes)
    → length (Compress.wrap m payload) ≡ length payload + stub_overhead m
unfolding Compress.wrap
length-wrap mode_none payload = omega arith
length-wrap mode_lz4 payload = omega arith
length-wrap mode_lzo payload = omega arith

-- A channel adds 24 bytes to a payload in GCM mode, and at most 72 in CBC mode.
length-encrypt_channel :
    (c : Channel) (rand payload : Bytes)
    → IsBounded c.encryptor
    → length rand ≡ 16
    → length (DataChannel.encrypt c rand payload).1
      ≤ length payload + (if c.encryptor.is_aead then 24 else 72)
unfolding DataChannel.encrypt encrypt_gcm encrypt_cbc build_header
length-encrypt_channel c rand payload law hr =
    let header = build_header p_data_v2 c.key_id c.peer_id in
    let number = put_uint32 c.send_seq in
    ground (
      arith,
      law rand c.send_seq payload (header ++ number) hr,
      law rand c.send_seq (number ++ payload) [] hr,
    )

derived_mtu :
    (equal_fold : Bytes → Bytes → Bool) (to4 : Bytes → Option Bytes) (p : Profile) (pushed_mss : ℤ)
    (proto : Proto) (cipher : Bytes) (mode : Mode) (ip : Option Bytes) (mtu : ℕ)
    → is_positive pushed_mss ≡ false
    → p.mss_fix_set ≡ false
    → effective_mss_fix equal_fold to4 p pushed_mss (pos 1500) proto cipher mode ip
      ≡ (pos 0, pos mtu)
    → mtu
      ≡ 1450
        - outer_ip_len (is_outer_ipv6 equal_fold to4 ip)
        - transport_overhead proto
        - data_overhead (is_cbc equal_fold to4 cipher) mode
unfolding effective_mss_fix
derived_mtu equal_fold to4 p pushed_mss proto cipher mode ip mtu hp hs e =
    ap (λ r. pos_part r.1) (sym (rw (hp, hs) at e))

outer_ip_len_bound : (b : Bool) → outer_ip_len b ≤ 40
outer_ip_len_bound b = ground arith

transport_overhead_bound : (proto : Proto) → transport_overhead proto ≤ 22
transport_overhead_bound proto_tcp = omega arith
transport_overhead_bound proto_udp = omega arith

stub_overhead_bound : (m : Mode) → stub_overhead m ≤ 1
stub_overhead_bound mode_none = omega arith
stub_overhead_bound mode_lz4 = omega arith
stub_overhead_bound mode_lzo = omega arith

within_budget :
    (outer transport stub size wire mtu : ℕ) (cbc aead : Bool)
    → outer ≤ 40
    → transport ≤ 22
    → stub ≤ 1
    → aead ≡ not cbc
    → mtu ≡ 1450 - outer - transport - ((if cbc then 72 else 24) + stub)
    → size ≤ mtu
    → wire ≤ size + stub + (if aead then 24 else 72)
    → outer + transport + wire ≤ 1450
within_budget outer transport stub size wire mtu true true ho ht hs e hm fits hw = cc
within_budget outer transport stub size wire mtu false false ho ht hs e hm fits hw = cc
within_budget outer transport stub size wire mtu true false ho ht hs e hm fits hw = omega arith
within_budget outer transport stub size wire mtu false true ho ht hs e hm fits hw = omega arith

-- The header of an IP packet to an address (RFC 791, RFC 8200); without an address it is an IPv4 one.
abbrev pub ip_header : (Bytes → Option Bytes) → Option Bytes → ℕ
ip_header to4 none = 20
ip_header to4 (some ip) = elim (to4 ip) [ none ↦ 40 | some _ ↦ 20 ]

-- The transport header and its payload (RFC 768, RFC 9293). In a TCP stream a packet stands behind its
-- length.
abbrev pub segment : Proto → Bytes → ℕ
segment proto_udp packet = 8 + length packet
segment proto_tcp packet = 20 + length (put_uint16 (length packet) ++ packet)

ip_header-outer :
    (equal_fold : Bytes → Bytes → Bool) (to4 : Bytes → Option Bytes) (ip : Option Bytes)
    → ip_header to4 ip ≡ outer_ip_len (is_outer_ipv6 equal_fold to4 ip)
ip_header-outer equal_fold to4 none = refl
ip_header-outer equal_fold to4 (some ip) = by_family (to4 ip)
  where
    by_family :
        (o : Option Bytes)
        → elim o [ none ↦ 40 | some _ ↦ 20 ]
          ≡ outer_ip_len (elim o [ none ↦ true | some _ ↦ false ])
    by_family none = refl
    by_family (some _) = refl

segment-overhead :
    (proto : Proto) (packet : Bytes)
    → segment proto packet ≡ transport_overhead proto + length packet
segment-overhead proto_udp packet = refl
segment-overhead proto_tcp packet = omega arith

-- With the derived MTU, a plaintext packet of that length at most, framed and encrypted by a manager whose
-- cipher and compression mode are the negotiated ones, takes at most 1450 bytes in an IP packet to the
-- server: with a header of 20 bytes for IPv4 or 40 for IPv6, and with 8 bytes of UDP, or 20 of TCP and the
-- length in front of the packet.
pub effective_mss_fix_fits :
    (equal_fold : Bytes → Bytes → Bool) (to4 : Bytes → Option Bytes) (p : Profile) (pushed_mss : ℤ)
    (proto : Proto) (cipher : Bytes) (ip : Option Bytes) (m : Manager) (rand plain : Bytes)
    (mtu : ℕ)
    → is_positive pushed_mss ≡ false
    → p.mss_fix_set ≡ false
    → m.current.encryptor.is_aead ≡ not (is_cbc equal_fold to4 cipher)
    → IsBounded m.current.encryptor
    → length rand ≡ 16
    → effective_mss_fix equal_fold to4 p pushed_mss (pos 1500) proto cipher m.compress ip
      ≡ (pos 0, pos mtu)
    → length plain ≤ mtu
    → ip_header to4 ip + segment proto (Manager.encrypt m rand plain).1 ≤ 1450
unfolding Manager.encrypt
effective_mss_fix_fits equal_fold to4 p pushed_mss proto cipher ip m rand plain mtu hp hs hc law hr
      e fits =
    let m_e = derived_mtu equal_fold to4 p pushed_mss proto cipher m.compress ip mtu hp hs e in
    let packet = (Manager.encrypt m rand plain).1 in
    let wire = length-encrypt_channel m.current rand (Compress.wrap m.compress plain) law hr in
    let stub = stub_overhead m.compress in
    let within =
      within_budget _ _ stub (length plain) (length packet) mtu (is_cbc equal_fold to4 cipher)
        m.current.encryptor.is_aead (outer_ip_len_bound (is_outer_ipv6 equal_fold to4 ip))
        (transport_overhead_bound proto) (stub_overhead_bound m.compress) hc m_e fits
        (rw (← length-wrap m.compress plain) wire) in
    omega (arith, ip_header-outer equal_fold to4 ip, segment-overhead proto packet, within)
