-- ===== src/Client/Auth.antt =====
-- client.go: the key-method-2 packets, sendAuthPacket with buildTunnelOptions, and
-- consumeServerAuthPacket. The random bytes and the decimal digits that fmt prints are arguments.
pub mod Fields
pub mod Consumed
mod Tests
use go_openlawsvpn.Base.{
  ℕ, suc, ◌+◌, ◌-◌, ◌*◌, ◌/◌, ◌%◌, ◌^◌, Bool, true, false, not, ◌&&◌, List, [], ◌∷◌, ◌++◌, length,
  take, drop, ltb, leb, ◌==◌, if◌then◌else◌, Result, ok, err, panic, ◌>>=◌, Bytes, put_uint16,
  put_uint32,
}
use go_openlawsvpn.Compress.{codes}
use go_openlawsvpn.Client.Settings.{Proto, proto_tcp, proto_udp}

-- The protocol in the options, and what it adds to the MTU.
abbrev pub proto_str : Proto → Bytes
proto_str proto_tcp = codes "TCPv4_CLIENT"
proto_str proto_udp = codes "UDPv4"

abbrev pub link_overhead : Proto → ℕ
link_overhead proto_tcp = 43
link_overhead proto_udp = 21

-- `digits` prints a number as "%d" does; the MTU is the TunMTU of the profile, never negative.
unfoldable pub build_tunnel_options : (ℕ → Bytes) → Proto → ℕ → Bytes
build_tunnel_options digits proto tun_mtu =
    let mtu = if tun_mtu == 0 then 1500 else tun_mtu in
    codes "V4,dev-type tun,link-mtu "
    ++ (digits (mtu + link_overhead proto)
        ++ (codes ",tun-mtu "
            ++ (digits mtu
                ++ (codes ",proto "
                    ++ (proto_str proto
                        ++ codes
                            ",cipher AES-256-GCM,auth [null-digest],keysize 256,key-method 2,tls-client")))))

abbrev pub peer_info : Bytes
peer_info =
    codes
      "IV_VER=3.11.6\nIV_PLAT=linux\nIV_NCP=2\nIV_TCPNL=1\nIV_PROTO=30\nIV_MTU=1600\nIV_CIPHERS=AES-128-GCM:AES-192-GCM:AES-256-GCM\n"

-- authStr of the AWS format, and that of the stock format, whose length wraps in uint16.
abbrev pub auth_str32 : Bytes → Bytes
auth_str32 [] = 0 ∷ 0 ∷ 0 ∷ 0 ∷ []
auth_str32 (c ∷ s) = put_uint32 ((length (c ∷ s) + 1) % 2 ^ 32) ++ ((c ∷ s) ++ (0 ∷ []))

abbrev pub auth_str16 : Bytes → Bytes
auth_str16 [] = 0 ∷ 1 ∷ 0 ∷ []
auth_str16 (c ∷ s) = put_uint16 ((length (c ∷ s) + 1) % 2 ^ 16) ++ ((c ∷ s) ++ (0 ∷ []))

abbrev pub auth_str : Bool → Bytes → Bytes
auth_str true s = auth_str32 s
auth_str false s = auth_str16 s

abbrev pub put_uint32_le : ℕ → Bytes
put_uint32_le n = n % 256 ∷ n / 256 % 256 ∷ n / 2 ^ 16 % 256 ∷ n / 2 ^ 24 % 256 ∷ []

-- The key method, the random bytes, and the four strings.
abbrev pub auth_body : Bool → Bytes → Bytes → Bytes → Bytes → Bytes
auth_body aws rnd options username password =
    0x02
    ∷ (rnd
        ++ (auth_str aws options
            ++ (auth_str aws username ++ (auth_str aws password ++ auth_str aws peer_info))))

-- The four bytes in front of the body.
abbrev pub auth_header : Bool → Bytes → Bytes
auth_header true body = put_uint32_le ((4 + length body) % 2 ^ 32)
auth_header false body = 0 ∷ 0 ∷ 0 ∷ 0 ∷ []

-- The bytes written, from the 112 bytes of rand.Read on.
unfoldable pub send_auth_packet : (ℕ → Bytes) → Bytes → Proto → ℕ → Bytes → Bytes → Bool → Bytes
unfolding build_tunnel_options
send_auth_packet digits rnd proto tun_mtu username password aws =
    let body = auth_body aws rnd (build_tunnel_options digits proto tun_mtu) username password in
    auth_header aws body ++ body

pub data Error : Type 0 where
  short_header short_body short_key_method : Error
  unexpected_key_method : ℕ → Error

-- io.ReadFull on the bytes still to come.
unfoldable pub read_full : ℕ → Bytes → Error → Result Error (Bytes × Bytes)
read_full n r e = if ltb (length r) n then err e else ok (take n r, drop n r)

abbrev pub check_key_method : Bytes → Bytes → Result Error Bytes
check_key_method (b ∷ _) rest = if not (b == 0x02) then err (unexpected_key_method b) else ok rest
check_key_method [] rest = panic

-- `int(hdr[0]) | int(hdr[1])<<8 | ...`, with the shifts as products.
abbrev pub total_len_of : Bytes → ℕ
total_len_of (a ∷ b ∷ c ∷ d ∷ []) = a + b * 256 + c * 2 ^ 16 + d * 2 ^ 24
total_len_of _ = 0

-- What is left to read; `drained` is how many bytes the last Read takes, up to 8192.
unfoldable pub consume_server_auth_packet : ℕ → Bytes → Result Error Bytes
unfolding read_full
consume_server_auth_packet drained r = do
  hdr ← read_full 4 r short_header
  if leb 85 (total_len_of hdr.0) && leb (total_len_of hdr.0) (2 ^ 20)
      then (do
        body ← read_full (total_len_of hdr.0 - 4) hdr.1 short_body
        check_key_method body.0 body.1)
      else (do km ← read_full 1 hdr.1 short_key_method; check_key_method km.0 (drop drained km.1))
