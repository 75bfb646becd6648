-- ===== src/Client/Auth/Consumed.antt =====
-- The reader of the other end's packet leaves what follows it.
use go_openlawsvpn.Base.{
  ℕ, suc, ◌+◌, ◌-◌, ◌^◌, ◌≤◌, ◌≡◌, refl, ap, ◌∙◌, arith, true, false, ◌&&◌, ◌∷◌, ◌++◌, append_assoc,
  length, length-append, take-append, drop-append, ltb, leb, ok, Bytes,
}
use go_openlawsvpn.Client.Settings.{Proto}
use go_openlawsvpn.Client.Auth.{
  build_tunnel_options, auth_header, send_auth_packet, Error, read_full, total_len_of, short_header,
  short_body, consume_server_auth_packet,
}
use go_openlawsvpn.Client.Auth.Fields.{auth_header_lem, strings}

read_full-append :
    (a rest : Bytes) (n : ℕ) (e : Error) → length a ≡ n → read_full n (a ++ rest) e ≡ ok (a, rest)
unfolding read_full
read_full-append a rest n e h =
    let enough : ltb (length (a ++ rest)) n ≡ false = ground (arith, length-append a rest, h) in
    rw (enough, take-append n a rest h, drop-append n a rest h) refl

-- The same for any body with the right key method.
consume-body :
    (tail rest : Bytes) (drained : ℕ)
    → 80 ≤ length tail
    → length tail + 5 ≤ 2 ^ 20
    → consume_server_auth_packet drained (auth_header true (0x02 ∷ tail) ++ ((0x02 ∷ tail) ++ rest))
      ≡ ok rest
unfolding consume_server_auth_packet
consume-body tail rest drained long short =
    let hdr = auth_header true (0x02 ∷ tail) in
    let total : total_len_of hdr ≡ 4 + suc (length tail) =
      auth_header_lem (0x02 ∷ tail) (omega (arith, short)) in
    let plausible : (leb 85 (total_len_of hdr) && leb (total_len_of hdr) (2 ^ 20)) ≡ true =
      ap (λ n. leb 85 n && leb n (2 ^ 20)) total ∙ ground (arith, long, short) in
    let body : read_full (total_len_of hdr - 4) ((0x02 ∷ tail) ++ rest) short_body
        ≡ ok (0x02 ∷ tail, rest) =
      read_full-append (0x02 ∷ tail) rest (total_len_of hdr - 4) short_body
        (omega (arith, total)) in
    rw (read_full-append hdr ((0x02 ∷ tail) ++ rest) 4 short_header refl, plausible, body) refl

-- A packet in the AWS format of at most 2 ^ 20 bytes, as sendAuthPacket writes it, is consumed by
-- consumeServerAuthPacket to its last byte and no further.
consume_server_auth_packet-send :
    (digits : ℕ → Bytes) (random : Bytes) (proto : Proto) (tun_mtu : ℕ)
    (username password rest : Bytes) (drained : ℕ)
    → length random ≡ 112
    → length (send_auth_packet digits random proto tun_mtu username password true) ≤ 2 ^ 20
    → consume_server_auth_packet drained
        (send_auth_packet digits random proto tun_mtu username password true ++ rest)
      ≡ ok rest
unfolding send_auth_packet
consume_server_auth_packet-send digits random proto tun_mtu username password rest drained h fits =
    let behind = strings true (build_tunnel_options digits proto tun_mtu) username password in
    let count = length-append random behind in
    let body = 0x02 ∷ (random ++ behind) in
    ap (consume_server_auth_packet drained) (append_assoc (auth_header true body) body rest)
    ∙ consume-body (random ++ behind) rest drained (omega (arith, count, h)) (omega (arith, fits))
