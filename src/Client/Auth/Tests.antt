-- ===== src/Client/Auth/Tests.antt =====
-- A packet, and the theorems at it.
use go_openlawsvpn.Base.{
  ℕ, ◌+◌, ◌/◌, ◌%◌, ◌≡◌, refl, arith, true, [], ◌∷◌, ok, some, Bytes, replicate,
}
use go_openlawsvpn.Compress.{codes}
use go_openlawsvpn.Client.Settings.{proto_tcp}
use go_openlawsvpn.Client.Auth.{build_tunnel_options, peer_info, send_auth_packet}
use go_openlawsvpn.Client.Auth.Fields.{read_packet, read_packet-send}

-- Four decimal digits.
abbrev four_digits : ℕ → Bytes
four_digits n = (n / 1000 % 10 + 48) ∷ (n / 100 % 10 + 48) ∷ (n / 10 % 10 + 48) ∷ (n % 10 + 48) ∷ []

abbrev random : Bytes
random = replicate 112 7

abbrev options : Bytes
options =
    codes
      "V4,dev-type tun,link-mtu 1543,tun-mtu 1500,proto TCPv4_CLIENT,cipher AES-256-GCM,auth [null-digest],keysize 256,key-method 2,tls-client"

options_lem : build_tunnel_options four_digits proto_tcp 1500 ≡ options
unfolding build_tunnel_options
options_lem = refl

read_packet-send_example :
    read_packet true
      (send_auth_packet four_digits random proto_tcp 1500 (codes "user") (codes "token") true)
    ≡ ok (
      record {
        random = random;
        options = some (build_tunnel_options four_digits proto_tcp 1500);
        username = some (codes "user");
        password = some (codes "token");
        peer = some peer_info;
      },
      [],
    )
unfolding build_tunnel_options send_auth_packet
read_packet-send_example =
    read_packet-send four_digits random proto_tcp 1500 (codes "user") (codes "token") true refl
      (omega arith) (omega arith) (omega arith) (omega arith)
