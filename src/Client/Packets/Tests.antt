-- ===== src/Client/Packets/Tests.antt =====
-- Packets that the client builds, and the theorems at concrete inputs.
use go_openlawsvpn.Base.{◌≡◌, refl, arith, Bytes, ok, [], ◌∷◌, ◌++◌, replicate}
use go_openlawsvpn.Framing.{
  first_byte, opcode_from_byte, key_id_from_byte, parse_control, parse_ack_array, parse_tail,
  read_ack_ids, Packet,
}
use go_openlawsvpn.Client.Packets.{build_control_v1_with_key_id, build_soft_reset}
use go_openlawsvpn.Client.Packets.RoundTrip.{parse_control-build_control_v1}

abbrev sid : Bytes
sid = replicate 8 0x11

abbrev remote : Bytes
remote = replicate 8 0x22

abbrev parsed : Packet
parsed = record {
  opcode = 4;
  key_id = 3;
  peer_id = 0;
  packet_id = 70000;
  ack_ids = 258 ∷ 3 ∷ [];
  payload = 1 ∷ 2 ∷ [];
}

parse_control-build_control_v1_example :
    parse_control (build_control_v1_with_key_id sid remote 3 70000 (258 ∷ 3 ∷ []) (1 ∷ 2 ∷ []))
    ≡ ok parsed
parse_control-build_control_v1_example =
    parse_control-build_control_v1 sid remote (1 ∷ 2 ∷ []) 3 70000 (258 ∷ 3 ∷ []) refl refl
      (omega arith) (omega arith) (omega arith) (omega arith)

-- The same packet, byte for byte.
abbrev raw : Bytes
raw =
    0x23
    ∷ (sid ++ (2 ∷ 0 ∷ 0 ∷ 1 ∷ 2 ∷ 0 ∷ 0 ∷ 0 ∷ 3 ∷ (remote ++ (0 ∷ 1 ∷ 0x11 ∷ 0x70 ∷ 1 ∷ 2 ∷ []))))

raw-parsed : parse_control raw ≡ ok parsed
unfolding parse_control parse_ack_array parse_tail read_ack_ids opcode_from_byte key_id_from_byte
raw-parsed = refl

soft_reset : build_soft_reset sid 9 ≡ 0x19 ∷ (sid ++ (0 ∷ 0 ∷ 0 ∷ 0 ∷ 0 ∷ []))
unfolding build_soft_reset first_byte
soft_reset = refl
