-- ===== src/Framing/Tests.antt =====
-- Concrete packets and frames, and the theorems at concrete inputs.
use go_openlawsvpn.Base.{
  ◌≡◌, ◌≢◌, ◌↔◌, refl, arith, Bytes, ok, err, panic, [], ◌∷◌, ◌++◌, replicate, put_uint16,
}
use go_openlawsvpn.Framing.{
  read_tcp, parse_control, zero_length, short_read, truncated_ack_array, parse_ack_array,
}
use go_openlawsvpn.Framing.Stream.{IsPayload, read_tcp_iff}
use go_openlawsvpn.Framing.Control.{parse_control-ne-panic}

abbrev frame : Bytes
frame = 0 ∷ 2 ∷ 7 ∷ 8 ∷ 9 ∷ []

read_tcp_iff_example :
    (read_tcp frame ≡ ok (7 ∷ 8 ∷ [], 9 ∷ []))
    ↔ (IsPayload (7 ∷ 8 ∷ []) × (frame ≡ put_uint16 2 ++ (7 ∷ 8 ∷ 9 ∷ [])))
read_tcp_iff_example = read_tcp_iff frame (7 ∷ 8 ∷ []) (9 ∷ []) (omega arith)

read_tcp_errors :
    (read_tcp (0 ∷ 0 ∷ 7 ∷ []) ≡ err zero_length) × (read_tcp (0 ∷ 2 ∷ 7 ∷ []) ≡ err short_read)
unfolding read_tcp
read_tcp_errors = (refl, refl)

abbrev sid : Bytes
sid = replicate 8 0x11

abbrev remote : Bytes
remote = replicate 8 0x22

-- The ACK array is said to be longer than the packet.
abbrev cut_short : Bytes
cut_short = 0x20 ∷ (sid ++ (5 ∷ 0 ∷ 0 ∷ []))

parse_control-cut_short : parse_control cut_short ≡ err truncated_ack_array
unfolding parse_control parse_ack_array
parse_control-cut_short = refl

parse_control-ne-panic_example : parse_control cut_short ≢ panic
parse_control-ne-panic_example = parse_control-ne-panic cut_short
