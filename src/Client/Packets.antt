-- ===== src/Client/Packets.antt =====
-- The control packets that client.go builds, and its two readers of P_CONTROL_V1.
pub mod RoundTrip
mod Tests
use go_openlawsvpn.Base.{
  ℕ, zero, suc, ◌+◌, ◌*◌, ◌%◌, Bool, List, [], ◌∷◌, ◌++◌, length, drop, ltb, ◌==◌, ◌||◌,
  if◌then◌else◌, Result, ok, err, panic, ◌>>=◌, index, slice_from, Bytes, put_uint32, uint32,
}
use go_openlawsvpn.Framing.{
  first_byte, p_control_v1, p_control_soft_reset_v1, p_control_hard_reset_client_v2, p_ack_v1,
  put_ack_ids, read_ack_ids,
}

-- `byte(framing.P_CONTROL_HARD_RESET_CLIENT_V2 << 3)`, the session ID, no ACKs, packet ID 0.
pub build_hard_reset : Bytes → Bytes
build_hard_reset client_sid =
    (p_control_hard_reset_client_v2 * 8 % 256) ∷ (client_sid ++ (0 ∷ 0 ∷ 0 ∷ 0 ∷ 0 ∷ []))

-- The ACK array, with the remote session ID behind it if there is an ACK.
abbrev pub ack_part : Bytes → List ℕ → Bytes
ack_part remote_sid ack_ids =
    if ltb 0 (length ack_ids)
    then (length ack_ids % 256) ∷ (put_ack_ids ack_ids ++ remote_sid)
    else 0 ∷ []

pub build_control_v1_with_key_id : Bytes → Bytes → ℕ → ℕ → List ℕ → Bytes → Bytes
build_control_v1_with_key_id sender_sid remote_sid key_id packet_id ack_ids payload =
    first_byte p_control_v1 key_id
    ∷ (sender_sid ++ (ack_part remote_sid ack_ids ++ (put_uint32 packet_id ++ payload)))

pub build_control_v1 : Bytes → Bytes → ℕ → List ℕ → Bytes → Bytes
build_control_v1 sender_sid remote_sid packet_id ack_ids payload =
    build_control_v1_with_key_id sender_sid remote_sid 0 packet_id ack_ids payload

pub build_soft_reset : Bytes → ℕ → Bytes
build_soft_reset client_sid key_id =
    first_byte p_control_soft_reset_v1 key_id ∷ (client_sid ++ (0 ∷ 0 ∷ 0 ∷ 0 ∷ 0 ∷ []))

pub build_ack : Bytes → Bytes → ℕ → List ℕ → Bytes
build_ack sender_sid remote_sid key_id ack_ids =
    first_byte p_ack_v1 key_id
    ∷ (sender_sid ++ ((length ack_ids % 256) ∷ (put_ack_ids ack_ids ++ remote_sid)))

-- The readers return no error: a packet that is too short gives the zero values. A panic stands for
-- an index out of range.
pub data NoError : Type 0 where

-- The offset behind the ACK array, whose length byte is `ack_len`.
abbrev pub behind_acks : ℕ → ℕ
behind_acks ack_len = if ltb 0 ack_len then 10 + ack_len * 4 + 8 else 10

abbrev pub payload_at : Bytes → ℕ → Result NoError (Bytes × ℕ)
payload_at pkt off =
    if ltb (length pkt) (off + 4)
    then ok ([], 0)
    else uint32 (drop off pkt) >>= λ id. slice_from pkt (off + 4) >>= λ payload. ok (payload, id)

pub parse_control_v1_payload : Bytes → Result NoError (Bytes × ℕ)
parse_control_v1_payload pkt =
    if ltb (length pkt) 10
    then ok ([], 0)
    else index pkt 9 >>= λ ack_len. payload_at pkt (behind_acks ack_len)

abbrev pub acks_at : Bytes → ℕ → Result NoError (List ℕ)
acks_at pkt ack_len =
    if ack_len == 0 || ltb (length pkt) (10 + ack_len * 4)
    then ok []
    else read_ack_ids pkt 10 ack_len

pub parse_control_v1_ack_ids : Bytes → Result NoError (List ℕ)
parse_control_v1_ack_ids pkt =
    if ltb (length pkt) 10 then ok [] else index pkt 9 >>= λ ack_len. acks_at pkt ack_len
