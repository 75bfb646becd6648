-- ===== src/Framing.antt =====
-- internal/framing: opcodes.go and framing.go. Packets of the control channel, the first byte of
-- every packet, and the length-prefixed stream of the TCP transport.
pub mod Opcodes
pub mod Control
pub mod Stream
mod Tests
use go_openlawsvpn.Base.{
  ℕ, zero, suc, ◌+◌, ◌*◌, ◌/◌, ◌%◌, Bool, List, [], ◌∷◌, ◌++◌, length, take, drop, ltb, ◌==◌,
  if◌then◌else◌, Result, ok, err, panic, ◌>>=◌, index, slice_from, Bytes, put_uint16, put_uint32,
  uint16, uint32,
}
use Prim.Native.Nat.{bit_and, bit_or}

abbrev pub max_packet_size : ℕ
max_packet_size = 65535

abbrev pub p_control_soft_reset_v1 : ℕ
p_control_soft_reset_v1 = 0x03

abbrev pub p_control_v1 : ℕ
p_control_v1 = 0x04

abbrev pub p_ack_v1 : ℕ
p_ack_v1 = 0x05

abbrev pub p_control_hard_reset_client_v2 : ℕ
p_control_hard_reset_client_v2 = 0x07

abbrev pub p_data_v2 : ℕ
p_data_v2 = 0x09

-- `b >> opcodeShift`
unfoldable pub opcode_from_byte : ℕ → ℕ
opcode_from_byte b = b / 8

-- `b & keyIDMask`
unfoldable pub key_id_from_byte : ℕ → ℕ
key_id_from_byte b = bit_and b 0x07

-- `(opcode << opcodeShift) | (keyID & keyIDMask)`, in uint8 arithmetic.
unfoldable pub first_byte : ℕ → ℕ → ℕ
first_byte opcode key_id = bit_or (opcode * 8 % 256) (bit_and key_id 0x07)

pub data Error : Type 0 where
  short_read zero_length too_large write_failed : Error
  too_short : ℕ → Error
  truncated_ack_array truncated_packet_id : Error

-- io.ReadFull on the bytes that the peer has sent before it closed: all `n`, or an error.
abbrev pub read_full : ℕ → Bytes → Result Error (Bytes × Bytes)
read_full n r = if ltb (length r) n then err short_read else ok (take n r, drop n r)

-- The reader is the list of bytes still to come; the result has what is left of it.
pub read_tcp : Bytes → Result Error (Bytes × Bytes)
read_tcp r = read_full 2 r >>= λ (len_buf, r').
    uint16 len_buf >>= λ n. if n == 0 then err zero_length else read_full n r'

-- A writer to which every write succeeds: the result is what is written.
pub write_tcp : Bytes → Result Error Bytes
write_tcp payload =
    if length payload == 0
    then err zero_length
    else if ltb max_packet_size (length payload)
    then err too_large
    else ok (put_uint16 (length payload) ++ payload)

pub record Packet : Type 0 where
  pub opcode : ℕ
  pub key_id : ℕ
  pub peer_id : ℕ
  pub packet_id : ℕ
  pub ack_ids : List ℕ
  pub payload : Bytes

-- The loop over `p.AckIDs`, which reads `n` big-endian words from `offset` on.
unfoldable pub read_ack_ids {κ} : {E : Type κ} → Bytes → ℕ → ℕ → Result E (List ℕ)
read_ack_ids raw offset zero = ok []
read_ack_ids raw offset (suc n) =
    uint32 (drop offset raw) >>= λ id. read_ack_ids raw (offset + 4) n >>= λ ids. ok (id ∷ ids)

-- The words as the packet builders append them.
abbrev pub put_ack_ids : List ℕ → Bytes
put_ack_ids [] = []
put_ack_ids (id ∷ ids) = put_uint32 id ++ put_ack_ids ids

-- The acknowledged IDs and the offset behind them. The remote session ID (8 bytes) is skipped.
unfoldable pub parse_ack_array : Bytes → ℕ → ℕ → Result Error (List ℕ × ℕ)
parse_ack_array raw offset ack_len =
    if ltb 0 ack_len
    then (if ltb (length raw) (offset + ack_len * 4 + 8)
        then err truncated_ack_array
        else read_ack_ids raw offset ack_len >>= λ ids. ok (ids, offset + ack_len * 4 + 8))
    else ok ([], offset)

-- What follows the ACK array: a packet ID and a payload, unless the packet is a bare ACK.
unfoldable pub parse_tail : Bytes → Packet → ℕ → Result Error Packet
parse_tail raw p offset =
    if p.opcode == p_ack_v1
    then ok p
    else if ltb (length raw) (offset + 4)
    then err truncated_packet_id
    else uint32 (drop offset raw) >>= λ id. slice_from raw (offset + 4) >>= λ payload.
        ok (record p { packet_id = id; payload = payload })

unfoldable pub parse_control : Bytes → Result Error Packet
parse_control raw =
    if ltb (length raw) 10
    then err (too_short (length raw))
    else index raw 0 >>= λ first. index raw 9 >>= λ ack_len.
        parse_ack_array raw 10 ack_len >>= λ (ids, offset).
        parse_tail raw
          (record {
            opcode = opcode_from_byte first;
            key_id = key_id_from_byte first;
            peer_id = 0;
            packet_id = 0;
            ack_ids = ids;
            payload = [];
          })
          offset
