-- ===== src/Client/Packets/RoundTrip.antt =====
-- What client.go builds is what framing.ParseControl and the readers of client.go read back, and the
-- readers agree with ParseControl.
use go_openlawsvpn.Base.{
  ℕ, suc, ◌+◌, ◌*◌, ◌%◌, ◌≤◌, ◌<◌, ◌≡◌, ◌≢◌, refl, arith, inl, inr, Bool-cases, List, [], ◌∷◌,
  length, length-drop, get_elem?, get_elem?_total, ◌⊎◌, Option-cases, some, drop, ltb, ltb_false→le,
  ok, panic, index, Bytes, uint32_total, All, IsU32,
}
use go_openlawsvpn.Framing.{
  first_byte, p_control_v1, p_ack_v1, read_ack_ids, parse_ack_array, parse_tail, parse_control,
  Packet, Error,
}
use go_openlawsvpn.Framing.Opcodes.{first_byte_fields}
use go_openlawsvpn.Framing.Control.{
  ack_array, parse_control_fields, read_ack_ids_total, read_ack_ids-any_error,
}
use go_openlawsvpn.Client.Packets.{
  NoError, ack_part, build_control_v1_with_key_id, behind_acks, payload_at, acks_at,
  parse_control_v1_payload, parse_control_v1_ack_ids,
}

ack_part-eq :
    (remote : Bytes) (ids : List ℕ) → length ids < 256 → ack_part remote ids ≡ ack_array remote ids
ack_part-eq remote [] h = refl
ack_part-eq remote (id ∷ ids) h =
    let e : suc (length ids) % 256 ≡ suc (length ids) = omega arith in ground (arith, e)

-- `ParseControl` reads back every P_CONTROL_V1 packet that `buildControlV1WithKeyID` builds from
-- eight-byte session IDs, fewer than 256 acknowledged IDs, and 32-bit IDs: the opcode, the low three
-- bits of the key ID, the packet ID, the acknowledged IDs and the payload.
pub parse_control-build_control_v1 :
    (sender remote payload : Bytes) (key_id id : ℕ) (ids : List ℕ)
    → length sender ≡ 8
    → length remote ≡ 8
    → key_id < 256
    → IsU32 id
    → All IsU32 ids
    → length ids < 256
    → parse_control (build_control_v1_with_key_id sender remote key_id id ids payload)
      ≡ ok (record {
        opcode = p_control_v1;
        key_id = key_id % 8;
        peer_id = 0;
        packet_id = id;
        ack_ids = ids;
        payload = payload;
      })
unfolding build_control_v1_with_key_id
parse_control-build_control_v1 sender remote payload key_id id ids hs hr hk hid hids hn =
    let (byte, opcode, key) = first_byte_fields p_control_v1 key_id (omega arith) hk in
    let first : ℕ = first_byte p_control_v1 key_id in
    rw (ack_part-eq remote ids hn) (
      rw (opcode, key) at
        (parse_control_fields first id sender remote payload ids hs hr hids hid
          (omega (arith, opcode))))

-- Wherever `ParseControl` succeeds on a packet that is no bare ACK, `parseControlV1Payload` returns the
-- same payload and packet ID.
payload-agrees :
    (raw : Bytes) (p : Packet)
    → parse_control raw ≡ ok p
    → p.opcode ≢ p_ack_v1
    → parse_control_v1_payload raw ≡ ok (p.payload, p.packet_id)
unfolding parse_control parse_ack_array parse_tail parse_control_v1_payload
payload-agrees raw p e h = ground arith

-- How a successful `ParseControl` came by the acknowledged IDs.
read_parsed :
    (raw : Bytes) (p : Packet) {n : ℕ}
    → parse_control raw ≡ ok p
    → get_elem? raw 9 ≡ some n
    → ((n ≡ 0) × (p.ack_ids ≡ []))
      ⊎ ((n ≢ 0)
          × (10 + n * 4 + 8 ≤ length raw)
          × (read_ack_ids {E = Error} raw 10 n ≡ ok p.ack_ids))
unfolding parse_control parse_ack_array parse_tail
read_parsed raw p e found = ground (arith, found)

-- Wherever `ParseControl` succeeds, `parseControlV1AckIDs` returns the same acknowledged IDs.
ack_ids-agree :
    (raw : Bytes) (p : Packet)
    → parse_control raw ≡ ok p
    → parse_control_v1_ack_ids raw ≡ ok p.ack_ids
unfolding parse_control parse_ack_array parse_tail parse_control_v1_ack_ids
ack_ids-agree raw p e = elim (Option-cases (get_elem? raw 9)) [
  | inl missing ↦ ground (arith, missing)
  | inr (n, found) ↦ elim (read_parsed raw p e found) [
    | inl (zero_acks, no_ids) ↦ ground (arith, found, zero_acks, no_ids)
    | inr (some_acks, fits, read) ↦ ground (
      arith,
      found,
      some_acks,
      fits,
      read_ack_ids-any_error {E = Error} {F = NoError} raw 10 n read,
    )
  ]
]

payload_at-ne-panic : (pkt : Bytes) (off : ℕ) → payload_at pkt off ≢ panic
payload_at-ne-panic pkt off = elim (Bool-cases (ltb (length pkt) (off + 4))) [
  | inl short ↦ ground (arith, short)
  | inr long ↦
      let fits = ltb_false→le _ _ long in
      let (id, e) =
        uint32_total {E = NoError} (drop off pkt) (omega (arith, length-drop off pkt)) in
      ground (arith, long, e)
]

acks_at-ne-panic : (raw : Bytes) (n : ℕ) → acks_at raw n ≢ panic
acks_at-ne-panic raw n = elim (Bool-cases (ltb (length raw) (10 + n * 4))) [
  | inl short ↦ ground (arith, short)
  | inr long ↦
      let (ids, e, _) =
        read_ack_ids_total {E = NoError} raw 10 n (omega (arith, ltb_false→le _ _ long)) in
      ground (arith, long, e)
]

-- Neither reader of P_CONTROL_V1 indexes or slices out of range, on any input.
readers-ne-panic :
    (raw : Bytes) → (parse_control_v1_payload raw ≢ panic) × (parse_control_v1_ack_ids raw ≢ panic)
unfolding parse_control_v1_payload parse_control_v1_ack_ids
readers-ne-panic raw = elim (Bool-cases (ltb (length raw) 10)) [
  | inl short ↦ rw short (λ e. cc, λ e. cc)
  | inr long ↦
      let (n, e₉) = get_elem?_total raw 9 (omega (arith, ltb_false→le _ _ long)) in
      rw (long, index, e₉) (payload_at-ne-panic raw (behind_acks n), acks_at-ne-panic raw n)
]
