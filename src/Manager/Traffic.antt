-- ===== src/Manager/Traffic.antt =====
-- What one manager encrypts the other decrypts, through compression framing and the key selection.
use go_openlawsvpn.Base.{ℕ, ◌<◌, ◌≡◌, refl, ap, arith, some, Bytes, ok, IsU32, ◌∷◌, length}
use go_openlawsvpn.Compress
use go_openlawsvpn.Compress.Laws.{unwrap_iff}
use go_openlawsvpn.Crypto.{Matches}
use go_openlawsvpn.DataChannel
use go_openlawsvpn.DataChannel.{Channel, check_replay, mark_seen}
use go_openlawsvpn.DataChannel.Packets.{decrypt-encrypt, encrypt_front}
use go_openlawsvpn.Framing.{first_byte, p_data_v2, key_id_from_byte}
use go_openlawsvpn.Framing.Opcodes.{first_byte_fields}
use go_openlawsvpn.Manager.{
  Manager, Slot, encrypt, decrypt, decrypt_channel, channel_at, with_channel, count_plain,
  unwrap_inner, find_slot, add_count,
}

compress-with_channel :
    (m : Manager) (s : Slot) (ch : Channel) → (with_channel m s ch).compress ≡ m.compress
unfolding with_channel
compress-with_channel m Slot.current ch = refl
compress-with_channel m Slot.secondary ch = refl
compress-with_channel m Slot.previous ch = refl

-- A packet of a key that the manager has goes to that key's channel.
decrypt_channel_of :
    (n : Manager) (key_id : ℕ) (rest : Bytes) (s : Slot)
    → key_id < 8
    → find_slot n key_id ≡ some s
    → decrypt_channel n (first_byte p_data_v2 key_id ∷ rest) ≡ ok s
unfolding decrypt_channel
decrypt_channel_of n key_id rest s hk found =
    let (_, opcode, key) = first_byte_fields p_data_v2 key_id (omega arith) (omega arith) in
    let key' : key_id_from_byte (first_byte p_data_v2 key_id) ≡ key_id = omega (arith, key) in
    ground (arith, opcode, key', found)

-- A packet that one manager encrypts is decrypted by the other, whichever slot holds the key there, if
-- that slot's channel matches, both use the same compression mode, and the packet's sequence number
-- passes the replay check. The sender counts the plaintext and so does the receiver, whose slot has the
-- channel with the packet marked as seen.
pub decrypt-encrypt_managers :
    (m n : Manager) (s : Slot) (d : Channel) (rand plain : Bytes)
    → m.compress ≡ n.compress
    → m.current.key_id < 8
    → find_slot n m.current.key_id ≡ some s
    → channel_at n s ≡ some d
    → Matches m.current.encryptor d.decryptor
    → length rand ≡ 16
    → IsU32 m.current.send_seq
    → check_replay d m.current.send_seq ≡ ok tt
    → let (m', pkt) = encrypt m rand plain in
      let n₁ = with_channel n s (mark_seen d m.current.send_seq) in
      (decrypt n pkt
        ≡ (record n₁ { bytes_recv = add_count n₁.bytes_recv (length plain) }, ok plain))
      × (m'.bytes_sent ≡ add_count m.bytes_sent (length plain))
unfolding encrypt decrypt unwrap_inner count_plain
decrypt-encrypt_managers m n s d rand plain hc hk found at ma hr hs fresh =
    let inner = Compress.wrap m.compress plain in
    let (opens, _) = decrypt-encrypt m.current d rand inner ma hr hs fresh in
    let (rest, front) = encrypt_front m.current rand inner in
    let slot = decrypt_channel_of n m.current.key_id rest s hk found in
    let stripped = (unwrap_iff n.compress inner plain).1 (ap (λ c. Compress.wrap c plain) hc) in
    let n₁ = with_channel n s (mark_seen d m.current.send_seq) in
    let mode = compress-with_channel n s (mark_seen d m.current.send_seq) in
    let chosen : decrypt_channel n (DataChannel.encrypt m.current rand inner).1 ≡ ok s =
      rw front slot in
    (rw (chosen, at, opens, mode, stripped), refl)
