-- ===== src/DataChannel/Packets.antt =====
-- Encrypt and Decrypt of one key epoch: what is sealed is opened, once.
use go_openlawsvpn.Base.{
  ℕ, ◌+◌, ◌%◌, ◌^◌, ◌<◌, ◌≡◌, refl, ap, sym, subst, arith, true, false, inl, inr, ◌⊎◌, Bool-cases,
  if◌then◌else◌, Bytes, Result, ok, err, panic, IsU32, List, [], ◌∷◌, ◌++◌, length, drop,
  put_uint32, uint32-put, map, All,
}
use go_openlawsvpn.Crypto.{Matches}
use go_openlawsvpn.Framing.{first_byte, p_data_v2}
use go_openlawsvpn.DataChannel.{
  Channel, Error, already_seen, check_replay, mark_seen, encrypt, build_header, encrypt_gcm,
  encrypt_cbc, decrypt, open_gcm, open_cbc, after_open,
}
use go_openlawsvpn.DataChannel.Replay.{IsValid, check_replay-mark_seen, check_replay_new}

open_gcm-encrypt_gcm :
    (c d : Channel) (rand plain : Bytes) (key_id seq : ℕ)
    → Matches c.encryptor d.decryptor
    → c.encryptor.is_aead ≡ true
    → length rand ≡ 16
    → IsU32 seq
    → check_replay d seq ≡ ok tt
    → open_gcm d (encrypt_gcm c rand (build_header p_data_v2 key_id c.peer_id) seq plain)
      ≡ ok (seq, plain)
unfolding open_gcm encrypt_gcm build_header
open_gcm-encrypt_gcm c d rand plain key_id seq m aead hr hs fresh =
    let header : Bytes = build_header p_data_v2 key_id c.peer_id in
    let aad : Bytes = header ++ put_uint32 seq in
    let sealed : Bytes = c.encryptor.seal rand seq plain aad in
    let front = uint32-put {E = Error} seq sealed hs in
    let enough = m.long_enough rand seq plain aad hr in
    ground (arith, front, fresh, aead, enough, m.opens rand seq seq plain aad hr (λ _. refl))

open_cbc-encrypt_cbc :
    (c d : Channel) (rand plain : Bytes) (key_id seq : ℕ)
    → Matches c.encryptor d.decryptor
    → c.encryptor.is_aead ≡ false
    → length rand ≡ 16
    → IsU32 seq
    → check_replay d seq ≡ ok tt
    → open_cbc d (encrypt_cbc c rand (build_header p_data_v2 key_id c.peer_id) seq plain)
      ≡ ok (seq, plain)
unfolding open_cbc encrypt_cbc build_header
open_cbc-encrypt_cbc c d rand plain key_id seq m cbc hr hs fresh =
    let inner : Bytes = put_uint32 seq ++ plain in
    let front = uint32-put {E = Error} seq plain hs in
    let enough = m.long_enough rand seq inner [] hr in
    ground (
      arith,
      front,
      fresh,
      cbc,
      enough,
      m.opens rand seq 0 inner [] hr (λ e. absurd (ground (arith, e, cbc))),
    )

-- A packet that one end encrypts is decrypted by the other to the same plaintext, in both modes, if the
-- ciphers match and the send sequence passes the other end's replay check; it is marked as seen there,
-- and the sender's sequence moves on by one.
pub decrypt-encrypt :
    (c d : Channel) (rand plain : Bytes)
    → Matches c.encryptor d.decryptor
    → length rand ≡ 16
    → IsU32 c.send_seq
    → check_replay d c.send_seq ≡ ok tt
    → let (c', pkt) = encrypt c rand plain in
      (decrypt d pkt ≡ (mark_seen d c.send_seq, ok plain))
      × (c' ≡ record c { send_seq = (c.send_seq + 1) % 2 ^ 32 })
unfolding encrypt decrypt
decrypt-encrypt c d rand plain m hr hs fresh = elim (Bool-cases c.encryptor.is_aead) [
  | inl aead ↦
      let e = open_gcm-encrypt_gcm c d rand plain c.key_id c.send_seq m aead hr hs fresh in
      (ground (arith, m.same_mode, aead, e), refl)
  | inr cbc ↦
      let e = open_cbc-encrypt_cbc c d rand plain c.key_id c.send_seq m cbc hr hs fresh in
      (ground (arith, m.same_mode, cbc, e), refl)
]

decryptor-mark_seen : (c : Channel) (seq : ℕ) → (mark_seen c seq).decryptor ≡ c.decryptor
unfolding mark_seen
decryptor-mark_seen c seq = ground arith

-- What a successful Decrypt has read: a sequence number that passed the check.
opened_seq :
    (c : Channel) (pkt : Bytes) {seq : ℕ} {plain : Bytes}
    → (if c.decryptor.is_aead then open_gcm c pkt else open_cbc c pkt) ≡ ok (seq, plain)
    → check_replay c seq ≡ ok tt
unfolding open_gcm open_cbc
opened_seq c pkt e = ground arith

-- With that sequence number refused, the same packet is refused.
reopened :
    (c d : Channel) (pkt : Bytes) {seq : ℕ} {plain : Bytes} {x : Error}
    → d.decryptor ≡ c.decryptor
    → (if c.decryptor.is_aead then open_gcm c pkt else open_cbc c pkt) ≡ ok (seq, plain)
    → check_replay d seq ≡ err x
    → (if d.decryptor.is_aead then open_gcm d pkt else open_cbc d pkt) ≡ err x
unfolding open_gcm open_cbc
reopened c d pkt same e refused = rw same (ground arith)

abbrev opening : Channel → Bytes → Result Error (ℕ × Bytes)
opening c pkt = if c.decryptor.is_aead then open_gcm c pkt else open_cbc c pkt

after_open-ok :
    (c c' : Channel) (r : Result Error (ℕ × Bytes)) {plain : Bytes}
    → after_open c r ≡ (c', ok plain)
    → (seq : ℕ) × (c' ≡ mark_seen c seq) × (r ≡ ok (seq, plain))
after_open-ok c c' (ok (seq, p)) e = (seq, ground (arith, e), ground (arith, e))
after_open-ok c c' (err x) e = absurd (ground (arith, e))
after_open-ok c c' panic e = absurd (ground (arith, e))

-- A packet that was just decrypted is refused as already seen when it arrives again, and that leaves
-- the channel unchanged.
pub decrypt_twice :
    (c c' : Channel) (pkt plain : Bytes)
    → IsValid c
    → decrypt c pkt ≡ (c', ok plain)
    → (seq : ℕ) × (decrypt c' pkt ≡ (c', err (already_seen seq)))
unfolding decrypt
decrypt_twice c c' pkt plain v e =
    let (seq, marked, opened_at) = after_open-ok c c' (opening c pkt) e in
    let refused = check_replay-mark_seen c seq v (opened_seq c pkt opened_at) in
    let again = reopened c (mark_seen c seq) pkt (decryptor-mark_seen c seq) opened_at refused in
    (seq, rw marked (ap (after_open (mark_seen c seq)) again))

-- The packets of one direction, sealed and opened in this order, each with what the cipher draws.
unfoldable pub encrypt_all : Channel → List (Bytes × Bytes) → List Bytes
encrypt_all c [] = []
encrypt_all c ((rand, plain) ∷ ps) = let (c', pkt) = encrypt c rand plain in pkt ∷ encrypt_all c' ps

unfoldable pub decrypt_all : Channel → List Bytes → List (Result Error Bytes)
decrypt_all d [] = []
decrypt_all d (pkt ∷ pkts) = let (d', r) = decrypt d pkt in r ∷ decrypt_all d' pkts

marked_top :
    (d : Channel) (seq : ℕ)
    → (d.replay_set ≡ false) ⊎ (d.replay_top < seq)
    → ((mark_seen d seq).replay_top ≡ seq) × ((mark_seen d seq).replay_set ≡ true)
unfolding mark_seen
marked_top d seq h = ground arith

-- A sequence of packets that one end encrypts and the other decrypts in the same order, with matching
-- ciphers, arrives whole: each is decrypted to its plaintext. The receiver has seen nothing yet, or only
-- sequence numbers below the sender's, and the sender's does not wrap.
pub in_order_session :
    (c d : Channel) (ps : List (Bytes × Bytes))
    → Matches c.encryptor d.decryptor
    → All (λ p. length p.0 ≡ 16) ps
    → c.send_seq + length ps < 2 ^ 32
    → (d.replay_set ≡ false) ⊎ (d.replay_top < c.send_seq)
    → decrypt_all d (encrypt_all c ps) ≡ map (λ p. ok p.1) ps
unfolding encrypt_all decrypt_all
in_order_session c d [] m hr hs new = refl
in_order_session c d ((rand, plain) ∷ ps) m (hr, hrs) hs new =
    let (opens, moved) =
      decrypt-encrypt c d rand plain m hr (omega arith) (check_replay_new d c.send_seq new) in
    let next : (c.send_seq + 1) % 2 ^ 32 ≡ c.send_seq + 1 = omega arith in
    let c' : Channel = record c { send_seq = (c.send_seq + 1) % 2 ^ 32 } in
    let d' = mark_seen d c.send_seq in
    let (top, set) = marked_top d c.send_seq new in
    let m' : Matches c'.encryptor d'.decryptor =
      subst (λ x. Matches c.encryptor x) (sym (decryptor-mark_seen d c.send_seq)) m in
    let rest = in_order_session c' d' ps m' hrs (omega arith) (inr (omega arith)) in
    rw (opens, moved) (ap (λ l. ok plain ∷ l) rest)

-- The wire packet begins with the opcode and the key ID.
pub encrypt_front :
    (c : Channel) (rand plain : Bytes)
    → (rest : Bytes) × ((encrypt c rand plain).1 ≡ first_byte p_data_v2 c.key_id ∷ rest)
unfolding encrypt build_header
encrypt_front c rand plain = elim (Bool-cases c.encryptor.is_aead) [
  | inl aead ↦ (drop 1 (encrypt c rand plain).1, ground (arith, aead))
  | inr cbc ↦ (drop 1 (encrypt c rand plain).1, ground (arith, cbc))
]
