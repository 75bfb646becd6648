-- ===== src/DataChannel.antt =====
-- internal/datachannel/datachannel.go: one key epoch of the data channel, with its send sequence and its
-- replay window. Each method is a function on the channel; those that change it return the new one.
pub mod Replay
pub mod Packets
mod Tests
use go_openlawsvpn.Base.{
  ℕ, zero, suc, ◌+◌, ◌-◌, ◌*◌, ◌/◌, ◌%◌, ◌^◌, ◌≤◌, min, Bool, true, false, not, ◌||◌, List, [], ◌∷◌,
  ◌++◌, length, take, drop, ltb, leb, ◌==◌, if◌then◌else◌, Result, ok, err, panic, ◌>>=◌, Bytes,
  put_uint32, uint32,
}
use Prim.Native.Nat.{bit_and}
use go_openlawsvpn.Crypto
use go_openlawsvpn.Crypto.{DataCipher}
use go_openlawsvpn.Framing.{first_byte, p_data_v2}

abbrev pub replay_window_size : ℕ
replay_window_size = 64

-- `replay_bit` is the array `replayBit`, read and written below `replay_window_size` only.
pub record Channel : Type 0 where
  pub peer_id : ℕ
  pub key_id : ℕ
  pub encryptor : DataCipher
  pub decryptor : DataCipher
  pub send_seq : ℕ
  pub replay_bit : ℕ → Bool
  pub replay_top : ℕ
  pub replay_set : Bool

pub data Error : Type 0 where
  gcm_too_short cbc_too_short : ℕ → Error
  cbc_plaintext_too_short : Error
  cipher : Crypto.Error → Error
  too_old already_seen : ℕ → Error

-- `peerID & 0x00FFFFFF` and `keyID & 0x07`; the sequence and the window start at zero.
unfoldable pub new_with_ciphers : ℕ → ℕ → DataCipher → DataCipher → Channel
new_with_ciphers peer_id key_id enc dec = record {
  peer_id = peer_id % 2 ^ 24;
  key_id = bit_and key_id 0x07;
  encryptor = enc;
  decryptor = dec;
  send_seq = 0;
  replay_bit = λ _. false;
  replay_top = 0;
  replay_set = false;
}

unfoldable pub build_header : ℕ → ℕ → ℕ → Bytes
build_header opcode key_id peer_id =
    first_byte opcode key_id ∷ peer_id / 2 ^ 16 % 256 ∷ peer_id / 256 % 256 ∷ peer_id % 256 ∷ []

unfoldable pub encrypt_gcm : Channel → Bytes → Bytes → ℕ → Bytes → Bytes
encrypt_gcm c rand header seq plaintext =
    header ++ (put_uint32 seq ++ c.encryptor.seal rand seq plaintext (header ++ put_uint32 seq))

unfoldable pub encrypt_cbc : Channel → Bytes → Bytes → ℕ → Bytes → Bytes
encrypt_cbc c rand header seq plaintext =
    header ++ c.encryptor.seal rand seq (put_uint32 seq ++ plaintext) []

-- `rand` is what the cipher would draw. The send sequence is a uint32.
unfoldable pub encrypt : Channel → Bytes → Bytes → Channel × Bytes
unfolding encrypt_gcm encrypt_cbc
encrypt c rand plaintext =
    let header = build_header p_data_v2 c.key_id c.peer_id in
    (
      record c { send_seq = (c.send_seq + 1) % 2 ^ 32 },
      if c.encryptor.is_aead
          then encrypt_gcm c rand header c.send_seq plaintext
          else encrypt_cbc c rand header c.send_seq plaintext,
    )

-- `c.replayTop - seq` in uint32.
abbrev pub behind_top : Channel → ℕ → ℕ
behind_top c seq = (2 ^ 32 + c.replay_top - seq) % 2 ^ 32

unfoldable pub check_replay : Channel → ℕ → Result Error (Unit {0})
check_replay c seq =
    if not c.replay_set
    then ok tt
    else if ltb c.replay_top seq
    then ok tt
    else if leb replay_window_size (behind_top c seq)
    then err (too_old seq)
    else if c.replay_bit (behind_top c seq)
    then err (already_seen seq)
    else ok tt

abbrev pub set_bit : (ℕ → Bool) → ℕ → Bool → ℕ → Bool
set_bit bits k b i = if i == k then b else bits i

-- The loop that clears `replayBit[(c.replayTop+1+i) % replayWindowSize]`, for `rounds` values of `i`.
unfoldable pub clear_bits : (ℕ → Bool) → ℕ → ℕ → ℕ → ℕ → Bool
clear_bits bits top i zero = bits
clear_bits bits top i (suc rounds) =
    clear_bits (set_bit bits ((top + 1 + i) % 2 ^ 32 % replay_window_size) false) top (i + 1) rounds

-- The first half of markSeen: a new highest sequence number.
unfoldable pub advance_window : Channel → ℕ → Channel
advance_window c seq =
    let advance = if c.replay_set then seq - c.replay_top else 0 in
    if not c.replay_set || ltb c.replay_top seq
    then record c {
      replay_bit = clear_bits c.replay_bit c.replay_top 0 (min advance replay_window_size);
      replay_top = seq;
      replay_set = true;
    }
    else c

-- The second half: the bit of this sequence number.
unfoldable pub set_seen : Channel → ℕ → Channel
set_seen c seq =
    if ltb (behind_top c seq) replay_window_size
    then record c { replay_bit = set_bit c.replay_bit (behind_top c seq) true }
    else c

unfoldable pub mark_seen : Channel → ℕ → Channel
unfolding advance_window set_seen
mark_seen c seq = set_seen (advance_window c seq) seq

-- A cipher's error, wrapped.
abbrev pub opened : Result Crypto.Error Bytes → Result Error Bytes
opened (ok p) = ok p
opened (err e) = err (cipher e)
opened panic = panic

-- The checks and the plaintext with its sequence number; the state changes only behind them.
unfoldable pub open_gcm : Channel → Bytes → Result Error (ℕ × Bytes)
open_gcm c pkt =
    if ltb (length pkt) (4 + 4 + 16)
    then err (gcm_too_short (length pkt))
    else uint32 (drop 4 pkt) >>= λ seq. check_replay c seq >>= λ _.
        opened (c.decryptor.open_sealed seq (drop 8 pkt) (take 8 pkt)) >>= λ plain. ok (seq, plain)

unfoldable pub open_cbc : Channel → Bytes → Result Error (ℕ × Bytes)
open_cbc c pkt =
    if ltb (length pkt) (4 + (32 + 16 + 16))
    then err (cbc_too_short (length pkt))
    else opened (c.decryptor.open_sealed 0 (drop 4 pkt) []) >>= λ inner.
        (if ltb (length inner) 4
          then err cbc_plaintext_too_short
          else uint32 inner >>= λ seq. check_replay c seq >>= λ _. ok (seq, drop 4 inner))

-- `c.markSeen(seq)` on success.
abbrev pub after_open : Channel → Result Error (ℕ × Bytes) → Channel × Result Error Bytes
after_open c (ok (seq, plain)) = (mark_seen c seq, ok plain)
after_open c (err e) = (c, err e)
after_open c panic = (c, panic)

unfoldable pub decrypt : Channel → Bytes → Channel × Result Error Bytes
decrypt c pkt = after_open c (if c.decryptor.is_aead then open_gcm c pkt else open_cbc c pkt)
