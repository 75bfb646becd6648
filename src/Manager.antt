-- ===== src/Manager.antt =====
-- internal/datachannel/manager.go: the key epochs of the data channel and when to renegotiate. The
-- read-write mutex makes each method a function on the state; times are nanoseconds.
pub mod Selection
pub mod Traffic
pub mod Rekey
mod Tests
use go_openlawsvpn.Base.{
  ℕ, zero, suc, ◌+◌, ◌-◌, ◌*◌, ◌/◌, ◌%◌, ◌^◌, ◌≤◌, ◌≡◌, Bool, true, false, not, ◌||◌, ◌&&◌, List,
  [], ◌∷◌, ◌++◌, length, ltb, leb, ◌==◌, if◌then◌else◌, Option, none, some, Result, ok, err, panic,
  ◌>>=◌, Bytes,
}
use Prim.Native.Nat.{bit_and}
use go_openlawsvpn.Compress
use go_openlawsvpn.Compress.{Mode, mode_none}
use go_openlawsvpn.DataChannel
use go_openlawsvpn.DataChannel.{Channel}
use go_openlawsvpn.Framing.{opcode_from_byte, key_id_from_byte, p_data_v2}

abbrev pub default_reneg_sec : ℕ
default_reneg_sec = 3600

abbrev pub default_reneg_bytes : ℕ
default_reneg_bytes = 0

abbrev pub second : ℕ
second = 1_000_000_000

pub record ManagerConfig : Type 0 where
  pub reneg_sec : ℕ
  pub reneg_bytes : ℕ
  pub compress : Mode

pub record Manager : Type 0 where
  pub current : Channel
  pub secondary : Option Channel
  pub previous : Option Channel
  pub reneg_sec : ℕ
  pub reneg_bytes : ℕ
  pub started_at : ℕ
  pub bytes_sent : ℕ
  pub bytes_recv : ℕ
  pub compress : Mode

pub data Error : Type 0 where
  not_data_v2 : Error
  unknown_key_id : ℕ → Error
  channel : DataChannel.Error → Error
  compression : Compress.Error → Error

abbrev pub default_config : ManagerConfig
default_config = record {
  reneg_sec = default_reneg_sec;
  reneg_bytes = default_reneg_bytes;
  compress = mode_none;
}

abbrev pub configured : ManagerConfig → Channel → ℕ → Manager
configured cfg ch now = record {
  current = ch;
  secondary = none;
  previous = none;
  reneg_sec = cfg.reneg_sec;
  reneg_bytes = cfg.reneg_bytes;
  started_at = now;
  bytes_sent = 0;
  bytes_recv = 0;
  compress = cfg.compress;
}

unfoldable pub new_manager : Channel → Option ManagerConfig → ℕ → Manager
new_manager ch none now = configured default_config ch now
new_manager ch (some cfg) now = configured cfg ch now

-- The counters are int64.
abbrev pub add_count : ℕ → ℕ → ℕ
add_count a b = (a + b) % 2 ^ 64

unfoldable pub encrypt : Manager → Bytes → Bytes → Manager × Bytes
encrypt m rand plaintext =
    let (ch, pkt) = DataChannel.encrypt m.current rand (Compress.wrap m.compress plaintext) in
    (record m { current = ch; bytes_sent = add_count m.bytes_sent (length plaintext) }, pkt)

-- Which of the manager's channels a packet is for.
pub data Slot : Type 0 where
  current secondary previous : Slot

abbrev pub has_key : Option Channel → ℕ → Bool
has_key none key_id = false
has_key (some ch) key_id = ch.key_id == key_id

-- The loop over current, secondary and previous.
unfoldable pub find_slot : Manager → ℕ → Option Slot
find_slot m key_id =
    if m.current.key_id == key_id
    then some current
    else if has_key m.secondary key_id
    then some secondary
    else if has_key m.previous key_id
    then some previous
    else none

unfoldable pub decrypt_channel : Manager → Bytes → Result Error Slot
decrypt_channel m [] = err not_data_v2
decrypt_channel m (b ∷ rest) =
    if opcode_from_byte b == p_data_v2
    then elim (find_slot m (key_id_from_byte b)) [
      | some s ↦ ok s
      | none ↦ err (unknown_key_id (key_id_from_byte b))
    ]
    else err not_data_v2

-- The channel of a slot, and the manager whose slot has that channel as its method left it.
unfoldable pub channel_at : Manager → Slot → Option Channel
channel_at m current = some m.current
channel_at m secondary = m.secondary
channel_at m previous = m.previous

unfoldable pub with_channel : Manager → Slot → Channel → Manager
with_channel m current ch = record m { current = ch }
with_channel m secondary ch = record m { secondary = some ch }
with_channel m previous ch = record m { previous = some ch }

-- The stub byte is stripped and the counter raised, or the error is passed on.
unfoldable pub count_plain : Manager → Result Compress.Error Bytes → Manager × Result Error Bytes
count_plain m (ok plain) =
    (record m { bytes_recv = add_count m.bytes_recv (length plain) }, ok plain)
count_plain m (err e) = (m, err (compression e))
count_plain m panic = (m, panic)

unfoldable pub unwrap_inner :
    Manager → Result DataChannel.Error Bytes → Manager × Result Error Bytes
unwrap_inner m (ok inner) = count_plain m (Compress.unwrap m.compress inner)
unwrap_inner m (err e) = (m, err (channel e))
unwrap_inner m panic = (m, panic)

unfoldable pub decrypt_at : Manager → Slot → Option Channel → Bytes → Manager × Result Error Bytes
decrypt_at m s none pkt = (m, panic)
decrypt_at m s (some ch) pkt =
    let (ch', inner) = DataChannel.decrypt ch pkt in unwrap_inner (with_channel m s ch') inner

unfoldable pub decrypt_in : Manager → Bytes → Result Error Slot → Manager × Result Error Bytes
decrypt_in m pkt (ok s) = decrypt_at m s (channel_at m s) pkt
decrypt_in m pkt (err e) = (m, err e)
decrypt_in m pkt panic = (m, panic)

unfoldable pub decrypt : Manager → Bytes → Manager × Result Error Bytes
unfolding decrypt_in decrypt_at
decrypt m pkt = decrypt_in m pkt (decrypt_channel m pkt)

abbrev pub is_some {ℓ} : {A : Type ℓ} → Option A → Bool
is_some none = false
is_some (some a) = true

-- `time.Since(startedAt) >= renegSec` and `total >= renegBytes`, each if its limit is set.
unfoldable pub needs_rekey : Manager → ℕ → Bool
needs_rekey m now =
    if is_some m.secondary
    then false
    else if ltb 0 m.reneg_sec && leb (m.started_at + m.reneg_sec * second) now
    then true
    else ltb 0 m.reneg_bytes && leb m.reneg_bytes (add_count m.bytes_sent m.bytes_recv)

unfoldable pub prepare : Manager → Channel → ℕ → Manager
prepare m next now = record m {
  secondary = some next;
  previous = none;
  started_at = now;
  bytes_sent = 0;
  bytes_recv = 0;
}

-- The prepared key becomes the primary one, if it is still the one that the caller means.
abbrev pub promoted : Manager → Option Channel → ℕ → Manager × Bool
promoted m none key_id = (m, false)
promoted m (some ch) key_id =
    if ch.key_id == bit_and key_id 0x07
    then (record m { previous = some m.current; current = ch; secondary = none }, true)
    else (m, false)

unfoldable pub promote : Manager → ℕ → Manager × Bool
promote m key_id = promoted m m.secondary key_id

unfoldable pub rotate : Manager → Channel → ℕ → Manager
rotate m next now = record m {
  current = next;
  secondary = none;
  previous = none;
  started_at = now;
  bytes_sent = 0;
  bytes_recv = 0;
}

unfoldable pub stats : Manager → ℕ × ℕ
stats m = (m.bytes_sent, m.bytes_recv)
