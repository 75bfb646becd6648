-- ===== src/Manager/Tests.antt =====
-- A change of keys, and the theorems at concrete inputs.
use go_openlawsvpn.Base.{ℕ, ◌≡◌, refl, arith, true, false, none, some, ok, [], ◌∷◌, replicate}
use go_openlawsvpn.Compress.{mode_lz4}
use go_openlawsvpn.Crypto.Samples.{cipher, cipher-Matches}
use go_openlawsvpn.DataChannel.{Channel, check_replay, mark_seen}
use go_openlawsvpn.Manager.{
  Manager, Slot, encrypt, decrypt, find_slot, channel_at, with_channel, add_count, prepare, promote,
}
use go_openlawsvpn.Manager.Selection.{channel_for, transition_keys}
use go_openlawsvpn.Manager.Traffic.{decrypt-encrypt_managers}

abbrev channel_of : ℕ → Channel
channel_of key_id = record {
  peer_id = 7;
  key_id = key_id;
  encryptor = cipher;
  decryptor = cipher;
  send_seq = 0;
  replay_bit = λ _. false;
  replay_top = 0;
  replay_set = false;
}

abbrev start : Manager
start = record {
  current = channel_of 0;
  secondary = none;
  previous = some (channel_of 7);
  reneg_sec = 60;
  reneg_bytes = 1000;
  started_at = 5;
  bytes_sent = 400;
  bytes_recv = 600;
  compress = mode_lz4;
}

transition_keys_example :
    let prepared = prepare start (channel_of 1) 9 in
    let (promoted, done) = promote prepared 1 in
    (channel_for prepared 0 ≡ some (channel_of 0))
    × (prepared.current ≡ channel_of 0)
    × (done ≡ true)
    × (channel_for promoted 0 ≡ some (channel_of 0))
    × (promoted.current ≡ channel_of 1)
transition_keys_example = transition_keys start (channel_of 1) 9 0 (omega arith) refl

-- The receiver has promoted key 1, and packets of key 0 are still under way.
abbrev switched : Manager
switched = record start { current = channel_of 1; previous = some (channel_of 0) }

switched-slot : find_slot switched 0 ≡ some Slot.previous
unfolding find_slot
switched-slot = refl

switched-channel : channel_at switched Slot.previous ≡ some (channel_of 0)
unfolding channel_at
switched-channel = refl

first_passes : check_replay (channel_of 0) 0 ≡ ok tt
unfolding check_replay
first_passes = refl

decrypt-encrypt_managers_example :
    let (m, pkt) = encrypt start (replicate 16 5) (1 ∷ 2 ∷ []) in
    let n = with_channel switched Slot.previous (mark_seen (channel_of 0) 0) in
    (decrypt switched pkt ≡ (record n { bytes_recv = add_count n.bytes_recv 2 }, ok (1 ∷ 2 ∷ [])))
    × (m.bytes_sent ≡ 402)
decrypt-encrypt_managers_example =
    decrypt-encrypt_managers start switched Slot.previous (channel_of 0) (replicate 16 5)
      (1 ∷ 2 ∷ []) refl (omega arith) switched-slot switched-channel cipher-Matches refl
      (omega arith) first_passes
