-- ===== src/DataChannel/Tests.antt =====
-- A sender and a receiver over a stand-in for AES, and the theorems at concrete inputs.
use go_openlawsvpn.Base.{
  ℕ, ◌≡◌, refl, arith, true, false, inl, if◌then◌else◌, ◌==◌, Bytes, ok, err, List, [], ◌∷◌,
  replicate,
}
use go_openlawsvpn.Crypto.Samples.{cipher, cipher-Matches}
use go_openlawsvpn.DataChannel.{
  Channel, new_with_ciphers, encrypt, decrypt, check_replay, mark_seen, already_seen,
}
use go_openlawsvpn.DataChannel.Replay.{check_replay-mark_seen, replay_accepted}
use go_openlawsvpn.DataChannel.Packets.{
  decrypt-encrypt, decrypt_twice, in_order_session, encrypt_all, decrypt_all,
}

abbrev fresh : Channel
fresh = record {
  peer_id = 7;
  key_id = 2;
  encryptor = cipher;
  decryptor = cipher;
  send_seq = 0;
  replay_bit = λ _. false;
  replay_top = 0;
  replay_set = false;
}

fresh-new : new_with_ciphers 7 10 cipher cipher ≡ fresh
unfolding new_with_ciphers
fresh-new = refl

abbrev rand : Bytes
rand = replicate 16 5

abbrev plain : Bytes
plain = 1 ∷ 2 ∷ 3 ∷ []

first_passes : check_replay fresh 0 ≡ ok tt
unfolding check_replay
first_passes = refl

decrypt_twice_example :
    (seq : ℕ) × (decrypt (mark_seen fresh 0) (encrypt fresh rand plain).1
      ≡ (mark_seen fresh 0, err (already_seen seq)))
decrypt_twice_example =
    decrypt_twice fresh (mark_seen fresh 0) (encrypt fresh rand plain).1 plain (omega arith)
      (decrypt-encrypt fresh fresh rand plain cipher-Matches refl (omega arith) first_passes).0

abbrev three : List (Bytes × Bytes)
three = (rand, plain) ∷ (rand, 4 ∷ []) ∷ (rand, []) ∷ []

in_order_session_example :
    decrypt_all fresh (encrypt_all fresh three) ≡ ok plain ∷ ok (4 ∷ []) ∷ ok [] ∷ []
in_order_session_example =
    in_order_session fresh fresh three cipher-Matches (refl, (refl, (refl, tt))) (omega arith)
      (inl refl)

check_replay-mark_seen_example : check_replay (mark_seen fresh 5) 5 ≡ err (already_seen 5)
unfolding check_replay
check_replay-mark_seen_example = check_replay-mark_seen fresh 5 (omega arith) refl

abbrev at_100 : Channel
at_100 = record fresh { replay_top = 100; replay_set = true }

-- Packets 5 and 6 arrive, and packet 5 arrives again.
replay_accepted_example : check_replay (mark_seen (mark_seen fresh 5) 6) 5 ≡ ok tt
replay_accepted_example = replay_accepted fresh 5 (inl refl) (omega arith) refl

-- Packet 100 arrives, then 99, then 102: packet 101 is refused.
abbrev late : Channel
late = record at_100 { replay_bit = λ i. if i == 0 then true else i == 1 }
