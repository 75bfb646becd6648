-- ===== src/DataChannel/Replay.antt =====
-- The replay window: what checkReplay refuses after markSeen, and what it lets through.
use go_openlawsvpn.Base.{
  ℕ, zero, suc, ◌+◌, ◌-◌, ◌%◌, ◌^◌, ◌≤◌, ◌<◌, ◌≡◌, ◌≢◌, arith, Bool, true, false, inr, ◌⊎◌, min,
  if◌then◌else◌, ok, err, IsU32,
}
use go_openlawsvpn.DataChannel.{
  Channel, too_old, already_seen, replay_window_size, check_replay, set_bit, clear_bits, mark_seen,
}

-- The highest sequence number seen is a uint32.
abbrev pub IsValid : Channel → Type 0
IsValid c = IsU32 c.replay_top

pub mark_seen-IsValid : (c : Channel) (seq : ℕ) → IsU32 seq → IsValid c → IsValid (mark_seen c seq)
unfolding mark_seen
mark_seen-IsValid c seq h v = ground arith

-- A sequence number that has just passed the check is refused once it is marked.
pub check_replay-mark_seen :
    (c : Channel) (seq : ℕ)
    → IsValid c
    → check_replay c seq ≡ ok tt
    → check_replay (mark_seen c seq) seq ≡ err (already_seen seq)
unfolding check_replay mark_seen
check_replay-mark_seen c seq v e = ground arith

-- A sequence number at least 64 below the highest is refused.
check_replay_too_old :
    (c : Channel) (seq : ℕ)
    → IsValid c
    → c.replay_set ≡ true
    → seq + replay_window_size ≤ c.replay_top
    → check_replay c seq ≡ err (too_old seq)
unfolding check_replay
check_replay_too_old c seq v s h = ground arith

-- Above the highest sequence number everything passes, as does the first packet.
pub check_replay_new :
    (c : Channel) (seq : ℕ)
    → (c.replay_set ≡ false) ⊎ (c.replay_top < seq)
    → check_replay c seq ≡ ok tt
unfolding check_replay
check_replay_new c seq h = ground arith

-- Clearing sets no bit.
clear_bits-false :
    (bits : ℕ → Bool) (top i rounds k : ℕ) → bits k ≡ false → clear_bits bits top i rounds k ≡ false
unfolding clear_bits
clear_bits-false bits top i zero k h = h
clear_bits-false bits top i (suc rounds) k h =
    clear_bits-false (set_bit bits ((top + 1 + i) % 2 ^ 32 % replay_window_size) false) top (i + 1)
      rounds k (ground arith)

-- A new highest sequence number leaves a clear bit clear, but for bit 0.
mark_seen_top :
    (c : Channel) (seq : ℕ)
    → (c.replay_set ≡ false) ⊎ (c.replay_top < seq)
    → IsU32 seq
    → c.replay_bit 1 ≡ false
    → ((mark_seen c seq).replay_bit 1 ≡ false)
      × ((mark_seen c seq).replay_top ≡ seq)
      × ((mark_seen c seq).replay_set ≡ true)
unfolding mark_seen
mark_seen_top c seq new h e = ground (
  arith,
  clear_bits-false c.replay_bit c.replay_top 0
      (min (if c.replay_set then seq - c.replay_top else 0) replay_window_size) 1 e,
)

-- The window is indexed by the distance from the highest sequence number, but is not shifted when that
-- rises: on any channel whose bit 1 is clear, a new one among them, after `s` and `s + 1` have been
-- received in this order, `checkReplay` lets `s` through a second time.
pub replay_accepted :
    (c : Channel) (s : ℕ)
    → (c.replay_set ≡ false) ⊎ (c.replay_top < s)
    → s + 1 < 2 ^ 32
    → c.replay_bit 1 ≡ false
    → check_replay (mark_seen (mark_seen c s) (s + 1)) s ≡ ok tt
unfolding check_replay
replay_accepted c s new h e =
    let c₁ = mark_seen c s in
    let (bit, top, _) = mark_seen_top c s new (omega arith) e in
    let (bit', top', set') = mark_seen_top c₁ (s + 1) (inr (omega arith)) h bit in
    let behind : (2 ^ 32 + (mark_seen c₁ (s + 1)).replay_top - s) % 2 ^ 32 ≡ 1 = omega arith in
    ground (arith, bit', top', set', behind)

-- Where two numbers differ from 1 mod 64, clearing them leaves bit 1.
clear_two :
    (bits : ℕ → Bool) (top : ℕ)
    → top + 2 < 2 ^ 32
    → (top + 1) % 64 ≢ 1
    → (top + 2) % 64 ≢ 1
    → clear_bits bits top 0 2 1 ≡ bits 1
unfolding clear_bits
clear_two bits top h n₁ n₂ = ground arith

-- The same fault the other way round: where bit 1 is set, by a late packet, and the highest number then
-- rises by two, the packet between, which never came, is refused as seen. (The two bits that are
-- cleared for the new numbers are not bit 1, for 62 of every 64 highest numbers.)
late_packet_refused :
    (c : Channel)
    → c.replay_set ≡ true
    → c.replay_bit 1 ≡ true
    → c.replay_top + 2 < 2 ^ 32
    → (c.replay_top + 1) % 64 ≢ 1
    → (c.replay_top + 2) % 64 ≢ 1
    → check_replay (mark_seen c (c.replay_top + 2)) (c.replay_top + 1)
      ≡ err (already_seen (c.replay_top + 1))
unfolding check_replay mark_seen
late_packet_refused c set bit h n₁ n₂ =
    let rounds : min (c.replay_top + 2 - c.replay_top) replay_window_size ≡ 2 = omega arith in
    ground (arith, set, bit, rounds, clear_two c.replay_bit c.replay_top h n₁ n₂)
