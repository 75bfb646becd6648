-- ===== src/Manager/Rekey.antt =====
-- When a renegotiation is due.
use go_openlawsvpn.Base.{ℕ, ◌+◌, ◌*◌, ◌≤◌, ◌<◌, ◌≡◌, ◌↔◌, refl, arith, true, false, ◌⊎◌, none}
use go_openlawsvpn.DataChannel.{Channel}
use go_openlawsvpn.Manager.{Manager, second, add_count, needs_rekey, prepare, promote}
use Prim.Native.Nat.{bit_and}

-- A renegotiation is due exactly when no prepared key is waiting and the time limit is set and has
-- passed, or the byte limit is set and is reached.
needs_rekey_iff :
    (m : Manager) (now : ℕ)
    → (needs_rekey m now ≡ true) ↔ (
        (m.secondary ≡ none)
        × (((0 < m.reneg_sec) × (m.started_at + m.reneg_sec * second ≤ now))
            ⊎ ((0 < m.reneg_bytes) × (m.reneg_bytes ≤ add_count m.bytes_sent m.bytes_recv))))
unfolding needs_rekey
needs_rekey_iff m now = (λ e. ground arith, λ r. ground arith)

-- After a new key is prepared at time `t`, no renegotiation is due before the time limit has passed since
-- `t`, neither while the key waits nor once it is promoted, if no traffic was counted in between.
prepare_restarts :
    (m : Manager) (next : Channel) (t now : ℕ)
    → bit_and next.key_id 0x07 ≡ next.key_id
    → now < t + m.reneg_sec * second
    → let prepared = prepare m next t in
      (needs_rekey prepared now ≡ false)
      × (needs_rekey (promote prepared next.key_id).0 now ≡ false)
unfolding needs_rekey prepare promote
prepare_restarts m next t now masked early = (refl, ground arith)
