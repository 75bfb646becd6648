-- ===== src/Client/Lifecycle/Rekey.antt =====
-- client.go: the parts of doRekey: the key ID of the next epoch, the wait for the resets and for the
-- acknowledgements, the credentials and the delay of the promotion.
pub mod KeyIds
pub mod Waiting
use go_openlawsvpn.Base.{
  ℕ, ◌+◌, ◌*◌, ◌/◌, ◌%◌, ◌^◌, zero, suc, Bool, true, false, not, ◌&&◌, ◌||◌, List, [], ◌∷◌, Option,
  none, some, if◌then◌else◌, ltb, ◌==◌, Bytes, ℤ, pos, to_int64,
}
use Prim.Native.Nat.{bit_and}
use go_openlawsvpn.Compress.{codes}
use go_openlawsvpn.Text.{is_empty}
use go_openlawsvpn.Saml.Challenge.{build_phase2_password}
use go_openlawsvpn.Manager.{default_reneg_sec}
use go_openlawsvpn.Client.Lifecycle.{Client}

-- `(keyID + 1) & 0x07`, on a byte, without 0.
unfoldable pub key_behind : ℕ → ℕ
key_behind id = let next = bit_and ((id + 1) % 256) 0x07 in if next == 0 then 1 else next

unfoldable pub allocate_key : Client → ℕ × Client
allocate_key c = (c.next_key_id, record c { next_key_id = key_behind c.next_key_id })

-- What the loop of waitForRekeyReset may receive.
pub data Signal : Type 0 where
  context_done deadline peer_reset reset_acked : Signal

pub data Wait : Type 0 where
  reset_done cancelled pending : Wait
  exceeded : Bool → Bool → Wait

-- `got_peer` and `got_ack` tell which channels have been closed and set to nil, which is never received
-- from again.
unfoldable pub wait_for_rekey_reset : List Signal → Bool → Bool → Wait
wait_for_rekey_reset signals true true = reset_done
wait_for_rekey_reset [] got_peer got_ack = pending
wait_for_rekey_reset (context_done ∷ signals) got_peer got_ack = cancelled
wait_for_rekey_reset (deadline ∷ signals) got_peer got_ack = exceeded got_peer got_ack
wait_for_rekey_reset (peer_reset ∷ signals) got_peer got_ack =
    wait_for_rekey_reset signals true got_ack
wait_for_rekey_reset (reset_acked ∷ signals) got_peer got_ack =
    wait_for_rekey_reset signals got_peer true

-- The user name and the password of a new epoch.
unfoldable pub rekey_auth_credentials : Client → Bytes × Bytes
rekey_auth_credentials c =
    let cached =
      if not (is_empty c.cached_state_id) && not (is_empty c.cached_token)
      then (codes "N/A", build_phase2_password c.cached_state_id c.cached_token)
      else ([], []) in
    elim c.auth_token [
      | none ↦ cached
      | some auth ↦ if is_empty auth then cached else (codes "N/A", auth)
    ]

-- Seconds as a time.Duration, in nanoseconds.
abbrev pub seconds : ℕ → ℤ
seconds n = to_int64 (n * 1000000000)

-- The two settings of the profile are not negative.
unfoldable pub rekey_promotion_delay : ℕ → ℕ → ℤ
rekey_promotion_delay become_primary_sec reneg_sec =
    if ltb 0 become_primary_sec
    then seconds become_primary_sec
    else let half = (if reneg_sec == 0 then default_reneg_sec else reneg_sec) / 2 in
      seconds (if ltb 60 half then 60 else half)
