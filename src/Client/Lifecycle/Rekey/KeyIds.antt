-- ===== src/Client/Lifecycle/Rekey/KeyIds.antt =====
-- doRekey of client.go: the key IDs of the epochs of a session.
use go_openlawsvpn.Base.{
  ℕ, zero, suc, ◌+◌, ◌-◌, ◌%◌, ◌≤◌, ◌<◌, ◌≡◌, ap, ◌∙◌, arith, List, [], ◌∷◌, get_elem?, some,
  if◌then◌else◌, ◌==◌, pos, min, ◌*◌, ◌/◌,
}
use go_openlawsvpn.Base.Bits.{low_three}
use go_openlawsvpn.Client.Lifecycle.{Client}
use go_openlawsvpn.Client.Lifecycle.Rekey.{key_behind, allocate_key, rekey_promotion_delay}

-- The key IDs of `n` rekeys in a row.
pub allocate_keys : ℕ → Client → List ℕ
allocate_keys zero c = []
allocate_keys (suc n) c = (allocate_key c).0 ∷ allocate_keys n (allocate_key c).1

key_behind_lem : (id : ℕ) → 1 ≤ id → id ≤ 7 → key_behind id ≡ id % 7 + 1
unfolding key_behind
key_behind_lem id h k = rw (low_three ((id + 1) % 256) (omega arith)) (ground arith)

-- From a key ID from 1 to 7 on, the rekeys of a session go round the seven key IDs from 1 to 7.
pub allocate_keys_lem :
    (n i : ℕ) (c : Client)
    → 1 ≤ c.next_key_id
    → c.next_key_id ≤ 7
    → i < n
    → get_elem? (allocate_keys n c) i ≡ some ((c.next_key_id - 1 + i) % 7 + 1)
unfolding allocate_keys allocate_key
allocate_keys_lem zero i c h k l = absurd (omega arith)
allocate_keys_lem (suc n) zero c h k l = ap some (omega arith)
allocate_keys_lem (suc n) (suc i) c h k l =
    let e : key_behind c.next_key_id ≡ c.next_key_id % 7 + 1 = key_behind_lem c.next_key_id h k in
    allocate_keys_lem n i (allocate_key c).1 (omega (arith, e)) (omega (arith, e)) (omega arith)
    ∙ ap some (omega (arith, e))

-- Without become-primary the new key is promoted after half of reneg-sec, or of its default for a
-- reneg-sec of 0, and after 60 seconds at most.
pub rekey_promotion_delay_default :
    (reneg_sec : ℕ)
    → rekey_promotion_delay 0 reneg_sec
      ≡ pos (1000000000 * min 60 ((if reneg_sec == 0 then 3600 else reneg_sec) / 2))
unfolding rekey_promotion_delay
rekey_promotion_delay_default reneg_sec = ground arith
