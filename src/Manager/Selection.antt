-- ===== src/Manager/Selection.antt =====
-- Which key epochs the manager accepts, through preparation and promotion of a new one.
use go_openlawsvpn.Base.{
  ℕ, ◌≡◌, ◌≢◌, refl, ◌∙◌, arith, true, false, ◌&&◌, Option, none, some, ◌==◌, if◌then◌else◌, Bytes,
  Result, ok,
}
use Prim.Native.Nat.{bit_and}
use go_openlawsvpn.DataChannel.{Channel}
use go_openlawsvpn.DataChannel
use go_openlawsvpn.Compress
use go_openlawsvpn.Manager.{
  Manager, ManagerConfig, Error, decrypt_at, decrypt_in, promoted, Slot, current, secondary,
  previous, new_manager, encrypt, decrypt, decrypt_channel, channel_at, with_channel, count_plain,
  unwrap_inner, find_slot, is_some, prepare, promote, rotate,
}

-- The channel that a packet with this key ID is decrypted by.
abbrev pub channel_for : Manager → ℕ → Option Channel
channel_for m key_id = elim (find_slot m key_id) [ none ↦ none | some s ↦ channel_at m s ]

-- Through a change of keys both epochs are accepted, and no other. After `Prepare` packets of the
-- current key go to its channel and packets of the new key to the new one; after `Promote` of the new
-- key, which succeeds, so again, with the new channel as the one that sends. A packet with any other
-- key ID has no channel, also one of a key that was kept from an earlier change.
pub transition_keys :
    (m : Manager) (next : Channel) (now k : ℕ)
    → next.key_id ≢ m.current.key_id
    → bit_and next.key_id 0x07 ≡ next.key_id
    → let prepared = prepare m next now in
      let (after_promote, done) = promote prepared next.key_id in
      let keys =
        if m.current.key_id == k
        then some m.current
        else if next.key_id == k
        then some next
        else none in
      (channel_for prepared k ≡ keys)
      × (prepared.current ≡ m.current)
      × (done ≡ true)
      × (channel_for after_promote k ≡ keys)
      × (after_promote.current ≡ next)
unfolding prepare promote find_slot channel_at
transition_keys m next now k ne masked = ground arith

-- At most one key epoch is kept beside the current one.
abbrev pub IsPair : Manager → Type 0
IsPair m = (is_some m.secondary && is_some m.previous) ≡ false

-- A step of the manager, with what the environment chooses.
pub data Step : Manager → Manager → Type 0 where
  encrypts : (m : Manager) (rand plain : Bytes) → Step m (encrypt m rand plain).0
  decrypts : (m : Manager) (pkt : Bytes) → Step m (decrypt m pkt).0
  prepares : (m : Manager) (next : Channel) (now : ℕ) → Step m (prepare m next now)
  promotes : (m : Manager) (key_id : ℕ) → Step m (promote m key_id).0
  rotates : (m : Manager) (next : Channel) (now : ℕ) → Step m (rotate m next now)

pub data Reach (m : Manager) : Manager → Type 0 where
  here : Reach m m
  after : {n o : Manager} → Reach m n → Step n o → Reach m o

-- Decrypt changes a channel in its slot, and no slot.
abbrev SameSlots : Manager → Manager → Type 0
SameSlots m n =
    (is_some m.secondary ≡ is_some n.secondary) × (is_some m.previous ≡ is_some n.previous)

with_channel-SameSlots :
    (m : Manager) (s : Slot) (ch ch' : Channel)
    → channel_at m s ≡ some ch
    → SameSlots (with_channel m s ch') m
unfolding with_channel channel_at
with_channel-SameSlots m current ch ch' e = (refl, refl)
with_channel-SameSlots m secondary ch ch' e = ground (arith, e)
with_channel-SameSlots m previous ch ch' e = ground (arith, e)

count_plain-SameSlots :
    (m : Manager) (r : Result Compress.Error Bytes) → SameSlots (count_plain m r).0 m
unfolding count_plain
count_plain-SameSlots m (ok plain) = (refl, refl)
count_plain-SameSlots m _ = (refl, refl)

unwrap_inner-SameSlots :
    (m : Manager) (r : Result DataChannel.Error Bytes) → SameSlots (unwrap_inner m r).0 m
unfolding unwrap_inner
unwrap_inner-SameSlots m (ok inner) = count_plain-SameSlots m (Compress.unwrap m.compress inner)
unwrap_inner-SameSlots m _ = (refl, refl)

decrypt_at-SameSlots :
    (m : Manager) (s : Slot) (o : Option Channel) (pkt : Bytes)
    → channel_at m s ≡ o
    → SameSlots (decrypt_at m s o pkt).0 m
unfolding decrypt_at
decrypt_at-SameSlots m s none pkt e = (refl, refl)
decrypt_at-SameSlots m s (some ch) pkt e =
    let (ch', inner) = DataChannel.decrypt ch pkt in
    let same = with_channel-SameSlots m s ch ch' e in
    let after' = unwrap_inner-SameSlots (with_channel m s ch') inner in
    (after'.0 ∙ same.0, after'.1 ∙ same.1)

decrypt_in-SameSlots :
    (m : Manager) (pkt : Bytes) (r : Result Error Slot) → SameSlots (decrypt_in m pkt r).0 m
unfolding decrypt_in
decrypt_in-SameSlots m pkt (ok s) = decrypt_at-SameSlots m s (channel_at m s) pkt refl
decrypt_in-SameSlots m pkt _ = (refl, refl)

decrypt-SameSlots : (m : Manager) (pkt : Bytes) → SameSlots (decrypt m pkt).0 m
unfolding decrypt
decrypt-SameSlots m pkt = decrypt_in-SameSlots m pkt (decrypt_channel m pkt)

promoted-IsPair :
    (m : Manager) (o : Option Channel) (key_id : ℕ)
    → m.secondary ≡ o
    → IsPair m
    → IsPair (promoted m o key_id).0
promoted-IsPair m none key_id e p = p
promoted-IsPair m (some ch) key_id e p = ground (arith, p)

Step-IsPair : {m n : Manager} → Step m n → IsPair m → IsPair n
unfolding encrypt prepare promote rotate
Step-IsPair (encrypts m rand plain) p = p
Step-IsPair (decrypts m pkt) p = let (s, q) = decrypt-SameSlots m pkt in ground (arith, s, q, p)
Step-IsPair (prepares m next now) p = refl
Step-IsPair (promotes m key_id) p = promoted-IsPair m m.secondary key_id refl p
Step-IsPair (rotates m next now) p = refl

-- Whatever sequence of calls a manager has seen since it was made, it keeps at most one key epoch beside
-- the current one: a prepared key that waits for promotion, or the key before the current one.
Reach-IsPair :
    (ch : Channel) (cfg : Option ManagerConfig) (now : ℕ) {m : Manager}
    → Reach (new_manager ch cfg now) m
    → IsPair m
unfolding new_manager
Reach-IsPair ch none now here = refl
Reach-IsPair ch (some cfg) now here = refl
Reach-IsPair ch cfg now (after r s) = Step-IsPair s (Reach-IsPair ch cfg now r)
