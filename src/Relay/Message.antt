-- ===== src/Relay/Message.antt =====
-- readMessage puts a message together again, whatever fragments it comes in.
use Prim.Native.Nat.{bit_or}
use go_openlawsvpn.Base.{
  ℕ, zero, suc, ◌+◌, ◌%◌, ◌<◌, ◌≡◌, refl, sym, ap, ◌∙◌, arith, ◌⊎◌, inl, inr, Bool-cases, Bool,
  true, false, List, [], ◌∷◌, ◌++◌, append_assoc, length, length-append, ltb, Option, some, ok,
  Bytes,
}
use go_openlawsvpn.Base.Bits.{check_table, eq_below}
use go_openlawsvpn.Text.{is_empty}
use go_openlawsvpn.Relay.{
  Input, arrives, mask_from, on_frame, behind_action, keep, with_pong, read_full, read_loop,
  read_message, frame_header, send_frame, send_text,
}
use go_openlawsvpn.Relay.Masking.{IsKey, mask_from-masked}
use go_openlawsvpn.Relay.Wire.{arriving, wire_frame, frame_tail, IsPayload, read_body-frame}

-- One frame on the wire takes one round of the loop.
read_loop-frame :
    (fuel : ℕ) (msg : Bytes) (fin : Bool) (opcode : ℕ) (key : Option Bytes) (payload : Bytes)
    (rdr : List Input)
    → opcode < 16
    → IsKey key
    → IsPayload payload
    → read_loop (suc fuel) msg (arriving (wire_frame fin opcode key payload) ++ rdr)
      ≡ behind_action
          (on_frame (record { fin = fin; opcode = opcode; payload = payload }) msg)
          msg
          rdr
          (λ m rest. read_loop fuel m rest)
unfolding read_loop read_full
read_loop-frame fuel msg fin opcode key payload rdr small four right =
    rw (read_body-frame fin opcode key payload rdr small four right) refl

-- What may stand between the first and the last fragment: further fragments and pings, each masked or not.
pub data Between : Type 0 where
  part ping : Option Bytes → Bytes → Between

abbrev pub wire : List Between → Bytes
wire [] = []
wire (part key p ∷ between) = wire_frame false 0 key p ++ wire between
wire (ping key p ∷ between) = wire_frame true 9 key p ++ wire between

abbrev pub parts : List Between → Bytes
parts [] = []
parts (part key p ∷ between) = p ++ parts between
parts (ping key p ∷ between) = parts between

abbrev pub pings : List Between → List Bytes
pings [] = []
pings (part key p ∷ between) = pings between
pings (ping key p ∷ between) = p ∷ pings between

abbrev pub AreFrames : List Between → Type 0
AreFrames [] = Unit {0}
AreFrames (part key p ∷ between) = IsKey key × IsPayload p × AreFrames between
AreFrames (ping key p ∷ between) = IsKey key × IsPayload p × AreFrames between

arriving_two :
    (a b : Bytes) (rdr : List Input) → arriving (a ++ b) ++ rdr ≡ arriving a ++ (arriving b ++ rdr)
arriving_two [] b rdr = refl
arriving_two (x ∷ a) b rdr = ap (λ l. arrives x ∷ l) (arriving_two a b rdr)

-- From the message so far to the last fragment.
read_loop-between :
    (fuel : ℕ) (msg : Bytes) (between : List Between) (key : Option Bytes) (last : Bytes)
    (rdr : List Input)
    → length (wire between) < fuel
    → AreFrames between
    → IsKey key
    → IsPayload last
    → is_empty (msg ++ (parts between ++ last)) ≡ false
    → read_loop fuel msg (arriving (wire between) ++ (arriving (wire_frame true 0 key last) ++ rdr))
      ≡ ok (msg ++ (parts between ++ last), pings between, rdr)
unfolding on_frame
read_loop-between zero msg between key last rdr h fs k l full = absurd (omega (arith, h))
read_loop-between (suc fuel) msg [] key last rdr h fs k l full =
    read_loop-frame fuel msg true 0 key last rdr (omega arith) k l ∙ rw full refl
read_loop-between (suc fuel) msg (part key' p ∷ between) key last rdr h (k', l', fs) k l full =
    let rest = arriving (wire_frame true 0 key last) ++ rdr in
    let same : (msg ++ p) ++ (parts between ++ last) ≡ msg ++ ((p ++ parts between) ++ last) =
      append_assoc msg p (parts between ++ last)
      ∙ ap (λ t. msg ++ t) (sym (append_assoc p (parts between) last)) in
    ap (read_loop (suc fuel) msg) (arriving_two (wire_frame false 0 key' p) (wire between) rest)
    ∙ read_loop-frame fuel msg false 0 key' p (arriving (wire between) ++ rest) (omega arith) k' l'
    ∙ read_loop-between fuel (msg ++ p) between key last rdr
        (omega (arith, h, length-append (frame_tail key' p) (wire between))) fs k l
        (ap is_empty same ∙ full)
    ∙ ap (λ t. ok (t, pings between, rdr)) same
read_loop-between (suc fuel) msg (ping key' p ∷ between) key last rdr h (k', l', fs) k l full =
    let rest = arriving (wire_frame true 0 key last) ++ rdr in
    ap (read_loop (suc fuel) msg) (arriving_two (wire_frame true 9 key' p) (wire between) rest)
    ∙ read_loop-frame fuel msg true 9 key' p (arriving (wire between) ++ rest) (omega arith) k' l'
    ∙ ap (with_pong p) (
        read_loop-between fuel msg between key last rdr
          (omega (arith, h, length-append (frame_tail key' p) (wire between))) fs k l full)

length-arriving :
    (a : Bytes) (rdr : List Input) → length (arriving a ++ rdr) ≡ length a + length rdr
length-arriving [] rdr = omega arith
length-arriving (x ∷ a) rdr = omega (arith, length-arriving a rdr)

-- A first fragment starts a message, whatever there was.
on_frame-first :
    (opcode : ℕ) (first msg : Bytes)
    → (opcode ≡ 1) ⊎ (opcode ≡ 2)
    → on_frame (record { fin = false; opcode = opcode; payload = first }) msg ≡ keep first
unfolding on_frame
on_frame-first opcode first msg (inl e) = rw e refl
on_frame-first opcode first msg (inr e) = rw e refl

small_opcode : (opcode : ℕ) → (opcode ≡ 1) ⊎ (opcode ≡ 2) → opcode < 16
small_opcode opcode h = omega (arith, h)

-- A message in fragments, a first one, any number of further ones and a last one, each masked or not, with
-- pings between them: readMessage returns the fragments joined, if they are not all empty, answers the
-- pings in their order, and leaves what follows unread.
pub read_message-fragments :
    (opcode : ℕ) (first_key : Option Bytes) (first : Bytes) (between : List Between)
    (key : Option Bytes) (last : Bytes) (rdr : List Input)
    → (opcode ≡ 1) ⊎ (opcode ≡ 2)
    → IsKey first_key
    → IsPayload first
    → AreFrames between
    → IsKey key
    → IsPayload last
    → is_empty (first ++ (parts between ++ last)) ≡ false
    → read_message (
        arriving (wire_frame false opcode first_key first)
        ++ (arriving (wire between) ++ (arriving (wire_frame true 0 key last) ++ rdr)))
      ≡ ok (first ++ (parts between ++ last), pings between, rdr)
unfolding read_message
read_message-fragments opcode first_key first between key last rdr op k1 l1 fs k l full =
    let rest = arriving (wire between) ++ (arriving (wire_frame true 0 key last) ++ rdr) in
    let fuel = length (arriving (frame_tail first_key first) ++ rest) in
    let enough : length (wire between) < suc fuel = omega (
      arith,
      length-arriving (frame_tail first_key first) rest,
      length-arriving (wire between) (arriving (wire_frame true 0 key last) ++ rdr),
    ) in
    read_loop-frame (suc fuel) [] false opcode first_key first rest (small_opcode opcode op) k1 l1
    ∙ ap (λ a. behind_action a [] rest (λ m r. read_loop (suc fuel) m r))
        (on_frame-first opcode first [] op)
    ∙ read_loop-between (suc fuel) first between key last rdr enough fs k l full

or_high : (x : ℕ) → x < 128 → bit_or 0x80 x ≡ 128 + x
unfolding check_table
or_high x h = eq_below (λ x. bit_or 0x80 x) (λ x. 128 + x) 128 refl x h

frame_header-text :
    (key payload : Bytes)
    → length key ≡ 4
    → frame_header 1 (length payload) ++ (key ++ mask_from key 0 payload)
      ≡ wire_frame true 1 (some key) payload
unfolding frame_header
frame_header-text key payload four =
    rw (mask_from-masked key payload four) (elim (Bool-cases (ltb (length payload) 126)) [
      | inl small ↦
          let below : length payload < 126 = ground (arith, small) in
          let code : bit_or 0x80 (length payload % 256) ≡ 128 + length payload =
            or_high (length payload % 256) (omega (arith, below)) ∙ omega (arith, below) in
          rw (small, code) refl
      | inr big ↦ elim (Bool-cases (ltb (length payload) 65536)) [
        | inl middle ↦ rw (big, middle) refl
        | inr large ↦ rw (big, large) refl
      ]
    ])

-- What sendText writes with any mask key, readMessage reads as the payload, if it is not empty and its
-- length fits in four bytes, and leaves what follows unread.
read_message-send_text :
    (key payload : Bytes) (rdr : List Input)
    → IsKey (some key)
    → IsPayload payload
    → is_empty payload ≡ false
    → read_message (arriving (send_text key payload) ++ rdr) ≡ ok (payload, [], rdr)
unfolding read_message send_text send_frame on_frame
read_message-send_text key payload rdr k l full =
    ap (λ t. read_message (arriving t ++ rdr)) (frame_header-text key payload k.0)
    ∙ read_loop-frame (suc (length (arriving (frame_tail (some key) payload) ++ rdr))) [] true 1
        (some key) payload rdr (omega arith) k l
    ∙ rw full refl
