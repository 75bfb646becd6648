-- ===== src/Relay/Wire.antt =====
-- The layout of a WebSocket frame (RFC 6455, section 5.2): what readMessage reads, and what sendFrame
-- writes.
use Prim.Native.Nat.{bit_and}
use go_openlawsvpn.Base.{
  ℕ, ◌+◌, ◌/◌, ◌%◌, ◌^◌, ◌<◌, ◌≡◌, refl, ap, subst, ◌∙◌, arith, inl, inr, Bool-cases, Bool, true,
  false, not, List, [], ◌∷◌, ◌++◌, append_assoc, map, length, ltb, ◌==◌, if◌then◌else◌, Option,
  none, some, ok, Bytes, IsByte, All, put_uint32,
}
use go_openlawsvpn.Base.Masks.{low_seven, low_four, high_bit}
use go_openlawsvpn.Relay.Masking.{masked, IsKey, length-masked, unmask-undoes}
use go_openlawsvpn.Relay.{
  Input, arrives, got, cons_fill, read_full, payload_length, read_mask, read_body,
}

abbrev pub arriving : Bytes → List Input
arriving = map arrives

abbrev pub length_code : ℕ → ℕ
length_code n = if ltb n 126 then n else if ltb n 65536 then 126 else 127

abbrev pub extended_length : ℕ → Bytes
extended_length n =
    if ltb n 126
    then []
    else if ltb n 65536
    then n / 256 % 256 ∷ n % 256 ∷ []
    else 0 ∷ 0 ∷ 0 ∷ 0 ∷ put_uint32 n

abbrev pub first_byte : Bool → ℕ → ℕ
first_byte true opcode = 128 + opcode
first_byte false opcode = opcode

abbrev pub second_byte : Option Bytes → ℕ → ℕ
second_byte none n = length_code n
second_byte (some _) n = 128 + length_code n

abbrev pub key_bytes : Option Bytes → Bytes
key_bytes none = []
key_bytes (some key) = key

-- What stands behind the first two bytes.
abbrev pub frame_tail : Option Bytes → Bytes → Bytes
frame_tail key payload = extended_length (length payload) ++ (key_bytes key ++ masked key payload)

abbrev pub wire_frame : Bool → ℕ → Option Bytes → Bytes → Bytes
wire_frame fin opcode key payload =
    first_byte fin opcode ∷ second_byte key (length payload) ∷ frame_tail key payload

-- A payload of bytes, with a length that four bytes can hold.
abbrev pub IsPayload : Bytes → Type 0
IsPayload payload = All IsByte payload × (length payload < 2 ^ 32)

read_full-append :
    (a : Bytes) (rdr : List Input) → read_full (length a) (arriving a ++ rdr) ≡ got a rdr
unfolding read_full
read_full-append [] rdr = refl
read_full-append (b ∷ a) rdr = ap (cons_fill b) (read_full-append a rdr)

arriving-append : (a b : Bytes) → arriving (a ++ b) ≡ arriving a ++ arriving b
arriving-append [] b = refl
arriving-append (x ∷ a) b = ap (λ l. arrives x ∷ l) (arriving-append a b)

payload_length_lem :
    (n : ℕ) (rdr : List Input)
    → n < 2 ^ 32
    → payload_length (length_code n) (arriving (extended_length n) ++ rdr) ≡ ok (n, rdr)
unfolding payload_length read_full
payload_length_lem n rdr h = elim (Bool-cases (ltb n 126)) [
  | inl small ↦
      let a : (n == 126) ≡ false = ground (arith, small) in
      let b : (n == 127) ≡ false = ground (arith, small) in rw (small, a, b) refl
  | inr big ↦ elim (Bool-cases (ltb n 65536)) [
    | inl middle ↦
        let below : n < 65536 = ground (arith, middle) in
        rw (big, middle) (ap (λ x. ok (x, rdr)) (omega (arith, below)))
    | inr large ↦ rw (big, large) (ap (λ x. ok (x, rdr)) (omega (arith, h)))
  ]
]

abbrev is_masked : Option Bytes → Bool
is_masked none = false
is_masked (some _) = true

length_code-below : (n : ℕ) → length_code n < 128
length_code-below n = ground arith

second_byte-code : (key : Option Bytes) (n : ℕ) → bit_and (second_byte key n) 0x7F ≡ length_code n
second_byte-code none n =
    let below = length_code-below n in
    low_seven (length_code n) (omega (arith, below)) ∙ omega (arith, below)
second_byte-code (some key) n =
    let below = length_code-below n in
    low_seven (128 + length_code n) (omega (arith, below)) ∙ omega (arith, below)

second_byte-is_masked :
    (key : Option Bytes) (n : ℕ) → not (bit_and (second_byte key n) 0x80 == 0) ≡ is_masked key
second_byte-is_masked none n =
    let below = length_code-below n in
    let bit : bit_and (length_code n) 0x80 ≡ 0 =
      high_bit (length_code n) (omega (arith, below)) ∙ omega (arith, below) in
    rw bit refl
second_byte-is_masked (some key) n =
    let below = length_code-below n in
    let bit : bit_and (128 + length_code n) 0x80 ≡ 128 =
      high_bit (128 + length_code n) (omega (arith, below)) ∙ omega (arith, below) in
    rw bit refl

first_byte-opcode :
    (fin : Bool) (opcode : ℕ) → opcode < 16 → bit_and (first_byte fin opcode) 0x0F ≡ opcode
first_byte-opcode true opcode h = low_four (128 + opcode) (omega (arith, h)) ∙ omega (arith, h)
first_byte-opcode false opcode h = low_four opcode (omega (arith, h)) ∙ omega (arith, h)

first_byte-fin :
    (fin : Bool) (opcode : ℕ) → opcode < 16 → not (bit_and (first_byte fin opcode) 0x80 == 0) ≡ fin
first_byte-fin true opcode h =
    let bit : bit_and (128 + opcode) 0x80 ≡ 128 =
      high_bit (128 + opcode) (omega (arith, h)) ∙ omega (arith, h) in
    rw bit refl
first_byte-fin false opcode h =
    let bit : bit_and opcode 0x80 ≡ 0 = high_bit opcode (omega (arith, h)) ∙ omega (arith, h) in
    rw bit refl

read_mask_lem :
    (key : Option Bytes) (rdr : List Input)
    → IsKey key
    → read_mask (is_masked key) (arriving (key_bytes key) ++ rdr) ≡ ok (key, rdr)
unfolding read_mask
read_mask_lem none rdr h = refl
read_mask_lem (some key) rdr (four, _) =
    let full = read_full-append key rdr in
    let four_full : read_full 4 (arriving key ++ rdr) ≡ got key rdr =
      subst (λ n. read_full n (arriving key ++ rdr) ≡ got key rdr) four full in
    rw four_full refl

frame_tail_lem :
    (key : Option Bytes) (payload : Bytes) (rdr : List Input)
    → arriving (frame_tail key payload) ++ rdr
      ≡ arriving (extended_length (length payload))
        ++ (arriving (key_bytes key) ++ (arriving (masked key payload) ++ rdr))
frame_tail_lem key payload rdr =
    let ext = extended_length (length payload) in
    let body = masked key payload in
    ap (λ l. l ++ rdr)
      (arriving-append ext (key_bytes key ++ body)
        ∙ ap (λ l. arriving ext ++ l) (arriving-append (key_bytes key) body))
    ∙ append_assoc (arriving ext) (arriving (key_bytes key) ++ arriving body) rdr
    ∙ ap (λ l. arriving ext ++ l) (append_assoc (arriving (key_bytes key)) (arriving body) rdr)

-- Whatever frame is on the wire is read with its fields.
pub read_body-frame :
    (fin : Bool) (opcode : ℕ) (key : Option Bytes) (payload : Bytes) (rdr : List Input)
    → opcode < 16
    → IsKey key
    → IsPayload payload
    → read_body
        (first_byte fin opcode)
        (second_byte key (length payload))
        (arriving (frame_tail key payload) ++ rdr)
      ≡ ok (record { fin = fin; opcode = opcode; payload = payload }, rdr)
unfolding read_body
read_body-frame fin opcode key payload rdr small four (bytes, fits) =
    let body = masked key payload in
    let full : read_full (length payload) (arriving body ++ rdr) ≡ got body rdr =
      subst (λ n. read_full n (arriving body ++ rdr) ≡ got body rdr)
        (length-masked key payload four) (read_full-append body rdr) in
    rw
      (
        frame_tail_lem key payload rdr,
        second_byte-code key (length payload),
        payload_length_lem (length payload) (arriving (key_bytes key) ++ (arriving body ++ rdr))
            fits,
        second_byte-is_masked key (length payload),
        read_mask_lem key (arriving body ++ rdr) four,
        full,
        first_byte-opcode fin opcode small,
        first_byte-fin fin opcode small,
        unmask-undoes key payload four bytes,
      )
      refl
