-- ===== src/Framing/Control.antt =====
-- ParseControl of framing.go: what it reads of a well-formed packet, and that no input makes it
-- index out of range.
use go_openlawsvpn.Base.{
  ℕ, zero, suc, ◌+◌, ◌*◌, ◌≤◌, ◌<◌, ◌≡◌, ◌≢◌, refl, ap, ◌∙◌, sym, arith, false, List, [], ◌∷◌, ◌++◌,
  length, length-append, length-drop, get_elem?, get_elem?-drop, get_elem?_total, some, inl, inr,
  Bool-cases, ltb_false→le, drop, drop-append, drop-drop, append_assoc, ltb, ok, panic, index,
  >>=-ne-panic, >>=-eq-ok, uint32-any_error, Bytes, put_uint32, uint32, uint32-put, uint32_total,
  IsU32, All, le→ltb,
}
use go_openlawsvpn.Framing.{
  p_ack_v1, opcode_from_byte, key_id_from_byte, Error, read_ack_ids, put_ack_ids, parse_ack_array,
  parse_tail, parse_control, Packet,
}

-- The words from `offset` on are read back, and the next offset is behind them.
pub read_ack_ids-put {κ} :
    {E : Type κ} (raw post : Bytes) (ids : List ℕ) (offset : ℕ)
    → All IsU32 ids
    → drop offset raw ≡ put_ack_ids ids ++ post
    → (read_ack_ids {E = E} raw offset (length ids) ≡ ok ids)
      × (drop (offset + length ids * 4) raw ≡ post)
unfolding read_ack_ids
read_ack_ids-put raw post [] offset h e =
    (refl, (let z : offset + 0 * 4 ≡ offset = omega arith in rw z e))
read_ack_ids-put {E} raw post (id ∷ ids) offset (hid, hids) e =
    let next : drop (offset + 4) raw ≡ put_ack_ids ids ++ post =
      sym (drop-drop 4 offset raw) ∙ ap (drop 4) e in
    let (read, behind) = read_ack_ids-put {E = E} raw post ids (offset + 4) hids next in
    let end : offset + suc (length ids) * 4 ≡ offset + 4 + length ids * 4 = omega arith in
    let front : uint32 {E = E} (drop offset raw) ≡ ok id =
      rw e (uint32-put id (put_ack_ids ids ++ post) hid) in
    (rw (front, read), rw end behind)

pub length-put_ack_ids : (ids : List ℕ) → length (put_ack_ids ids) ≡ length ids * 4
length-put_ack_ids [] = refl
length-put_ack_ids (id ∷ ids) = omega (arith, length-put_ack_ids ids)

-- With `n` words at hand the loop reads them all.
pub read_ack_ids_total {κ} :
    {E : Type κ} (raw : Bytes) (offset n : ℕ)
    → offset + n * 4 ≤ length raw
    → (ids : List ℕ) × (read_ack_ids {E = E} raw offset n ≡ ok ids) × (length ids ≡ n)
unfolding read_ack_ids
read_ack_ids_total raw offset zero h = ([], refl, refl)
read_ack_ids_total {E} raw offset (suc n) h =
    let (id, e) = uint32_total {E = E} (drop offset raw) (omega (arith, length-drop offset raw)) in
    let (ids, es, l) = read_ack_ids_total {E = E} raw (offset + 4) n (omega arith) in
    (id ∷ ids, rw (e, es), ap suc l)

-- The ACK array of the wire format: its length, the words, and the remote session ID if there are any.
abbrev pub ack_array : Bytes → List ℕ → Bytes
ack_array remote [] = 0 ∷ []
ack_array remote (id ∷ ids) = length (id ∷ ids) ∷ (put_ack_ids (id ∷ ids) ++ remote)

parse_ack_array_lem :
    (raw remote rest : Bytes) (ids : List ℕ)
    → length remote ≡ 8
    → All IsU32 ids
    → drop 9 raw ≡ ack_array remote ids ++ rest
    → (offset : ℕ) × (parse_ack_array raw 10 (length ids) ≡ ok (ids, offset))
      × (drop offset raw ≡ rest)
unfolding parse_ack_array
parse_ack_array_lem raw remote rest [] hr hs e = (10, refl, sym (drop-drop 1 9 raw) ∙ ap (drop 1) e)
parse_ack_array_lem raw remote rest (id ∷ ids) hr hs e =
    let all : List ℕ = id ∷ ids in
    let words : drop 10 raw ≡ put_ack_ids all ++ (remote ++ rest) =
      sym (drop-drop 1 9 raw) ∙ ap (drop 1) e ∙ append_assoc (put_ack_ids all) remote rest in
    let (read, behind) = read_ack_ids-put {E = Error} raw (remote ++ rest) all 10 hs words in
    let fits : ltb (length raw) (10 + length all * 4 + 8) ≡ false = le→ltb _ _ (
      omega (
        arith,
        length-drop 10 raw,
        ap length words,
        length-append (put_ack_ids all) (remote ++ rest),
        length-append remote rest,
        length-put_ack_ids all,
      )) in
    (
      10 + length all * 4 + 8,
      ground (arith, fits, read),
      sym (drop-drop 8 (10 + length all * 4) raw)
          ∙ ap (drop 8) behind
          ∙ drop-append 8 remote rest hr,
    )

-- What stands behind the ACK array: the packet ID and the payload.
parse_tail_lem :
    (raw payload : Bytes) (p : Packet) (id offset : ℕ)
    → p.opcode ≢ p_ack_v1
    → IsU32 id
    → drop offset raw ≡ put_uint32 id ++ payload
    → parse_tail raw p offset ≡ ok (record p { packet_id = id; payload = payload })
unfolding parse_tail
parse_tail_lem raw payload p id offset ho hid e =
    let front : uint32 {E = Error} (drop offset raw) ≡ ok id = rw e (uint32-put id payload hid) in
    let behind : drop (offset + 4) raw ≡ payload = sym (drop-drop 4 offset raw) ∙ ap (drop 4) e in
    ground (arith, front, behind, length-drop offset raw, ap length e)

-- The first byte, the session ID, the ACK array, and what follows.
abbrev pub control_bytes : ℕ → Bytes → Bytes → List ℕ → Bytes → Bytes
control_bytes first sid remote ids rest = first ∷ (sid ++ (ack_array remote ids ++ rest))

behind_sid : (first : ℕ) (sid rest : Bytes) → length sid ≡ 8 → drop 9 (first ∷ (sid ++ rest)) ≡ rest
behind_sid first sid rest h = drop-append 8 sid rest h

-- The byte behind the session ID counts the acknowledged IDs.
ack_length :
    (raw remote rest : Bytes) (ids : List ℕ)
    → drop 9 raw ≡ ack_array remote ids ++ rest
    → (get_elem? raw 9 ≡ some (length ids)) × (9 < length raw)
ack_length raw remote rest [] e = get_elem?-drop 9 raw e
ack_length raw remote rest (id ∷ ids) e = get_elem?-drop 9 raw e

-- `ParseControl` reads back the fields of every packet laid out as the wire format says, the eight-byte
-- session IDs skipped: the two halves of the first byte, up to any number of 32-bit acknowledged IDs,
-- and, unless the packet is a bare ACK, the 32-bit packet ID and the payload.
pub parse_control_fields :
    (first id : ℕ) (sid remote payload : Bytes) (ids : List ℕ)
    → length sid ≡ 8
    → length remote ≡ 8
    → All IsU32 ids
    → IsU32 id
    → opcode_from_byte first ≢ p_ack_v1
    → parse_control (control_bytes first sid remote ids (put_uint32 id ++ payload))
      ≡ ok (record {
        opcode = opcode_from_byte first;
        key_id = key_id_from_byte first;
        peer_id = 0;
        packet_id = id;
        ack_ids = ids;
        payload = payload;
      })
unfolding parse_control
parse_control_fields first id sid remote payload ids hs hr hids hid ho =
    let raw : Bytes = control_bytes first sid remote ids (put_uint32 id ++ payload) in
    let rest : Bytes = put_uint32 id ++ payload in
    let behind : drop 9 raw ≡ ack_array remote ids ++ rest =
      behind_sid first sid (ack_array remote ids ++ rest) hs in
    let (count, long) = ack_length raw remote rest ids behind in
    let (offset, acks, tail) = parse_ack_array_lem raw remote rest ids hr hids behind in
    rw (le→ltb (length raw) 10 (omega arith)) (
      ground (
        arith,
        count,
        acks,
        parse_tail_lem raw payload
            (record {
              opcode = opcode_from_byte first;
              key_id = key_id_from_byte first;
              peer_id = 0;
              packet_id = 0;
              ack_ids = ids;
              payload = [];
            })
            id offset ho hid tail,
      ))

parse_ack_array-ne-panic :
    (raw : Bytes) (n : ℕ) → 10 ≤ length raw → parse_ack_array raw 10 n ≢ panic
unfolding parse_ack_array
parse_ack_array-ne-panic raw n h = elim (Bool-cases (ltb (length raw) (10 + n * 4 + 8))) [
  | inl short ↦ ground (arith, short)
  | inr long ↦
      let (ids, e, _) =
        read_ack_ids_total {E = Error} raw 10 n (omega (arith, ltb_false→le _ _ long)) in
      ground (arith, long, e)
]

parse_tail-ne-panic : (raw : Bytes) (p : Packet) (offset : ℕ) → parse_tail raw p offset ≢ panic
unfolding parse_tail
parse_tail-ne-panic raw p offset = elim (Bool-cases (ltb (length raw) (offset + 4))) [
  | inl short ↦ ground (arith, short)
  | inr long ↦
      let fits = ltb_false→le _ _ long in
      let (id, e) =
        uint32_total {E = Error} (drop offset raw) (omega (arith, length-drop offset raw)) in
      ground (arith, long, e)
]

-- No input, of any length and content, makes `ParseControl` index or slice out of range.
pub parse_control-ne-panic : (raw : Bytes) → parse_control raw ≢ panic
unfolding parse_control
parse_control-ne-panic raw = elim (Bool-cases (ltb (length raw) 10)) [
  | inl short ↦ rw short (λ e. cc)
  | inr long ↦
      let fits = ltb_false→le _ _ long in
      let (first, e₀) = get_elem?_total raw 0 (omega arith) in
      let (n, e₉) = get_elem?_total raw 9 (omega arith) in
      rw (long, index, e₀, e₉)
        (>>=-ne-panic (parse_ack_array raw 10 n) _ (parse_ack_array-ne-panic raw n fits)
          (λ (_, offset). parse_tail-ne-panic raw _ offset))
]

-- The words read do not depend on the type of errors.
pub read_ack_ids-any_error {κ ι} :
    {E : Type κ} {F : Type ι} (raw : Bytes) (offset n : ℕ) {ids : List ℕ}
    → read_ack_ids {E = E} raw offset n ≡ ok ids
    → read_ack_ids {E = F} raw offset n ≡ ok ids
unfolding read_ack_ids
read_ack_ids-any_error raw offset zero e = ground arith
read_ack_ids-any_error {E} {F} raw offset (suc n) e =
    let (id, word, e') = >>=-eq-ok (uint32 {E = E} (drop offset raw)) _ e in
    let (ids, words, e'') = >>=-eq-ok (read_ack_ids {E = E} raw (offset + 4) n) _ e' in
    let word' : uint32 {E = F} (drop offset raw) ≡ ok id =
      uint32-any_error (drop offset raw) word in
    rw (word', read_ack_ids-any_error {E = E} {F = F} raw (offset + 4) n words)
      (ground (arith, e''))
