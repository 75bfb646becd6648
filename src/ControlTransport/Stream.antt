-- ===== src/ControlTransport/Stream.antt =====
-- The bytes that Read returns are those that InjectInbound took, in order, whatever the sizes of the
-- chunks and of the reads.
use go_openlawsvpn.Base.{
  ℕ, ◌≡◌, ◌≤◌, if◌then◌else◌, refl, sym, ap, ◌∙◌, arith, Bool, Bool-cases, inl, inr, List, [], ◌∷◌,
  ◌++◌, append_assoc, append-nil, length, take, drop, take-append-drop, ltb, ltb_false→le, Bytes,
}
use go_openlawsvpn.ControlTransport.{
  Transport, Outcome, returns, eof, waits, inject_inbound, read_chunk, read, write, drain_outbound,
  close,
}

pub data Call : Type 0 where
  injects : Bytes → Call
  reads : ℕ → Bool → Call
  writes : Bytes → Bool → Call
  drains closes : Call

-- The bytes of a call that returned.
abbrev accepted {ℓ} : {A : Type ℓ} → Bytes → Outcome A → Bytes
accepted chunk (returns _) = chunk
accepted chunk _ = []

abbrev returned : Outcome Bytes → Bytes
returned (returns b) = b
returned _ = []

-- The transport after a call, the bytes that it took in and those that it gave out.
abbrev pub step : Transport → Call → Transport × Bytes × Bytes
step t (injects chunk) = let (t', r) = inject_inbound t chunk in (t', accepted chunk r, [])
step t (reads n expired) = let (t', r) = read t n expired in (t', [], returned r)
step t (writes b expired) = ((write t b expired).0, [], [])
step t drains = ((drain_outbound t).0, [], [])
step t closes = (close t, [], [])

abbrev pub run : Transport → List Call → Transport × Bytes × Bytes
run t [] = (t, [], [])
run t (c ∷ cs) =
    let (t', taken, given) = step t c in
    let (t'', taken', given') = run t' cs in (t'', taken ++ taken', given ++ given')

abbrev joined : List Bytes → Bytes
joined [] = []
joined (chunk ∷ chunks) = chunk ++ joined chunks

-- The bytes taken in and not yet read.
abbrev pub pending : Transport → Bytes
pending t = t.read_buf ++ joined t.inbound

joined-append : (xs : List Bytes) (chunk : Bytes) → joined (xs ++ (chunk ∷ [])) ≡ joined xs ++ chunk
joined-append [] chunk = append-nil chunk
joined-append (x ∷ xs) chunk =
    ap (λ b. x ++ b) (joined-append xs chunk) ∙ sym (append_assoc x (joined xs) chunk)

empty : (b : Bytes) → length b ≤ 0 → b ≡ []
empty [] h = refl
empty (x ∷ b) h = absurd (omega arith)

chunk_read :
    (t : Transport) (n : ℕ) (chunks : List Bytes)
    → t.inbound ≡ chunks
    → t.read_buf ≡ []
    → let (t', r) = read_chunk t n chunks in returned r ++ pending t' ≡ pending t ++ []
unfolding read_chunk
chunk_read t n [] e none_left = elim (Bool-cases t.closed) [
  | inl shut ↦ rw shut (sym (append-nil (pending t)))
  | inr open' ↦ rw open' (sym (append-nil (pending t)))
]
chunk_read t n (chunk ∷ rest) e none_left =
    let all : pending t ≡ chunk ++ joined rest = rw (e, none_left) refl in
    sym (append_assoc (take n chunk) (drop n chunk) (joined rest))
    ∙ ap (λ b. b ++ joined rest) (take-append-drop n chunk)
    ∙ sym all
    ∙ sym (append-nil (pending t))

drain_kept : (t : Transport) → pending (drain_outbound t).0 ≡ pending t
unfolding drain_outbound
drain_kept t = go t.outbound
  where
    go :
        (chunks : List Bytes)
        → pending
            (elim chunks as (λ _. Transport × Outcome Bytes) [
              | [] ↦ (t, if t.closed then eof else waits)
              | chunk ∷ rest ↦ (record t { outbound = rest }, returns chunk)
            ]).0
          ≡ pending t
    go [] = refl
    go (chunk ∷ rest) = refl

step-pending :
    (t : Transport) (c : Call)
    → let (t', taken, given) = step t c in given ++ pending t' ≡ pending t ++ taken
unfolding inject_inbound read write drain_outbound close
step-pending t (injects chunk) = elim (Bool-cases t.closed) [
  | inl shut ↦ rw shut (sym (append-nil (pending t)))
  | inr open' ↦ elim (Bool-cases (ltb (length t.inbound) t.capacity)) [
    | inl room ↦
        rw (open', room)
          (ap (λ b. t.read_buf ++ b) (joined-append t.inbound chunk)
            ∙ sym (append_assoc t.read_buf (joined t.inbound) chunk))
    | inr full ↦ rw (open', full) (sym (append-nil (pending t)))
  ]
]
step-pending t (reads n expired) = elim (Bool-cases (ltb 0 (length t.read_buf))) [
  | inl left ↦ rw left (
      sym (append_assoc (take n t.read_buf) (drop n t.read_buf) (joined t.inbound))
      ∙ ap (λ b. b ++ joined t.inbound) (take-append-drop n t.read_buf)
      ∙ sym (append-nil (pending t)))
  | inr none_left ↦ elim (Bool-cases expired) [
    | inl late ↦ rw (none_left, late) (sym (append-nil (pending t)))
    | inr early ↦
        rw (none_left, early)
          (chunk_read t n t.inbound refl (empty t.read_buf (ltb_false→le _ _ none_left)))
  ]
]
step-pending t (writes b expired) =
    let kept : pending (write t b expired).0 ≡ pending t = ground arith in
    kept ∙ sym (append-nil (pending t))
step-pending t drains =
    let kept : pending (drain_outbound t).0 ≡ pending t = drain_kept t in
    kept ∙ sym (append-nil (pending t))
step-pending t closes = sym (append-nil (pending t))

-- From any state on, what the reads of a sequence of calls return, followed by what is then pending, is
-- what was pending, followed by what was injected: no byte is lost, repeated or reordered.
run-pending :
    (t : Transport) (calls : List Call)
    → let (t', taken, given) = run t calls in given ++ pending t' ≡ pending t ++ taken
run-pending t [] = sym (append-nil (pending t))
run-pending t (c ∷ cs) =
    let (t', taken, given) = step t c in
    let (t'', taken', given') = run t' cs in
    append_assoc given given' (pending t'')
    ∙ ap (λ b. given ++ b) (run-pending t' cs)
    ∙ sym (append_assoc given (pending t') taken')
    ∙ ap (λ b. b ++ taken') (step-pending t c)
    ∙ append_assoc (pending t) taken taken'
