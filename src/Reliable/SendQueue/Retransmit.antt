-- ===== src/Reliable/SendQueue/Retransmit.antt =====
-- Retransmission: which entries DueForRetransmit returns, and its back-off.
use native.Mathlib.Nat.{pow-suc}
use go_openlawsvpn.Base.{
  ℕ, zero, suc, ◌+◌, ◌-◌, ◌*◌, ◌%◌, ◌^◌, ◌≤◌, ◌<◌, ◌≡◌, refl, ap, arith, Bool, true, false, inl,
  inr, min, Bool-cases, List, [], ◌∷◌, map, ◌==◌, ==_iff, if◌then◌else◌, All, leb, ℤ, pos, negsuc,
  +ℤ_parts, lt_ℤ, lt→ltb, le→ltb, ltb→lt,
}
use go_openlawsvpn.Base.Bits.{check_table, check_table_sound}
use go_openlawsvpn.Reliable.SendQueue.{
  Entry, SendQueue, second, retransmit_timeout, backoff, is_due, retransmitted, retransmit_loop,
  due_for_retransmit,
}

-- The documented back-off: 2 s times 2 ^ retries, at most 30 s.
abbrev pub capped : ℕ → ℕ
capped retries = min (retransmit_timeout * 2 ^ retries) (30 * second)

is_pos : ℤ → ℕ → Bool
is_pos (pos m) n = m == n
is_pos (negsuc m) n = false

is_pos→eq : (z : ℤ) (n : ℕ) → is_pos z n ≡ true → z ≡ pos n
unfolding is_pos
is_pos→eq (pos m) n h = ap pos ((==_iff m n).0 h)
is_pos→eq (negsuc m) n h = cc

backoff_table : (r : ℕ) → r < 33 → is_pos (backoff r) (capped r) ≡ true
unfolding check_table is_pos backoff
backoff_table r h = check_table_sound (λ r. is_pos (backoff r) (capped r)) 33 refl r h

-- Up to the 32nd retry the back-off is the documented one.
backoff-capped : (r : ℕ) → r ≤ 32 → backoff r ≡ pos (capped r)
backoff-capped r h = is_pos→eq (backoff r) (capped r) (backoff_table r (omega arith))

pow_54 : (k : ℕ) → 2 ^ (54 + k) ≡ 2 ^ 54 * 2 ^ k
pow_54 zero = refl
pow_54 (suc k) =
    let s : 54 + suc k ≡ suc (54 + k) = omega arith in
    rw s (omega (arith, pow-suc 2 (54 + k), pow-suc 2 k, pow_54 k))

-- From the 54th retry on the product is a multiple of 2^64.
backoff_vanishes : (k : ℕ) → backoff (54 + k) ≡ pos 0
unfolding backoff
backoff_vanishes k =
    let zeros : retransmit_timeout * 2 ^ (54 + k) % 2 ^ 64 ≡ 0 = omega (arith, pow_54 k) in
    rw (zeros)

-- An entry that is retransmitted for the 54th time or later is due again at every later call, however
-- soon: its back-off has overflowed to zero.
retransmitted_overflow :
    (now later : ℤ) (e : Entry)
    → 53 ≤ e.retries
    → lt_ℤ now later ≡ true
    → is_due later (retransmitted now e) ≡ true
unfolding retransmitted
retransmitted_overflow now later e h lt =
    let shift : e.retries + 1 ≡ 54 + (e.retries - 53) = omega arith in
    rw (shift, backoff_vanishes (e.retries - 53))
      (lt→ltb _ _ (omega (arith, +ℤ_parts now (pos 0), ltb→lt _ _ lt)))

capped_pos : (r : ℕ) → r < 33 → leb 1 (capped r) ≡ true
unfolding check_table
capped_pos r h = check_table_sound (λ r. leb 1 (capped r)) 33 refl r h

-- Just retransmitted, and not due at the same time again.
not_due_again : (now : ℤ) (e : Entry) → e.retries < 32 → is_due now (retransmitted now e) ≡ false
unfolding retransmitted
not_due_again now e h =
    let r : ℕ = e.retries + 1 in
    let positive = capped_pos r (omega arith) in
    rw (backoff-capped r (omega arith)) (le→ltb _ _ (omega (arith, +ℤ_parts now (pos (capped r)))))

-- The entries whose deadline has passed.
abbrev pub due_entries : ℤ → List Entry → List Entry
due_entries now [] = []
due_entries now (e ∷ es) = if is_due now e then e ∷ due_entries now es else due_entries now es

retransmit_loop-due :
    (now : ℤ) (es : List Entry)
    → (retransmit_loop now es).1 ≡ map (retransmitted now) (due_entries now es)
unfolding retransmit_loop
retransmit_loop-due now [] = refl
retransmit_loop-due now (e ∷ es) = ground (arith, retransmit_loop-due now es)

due_once_loop :
    (now : ℤ) (es : List Entry)
    → All (λ e. e.retries < 32) es
    → retransmit_loop now (retransmit_loop now es).0 ≡ ((retransmit_loop now es).0, [])
unfolding retransmit_loop
due_once_loop now [] h = refl
due_once_loop now (e ∷ es) (he, hes) = elim (Bool-cases (is_due now e)) [
  | inl due ↦ ground (arith, due, not_due_again now e he, due_once_loop now es hes)
  | inr not_due ↦ ground (arith, not_due, due_once_loop now es hes)
]

-- `DueForRetransmit` returns exactly the entries whose deadline has passed, in order, each with its
-- retries and deadline updated. As long as no entry has been retried 32 times, a second call at the same
-- time returns nothing and changes nothing.
due_for_retransmit_once :
    (q : SendQueue) (now : ℤ)
    → All (λ e. e.retries < 32) q.entries
    → let (q', due) = due_for_retransmit q now in
      (due ≡ map (retransmitted now) (due_entries now q.entries))
      × (due_for_retransmit q' now ≡ (q', []))
unfolding due_for_retransmit
due_for_retransmit_once q now h =
    (retransmit_loop-due now q.entries, rw (due_once_loop now q.entries h))
