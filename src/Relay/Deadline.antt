-- ===== src/Relay/Deadline.antt =====
-- The read deadline, and the end of the loop.
use Prim.Native.Nat.{bit_and}
use go_openlawsvpn.Base.{
  ℕ, zero, suc, ◌≤◌, ◌≡◌, refl, ap, arith, Bool, true, false, not, List, [], ◌∷◌, length, ◌==◌,
  if◌then◌else◌, none, Result, ok, err, panic, ◌>>=◌, Bytes,
}
use go_openlawsvpn.Relay.{
  Input, arrives, deadline, Error, read_length, read_payload, read_mask_key, Fill, got, timed_out,
  ended, cons_fill, read_full, need, Frame, payload_length, read_mask, read_body, on_frame,
  behind_action, Action, deliver, keep, pong, close, with_pong, Received, round, read_loop,
  read_message,
}

-- What is left to read is no longer than `n`.
abbrev Leaves : ℕ → Fill → Type 0
Leaves n (got _ rest) = length rest ≤ n
Leaves n (timed_out rest) = length rest ≤ n
Leaves n ended = Unit {0}

unfoldable LeavesOk {ℓ} : {A : Type ℓ} → ℕ → Result Error (A × List Input) → Type 0
LeavesOk n (ok (_, rest)) = length rest ≤ n
LeavesOk n _ = Unit {0}

LeavesOk-ok {ℓ} :
    {A : Type ℓ} (n : ℕ) (a : A) (rest : List Input) → length rest ≤ n → LeavesOk n (ok (a, rest))
unfolding LeavesOk
LeavesOk-ok n a rest h = h

cons_fill-Leaves : (n b : ℕ) (f : Fill) → Leaves n f → Leaves n (cons_fill b f)
cons_fill-Leaves n b (got _ rest) h = h
cons_fill-Leaves n b (timed_out rest) h = h
cons_fill-Leaves n b ended h = h

Leaves-suc : (n : ℕ) (f : Fill) → Leaves n f → Leaves (suc n) f
Leaves-suc n (got _ rest) h = omega (arith, h)
Leaves-suc n (timed_out rest) h = omega (arith, h)
Leaves-suc n ended h = tt

read_full-Leaves : (n : ℕ) (rdr : List Input) → Leaves (length rdr) (read_full n rdr)
unfolding read_full
read_full-Leaves zero rdr = omega arith
read_full-Leaves (suc n) [] = tt
read_full-Leaves (suc n) (deadline ∷ rdr) = omega arith
read_full-Leaves (suc n) (arrives b ∷ rdr) =
    Leaves-suc (length rdr) (cons_fill b (read_full n rdr))
      (cons_fill-Leaves (length rdr) b (read_full n rdr) (read_full-Leaves n rdr))

-- Reading `k` bytes from what is left.
read_LeavesOk :
    (n k : ℕ) (rdr : List Input) (e : Error)
    → length rdr ≤ n
    → LeavesOk n (need (read_full k rdr) e)
unfolding LeavesOk
read_LeavesOk n k rdr e h = weaker (read_full k rdr) (read_full-Leaves k rdr)
  where
    weaker : (f : Fill) → Leaves (length rdr) f → LeavesOk n (need f e)
    weaker (got _ rest) l = omega (arith, l, h)
    weaker (timed_out rest) l = tt
    weaker ended l = tt

>>=-LeavesOk {ℓ κ} :
    {A : Type ℓ} {B : Type κ} (n : ℕ) (m : Result Error (A × List Input))
    (next : A × List Input → Result Error (B × List Input))
    → LeavesOk n m
    → ((r : A × List Input) → length r.1 ≤ n → LeavesOk n (next r))
    → LeavesOk n (m >>= next)
unfolding LeavesOk
>>=-LeavesOk n (ok (a, rest)) next h k = k (a, rest) h
>>=-LeavesOk n (err e) next h k = tt
>>=-LeavesOk n panic next h k = tt

LeavesOk-if {ℓ} :
    {A : Type ℓ} (n : ℕ) (b : Bool) (x y : Result Error (A × List Input))
    → LeavesOk n x
    → LeavesOk n y
    → LeavesOk n (if b then x else y)
LeavesOk-if n true x y h k = h
LeavesOk-if n false x y h k = k

payload_length-LeavesOk :
    (n len : ℕ) (rdr : List Input) → length rdr ≤ n → LeavesOk n (payload_length len rdr)
unfolding payload_length
payload_length-LeavesOk n len rdr h =
    LeavesOk-if n (len == 126) _ _
      (>>=-LeavesOk n _ _ (read_LeavesOk n 2 rdr read_length h) (λ r k. LeavesOk-ok n _ r.1 k))
      (LeavesOk-if n (len == 127) _ _
        (>>=-LeavesOk n _ _ (read_LeavesOk n 8 rdr read_length h) (λ r k. LeavesOk-ok n _ r.1 k))
        (LeavesOk-ok n len rdr h))

read_mask-LeavesOk :
    (n : ℕ) (masked : Bool) (rdr : List Input) → length rdr ≤ n → LeavesOk n (read_mask masked rdr)
unfolding read_mask
read_mask-LeavesOk n false rdr h = LeavesOk-ok n none rdr h
read_mask-LeavesOk n true rdr h =
    >>=-LeavesOk n _ _ (read_LeavesOk n 4 rdr read_mask_key h) (λ r k. LeavesOk-ok n _ r.1 k)

read_body-LeavesOk :
    (n h0 h1 : ℕ) (rdr : List Input) → length rdr ≤ n → LeavesOk n (read_body h0 h1 rdr)
unfolding read_body
read_body-LeavesOk n h0 h1 rdr h =
    >>=-LeavesOk n _ _ (payload_length-LeavesOk n (bit_and h1 0x7F) rdr h) (λ len k.
      >>=-LeavesOk n _ _ (read_mask-LeavesOk n (not (bit_and h1 0x80 == 0)) len.1 k) (λ key k'.
        >>=-LeavesOk n _ _ (read_LeavesOk n len.0 key.1 read_payload k')
          (λ body k''. LeavesOk-ok n _ body.1 k'')))

-- Two ways to go on that agree on what may be left.
abbrev Agree : ℕ → (Bytes → List Input → Received) → (Bytes → List Input → Received) → Type 0
Agree n again again' =
    (msg : Bytes) (rest : List Input) → length rest ≤ n → again msg rest ≡ again' msg rest

behind_action-Agree :
    (n : ℕ) (a : Action) (msg : Bytes) (rest : List Input)
    (again again' : Bytes → List Input → Received)
    → length rest ≤ n
    → Agree n again again'
    → behind_action a msg rest again ≡ behind_action a msg rest again'
behind_action-Agree n (deliver m) msg rest again again' h same = refl
behind_action-Agree n (keep m) msg rest again again' h same = same m rest h
behind_action-Agree n (pong p) msg rest again again' h same = ap (with_pong p) (same msg rest h)
behind_action-Agree n close msg rest again again' h same = refl

round-Agree :
    (n : ℕ) (f : Fill) (msg : Bytes) (again again' : Bytes → List Input → Received)
    → Leaves n f
    → Agree n again again'
    → round f msg again ≡ round f msg again'
unfolding LeavesOk
round-Agree n (timed_out rest) msg again again' h same = same msg rest h
round-Agree n ended msg again again' h same = refl
round-Agree n (got [] rest) msg again again' h same = refl
round-Agree n (got (h0 ∷ []) rest) msg again again' h same = refl
round-Agree n (got (h0 ∷ h1 ∷ x ∷ more) rest) msg again again' h same = refl
round-Agree n (got (h0 ∷ h1 ∷ []) rest) msg again again' h same =
    body (read_body h0 h1 rest) (read_body-LeavesOk n h0 h1 rest h)
  where
    body :
        (r : Result Error (Frame × List Input))
        → LeavesOk n r
        → (r >>= λ x. behind_action (on_frame x.0 msg) msg x.1 again)
          ≡ (r >>= λ x. behind_action (on_frame x.0 msg) msg x.1 again')
    body (ok (f, rest')) l = behind_action-Agree n (on_frame f msg) msg rest' again again' l same
    body (err e) l = refl
    body panic l = refl

-- A round takes an input.
read_full_two-Leaves : (i : Input) (rdr : List Input) → Leaves (length rdr) (read_full 2 (i ∷ rdr))
unfolding read_full
read_full_two-Leaves deadline rdr = omega arith
read_full_two-Leaves (arrives b) rdr =
    cons_fill-Leaves (length rdr) b (read_full 1 rdr) (read_full-Leaves 1 rdr)

-- As much fuel as there are inputs is enough: with any two such amounts of fuel the loop of readMessage
-- does the same, so that it ends by a message, an error or a closed connection.
read_loop-enough :
    (fuel fuel' : ℕ) (msg : Bytes) (rdr : List Input)
    → length rdr ≤ fuel
    → length rdr ≤ fuel'
    → read_loop fuel msg rdr ≡ read_loop fuel' msg rdr
unfolding read_loop read_full
read_loop-enough zero zero msg rdr h h' = refl
read_loop-enough zero (suc fuel') msg [] h h' = refl
read_loop-enough zero (suc fuel') msg (i ∷ rdr) h h' = absurd (omega (arith, h))
read_loop-enough (suc fuel) zero msg [] h h' = refl
read_loop-enough (suc fuel) zero msg (i ∷ rdr) h h' = absurd (omega (arith, h'))
read_loop-enough (suc fuel) (suc fuel') msg [] h h' = refl
read_loop-enough (suc fuel) (suc fuel') msg (i ∷ rdr) h h' =
    round-Agree (length rdr) (read_full 2 (i ∷ rdr)) msg (λ m rest. read_loop fuel m rest)
      (λ m rest. read_loop fuel' m rest) (read_full_two-Leaves i rdr)
      (λ m rest l. read_loop-enough fuel fuel' m rest (omega (arith, l, h)) (omega (arith, l, h')))

-- If the read deadline passes between the two bytes of a header, the first one is lost: readMessage goes
-- on as if it had never arrived, with the second one as the first of the next header.
pub read_message_loses :
    (b : ℕ) (rdr : List Input) → read_message (arrives b ∷ deadline ∷ rdr) ≡ read_message rdr
unfolding read_message read_loop read_full
read_message_loses b rdr =
    read_loop-enough (suc (length rdr)) (length rdr) [] rdr (omega arith) (omega arith)
