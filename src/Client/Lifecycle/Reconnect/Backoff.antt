-- ===== src/Client/Lifecycle/Reconnect/Backoff.antt =====
-- Reconnect of client.go: how long it waits, and how often it tries.
use go_openlawsvpn.Base.{
  ℕ, zero, suc, ◌+◌, ◌≤◌, ◌<◌, ◌≡◌, ◌||◌, refl, ap, arith, Bool, true, false, List, [], ◌∷◌, length,
  if◌then◌else◌, Option, Bytes,
}
use go_openlawsvpn.Client.Lifecycle.{Client, clear_credentials, set_disconnected, other_reason}
use go_openlawsvpn.Client.Lifecycle.Reconnect.{
  Attempt, Reply, Outcome, Moment, waited, used, Trace, uses, with_wait, stop, restart, token_valid,
  Cached, cached_of, prepared, on_reply, next_backoff, with_use, is_over, attempt, reconnect_loop,
  session_is_over, reconnect,
}

-- The waits of the doc comment: 5 s, 10 s, 20 s, and 30 s from then on.
pub nth_wait : ℕ → ℕ
nth_wait zero = 5
nth_wait (suc zero) = 10
nth_wait (suc (suc zero)) = 20
nth_wait (suc (suc (suc n))) = 30

next_backoff-nth_wait : (k : ℕ) → next_backoff (nth_wait k) ≡ nth_wait (suc k)
unfolding nth_wait
next_backoff-nth_wait zero = refl
next_backoff-nth_wait (suc zero) = refl
next_backoff-nth_wait (suc (suc zero)) = refl
next_backoff-nth_wait (suc (suc (suc n))) = refl

-- Behind an attempt, with `k` waits before it: each wait is the next one of the schedule, and one attempt
-- follows it, if Reconnect does not end there because the token is too old.
abbrev pub Gaps : Outcome → ℕ → List Moment → Type 0
Gaps o k [] = Unit {0}
Gaps o k (waited b ∷ []) = (b ≡ nth_wait k) × (o ≡ Outcome.reauth_required)
Gaps o k (waited b ∷ (used now ∷ log)) = (b ≡ nth_wait k) × Gaps o (suc k) log
Gaps o k _ = ⊥

-- The first attempt comes without a wait.
abbrev pub IsSchedule : Outcome → List Moment → Type 0
IsSchedule o [] = Unit {0}
IsSchedule o (used now ∷ log) = Gaps o 0 log
IsSchedule o (waited b ∷ log) = ⊥

abbrev pub times : List Attempt → List ℕ
times [] = []
times (a ∷ attempts) = a.now ∷ times attempts

-- While the loop goes on, it has made every attempt.
abbrev AllMade : List Attempt → Trace → Type 0
AllMade attempts t = t.outcome ≡ Outcome.pending → uses t.log ≡ times attempts

abbrev Goes : List Attempt → ℕ → Trace → Type 0
Goes attempts k t = Gaps t.outcome k t.log × AllMade attempts t

abbrev Starts : List Attempt → Trace → Type 0
Starts attempts t = IsSchedule t.outcome t.log × AllMade attempts t

either : (P : Trace → Type 0) (b : Bool) (x y : Trace) → P x → P y → P (if b then x else y)
either P true x y h l = h
either P false x y h l = l

on_reply-Goes :
    (attempts : List Attempt) (r : Reply) (rest : Client → Trace) (k : ℕ) (c : Client)
    → ((c' : Client) → Goes attempts k (rest c'))
    → Goes attempts k (on_reply r rest c)
unfolding on_reply
on_reply-Goes attempts Reply.accepted rest k c h = (tt, (λ e. cc))
on_reply-Goes attempts Reply.rejected rest k c h = (tt, (λ e. cc))
on_reply-Goes attempts Reply.broken rest k c h = h (set_disconnected other_reason c)

module _ (bound : ℕ) (cached : Cached) (token_expiry : Option ℕ) where
  -- An attempt behind its wait.
  attempt-Goes :
      (attempts : List Attempt) (a : Attempt) (rest : Client → Trace) (k b : ℕ) (c : Client)
      → b ≡ nth_wait k
      → ((c' : Client) → Goes attempts (suc k) (rest c'))
      → Goes (a ∷ attempts) k (with_wait b (attempt bound cached token_expiry a rest c))
  unfolding attempt
  attempt-Goes attempts a rest k b c e h =
      let next = prepared cached token_expiry (restart true c) in
      let goes = on_reply-Goes attempts a.reply rest (suc k) next h in
      either (λ t. Goes (a ∷ attempts) k (with_wait b t))
        (token_valid cached.token cached.state_id cached.ip cached.expiry a.now)
        (with_use a.now (on_reply a.reply rest next))
        (stop Outcome.reauth_required (restart true c))
        ((e, goes.0), (λ p. ap (λ l. a.now ∷ l) (goes.1 p))) ((e, refl), (λ p. cc))

  -- The first attempt.
  attempt-Starts :
      (attempts : List Attempt) (a : Attempt) (rest : Client → Trace) (c : Client)
      → ((c' : Client) → Goes attempts 0 (rest c'))
      → Starts (a ∷ attempts) (attempt bound cached token_expiry a rest c)
  unfolding attempt
  attempt-Starts attempts a rest c h =
      let next = prepared cached token_expiry (restart true c) in
      let goes = on_reply-Goes attempts a.reply rest 0 next h in
      either (Starts (a ∷ attempts))
        (token_valid cached.token cached.state_id cached.ip cached.expiry a.now)
        (with_use a.now (on_reply a.reply rest next))
        (stop Outcome.reauth_required (restart true c))
        (goes.0, (λ p. ap (λ l. a.now ∷ l) (goes.1 p))) (tt, (λ p. cc))

  loop-Goes :
      (attempts : List Attempt) (n k b : ℕ) (failed : Bool) (c : Client)
      → b ≡ nth_wait k
      → Goes attempts k (reconnect_loop bound cached token_expiry attempts (suc n) b failed c)
  unfolding reconnect_loop
  loop-Goes [] n k b failed c h =
      either (Goes [] k) (is_over bound cached token_expiry (suc n))
        (stop (Outcome.exceeded failed) c) (stop Outcome.pending c) (tt, (λ e. refl))
        (tt, (λ e. refl))
  loop-Goes (a ∷ attempts) n k b failed c h =
      let e : next_backoff b ≡ nth_wait (suc k) = rw h (next_backoff-nth_wait k) in
      either (Goes (a ∷ attempts) k) (is_over bound cached token_expiry (suc n))
        (stop (Outcome.exceeded failed) c) _ (tt, (λ p. cc))
        (either (Goes (a ∷ attempts) k) a.context_done (stop Outcome.cancelled c) _ (tt, (λ p. cc))
          (attempt-Goes attempts a _ k b c h
            (λ c'. loop-Goes attempts (suc n) (suc k) (next_backoff b) true c' e)))

  loop-Starts :
      (attempts : List Attempt) (failed : Bool) (c : Client)
      → Starts attempts (reconnect_loop bound cached token_expiry attempts 0 5 failed c)
  unfolding reconnect_loop nth_wait
  loop-Starts [] failed c =
      either (Starts []) (is_over bound cached token_expiry 0) (stop (Outcome.exceeded failed) c)
        (stop Outcome.pending c) (tt, (λ e. refl)) (tt, (λ e. refl))
  loop-Starts (a ∷ attempts) failed c =
      either (Starts (a ∷ attempts)) (is_over bound cached token_expiry 0)
        (stop (Outcome.exceeded failed) c) _ (tt, (λ p. cc))
        (attempt-Starts attempts a _ c (λ c'. loop-Goes attempts 0 0 5 true c' refl))

-- Whatever the attempts meet, Reconnect makes the first attempt without a wait, and waits once before each
-- further one, 5, 10, 20 and then always 30 seconds; a wait without an attempt behind it is the last thing
-- before it asks for a new login. While its loop goes on, it has made every attempt.
pub reconnect-IsSchedule :
    (max_reconnects : ℕ) (token_expiry : Bytes → Option ℕ) (attempts : List Attempt) (c : Client)
    → IsSchedule
        (reconnect max_reconnects token_expiry attempts c).outcome
        (reconnect max_reconnects token_expiry attempts c).log
      × ((reconnect max_reconnects token_expiry attempts c).outcome ≡ Outcome.pending
          → uses (reconnect max_reconnects token_expiry attempts c).log ≡ times attempts)
unfolding reconnect
reconnect-IsSchedule max_reconnects token_expiry attempts c =
    either (Starts attempts) (c.reauth_required || session_is_over c.done_err)
      (stop Outcome.reauth_required (restart false (clear_credentials c))) _ (tt, (λ p. cc))
      (loop-Starts max_reconnects (cached_of c) (token_expiry c.cached_token) attempts false c)

-- How many attempts a loop that starts at attempt `n` can still make.
abbrev Within : ℕ → ℕ → Trace → Type 0
Within bound n t = 0 < bound → n + length (uses t.log) ≤ bound

Within-if :
    (b : Bool) (x y : Trace) (bound n : ℕ)
    → (b ≡ true → Within bound n x)
    → (b ≡ false → Within bound n y)
    → Within bound n (if b then x else y)
Within-if true x y bound n h k = h refl
Within-if false x y bound n h k = k refl

on_reply-Within :
    (r : Reply) (rest : Client → Trace) (bound n : ℕ) (c : Client)
    → n ≤ bound
    → ((c' : Client) → Within bound n (rest c'))
    → Within bound n (on_reply r rest c)
unfolding on_reply
on_reply-Within Reply.accepted rest bound n c l h = λ p. omega arith
on_reply-Within Reply.rejected rest bound n c l h = λ p. omega arith
on_reply-Within Reply.broken rest bound n c l h = h (set_disconnected other_reason c)

module _ (bound : ℕ) (cached : Cached) (token_expiry : Option ℕ) where
  attempt-Within :
      (a : Attempt) (rest : Client → Trace) (n : ℕ) (c : Client)
      → n < bound
      → ((c' : Client) → Within bound (suc n) (rest c'))
      → Within bound n (attempt bound cached token_expiry a rest c)
  unfolding attempt
  attempt-Within a rest n c l h =
      Within-if (token_valid cached.token cached.state_id cached.ip cached.expiry a.now)
        (with_use a.now (on_reply a.reply rest (prepared cached token_expiry (restart true c))))
        (stop Outcome.reauth_required (restart true c)) bound n
        (λ _ p.
          let later =
            on_reply-Within a.reply rest bound (suc n)
              (prepared cached token_expiry (restart true c)) (omega arith) h p in
          omega (arith, later))
        (λ _ p. omega arith)

  loop-Within :
      (attempts : List Attempt) (n b : ℕ) (failed : Bool) (c : Client)
      → n ≤ bound
      → Within bound n (reconnect_loop bound cached token_expiry attempts n b failed c)
  unfolding reconnect_loop
  loop-Within [] n b failed c l =
      Within-if (is_over bound cached token_expiry n) (stop (Outcome.exceeded failed) c)
        (stop Outcome.pending c) bound n (λ _ p. omega arith) (λ _ p. omega arith)
  loop-Within (a ∷ attempts) zero b failed c l =
      Within-if (is_over bound cached token_expiry zero) (stop (Outcome.exceeded failed) c) _ bound
        0 (λ _ p. omega arith)
        (λ open_end p. attempt-Within a _ 0 c p (λ c'. loop-Within attempts 1 b true c' p) p)
  loop-Within (a ∷ attempts) (suc n) b failed c l =
      Within-if (is_over bound cached token_expiry (suc n)) (stop (Outcome.exceeded failed) c) _
        bound (suc n) (λ _ p. omega arith)
        (λ more p.
          let below : suc n < bound = ground (arith, more) in
          Within-if a.context_done (stop Outcome.cancelled c) _ bound (suc n) (λ _ q. omega arith)
            (λ _ q.
              attempt-Within a _ (suc n) c below
                (λ c'. loop-Within attempts (suc (suc n)) (next_backoff b) true c' below) q)
            p)

-- With a positive MaxReconnects, Reconnect uses the cached token that many times at most.
reconnect_bounded :
    (max_reconnects : ℕ) (token_expiry : Bytes → Option ℕ) (attempts : List Attempt) (c : Client)
    → 0 < max_reconnects
    → length (uses (reconnect max_reconnects token_expiry attempts c).log) ≤ max_reconnects
unfolding reconnect
reconnect_bounded max_reconnects token_expiry attempts c p =
    let bounded =
      Within-if (c.reauth_required || session_is_over c.done_err)
        (stop Outcome.reauth_required (restart false (clear_credentials c)))
        (reconnect_loop max_reconnects (cached_of c) (token_expiry c.cached_token) attempts 0 5
          false c)
        max_reconnects 0 (λ _ q. omega arith)
        (λ _.
          loop-Within max_reconnects (cached_of c) (token_expiry c.cached_token) attempts 0 5 false
            c (omega arith))
        p in
    omega (arith, bounded)
