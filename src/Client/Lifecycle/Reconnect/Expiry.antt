-- ===== src/Client/Lifecycle/Reconnect/Expiry.antt =====
-- Reconnect of client.go: when the cached token is used, and the client that is left.
use go_openlawsvpn.Base.{
  ℕ, zero, suc, ◌+◌, ◌<◌, ◌≡◌, ◌≢◌, refl, ap, ◌∙◌, arith, Bool, true, false, ◌||◌, List, [], ◌∷◌,
  All, if◌then◌else◌, Option, none, some, Bytes,
}
use go_openlawsvpn.Client.Lifecycle.{
  Client, Phase, clear_credentials, set_disconnected, disconnect, disconnect_from, reset,
  other_reason,
}
use go_openlawsvpn.Client.Lifecycle.Reconnect.{
  Attempt, Reply, Outcome, Trace, uses, stop, wait_for_disconnect, restart, token_valid, Cached,
  cached_of, prepared, on_reply, next_backoff, with_use, is_over, attempt, reconnect_loop,
  session_is_over, reconnect,
}

-- The token is known to be good for more than 30 seconds.
abbrev pub IsFresh : Option ℕ → ℕ → Type 0
IsFresh none now = ⊥
IsFresh (some e) now = now + 30 < e

-- The token is used only while it is fresh. On success the tunnel is up, and when the user must log in
-- again the client is as New makes it, for Connect.
abbrev pub IsSound : Option ℕ → Trace → Type 0
IsSound expiry t =
    All (IsFresh expiry) (uses t.log)
    × (t.outcome ≡ Outcome.connected → t.client.state ≡ Phase.tunnel_up)
    × (t.outcome ≡ Outcome.reauth_required → t.client.state ≡ Phase.new)

token_valid-IsFresh :
    (token state_id ip : Bytes) (expiry : Option ℕ) (now : ℕ)
    → token_valid token state_id ip expiry now ≡ true
    → IsFresh expiry now
unfolding token_valid
token_valid-IsFresh token state_id ip none now h = cc
token_valid-IsFresh token state_id ip (some e) now h = ground (arith, h)

restart-new : (preserve : Bool) (c : Client) → (restart preserve c).state ≡ Phase.new
unfolding restart reset
restart-new preserve c = refl

Sound-if :
    (b : Bool) (x y : Trace) (expiry : Option ℕ)
    → (b ≡ true → IsSound expiry x)
    → IsSound expiry y
    → IsSound expiry (if b then x else y)
Sound-if true x y expiry h k = h refl
Sound-if false x y expiry h k = k

Sound-stop :
    (outcome : Outcome) (c : Client) (expiry : Option ℕ)
    → outcome ≢ Outcome.connected
    → outcome ≢ Outcome.reauth_required
    → IsSound expiry (stop outcome c)
Sound-stop outcome c expiry h k = (tt, (λ e. absurd (h e)), (λ e. absurd (k e)))

on_reply-IsSound :
    (r : Reply) (rest : Client → Trace) (expiry : Option ℕ) (c : Client)
    → ((c' : Client) → IsSound expiry (rest c'))
    → IsSound expiry (on_reply r rest c)
unfolding on_reply
on_reply-IsSound Reply.accepted rest expiry c h = (tt, (λ e. refl), (λ e. cc))
on_reply-IsSound Reply.rejected rest expiry c h =
    (tt, (λ e. cc), (λ e. restart-new false (set_disconnected other_reason c)))
on_reply-IsSound Reply.broken rest expiry c h = h (set_disconnected other_reason c)

module _ (bound : ℕ) (cached : Cached) (token_expiry : Option ℕ) where
  attempt-IsSound :
      (a : Attempt) (rest : Client → Trace) (c : Client)
      → ((c' : Client) → IsSound cached.expiry (rest c'))
      → IsSound cached.expiry (attempt bound cached token_expiry a rest c)
  unfolding attempt
  attempt-IsSound a rest c h =
      Sound-if (token_valid cached.token cached.state_id cached.ip cached.expiry a.now)
        (with_use a.now (on_reply a.reply rest (prepared cached token_expiry (restart true c))))
        (stop Outcome.reauth_required (restart true c)) cached.expiry
        (λ valid.
          let behind =
            on_reply-IsSound a.reply rest cached.expiry
              (prepared cached token_expiry (restart true c)) h in
          (
            (
              token_valid-IsFresh cached.token cached.state_id cached.ip cached.expiry a.now valid,
              behind.0,
            ),
            behind.1,
            behind.2,
          ))
        (tt, (λ e. cc), (λ e. restart-new true c))

  loop-IsSound :
      (attempts : List Attempt) (n b : ℕ) (failed : Bool) (c : Client)
      → IsSound cached.expiry (reconnect_loop bound cached token_expiry attempts n b failed c)
  unfolding reconnect_loop
  loop-IsSound [] n b failed c =
      Sound-if (is_over bound cached token_expiry n) (stop (Outcome.exceeded failed) c)
        (stop Outcome.pending c) cached.expiry
        (λ _. Sound-stop (Outcome.exceeded failed) c cached.expiry (λ e. cc) (λ e. cc))
        (Sound-stop Outcome.pending c cached.expiry (λ e. cc) (λ e. cc))
  loop-IsSound (a ∷ attempts) zero b failed c =
      Sound-if (is_over bound cached token_expiry zero) (stop (Outcome.exceeded failed) c) _
        cached.expiry
        (λ _. Sound-stop (Outcome.exceeded failed) c cached.expiry (λ e. cc) (λ e. cc))
        (attempt-IsSound a _ c (λ c'. loop-IsSound attempts 1 b true c'))
  loop-IsSound (a ∷ attempts) (suc n) b failed c =
      Sound-if (is_over bound cached token_expiry (suc n)) (stop (Outcome.exceeded failed) c) _
        cached.expiry
        (λ _. Sound-stop (Outcome.exceeded failed) c cached.expiry (λ e. cc) (λ e. cc))
        (Sound-if a.context_done (stop Outcome.cancelled c) _ cached.expiry
          (λ _. Sound-stop Outcome.cancelled c cached.expiry (λ e. cc) (λ e. cc))
          (attempt-IsSound a _ c
            (λ c'. loop-IsSound attempts (suc (suc n)) (next_backoff b) true c')))

-- Whatever the attempts meet, Reconnect uses the cached token only if its expiry is known and more than 30
-- seconds ahead; when it succeeds the tunnel is up, and when it asks for a new login the client is in the
-- state of a new one.
pub reconnect-IsSound :
    (max_reconnects : ℕ) (token_expiry : Bytes → Option ℕ) (attempts : List Attempt) (c : Client)
    → IsSound c.cached_expiry (reconnect max_reconnects token_expiry attempts c)
unfolding reconnect
reconnect-IsSound max_reconnects token_expiry attempts c =
    Sound-if (c.reauth_required || session_is_over c.done_err)
      (stop Outcome.reauth_required (restart false (clear_credentials c)))
      (reconnect_loop max_reconnects (cached_of c) (token_expiry c.cached_token) attempts 0 5 false
        c)
      c.cached_expiry (λ _. (tt, (λ e. cc), (λ e. restart-new false (clear_credentials c))))
      (loop-IsSound max_reconnects (cached_of c) (token_expiry c.cached_token) attempts 0 5 false c)

disconnect_from-token :
    (p : Phase) (c : Client)
    → ((disconnect_from p true c).cached_token ≡ c.cached_token)
      × ((disconnect_from p true c).clear_on_cleanup ≡ c.clear_on_cleanup)
disconnect_from-token Phase.new c = (refl, refl)
disconnect_from-token Phase.connecting c = (refl, refl)
disconnect_from-token Phase.tunnel_up c = (refl, refl)
disconnect_from-token Phase.disconnecting c = (refl, refl)
disconnect_from-token Phase.disconnected c = (refl, refl)

wait-token :
    (n : ℕ) (c : Client)
    → c.clear_on_cleanup ≡ false
    → (wait_for_disconnect n c).cached_token ≡ c.cached_token
unfolding wait_for_disconnect
wait-token zero c h = refl
wait-token (suc n) c h = ground (arith, h)

restart-token :
    (c : Client) → c.clear_on_cleanup ≡ false → (restart true c).cached_token ≡ c.cached_token
unfolding restart disconnect reset
restart-token c h =
    let left = disconnect_from c.state true c in
    let same = disconnect_from-token c.state c in wait-token left.waiting left (same.1 ∙ h) ∙ same.0

not_over :
    (bound : ℕ) (cached : Cached) (token_expiry : Option ℕ)
    → is_over bound cached token_expiry 0 ≡ false
not_over bound cached token_expiry = ground arith

module _ (bound : ℕ) (cached : Cached) (token_expiry : Option ℕ) where
  attempt_stale :
      (a : Attempt) (rest : Client → Trace) (c : Client)
      → token_valid cached.token cached.state_id cached.ip cached.expiry a.now ≡ false
      → attempt bound cached token_expiry a rest c ≡ stop Outcome.reauth_required (restart true c)
  unfolding attempt
  attempt_stale a rest c v = rw v refl

  loop_stale :
      (a : Attempt) (attempts : List Attempt) (c : Client)
      → token_valid cached.token cached.state_id cached.ip cached.expiry a.now ≡ false
      → reconnect_loop bound cached token_expiry (a ∷ attempts) 0 5 false c
        ≡ stop Outcome.reauth_required (restart true c)
  unfolding reconnect_loop
  loop_stale a attempts c v = rw (not_over bound cached token_expiry) (attempt_stale a _ c v)

reconnect_stale :
    (max_reconnects : ℕ) (token_expiry : Bytes → Option ℕ) (a : Attempt) (attempts : List Attempt)
    (c : Client)
    → c.reauth_required ≡ false
    → session_is_over c.done_err ≡ false
    → token_valid c.cached_token c.cached_state_id c.cached_phase1_ip c.cached_expiry a.now ≡ false
    → reconnect max_reconnects token_expiry (a ∷ attempts) c
      ≡ stop Outcome.reauth_required (restart true c)
unfolding reconnect
reconnect_stale max_reconnects token_expiry a attempts c r d v =
    ap
      (λ (b : Bool).
        if b
        then stop Outcome.reauth_required (restart false (clear_credentials c))
        else reconnect_loop max_reconnects (cached_of c) (token_expiry c.cached_token)
            (a ∷ attempts) 0 5 false c)
      neither
    ∙ loop_stale max_reconnects (cached_of c) (token_expiry c.cached_token) a attempts c v
  where
    neither : (c.reauth_required || session_is_over c.done_err) ≡ false
    neither = ground (arith, r, d)

-- If no explicit Disconnect came before, the session has not expired, and the cached token is too old at
-- the first attempt, then Reconnect asks for a new login, and the client that it returns still holds the
-- token.
pub reconnect_keeps_token :
    (max_reconnects : ℕ) (token_expiry : Bytes → Option ℕ) (a : Attempt) (attempts : List Attempt)
    (c : Client)
    → c.reauth_required ≡ false
    → session_is_over c.done_err ≡ false
    → c.clear_on_cleanup ≡ false
    → token_valid c.cached_token c.cached_state_id c.cached_phase1_ip c.cached_expiry a.now ≡ false
    → ((reconnect max_reconnects token_expiry (a ∷ attempts) c).outcome ≡ Outcome.reauth_required)
      × ((reconnect max_reconnects token_expiry (a ∷ attempts) c).client.cached_token
          ≡ c.cached_token)
reconnect_keeps_token max_reconnects token_expiry a attempts c r d f v =
    let e = reconnect_stale max_reconnects token_expiry a attempts c r d v in
    (ap (λ t. t.outcome) e, ap (λ t. t.client.cached_token) e ∙ restart-token c f)
