-- ===== src/Client/Lifecycle/Reconnect.antt =====
-- client.go: Reconnect, as a loop over what the attempts to connect again meet.
pub mod Backoff
pub mod Expiry
use go_openlawsvpn.Base.{
  ℕ, zero, suc, ◌+◌, ◌*◌, Bool, true, false, not, ◌&&◌, ◌||◌, List, [], ◌∷◌, ◌++◌, Option, none,
  some, if◌then◌else◌, ltb, leb, Bytes,
}
use go_openlawsvpn.Text.{is_empty}
use go_openlawsvpn.Client.Lifecycle.{
  Client, Phase, connecting, tunnel_up, Reason, session_expired, other_reason, clear_credentials,
  set_disconnected, disconnect, torn_down, reset, cache,
}

-- How connectPhase2 ends: the tunnel is up, the server rejects the credentials, or it fails otherwise.
pub data Reply : Type 0 where
  accepted rejected broken : Reply

-- What one attempt meets: whether the context ends during the wait in front of it, the time in seconds when
-- the token is looked at, and the reply.
pub record Attempt : Type 0 where
  pub context_done : Bool
  pub now : ℕ
  pub reply : Reply

-- `pending` if the loop goes on behind the attempts that are given. The flag of `exceeded` tells whether
-- there is a last error.
pub data Outcome : Type 0 where
  connected reauth_required cancelled pending : Outcome
  exceeded : Bool → Outcome

-- A wait with its length, and the use of the token in an attempt with its time.
pub data Moment : Type 0 where
  waited used : ℕ → Moment

-- The result, the client that is left, and the waits and attempts in their order.
pub record Trace : Type 0 where
  pub outcome : Outcome
  pub client : Client
  pub log : List Moment

-- When the token was used.
abbrev pub uses : List Moment → List ℕ
uses [] = []
uses (waited b ∷ log) = uses log
uses (used now ∷ log) = now ∷ uses log

abbrev pub stop : Outcome → Client → Trace
stop outcome c = record { outcome = outcome; client = c; log = [] }

-- WaitForDisconnect, if a teardown is left; no other step comes in between.
unfoldable pub wait_for_disconnect : ℕ → Client → Client
wait_for_disconnect zero c = c
wait_for_disconnect (suc n) c = record (torn_down true c) { waiting = n; done_closed = true }

-- `c.disconnect(preserve); c.WaitForDisconnect(); c.reset()`
unfoldable pub restart : Bool → Client → Client
unfolding disconnect reset wait_for_disconnect
restart preserve c = let d = disconnect preserve c in reset (wait_for_disconnect d.waiting d)

-- `expiry.IsZero()` is `none`; the margin is 30 s.
unfoldable pub token_valid : Bytes → Bytes → Bytes → Option ℕ → ℕ → Bool
token_valid token state_id ip none now = false
token_valid token state_id ip (some e) now =
    not (is_empty token) && not (is_empty state_id) && not (is_empty ip) && ltb (now + 30) e

-- The context of the session before, copied before the loop.
pub record Cached : Type 0 where
  pub token : Bytes
  pub expiry : Option ℕ
  pub state_id : Bytes
  pub ip : Bytes

abbrev pub cached_of : Client → Cached
cached_of c = record {
  token = c.cached_token;
  expiry = c.cached_expiry;
  state_id = c.cached_state_id;
  ip = c.cached_phase1_ip;
}

-- The client when connectPhase2 awaits the reply. `token_expiry` is what TokenExpiry reads in the token.
abbrev pub prepared : Cached → Option ℕ → Client → Client
prepared cached token_expiry c =
    cache cached.token token_expiry cached.state_id
      (record c { state = connecting; challenge = some cached.state_id; phase1_ip = cached.ip })

abbrev pub next_backoff : ℕ → ℕ
next_backoff b = if ltb 30 (b * 2) then 30 else b * 2

abbrev pub with_wait : ℕ → Trace → Trace
with_wait b t = record t { log = waited b ∷ t.log }

abbrev pub with_use : ℕ → Trace → Trace
with_use now t = record t { log = used now ∷ t.log }

-- The end of an attempt. `rest` is the loop behind a failed one.
unfoldable pub on_reply : Reply → (Client → Trace) → Client → Trace
unfolding set_disconnected restart
on_reply accepted rest c =
    stop connected (record c { state = tunnel_up; reconnect_count = suc c.reconnect_count })
on_reply rejected rest c = stop reauth_required (restart false (set_disconnected other_reason c))
on_reply broken rest c = rest (set_disconnected other_reason c)

module _ (max_reconnects : ℕ) (cached : Cached) (token_expiry : Option ℕ) where
  -- Whether no further attempt is made.
  abbrev pub is_over : ℕ → Bool
  is_over n = ltb 0 max_reconnects && leb max_reconnects n

  -- An attempt behind its wait.
  unfoldable pub attempt : Attempt → (Client → Trace) → Client → Trace
  unfolding set_disconnected restart
  attempt a rest c =
      let idle = restart true c in
      if token_valid cached.token cached.state_id cached.ip cached.expiry a.now
      then with_use a.now (on_reply a.reply rest (prepared cached token_expiry idle))
      else stop reauth_required idle

  -- Attempt `suc n`: all but the first are preceded by a wait of `backoff` seconds.
  abbrev pub round : ℕ → ℕ → Attempt → (ℕ → Client → Trace) → Client → Trace
  round zero backoff a rest c = attempt a (rest backoff) c
  round (suc n) backoff a rest c =
      if a.context_done
      then stop cancelled c
      else with_wait backoff (attempt a (rest (next_backoff backoff)) c)

  unfoldable pub reconnect_loop : List Attempt → ℕ → ℕ → Bool → Client → Trace
  reconnect_loop [] n backoff failed c =
      if is_over n then stop (exceeded failed) c else stop pending c
  reconnect_loop (a ∷ attempts) n backoff failed c =
      let tried =
        round n backoff a (λ (b : ℕ) (c' : Client). reconnect_loop attempts (suc n) b true c') c in
      if is_over n then stop (exceeded failed) c else tried

-- `errors.As(c.doneErr, &expired)`
abbrev pub session_is_over : Option Reason → Bool
session_is_over (some session_expired) = true
session_is_over _ = false

unfoldable pub reconnect : ℕ → (Bytes → Option ℕ) → List Attempt → Client → Trace
unfolding clear_credentials restart reconnect_loop
reconnect max_reconnects token_expiry attempts c =
    if c.reauth_required || session_is_over c.done_err
    then stop reauth_required (restart false (clear_credentials c))
    else reconnect_loop max_reconnects (cached_of c) (token_expiry c.cached_token) attempts 0 5
        false c
