-- ===== src/Client/Lifecycle/Credentials.antt =====
-- client.go: what is left of the credentials after Disconnect.
use go_openlawsvpn.Base.{
  ℕ, zero, suc, ◌≡◌, ◌≢◌, ◌⊎◌, inl, inr, refl, sym, subst, Bool, true, false, [], Option, none,
  some, Result, ok, err, panic, Bytes, if◌then◌else◌,
}
use go_openlawsvpn.Client.Lifecycle.{
  Client, Phase, Reason, Refusal, Event, clear_credentials, set_disconnected, end_setup,
  disconnect_from, disconnect, torn_down, teardown, close_done, start_phase1, Phase2, check_phase2,
  cache_token, open_channel, capture_secrets, monitor_ended, link_failed, reset, set_relay_phase2,
  step, kept, emptied,
}
use go_openlawsvpn.Client.Lifecycle.Orderly.{Allowed}
use go_openlawsvpn.Client.Lifecycle.Cleanup.{cleanup}

-- No token, no expiry, no state ID, no address, no challenge, no auth-token of the pushed options and no
-- TLS secrets.
abbrev pub IsCleared : Client → Type 0
IsCleared c =
    (c.cached_token ≡ [])
    × (c.cached_expiry ≡ none)
    × (c.cached_state_id ≡ [])
    × (c.cached_phase1_ip ≡ [])
    × (c.challenge ≡ none)
    × ((c.auth_token ≡ none) ⊎ (c.auth_token ≡ some []))
    × (c.has_tls_secrets ≡ false)

emptied_lem : (o : Option Bytes) → (emptied o ≡ none) ⊎ (emptied o ≡ some [])
emptied_lem none = inl refl
emptied_lem (some auth) = inr refl

pub clear_credentials-IsCleared : (c : Client) → IsCleared (clear_credentials c)
unfolding clear_credentials
clear_credentials-IsCleared c = (refl, refl, refl, refl, refl, emptied_lem c.auth_token, refl)

-- A disconnected client that was told to drop its credentials has none.
abbrev pub IsPrivate : Client → Type 0
IsPrivate c = c.state ≡ Phase.disconnected → c.clear_on_cleanup ≡ true → IsCleared c

disconnect_from-IsPrivate :
    (p : Phase) (c : Client) → c.state ≡ p → IsPrivate c → IsPrivate (disconnect_from p true c)
disconnect_from-IsPrivate Phase.new c e h = λ s f. cc
disconnect_from-IsPrivate Phase.connecting c e h = λ s f. cc
disconnect_from-IsPrivate Phase.tunnel_up c e h = λ s f. cc
disconnect_from-IsPrivate Phase.disconnecting c e h = h
disconnect_from-IsPrivate Phase.disconnected c e h = h

-- An explicit Disconnect, from any state.
explicit-IsPrivate :
    (p : Phase) (c : Client)
    → c.state ≡ p
    → IsPrivate (disconnect_from p false (record c { clear_on_cleanup = true }))
explicit-IsPrivate Phase.new c e = λ s f. cc
explicit-IsPrivate Phase.connecting c e = λ s f. cc
explicit-IsPrivate Phase.tunnel_up c e = λ s f. cc
explicit-IsPrivate Phase.disconnecting c e = λ s f. cc (e, s)
explicit-IsPrivate Phase.disconnected c e =
    λ s f. clear_credentials-IsCleared (record c { clear_on_cleanup = true })

pub disconnect-IsPrivate :
    (preserve : Bool) (c : Client) → IsPrivate c → IsPrivate (disconnect preserve c)
unfolding disconnect
disconnect-IsPrivate true c h = disconnect_from-IsPrivate c.state c refl h
disconnect-IsPrivate false c h = explicit-IsPrivate c.state c refl

pub explicit_disconnect-IsPrivate : (c : Client) → IsPrivate (disconnect false c)
unfolding disconnect
explicit_disconnect-IsPrivate c = explicit-IsPrivate c.state c refl

monitor_ended-IsPrivate : (r : Reason) (c : Client) → IsPrivate c → IsPrivate (monitor_ended r c)
unfolding monitor_ended
monitor_ended-IsPrivate Reason.session_expired c h =
    λ s f. clear_credentials-IsCleared (record c { reauth_required = true })
monitor_ended-IsPrivate Reason.other_reason c h = h

set_disconnected-IsPrivate :
    (r : Reason) (p : Phase) (c : Client) → c.state ≡ p → IsPrivate c → IsPrivate (end_setup p r c)
set_disconnected-IsPrivate r Phase.new c e h = λ s f. clear_credentials-IsCleared c
set_disconnected-IsPrivate r Phase.connecting c e h = λ s f. clear_credentials-IsCleared c
set_disconnected-IsPrivate r Phase.tunnel_up c e h = λ s f. clear_credentials-IsCleared c
set_disconnected-IsPrivate r Phase.disconnecting c e h = λ s f. clear_credentials-IsCleared c
set_disconnected-IsPrivate r Phase.disconnected c e h = h

-- What a step leaves, if it does not panic.
abbrev pub Leaves : (Client → Type 0) → Result Refusal Client → Type 0
Leaves P (ok c) = P c
Leaves P (err _) = Unit {0}
Leaves P panic = Unit {0}

start_phase1-IsPrivate :
    (p : Phase) (aws : Bool) (c : Client)
    → IsPrivate c
    → Leaves IsPrivate (kept c (start_phase1 p aws c))
unfolding start_phase1
start_phase1-IsPrivate Phase.new aws c h = λ s f. cc
start_phase1-IsPrivate Phase.connecting aws c h = h
start_phase1-IsPrivate Phase.tunnel_up aws c h = h
start_phase1-IsPrivate Phase.disconnecting aws c h = h
start_phase1-IsPrivate Phase.disconnected aws c h = h

check_phase2-IsPrivate :
    (p : Phase) (challenge : Option Bytes) (c : Client)
    → IsPrivate c
    → Leaves IsPrivate (kept c (check_phase2 p challenge c))
unfolding check_phase2
check_phase2-IsPrivate Phase.connecting none c h = h
check_phase2-IsPrivate Phase.connecting (some state_id) c h = h
check_phase2-IsPrivate Phase.new challenge c h = h
check_phase2-IsPrivate Phase.tunnel_up challenge c h = h
check_phase2-IsPrivate Phase.disconnecting challenge c h = h
check_phase2-IsPrivate Phase.disconnected challenge c h = h

-- The later sections of connectPhase2 do not look at the state. Those that store credentials are in time if
-- the client is not yet disconnected.
abbrev pub IsTimely : Client → Event → Type 0
IsTimely c (Event.token text expiry) = c.state ≢ Phase.disconnected
IsTimely c Event.secrets = c.state ≢ Phase.disconnected
IsTimely c _ = Unit {0}

cache_token-IsPrivate :
    (at : Phase2) (token : Bytes) (expiry : Option ℕ) (c : Client)
    → c.state ≢ Phase.disconnected
    → IsPrivate c
    → Leaves IsPrivate (kept c (cache_token at token expiry c))
unfolding cache_token
cache_token-IsPrivate Phase2.idle token expiry c a h = h
cache_token-IsPrivate Phase2.opened_channel token expiry c a h = h
cache_token-IsPrivate (Phase2.has_checked state_id) token expiry c a h = λ s f. absurd (a s)
cache_token-IsPrivate (Phase2.has_cached state_id) token expiry c a h = h

open_channel-IsPrivate :
    (at : Phase2) (c : Client) → IsPrivate c → Leaves IsPrivate (kept c (open_channel at c))
unfolding open_channel
open_channel-IsPrivate Phase2.idle c h = h
open_channel-IsPrivate Phase2.opened_channel c h = h
open_channel-IsPrivate (Phase2.has_checked state_id) c h = h
open_channel-IsPrivate (Phase2.has_cached state_id) c h = h

capture_secrets-IsPrivate :
    (at : Phase2) (c : Client)
    → c.state ≢ Phase.disconnected
    → IsPrivate c
    → Leaves IsPrivate (kept c (capture_secrets at c))
unfolding capture_secrets
capture_secrets-IsPrivate Phase2.idle c a h = h
capture_secrets-IsPrivate Phase2.opened_channel c a h = λ s f. absurd (a s)
capture_secrets-IsPrivate (Phase2.has_checked state_id) c a h = h
capture_secrets-IsPrivate (Phase2.has_cached state_id) c a h = h

abbrev pub cleaned : Bool → Client → Client
cleaned has_index c = record c { resources = (cleanup has_index c.resources).0 }

teardown-IsPrivate :
    (has_index : Bool) (n : ℕ) (c : Client)
    → IsPrivate c
    → Leaves IsPrivate (kept c (teardown has_index n c))
unfolding teardown
teardown-IsPrivate has_index zero c h = h
teardown-IsPrivate has_index (suc n) c h = flagged c.clear_on_cleanup refl
  where
    flagged :
        (b : Bool)
        → c.clear_on_cleanup ≡ b
        → IsPrivate (record (torn_down has_index c) { waiting = n; ending = suc c.ending })
    flagged true e = λ s f.
        subst
          (λ b.
            IsCleared (if b then clear_credentials (cleaned has_index c) else cleaned has_index c))
          (sym e) (clear_credentials-IsCleared (cleaned has_index c))
    flagged false e = λ s f.
        let kept_flag : c.clear_on_cleanup ≡ true =
          subst
            (λ b.
              (if b
                then clear_credentials (cleaned has_index c)
                else cleaned has_index c).clear_on_cleanup
              ≡ true)
            e f in
        cc (kept_flag, e)

close_done-IsPrivate :
    (n : ℕ) (c : Client) → IsPrivate c → Leaves IsPrivate (kept c (close_done n c))
unfolding close_done
close_done-IsPrivate zero c h = h
close_done-IsPrivate (suc n) c h = opened c.done_closed
  where
    opened :
        (b : Bool)
        → Leaves IsPrivate
            (kept c (if b then panic else ok (record c { done_closed = true; ending = n })))
    opened true = tt
    opened false = h

pub step-IsPrivate :
    (e : Event) (c : Client)
    → IsPrivate c
    → Allowed c e
    → IsTimely c e
    → Leaves IsPrivate (kept c (step e c))
unfolding step set_disconnected link_failed reset set_relay_phase2
step-IsPrivate (Event.connect aws) c h a t = h
step-IsPrivate (Event.phase1 aws) c h a t = start_phase1-IsPrivate c.state aws c h
step-IsPrivate (Event.challenged state_id ip) c h a t = λ s f. cc (a, s)
step-IsPrivate Event.phase2 c h a t = check_phase2-IsPrivate c.state c.challenge c h
step-IsPrivate (Event.token text expiry) c h a t =
    cache_token-IsPrivate c.phase2_at text expiry c t h
step-IsPrivate Event.channel c h a t = open_channel-IsPrivate c.phase2_at c h
step-IsPrivate Event.secrets c h a t = capture_secrets-IsPrivate c.phase2_at c t h
step-IsPrivate (Event.pushed auth) c h a t = λ s f. cc (a, s)
step-IsPrivate (Event.failed r) c h a t =
    set_disconnected-IsPrivate r c.state (record c { phase2_at = Phase2.idle }) refl h
step-IsPrivate (Event.up held) c h a t = λ s f. cc
step-IsPrivate (Event.disconnect_call preserve) c h a t = disconnect-IsPrivate preserve c h
step-IsPrivate (Event.monitor r) c h a t = monitor_ended-IsPrivate r c h
step-IsPrivate Event.link c h a t = h
step-IsPrivate (Event.torn has_index) c h a t = teardown-IsPrivate has_index c.waiting c h
step-IsPrivate Event.close_channel c h a t = close_done-IsPrivate c.ending c h
step-IsPrivate Event.reset_call c h a t = λ s f. cc
step-IsPrivate (Event.relay_phase2 ip state_id aws) c h a t = λ s f. cc
