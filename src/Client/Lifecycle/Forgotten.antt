-- ===== src/Client/Lifecycle/Forgotten.antt =====
-- client.go: an explicit Disconnect is not forgotten until the client is reset, and leaves no credentials.
use go_openlawsvpn.Base.{
  ℕ, zero, suc, ◌≡◌, refl, subst, arith, Bool, true, false, List, [], ◌∷◌, Option, none, some,
  Result, ok, err, panic, ◌>>=◌, Bytes, if◌then◌else◌,
}
use go_openlawsvpn.Client.Lifecycle.{
  Client, Phase, Reason, Refusal, Event, clear_credentials, set_disconnected, end_setup,
  disconnect_from, disconnect, teardown, close_done, start_phase1, Phase2, check_phase2,
  cache_token, open_channel, capture_secrets, monitor_ended, link_failed, set_relay_phase2, step,
  kept, run,
}
use go_openlawsvpn.Client.Lifecycle.Orderly.{IsOrderly}
use go_openlawsvpn.Client.Lifecycle.Credentials.{
  IsCleared, IsTimely, IsPrivate, Leaves, cleaned, step-IsPrivate, explicit_disconnect-IsPrivate,
}

-- The steps that start a new session.
abbrev pub IsRestart : Event → Type 0
IsRestart Event.reset_call = Unit {0}
IsRestart _ = ⊥

-- Only reset takes the mark back that an explicit Disconnect leaves.
abbrev IsMarked : Client → Type 0
IsMarked c = c.clear_on_cleanup ≡ true

clear_credentials-IsMarked : (c : Client) → IsMarked c → IsMarked (clear_credentials c)
unfolding clear_credentials
clear_credentials-IsMarked c h = h

disconnect_from-IsMarked :
    (p : Phase) (preserve : Bool) (c : Client)
    → IsMarked c
    → IsMarked (disconnect_from p preserve c)
disconnect_from-IsMarked Phase.new preserve c h = h
disconnect_from-IsMarked Phase.connecting preserve c h = h
disconnect_from-IsMarked Phase.tunnel_up preserve c h = h
disconnect_from-IsMarked Phase.disconnecting preserve c h = h
disconnect_from-IsMarked Phase.disconnected true c h = h
disconnect_from-IsMarked Phase.disconnected false c h = clear_credentials-IsMarked c h

disconnect-IsMarked : (preserve : Bool) (c : Client) → IsMarked c → IsMarked (disconnect preserve c)
unfolding disconnect
disconnect-IsMarked true c h = disconnect_from-IsMarked c.state true c h
disconnect-IsMarked false c h = disconnect_from-IsMarked c.state false _ refl

explicit-IsMarked : (c : Client) → IsMarked (disconnect false c)
unfolding disconnect
explicit-IsMarked c =
    disconnect_from-IsMarked c.state false (record c { clear_on_cleanup = true }) refl

end_setup-IsMarked : (p : Phase) (r : Reason) (c : Client) → IsMarked c → IsMarked (end_setup p r c)
end_setup-IsMarked Phase.new r c h = clear_credentials-IsMarked c h
end_setup-IsMarked Phase.connecting r c h = clear_credentials-IsMarked c h
end_setup-IsMarked Phase.tunnel_up r c h = clear_credentials-IsMarked c h
end_setup-IsMarked Phase.disconnecting r c h = clear_credentials-IsMarked c h
end_setup-IsMarked Phase.disconnected r c h = h

step-IsMarked :
    (e : Event) (c : Client) → IsMarked c → ¬ IsRestart e → Leaves IsMarked (kept c (step e c))
unfolding step set_disconnected link_failed monitor_ended set_relay_phase2 clear_credentials
    teardown close_done start_phase1 check_phase2 cache_token open_channel capture_secrets
step-IsMarked (Event.connect aws) c h a = h
step-IsMarked (Event.phase1 aws) c h a = started c.state
  where
    started : (p : Phase) → Leaves IsMarked (kept c (start_phase1 p aws c))
    started Phase.new = h
    started _ = h
step-IsMarked (Event.challenged state_id ip) c h a = h
step-IsMarked Event.phase2 c h a = checked c.state c.challenge
  where
    checked :
        (p : Phase) (challenge : Option Bytes)
        → Leaves IsMarked (kept c (check_phase2 p challenge c))
    checked Phase.connecting none = h
    checked Phase.connecting (some state_id) = h
    checked _ challenge = h
step-IsMarked (Event.token text expiry) c h a = stored c.phase2_at
  where
    stored : (at : Phase2) → Leaves IsMarked (kept c (cache_token at text expiry c))
    stored (Phase2.has_checked state_id) = h
    stored _ = h
step-IsMarked Event.channel c h a = made c.phase2_at
  where
    made : (at : Phase2) → Leaves IsMarked (kept c (open_channel at c))
    made (Phase2.has_cached state_id) = h
    made _ = h
step-IsMarked Event.secrets c h a = captured c.phase2_at
  where
    captured : (at : Phase2) → Leaves IsMarked (kept c (capture_secrets at c))
    captured Phase2.opened_channel = h
    captured _ = h
step-IsMarked (Event.pushed auth) c h a = h
step-IsMarked (Event.failed r) c h a =
    end_setup-IsMarked c.state r (record c { phase2_at = Phase2.idle }) h
step-IsMarked (Event.up held) c h a = h
step-IsMarked (Event.disconnect_call preserve) c h a = disconnect-IsMarked preserve c h
step-IsMarked (Event.monitor Reason.session_expired) c h a = h
step-IsMarked (Event.monitor Reason.other_reason) c h a = h
step-IsMarked Event.link c h a = h
step-IsMarked (Event.torn has_index) c h a = waited c.waiting
  where
    flagged :
        (b : Bool)
        → IsMarked (if b then clear_credentials (cleaned has_index c) else cleaned has_index c)
    flagged true = clear_credentials-IsMarked (cleaned has_index c) h
    flagged false = h

    waited : (n : ℕ) → Leaves IsMarked (kept c (teardown has_index n c))
    waited zero = h
    waited (suc n) = flagged c.clear_on_cleanup
step-IsMarked Event.close_channel c h a = last c.ending
  where
    opened :
        (b : Bool) (n : ℕ)
        → Leaves IsMarked
            (kept c (if b then panic else ok (record c { done_closed = true; ending = n })))
    opened true n = tt
    opened false n = h

    last : (n : ℕ) → Leaves IsMarked (kept c (close_done n c))
    last zero = h
    last (suc n) = opened c.done_closed n
step-IsMarked Event.reset_call c h a = absurd (a tt)
step-IsMarked (Event.relay_phase2 ip state_id aws) c h a = h

-- No event of the list is a reset.
abbrev pub NoRestart : List Event → Type 0
NoRestart [] = Unit {0}
NoRestart (e ∷ events) = (¬ IsRestart e) × NoRestart events

-- Every section of connectPhase2 that stores credentials comes in time.
abbrev pub AreTimely : Client → List Event → Type 0
AreTimely c [] = Unit {0}
AreTimely c (e ∷ events) = IsTimely c e × elim (kept c (step e c)) as (λ _. Type 0) [
  | ok c' ↦ AreTimely c' events
  | err _ ↦ Unit {0}
  | panic ↦ Unit {0}
]

abbrev IsSealed : Client → Type 0
IsSealed c = IsPrivate c × IsMarked c

Leaves-both :
    (r : Result Refusal Client) → Leaves IsPrivate r → Leaves IsMarked r → Leaves IsSealed r
Leaves-both (ok c) h k = (h, k)
Leaves-both (err _) h k = tt
Leaves-both panic h k = tt

run-IsSealed :
    (events : List Event) (c : Client)
    → IsSealed c
    → NoRestart events
    → IsOrderly c events
    → AreTimely c events
    → Leaves IsSealed (run events c)
unfolding run
run-IsSealed [] c h q o t = h
run-IsSealed (e ∷ events) c h q o t =
    behind (kept c (step e c))
      (Leaves-both (kept c (step e c)) (step-IsPrivate e c h.0 o.0 t.0) (step-IsMarked e c h.1 q.0))
      o.1 t.1 (λ c' k p l. run-IsSealed events c' k q.1 p l)
  where
    behind :
        (r : Result Refusal Client)
        → Leaves IsSealed r
        → elim r as (λ _. Type 0) [
          | ok c' ↦ IsOrderly c' events
          | err _ ↦ Unit {0}
          | panic ↦ Unit {0}
        ]
        → elim r as (λ _. Type 0) [
          | ok c' ↦ AreTimely c' events
          | err _ ↦ Unit {0}
          | panic ↦ Unit {0}
        ]
        → ((c' : Client)
            → IsSealed c'
            → IsOrderly c' events
            → AreTimely c' events
            → Leaves IsSealed (run events c'))
        → Leaves IsSealed (r >>= λ c'. run events c')
    behind (ok c') k p l next = next c' k p l
    behind (err _) k p l next = tt
    behind panic k p l next = tt

-- After an explicit Disconnect of a client in any state, whatever other steps follow it in order and without
-- a reset, if connectPhase2 caches its token and captures its TLS secrets at most while the client is not
-- yet disconnected: when the client is disconnected, it holds no token, no expiry, no state ID, no address
-- of the server, no challenge, no auth-token and no TLS secrets.
pub disconnect_clears :
    (c c' : Client) (events : List Event)
    → IsOrderly (disconnect false c) events
    → NoRestart events
    → AreTimely (disconnect false c) events
    → run events (disconnect false c) ≡ ok c'
    → c'.state ≡ Phase.disconnected
    → IsCleared c'
disconnect_clears c c' events o q t h s = sealed (run events (disconnect false c)) h (
    run-IsSealed events (disconnect false c) (explicit_disconnect-IsPrivate c, explicit-IsMarked c)
      q o t)
  where
    sealed : (r : Result Refusal Client) → r ≡ ok c' → Leaves IsSealed r → IsCleared c'
    sealed (ok x) p k =
        let same : x ≡ c' = ground (arith, p) in
        (subst IsSealed same k).0 s (subst IsSealed same k).1
    sealed (err _) p k = cc
    sealed panic p k = cc
