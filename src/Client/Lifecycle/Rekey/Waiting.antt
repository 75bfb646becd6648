-- ===== src/Client/Lifecycle/Rekey/Waiting.antt =====
-- waitForRekeyReset of client.go: both halves of the reset exchange are needed.
use go_openlawsvpn.Base.{◌≡◌, ◌↔◌, arith, Bool, true, false, ◌&&◌, ◌||◌, List, [], ◌∷◌}
use go_openlawsvpn.Client.Lifecycle.Rekey.{
  Signal, context_done, deadline, peer_reset, reset_acked, reset_done, wait_for_rekey_reset,
}

-- What is received before the context ends or the deadline passes.
pub in_time : List Signal → List Signal
in_time [] = []
in_time (context_done ∷ signals) = []
in_time (deadline ∷ signals) = []
in_time (peer_reset ∷ signals) = peer_reset ∷ in_time signals
in_time (reset_acked ∷ signals) = reset_acked ∷ in_time signals

abbrev pub is_peer_reset : Signal → Bool
is_peer_reset peer_reset = true
is_peer_reset _ = false

abbrev pub is_reset_acked : Signal → Bool
is_reset_acked reset_acked = true
is_reset_acked _ = false

abbrev pub any : (Signal → Bool) → List Signal → Bool
any test [] = false
any test (s ∷ signals) = test s || any test signals

waited :
    (signals : List Signal) (p a : Bool)
    → (wait_for_rekey_reset signals p a ≡ reset_done) ↔ (
        ((p || any is_peer_reset (in_time signals)) && (a || any is_reset_acked (in_time signals)))
        ≡ true)
unfolding wait_for_rekey_reset in_time
waited [] true true = ground arith
waited [] true false = ground arith
waited [] false a = ground arith
waited (context_done ∷ signals) true true = ground arith
waited (context_done ∷ signals) true false = ground arith
waited (context_done ∷ signals) false a = ground arith
waited (deadline ∷ signals) true true = ground arith
waited (deadline ∷ signals) true false = ground arith
waited (deadline ∷ signals) false a = ground arith
waited (peer_reset ∷ signals) true true = ground arith
waited (peer_reset ∷ signals) true false = ground (arith, waited signals true false)
waited (peer_reset ∷ signals) false true = ground (arith, waited signals true true)
waited (peer_reset ∷ signals) false false = ground (arith, waited signals true false)
waited (reset_acked ∷ signals) true true = ground arith
waited (reset_acked ∷ signals) true false = ground (arith, waited signals true true)
waited (reset_acked ∷ signals) false true = ground (arith, waited signals false true)
waited (reset_acked ∷ signals) false false = ground (arith, waited signals false true)

-- waitForRekeyReset succeeds exactly if the peer's reset and the acknowledgement of the own one are both
-- received, in any order, before the context ends or the deadline passes.
pub wait_for_rekey_reset_iff :
    (signals : List Signal)
    → (wait_for_rekey_reset signals false false ≡ reset_done) ↔ (
        (any is_peer_reset (in_time signals) ≡ true)
        × (any is_reset_acked (in_time signals) ≡ true))
wait_for_rekey_reset_iff signals = ground (arith, waited signals false false)
