-- ===== src/Client/Lifecycle/Tests.antt =====
-- Runs of a client, and the theorems at them.
use go_openlawsvpn.Base.{
  ℕ, ◌≡◌, ◌↔◌, refl, arith, true, false, List, [], ◌∷◌, ◌++◌, get_elem?, some, none, ok, panic,
  bytes_eq, ◌%◌, ◌+◌, ◌-◌,
}
use go_openlawsvpn.Compress.{codes}
use go_openlawsvpn.Client.Lifecycle.{
  Client, Phase, Reason, Event, new_client, run, step, start_phase1, Phase2, check_phase2,
  cache_token, open_channel, capture_secrets, disconnect, teardown, close_done, reset,
  clear_credentials,
}
use go_openlawsvpn.Client.Lifecycle.Cleanup.{Resources, no_resources, cleanup}
use go_openlawsvpn.Client.Lifecycle.Orderly.{IsSteady, run-IsSteady}
use go_openlawsvpn.Client.Lifecycle.Races.{disconnect_then_failed, disconnect_then_up}
use go_openlawsvpn.Client.Lifecycle.Credentials.{IsCleared}
use go_openlawsvpn.Client.Lifecycle.Forgotten.{disconnect_clears}
use go_openlawsvpn.Client.Lifecycle.Rekey.{Signal, Wait, wait_for_rekey_reset}
use go_openlawsvpn.Client.Lifecycle.Rekey.KeyIds.{allocate_keys, allocate_keys_lem}
use go_openlawsvpn.Client.Lifecycle.Rekey.Waiting.{
  in_time, any, is_peer_reset, is_reset_acked, wait_for_rekey_reset_iff,
}
use go_openlawsvpn.Client.Lifecycle.Reconnect.{
  Attempt, Reply, Outcome, uses, reconnect, token_valid,
}
use go_openlawsvpn.Client.Lifecycle.Reconnect.Backoff.{IsSchedule, times, reconnect-IsSchedule}
use go_openlawsvpn.Client.Lifecycle.Reconnect.Expiry.{
  IsSound, reconnect-IsSound, reconnect_keeps_token,
}

-- A session with a TUN device, from Connect to the reset behind its end.
abbrev held : Resources
held = record no_resources { tun_dev = true; dns_opts = true; push_opts = true }

abbrev session : List Event
session =
    Event.connect true
    ∷ Event.phase1 true
    ∷ Event.challenged (codes "S") (codes "10.0.0.1")
    ∷ Event.phase2
    ∷ Event.token (codes "token") (some 900)
    ∷ Event.channel
    ∷ Event.secrets
    ∷ Event.pushed []
    ∷ Event.up held
    ∷ Event.link
    ∷ Event.disconnect_call false
    ∷ Event.torn true
    ∷ Event.close_channel
    ∷ Event.reset_call
    ∷ []

run-IsSteady_example : (c : Client) × (run session new_client ≡ ok c) × IsSteady c
unfolding step start_phase1 check_phase2 cache_token open_channel capture_secrets disconnect
    teardown close_done clear_credentials reset bytes_eq
run-IsSteady_example =
    run-IsSteady session
      (tt, (tt, (refl, (tt, (tt, (tt, (tt, (refl, (refl, (tt, (tt, (tt, (tt, (refl, tt))))))))))))))

abbrev attempting : Client
attempting = record new_client { state = Phase.connecting }

disconnect_then_failed_example :
    run
      (Event.disconnect_call false
        ∷ (Event.failed Reason.other_reason ∷ (Event.torn true ∷ (Event.close_channel ∷ []))))
      attempting
    ≡ panic
disconnect_then_failed_example =
    disconnect_then_failed attempting false true Reason.other_reason refl refl

disconnect_then_up_example :
    (c' : Client) × (run
        ((Event.disconnect_call true ∷ (Event.torn true ∷ (Event.close_channel ∷ [])))
          ++ (Event.up held ∷ []))
        attempting
      ≡ ok c')
    × (c'.state ≡ Phase.tunnel_up)
    × (c'.done_closed ≡ true)
    × (run (Event.disconnect_call false ∷ (Event.torn true ∷ (Event.close_channel ∷ []))) c'
        ≡ panic)
disconnect_then_up_example = disconnect_then_up attempting true false true held refl refl refl refl

abbrev online : Client
online = record new_client {
  state = Phase.tunnel_up;
  cached_token = codes "token";
  cached_expiry = some 900;
  cached_state_id = codes "S";
  cached_phase1_ip = codes "10.0.0.1";
  auth_token = some (codes "secret");
  resources = held;
}

-- An attempt that has checked the state when it is disconnected, and then caches its token.
abbrev checked : Client
checked = record attempting {
  phase1_ip = codes "10.0.0.1";
  challenge = some (codes "S");
  phase2_at = Phase2.has_checked (codes "S");
}

abbrev offline : Client
offline = record checked {
  state = Phase.disconnected;
  challenge = none;
  phase2_at = Phase2.has_cached (codes "S");
  clear_on_cleanup = true;
  resources = (cleanup true no_resources).0;
  done_closed = true;
}

disconnect_clears_example : IsCleared offline
unfolding run step disconnect teardown close_done clear_credentials cache_token bytes_eq
disconnect_clears_example =
    disconnect_clears checked offline
      (Event.token (codes "token") (some 900) ∷ Event.torn true ∷ Event.close_channel ∷ [])
      (tt, (tt, (tt, tt))) ((λ r. r), ((λ r. r), ((λ r. r), tt))) ((λ e. cc), (tt, (tt, tt))) refl
      refl

allocate_keys_lem_example : get_elem? (allocate_keys 9 online) 8 ≡ some ((1 - 1 + 8) % 7 + 1)
allocate_keys_lem_example = allocate_keys_lem 9 8 online (omega arith) (omega arith) (omega arith)

wait_for_rekey_reset_iff_example :
    (wait_for_rekey_reset (Signal.reset_acked ∷ Signal.peer_reset ∷ []) false false
      ≡ Wait.reset_done)
    ↔ ((any is_peer_reset (in_time (Signal.reset_acked ∷ Signal.peer_reset ∷ [])) ≡ true)
        × (any is_reset_acked (in_time (Signal.reset_acked ∷ Signal.peer_reset ∷ [])) ≡ true))
wait_for_rekey_reset_iff_example =
    wait_for_rekey_reset_iff (Signal.reset_acked ∷ Signal.peer_reset ∷ [])

abbrev try_at : ℕ → Reply → Attempt
try_at now reply = record { context_done = false; now = now; reply = reply }

abbrev attempts : List Attempt
attempts = try_at 100 Reply.broken ∷ try_at 110 Reply.broken ∷ try_at 120 Reply.accepted ∷ []

reconnect-IsSchedule_example :
    IsSchedule
      (reconnect 0 (λ _. some 900) attempts online).outcome
      (reconnect 0 (λ _. some 900) attempts online).log
    × ((reconnect 0 (λ _. some 900) attempts online).outcome ≡ Outcome.pending
        → uses (reconnect 0 (λ _. some 900) attempts online).log ≡ times attempts)
reconnect-IsSchedule_example = reconnect-IsSchedule 0 (λ _. some 900) attempts online

reconnect-IsSound_example : IsSound (some 900) (reconnect 0 (λ _. some 900) attempts online)
reconnect-IsSound_example = reconnect-IsSound 0 (λ _. some 900) attempts online

reconnect_keeps_token_example :
    ((reconnect 0 (λ _. some 900) (try_at 880 Reply.accepted ∷ []) online).outcome
      ≡ Outcome.reauth_required)
    × ((reconnect 0 (λ _. some 900) (try_at 880 Reply.accepted ∷ []) online).client.cached_token
        ≡ codes "token")
unfolding token_valid
reconnect_keeps_token_example =
    reconnect_keeps_token 0 (λ _. some 900) (try_at 880 Reply.accepted) [] online refl refl refl
      refl
