-- ===== src/Client/Lifecycle/Orderly.antt =====
-- client.go: when the parts of Connect and Disconnect do not overlap, doneCh is closed once and no step
-- panics.
use go_openlawsvpn.Base.{
  ℕ, zero, suc, ◌≡◌, ◌⊎◌, refl, arith, Bool, true, false, List, [], ◌∷◌, Option, none, some, Result,
  ok, err, panic, ◌>>=◌, Bytes,
}
use go_openlawsvpn.Client.Lifecycle.{
  Client, Phase, Reason, Refusal, Event, clear_credentials, set_disconnected, disconnect_from,
  disconnect, teardown, close_done, start_phase1, Phase2, check_phase2, cache_token, open_channel,
  capture_secrets, monitor_ended, link_failed, reset, set_relay_phase2, step, kept, run, new_client,
}

-- Whether doneCh is closed, and how many goroutines of teardowns have not yet set the state, or not yet
-- closed doneCh.
abbrev pub Counts : Phase → Bool → ℕ → ℕ → Type 0
Counts Phase.new closed waiting ending = (closed ≡ false) × (waiting ≡ 0) × (ending ≡ 0)
Counts Phase.connecting closed waiting ending = (closed ≡ false) × (waiting ≡ 0) × (ending ≡ 0)
Counts Phase.tunnel_up closed waiting ending = (closed ≡ false) × (waiting ≡ 0) × (ending ≡ 0)
Counts Phase.disconnecting closed waiting ending = (closed ≡ false) × (waiting ≡ 1) × (ending ≡ 0)
Counts Phase.disconnected closed waiting ending =
    (waiting ≡ 0) × (((closed ≡ true) × (ending ≡ 0)) ⊎ ((closed ≡ false) × (ending ≡ 1)))

abbrev pub IsSteady : Client → Type 0
IsSteady c = Counts c.state c.done_closed c.waiting c.ending

-- The parts of a connection attempt come while it is under way, and reset comes when doneCh is closed.
abbrev pub Allowed : Client → Event → Type 0
Allowed c (Event.failed r) = c.state ≡ Phase.connecting
Allowed c (Event.up held) = c.state ≡ Phase.connecting
Allowed c (Event.challenged state_id ip) = c.state ≡ Phase.connecting
Allowed c (Event.pushed auth) = c.state ≡ Phase.connecting
Allowed c Event.reset_call = c.done_closed ≡ true
Allowed c (Event.relay_phase2 ip state_id aws) = c.state ≡ Phase.new
Allowed c _ = Unit {0}

abbrev pub IsOrderly : Client → List Event → Type 0
IsOrderly c [] = Unit {0}
IsOrderly c (e ∷ events) = Allowed c e × elim (kept c (step e c)) as (λ _. Type 0) [
  | ok c' ↦ IsOrderly c' events
  | err _ ↦ Unit {0}
  | panic ↦ Unit {0}
]

abbrev pub Steady : Result Refusal Client → Type 0
Steady (ok c) = IsSteady c
Steady (err _) = ⊥
Steady panic = ⊥

disconnect_from-IsSteady :
    (p : Phase) (preserve : Bool) (c : Client)
    → c.state ≡ p
    → IsSteady c
    → IsSteady (disconnect_from p preserve c)
unfolding clear_credentials
disconnect_from-IsSteady Phase.new preserve c e h = ground (arith, e, h)
disconnect_from-IsSteady Phase.connecting preserve c e h = ground (arith, e, h)
disconnect_from-IsSteady Phase.tunnel_up preserve c e h = ground (arith, e, h)
disconnect_from-IsSteady Phase.disconnecting preserve c e h = h
disconnect_from-IsSteady Phase.disconnected true c e h = h
disconnect_from-IsSteady Phase.disconnected false c e h = h

pub disconnect-IsSteady :
    (preserve : Bool) (c : Client) → IsSteady c → IsSteady (disconnect preserve c)
unfolding disconnect
disconnect-IsSteady true c h = disconnect_from-IsSteady c.state true c refl h
disconnect-IsSteady false c h =
    disconnect_from-IsSteady c.state false (record c { clear_on_cleanup = true }) refl h

monitor_ended-IsSteady : (r : Reason) (c : Client) → IsSteady c → IsSteady (monitor_ended r c)
unfolding monitor_ended clear_credentials
monitor_ended-IsSteady Reason.session_expired c h = h
monitor_ended-IsSteady Reason.other_reason c h = h

-- With no teardown waiting, or one whose turn it is.
teardown-Steady :
    (p : Phase) (has_index : Bool) (n : ℕ) (c : Client)
    → Counts p c.done_closed n c.ending
    → n ≡ c.waiting
    → c.state ≡ p
    → IsSteady c
    → Steady (kept c (teardown has_index n c))
unfolding teardown clear_credentials
teardown-Steady p has_index zero c k e s h = h
teardown-Steady Phase.disconnecting has_index (suc n) c k e s h = ground (arith, k)
teardown-Steady Phase.new has_index (suc n) c k e s h = absurd (omega arith)
teardown-Steady Phase.connecting has_index (suc n) c k e s h = absurd (omega arith)
teardown-Steady Phase.tunnel_up has_index (suc n) c k e s h = absurd (omega arith)
teardown-Steady Phase.disconnected has_index (suc n) c k e s h = absurd (omega arith)

close_done-Steady :
    (p : Phase) (n : ℕ) (c : Client)
    → Counts p c.done_closed c.waiting n
    → c.state ≡ p
    → IsSteady c
    → Steady (kept c (close_done n c))
unfolding close_done
close_done-Steady p zero c k s h = h
close_done-Steady Phase.disconnected (suc n) c k s h = ground (arith, k, s)
close_done-Steady Phase.new (suc n) c k s h = absurd (omega arith)
close_done-Steady Phase.connecting (suc n) c k s h = absurd (omega arith)
close_done-Steady Phase.tunnel_up (suc n) c k s h = absurd (omega arith)
close_done-Steady Phase.disconnecting (suc n) c k s h = absurd (omega arith)

start_phase1-Steady :
    (p : Phase) (aws : Bool) (c : Client)
    → c.state ≡ p
    → IsSteady c
    → Steady (kept c (start_phase1 p aws c))
unfolding start_phase1
start_phase1-Steady Phase.new aws c e h = ground (arith, e, h)
start_phase1-Steady Phase.connecting aws c e h = h
start_phase1-Steady Phase.tunnel_up aws c e h = h
start_phase1-Steady Phase.disconnecting aws c e h = h
start_phase1-Steady Phase.disconnected aws c e h = h

check_phase2-Steady :
    (p : Phase) (challenge : Option Bytes) (c : Client)
    → IsSteady c
    → Steady (kept c (check_phase2 p challenge c))
unfolding check_phase2
check_phase2-Steady Phase.connecting none c h = h
check_phase2-Steady Phase.connecting (some state_id) c h = h
check_phase2-Steady Phase.new challenge c h = h
check_phase2-Steady Phase.tunnel_up challenge c h = h
check_phase2-Steady Phase.disconnecting challenge c h = h
check_phase2-Steady Phase.disconnected challenge c h = h

-- The later sections of connectPhase2, wherever it stands.
phase2-Steady :
    (at : Phase2) (token : Bytes) (expiry : Option ℕ) (c : Client)
    → IsSteady c
    → Steady (kept c (cache_token at token expiry c))
      × Steady (kept c (open_channel at c))
      × Steady (kept c (capture_secrets at c))
unfolding cache_token open_channel capture_secrets
phase2-Steady Phase2.idle token expiry c h = (h, h, h)
phase2-Steady Phase2.opened_channel token expiry c h = (h, h, h)
phase2-Steady (Phase2.has_checked state_id) token expiry c h = (h, h, h)
phase2-Steady (Phase2.has_cached state_id) token expiry c h = (h, h, h)

step-Steady : (e : Event) (c : Client) → IsSteady c → Allowed c e → Steady (kept c (step e c))
unfolding step set_disconnected link_failed reset set_relay_phase2 clear_credentials
step-Steady (Event.connect aws) c h a = h
step-Steady (Event.phase1 aws) c h a = start_phase1-Steady c.state aws c refl h
step-Steady (Event.challenged state_id ip) c h a = h
step-Steady Event.phase2 c h a = check_phase2-Steady c.state c.challenge c h
step-Steady (Event.token text expiry) c h a = (phase2-Steady c.phase2_at text expiry c h).0
step-Steady Event.channel c h a = (phase2-Steady c.phase2_at [] none c h).1
step-Steady Event.secrets c h a = (phase2-Steady c.phase2_at [] none c h).2
step-Steady (Event.pushed auth) c h a = h
step-Steady (Event.failed r) c h a = ground (arith, h, a)
step-Steady (Event.up held) c h a = ground (arith, h, a)
step-Steady (Event.disconnect_call preserve) c h a = disconnect-IsSteady preserve c h
step-Steady (Event.monitor r) c h a = monitor_ended-IsSteady r c h
step-Steady Event.link c h a = h
step-Steady (Event.torn has_index) c h a =
    teardown-Steady c.state has_index c.waiting c h refl refl h
step-Steady Event.close_channel c h a = close_done-Steady c.state c.ending c h refl h
step-Steady Event.reset_call c h a = closed c.state h a
  where
    closed :
        (p : Phase)
        → Counts p c.done_closed c.waiting c.ending
        → c.done_closed ≡ true
        → IsSteady (reset c)
    closed Phase.disconnected k e = ground (arith, k, e)
    closed Phase.new k e = ground (arith, k, e)
    closed Phase.connecting k e = ground (arith, k, e)
    closed Phase.tunnel_up k e = ground (arith, k, e)
    closed Phase.disconnecting k e = ground (arith, k, e)
step-Steady (Event.relay_phase2 ip state_id aws) c h a = ground (arith, h, a)

run-Steady :
    (events : List Event) (c : Client) → IsSteady c → IsOrderly c events → Steady (run events c)
unfolding run
run-Steady [] c h o = h
run-Steady (e ∷ events) c h o =
    behind (kept c (step e c)) (step-Steady e c h o.0) o.1 (λ c' k p. run-Steady events c' k p)
  where
    behind :
        (r : Result Refusal Client)
        → Steady r
        → elim r as (λ _. Type 0) [
          | ok c' ↦ IsOrderly c' events
          | err _ ↦ Unit {0}
          | panic ↦ Unit {0}
        ]
        → ((c' : Client) → IsSteady c' → IsOrderly c' events → Steady (run events c'))
        → Steady (r >>= λ c'. run events c')
    behind (ok c') k p next = next c' k p
    behind (err _) k p next = k
    behind panic k p next = k

-- From a new client on, no step panics, if what a connection attempt reports comes only while its state is
-- connecting, SetRelayPhase2 only to a new client, and reset only when doneCh is closed. In the state that
-- is reached doneCh is closed only if the client is disconnected and no teardown is left, and one teardown
-- at most is under way.
pub run-IsSteady :
    (events : List Event)
    → IsOrderly new_client events
    → (c : Client) × (run events new_client ≡ ok c) × IsSteady c
run-IsSteady events o =
    result (run events new_client) refl (run-Steady events new_client (refl, refl, refl) o)
  where
    result :
        (r : Result Refusal Client)
        → run events new_client ≡ r
        → Steady r
        → (c : Client) × (run events new_client ≡ ok c) × IsSteady c
    result (ok c) p h = (c, p, h)
    result (err _) p h = absurd h
    result panic p h = absurd h
