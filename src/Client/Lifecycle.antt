-- ===== src/Client/Lifecycle.antt =====
-- client.go: the lifecycle of a Client, with each critical section of Connect, Disconnect, the monitors and
-- the goroutine of a teardown as a step. The transport and its session are left out.
pub mod Cleanup
pub mod Orderly
pub mod Races
pub mod Credentials
pub mod Forgotten
pub mod Rekey
pub mod Reconnect
mod Tests
use go_openlawsvpn.Base.{
  ℕ, zero, suc, Bool, true, false, ◌||◌, List, [], ◌∷◌, Option, none, some, if◌then◌else◌, Result,
  ok, err, panic, ◌>>=◌, Bytes, bytes_eq, map,
}
use go_openlawsvpn.Compress.{codes}
use go_openlawsvpn.Client.Lifecycle.Cleanup.{Resources, no_resources, cleanup}

pub data Phase : Type 0 where
  new connecting tunnel_up disconnecting disconnected : Phase

-- Whether the reason is a session that the server has ended.
pub data Reason : Type 0 where
  session_expired other_reason : Reason

-- Where the goroutine of connectPhase2 stands, with the state ID that it has read into a local variable: the
-- state is checked, the token is cached, or the data channel is open on a new connection.
pub data Phase2 : Type 0 where
  idle opened_channel : Phase2
  has_checked has_cached : Bytes → Phase2

-- `challenge` is the state ID of the challenge. `auth_token` is that of the pushed options, if there are
-- any. `waiting` counts the goroutines of teardowns that have not yet set the state, and `ending` those
-- that have, and have not yet closed doneCh.
pub record Client : Type 0 where
  pub state : Phase
  pub challenge : Option Bytes
  pub phase1_ip : Bytes
  pub cached_token : Bytes
  pub cached_expiry : Option ℕ
  pub cached_state_id : Bytes
  pub cached_phase1_ip : Bytes
  pub auth_token : Option Bytes
  pub has_tls_secrets : Bool
  pub clear_on_cleanup : Bool
  pub reauth_required : Bool
  pub done_err : Option Reason
  pub done_closed : Bool
  pub next_key_id : ℕ
  pub aws_format : Bool
  pub reconnect_count : ℕ
  pub resources : Resources
  pub phase2_at : Phase2
  pub waiting : ℕ
  pub ending : ℕ

abbrev pub new_client : Client
new_client = record {
  state = new;
  challenge = none;
  phase1_ip = [];
  cached_token = [];
  cached_expiry = none;
  cached_state_id = [];
  cached_phase1_ip = [];
  auth_token = none;
  has_tls_secrets = false;
  clear_on_cleanup = false;
  reauth_required = false;
  done_err = none;
  done_closed = false;
  next_key_id = 1;
  aws_format = false;
  reconnect_count = 0;
  resources = no_resources;
  phase2_at = idle;
  waiting = 0;
  ending = 0;
}

-- The calls that return an error.
pub data Refusal : Type 0 where
  wrong_state no_challenge not_running : Refusal

abbrev pub emptied : Option Bytes → Option Bytes
emptied none = none
emptied (some _) = some []

unfoldable pub clear_credentials : Client → Client
clear_credentials c = record c {
  cached_token = [];
  cached_expiry = none;
  cached_state_id = [];
  cached_phase1_ip = [];
  challenge = none;
  auth_token = emptied c.auth_token;
  has_tls_secrets = false;
}

-- `if c.doneErr == nil { c.doneErr = err }`
abbrev pub first_reason : Option Reason → Reason → Option Reason
first_reason none r = some r
first_reason (some old) r = some old

abbrev pub end_setup : Phase → Reason → Client → Client
end_setup disconnected r c = c
end_setup _ r c = record (clear_credentials c) {
  state = disconnected;
  done_err = first_reason c.done_err r;
  done_closed = true;
}

-- The test in the select keeps it from closing doneCh again.
unfoldable pub set_disconnected : Reason → Client → Client
unfolding clear_credentials
set_disconnected r c = end_setup c.state r c

abbrev pub disconnect_from : Phase → Bool → Client → Client
disconnect_from disconnecting preserve c = c
disconnect_from disconnected preserve c = if preserve then c else clear_credentials c
disconnect_from _ preserve c = record c { state = disconnecting; waiting = suc c.waiting }

abbrev pub marked : Bool → Client → Client
marked preserve c = if preserve then c else record c { clear_on_cleanup = true }

unfoldable pub disconnect : Bool → Client → Client
unfolding clear_credentials
disconnect preserve c = disconnect_from c.state preserve (marked preserve c)

-- The goroutine of a teardown from wg.Wait to the unlock. `has_index` tells whether the interface is found.
abbrev pub torn_down : Bool → Client → Client
torn_down has_index c =
    let cleaned = record c { resources = (cleanup has_index c.resources).0 } in
    let cleared = if c.clear_on_cleanup then clear_credentials cleaned else cleaned in
    record cleared { state = disconnected }

unfoldable pub teardown : Bool → ℕ → Client → Result Refusal Client
unfolding clear_credentials cleanup
teardown has_index zero c = err not_running
teardown has_index (suc n) c =
    ok (record (torn_down has_index c) { waiting = n; ending = suc c.ending })

-- `close(c.doneCh)` at its end, which panics on a closed channel.
unfoldable pub close_done : ℕ → Client → Result Refusal Client
close_done zero c = err not_running
close_done (suc n) c =
    if c.done_closed then panic else ok (record c { done_closed = true; ending = n })

-- The head of connectPhase1.
unfoldable pub start_phase1 : Phase → Bool → Client → Result Refusal Client
start_phase1 new aws c = ok (record c { state = connecting; aws_format = aws || c.aws_format })
start_phase1 _ aws c = err wrong_state

abbrev pub direct : Bytes
direct = codes "__direct__"

abbrev pub cache : Bytes → Option ℕ → Bytes → Client → Client
cache token expiry state_id c = record c {
  cached_token = token;
  cached_expiry = expiry;
  cached_state_id = if bytes_eq state_id direct then c.cached_state_id else state_id;
  cached_phase1_ip = c.phase1_ip;
}

-- The sections of connectPhase2. First it reads the state and the challenge.
unfoldable pub check_phase2 : Phase → Option Bytes → Client → Result Refusal Client
check_phase2 connecting (some state_id) c = ok (record c { phase2_at = has_checked state_id })
check_phase2 connecting none c = err no_challenge
check_phase2 _ challenge c = err wrong_state

-- It caches the token without a further look at the state.
unfoldable pub cache_token : Phase2 → Bytes → Option ℕ → Client → Result Refusal Client
cache_token (has_checked state_id) token expiry c =
    ok (record (cache token expiry state_id c) { phase2_at = has_cached state_id })
cache_token _ token expiry c = err not_running

-- It makes the data channel; a direct challenge needs no connection of its own.
unfoldable pub open_channel : Phase2 → Client → Result Refusal Client
open_channel (has_cached state_id) c = ok (record c {
  resources = record c.resources { data_ch = true };
  phase2_at = if bytes_eq state_id direct then idle else opened_channel;
})
open_channel _ c = err not_running

-- Behind the reset exchange on the new connection, without the mutex.
unfoldable pub capture_secrets : Phase2 → Client → Result Refusal Client
capture_secrets opened_channel c = ok (record c { has_tls_secrets = true; phase2_at = idle })
capture_secrets _ c = err not_running

-- The section at the end of sessionMonitorFor: an expired session clears the credentials. The call of
-- disconnect that follows is a step of its own.
unfoldable pub monitor_ended : Reason → Client → Client
unfolding clear_credentials
monitor_ended session_expired c = record (clear_credentials (record c { reauth_required = true })) {
  done_err = first_reason c.done_err session_expired;
}
monitor_ended other_reason c = record c { done_err = first_reason c.done_err other_reason }

-- The section at the end of keepaliveLoop, inactiveLoop and tunToWire, in front of their call of disconnect.
unfoldable pub link_failed : Client → Client
link_failed c = record c { done_err = first_reason c.done_err other_reason }

-- The cached credentials, reauthRequired, awsFormat and reconnectCount survive.
unfoldable pub reset : Client → Client
reset c = record c {
  state = new;
  challenge = none;
  auth_token = none;
  phase1_ip = [];
  resources = no_resources;
  done_err = none;
  done_closed = false;
  next_key_id = 1;
  has_tls_secrets = false;
  clear_on_cleanup = false;
}

unfoldable pub set_relay_phase2 : Bytes → Bytes → Bool → Client → Client
set_relay_phase2 remote_ip state_id aws c = record c {
  state = connecting;
  phase1_ip = remote_ip;
  challenge = some state_id;
  aws_format = aws || c.aws_format;
}

-- A critical section of some goroutine, or a write without the mutex. Connect begins with `connect`; its
-- parts report what the server sent, how they failed, which ends connectPhase2, or that the tunnel is up
-- with or without a TUN device.
pub data Event : Type 0 where
  connect : Bool → Event
  phase1 : Bool → Event
  challenged : Bytes → Bytes → Event
  phase2 : Event
  token : Bytes → Option ℕ → Event
  channel : Event
  secrets : Event
  pushed : Bytes → Event
  failed : Reason → Event
  up : Resources → Event
  disconnect_call : Bool → Event
  monitor : Reason → Event
  link : Event
  torn : Bool → Event
  close_channel : Event
  reset_call : Event
  relay_phase2 : Bytes → Bytes → Bool → Event

unfoldable pub step : Event → Client → Result Refusal Client
unfolding set_disconnected disconnect teardown close_done start_phase1 check_phase2 cache_token
    open_channel capture_secrets monitor_ended link_failed reset set_relay_phase2
step (connect aws) c = ok (record c { reauth_required = false; aws_format = aws })
step (phase1 aws) c = start_phase1 c.state aws c
step (challenged state_id ip) c = ok (record c { challenge = some state_id; phase1_ip = ip })
step phase2 c = check_phase2 c.state c.challenge c
step (Event.token text expiry) c = cache_token c.phase2_at text expiry c
step channel c = open_channel c.phase2_at c
step secrets c = capture_secrets c.phase2_at c
step (pushed auth) c = ok (record c { auth_token = some auth })
step (failed r) c = ok (set_disconnected r (record c { phase2_at = idle }))
step (up held) c =
    ok (record c { state = tunnel_up; resources = record held { data_ch = c.resources.data_ch } })
step (disconnect_call preserve) c = ok (disconnect preserve c)
step (monitor r) c = ok (monitor_ended r c)
step link c = ok (link_failed c)
step (torn has_index) c = teardown has_index c.waiting c
step close_channel c = close_done c.ending c
step reset_call c = ok (reset c)
step (relay_phase2 ip state_id aws) c = ok (set_relay_phase2 ip state_id aws c)

-- A refused call leaves the client as it was.
abbrev pub kept : Client → Result Refusal Client → Result Refusal Client
kept c (ok c') = ok c'
kept c (err _) = ok c
kept c panic = panic

unfoldable pub run : List Event → Client → Result Refusal Client
run [] c = ok c
run (e ∷ events) c = kept c (step e c) >>= λ c'. run events c'
