-- ===== src/Reliable/RecvWindow.antt =====
-- RecvWindow of internal/reliable/reliable.go. The map `pending` is a function of the packet ID.
pub mod Window
pub mod Delivery
pub mod Retention
pub mod Wrap
mod Tests
use go_openlawsvpn.Base.{
  ℕ, zero, suc, ◌+◌, ◌*◌, ◌%◌, ◌^◌, Bool, List, [], ◌∷◌, ◌++◌, ltb, leb, ◌==◌, if◌then◌else◌,
  Option, none, some, Bytes,
}

abbrev pub window_size : ℕ
window_size = 8

pub record RecvWindow : Type 0 where
  pub expected : ℕ
  pub pending : ℕ → Option Bytes

unfoldable pub new_recv_window_from : ℕ → RecvWindow
new_recv_window_from first_expected = record { expected = first_expected; pending = λ _. none }

unfoldable pub new_recv_window : RecvWindow
unfolding new_recv_window_from
new_recv_window = new_recv_window_from 0

-- `pending[id] = v`, or `delete(pending, id)` where `v` is `none`.
abbrev pub update : (ℕ → Option Bytes) → ℕ → Option Bytes → ℕ → Option Bytes
update m id v i = if i == id then v else m i

-- The loop that delivers consecutive packets. `pending` holds at most `window_size` IDs from
-- `expected` on, so one round more than that is enough (`Window.receive_head`).
unfoldable pub deliver : ℕ → RecvWindow → RecvWindow × List Bytes
deliver zero w = (w, [])
deliver (suc fuel) w = elim (w.pending w.expected) [
  | none ↦ (w, [])
  | some p ↦
      let (w', ps) = deliver fuel (record {
        expected = (w.expected + 1) % 2 ^ 32;
        pending = update w.pending w.expected none;
      }) in
      (w', p ∷ ps)
]

-- The new window, the payloads that are ready, and the IDs to acknowledge.
unfoldable pub receive : RecvWindow → ℕ → Bytes → RecvWindow × List Bytes × List ℕ
receive w packet_id payload =
    if ltb packet_id w.expected
    then (w, [], [])
    else if leb ((w.expected + window_size) % 2 ^ 32) packet_id
    then (w, [], [])
    else (let (w', payloads) =
          deliver (window_size + 1)
            (record w { pending = update w.pending packet_id (some payload) }) in
        (w', payloads, packet_id ∷ []))
