-- ===== src/Reliable/RecvWindow/Tests.antt =====
-- Arrivals out of order, and the theorems at concrete inputs.
use go_openlawsvpn.Base.{ℕ, ◌-◌, ◌^◌, ◌≤◌, ◌≡◌, refl, arith, none, Bytes, [], ◌∷◌}
use go_openlawsvpn.Reliable.RecvWindow.{RecvWindow, new_recv_window_from, receive, deliver}
use go_openlawsvpn.Reliable.RecvWindow.Window.{segment}
use go_openlawsvpn.Reliable.RecvWindow.Delivery.{
  receive_all, receive_all_in_order, new_recv_window_from-IsValid,
}
use go_openlawsvpn.Reliable.RecvWindow.Retention.{IsRetained, acked-IsRetained}

-- The peer's payload with a given ID.
abbrev sent : ℕ → Bytes
sent i = i ∷ []

out_of_order :
    (receive_all sent (new_recv_window_from 1) (2 ∷ 3 ∷ 3 ∷ 1 ∷ 12 ∷ 4 ∷ [])).1
    ≡ (1 ∷ []) ∷ (2 ∷ []) ∷ (3 ∷ []) ∷ (4 ∷ []) ∷ []
unfolding receive_all receive deliver new_recv_window_from
out_of_order = refl

receive_all_in_order_example :
    let (w, ps) = receive_all sent (new_recv_window_from 1) (2 ∷ 3 ∷ 1 ∷ []) in
    (1 ≤ w.expected) × (ps ≡ segment sent 1 (w.expected - 1))
receive_all_in_order_example =
    receive_all_in_order sent 1 (2 ∷ 3 ∷ 1 ∷ []) (omega arith) (omega arith)

acks-2 : (receive (new_recv_window_from 1) 2 (sent 2)).2 ≡ 2 ∷ []
unfolding receive deliver new_recv_window_from
acks-2 = refl

acked-IsRetained_example :
    IsRetained sent
      (receive_all sent (receive (new_recv_window_from 1) 2 (sent 2)).0 (4 ∷ 1 ∷ [])).0
      2
acked-IsRetained_example =
    acked-IsRetained sent (new_recv_window_from 1) 2 (4 ∷ 1 ∷ [])
      (new_recv_window_from-IsValid sent 1 (omega arith)) (omega arith) (omega arith) acks-2

abbrev at_the_top : RecvWindow
at_the_top = record { expected = 2 ^ 32 - 3; pending = λ _. none }
