-- ===== src/ControlTransport/Tests.antt =====
-- A sequence of calls on a new transport, and the theorem at it.
use go_openlawsvpn.Base.{◌≡◌, refl, false, List, [], ◌∷◌}
use go_openlawsvpn.ControlTransport.{new_control_transport, inject_inbound, read, read_chunk, close}
use go_openlawsvpn.ControlTransport.Stream.{Call, injects, reads, closes, run}

abbrev calls : List Call
calls =
    injects (1 ∷ 2 ∷ 3 ∷ [])
    ∷ reads 2 false
    ∷ injects (4 ∷ [])
    ∷ closes
    ∷ reads 5 false
    ∷ reads 5 false
    ∷ injects (5 ∷ [])
    ∷ []

-- What is in the channel is read after Close as well, and nothing is taken in then.
read_all : (run (new_control_transport 0) calls).2 ≡ 1 ∷ 2 ∷ 3 ∷ 4 ∷ []
unfolding new_control_transport inject_inbound read read_chunk close
read_all = refl
