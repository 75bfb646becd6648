-- ===== src/Reliable/RecvWindow/Wrap.antt =====
-- The receive window at the top of the packet ID range.
use go_openlawsvpn.Base.{ℕ, ◌-◌, ◌^◌, ◌≤◌, ◌≡◌, arith, [], Bytes, IsU32}
use go_openlawsvpn.Reliable.RecvWindow.{RecvWindow, window_size, receive}

-- Once the expected ID is within eight of 2^32 the upper bound of the window wraps round to a small
-- number, and `Receive` drops every packet, the expected one too, without an acknowledgement.
receive_stalls :
    (w : RecvWindow) (id : ℕ) (payload : Bytes)
    → 2 ^ 32 - window_size ≤ w.expected
    → IsU32 w.expected
    → IsU32 id
    → receive w id payload ≡ (w, [], [])
unfolding receive
receive_stalls w id payload lo hi h = ground arith
