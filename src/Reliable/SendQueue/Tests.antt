-- ===== src/Reliable/SendQueue/Tests.antt =====
-- A queue of three packets, and the theorems at concrete inputs.
use go_openlawsvpn.Base.{ℕ, ◌≡◌, refl, arith, true, [], ◌∷◌, pos, lt_ℤ}
use go_openlawsvpn.Reliable.SendQueue.{
  Entry, SendQueue, enqueue, ack_many, due_for_retransmit, backoff,
}
use go_openlawsvpn.Reliable.SendQueue.Order.{IsOrdered, operations_keep_order}

abbrev entry : ℕ → ℕ → Entry
entry id deadline = record {
  packet_id = id;
  payload = 1 ∷ [];
  sent_at = pos 0;
  retries = 2;
  next_retry = pos deadline;
}

abbrev queue : SendQueue
queue = record { entries = entry 3 10 ∷ entry 4 90 ∷ entry 6 20 ∷ []; next_id = 7 }

operations_keep_order_example :
    IsOrdered (enqueue queue (pos 50) (8 ∷ [])).0
    × IsOrdered (ack_many queue (6 ∷ 3 ∷ []))
    × IsOrdered (due_for_retransmit queue (pos 50)).0
operations_keep_order_example =
    operations_keep_order queue (pos 50) (8 ∷ []) (6 ∷ 3 ∷ []) (omega arith) (omega arith)

-- 2 s times 2 ^ 33 does not fit an int64.
backoff_negative : lt_ℤ (backoff 33) (pos 0) ≡ true
unfolding backoff
backoff_negative = refl
