-- ===== src/Reliable/SendQueue.antt =====
-- SendQueue of internal/reliable/reliable.go. Times are nanoseconds; `now` is what time.Now returns.
pub mod Order
pub mod Acks
pub mod Retransmit
mod Tests
use go_openlawsvpn.Base.{
  ℕ, zero, suc, ◌+◌, ◌*◌, ◌%◌, ◌^◌, Bool, List, [], ◌∷◌, ◌++◌, length, ◌==◌, if◌then◌else◌, Bytes,
  ℤ, pos, ◌+ℤ◌, lt_ℤ, to_int64,
}

abbrev pub second : ℕ
second = 1_000_000_000

-- `2 * time.Second`
abbrev pub retransmit_timeout : ℕ
retransmit_timeout = 2 * second

pub record Entry : Type 0 where
  pub packet_id : ℕ
  pub payload : Bytes
  pub sent_at : ℤ
  pub retries : ℕ
  pub next_retry : ℤ

pub record SendQueue : Type 0 where
  pub entries : List Entry
  pub next_id : ℕ

unfoldable pub new_send_queue : ℕ → SendQueue
new_send_queue first_packet_id = record { entries = []; next_id = first_packet_id }

abbrev pub new_entry : ℕ → Bytes → ℤ → Entry
new_entry id payload now = record {
  packet_id = id;
  payload = payload;
  sent_at = now;
  retries = 0;
  next_retry = now +ℤ pos retransmit_timeout;
}

-- The new queue and the packet ID assigned. `nextID++` wraps.
unfoldable pub enqueue : SendQueue → ℤ → Bytes → SendQueue × ℕ
enqueue q now payload = (
  record {
    entries = q.entries ++ (new_entry q.next_id payload now ∷ []);
    next_id = (q.next_id + 1) % 2 ^ 32;
  },
  q.next_id,
)

-- The loop over `q.entries`: the first entry with this ID is cut out.
unfoldable pub remove_first : ℕ → List Entry → List Entry
remove_first id [] = []
remove_first id (e ∷ es) = if e.packet_id == id then es else e ∷ remove_first id es

unfoldable pub ack : SendQueue → ℕ → SendQueue
ack q id = record q { entries = remove_first id q.entries }

unfoldable pub ack_many : SendQueue → List ℕ → SendQueue
ack_many q [] = q
ack_many q (id ∷ ids) = ack_many (ack q id) ids

-- `RetransmitTimeout * (1 << e.Retries)` in int64, then capped at 30 s.
unfoldable pub backoff : ℕ → ℤ
backoff retries =
    let b = to_int64 (retransmit_timeout * 2 ^ retries) in
    if lt_ℤ (pos (30 * second)) b then pos (30 * second) else b

-- `now.After(e.NextRetry)`
abbrev pub is_due : ℤ → Entry → Bool
is_due now e = lt_ℤ e.next_retry now

-- The entry after another transmission at `now`: `Retries` is raised before the back-off is computed.
unfoldable pub retransmitted : ℤ → Entry → Entry
retransmitted now e = record e {
  retries = e.retries + 1;
  next_retry = now +ℤ backoff (e.retries + 1);
}

-- The loop of DueForRetransmit: the entries as they stand after it, and those that are due.
unfoldable pub retransmit_loop : ℤ → List Entry → List Entry × List Entry
retransmit_loop now [] = ([], [])
retransmit_loop now (e ∷ es) =
    let (es', due) = retransmit_loop now es in
    if is_due now e then (retransmitted now e ∷ es', retransmitted now e ∷ due) else (e ∷ es', due)

unfoldable pub due_for_retransmit : SendQueue → ℤ → SendQueue × List Entry
due_for_retransmit q now =
    let (es, due) = retransmit_loop now q.entries in (record q { entries = es }, due)

unfoldable pub len : SendQueue → ℕ
len q = length q.entries

unfoldable pub next_id : SendQueue → ℕ
next_id q = q.next_id
