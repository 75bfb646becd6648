-- ===== src/Reliable/SendQueue/Order.antt =====
-- The packet IDs in the send queue rise from the front to the back, and stay below the next one.
use go_openlawsvpn.Base.{
  ℕ, suc, ◌+◌, ◌%◌, ◌^◌, ◌≤◌, ◌<◌, ◌≡◌, refl, arith, inl, inr, Bool-cases, List, [], ◌∷◌, ◌++◌,
  ◌==◌, Bytes, ℤ,
}
use go_openlawsvpn.Reliable.SendQueue.{
  Entry, SendQueue, new_send_queue, new_entry, enqueue, remove_first, ack, ack_many, retransmitted,
  retransmit_loop, due_for_retransmit,
}

abbrev pub ids : List Entry → List ℕ
ids [] = []
ids (e ∷ es) = e.packet_id ∷ ids es

-- From `lo` on, rising, and below `hi`.
abbrev pub Rising : ℕ → ℕ → List ℕ → Type 0
Rising lo hi [] = lo ≤ hi
Rising lo hi (x ∷ xs) = (lo ≤ x) × Rising (suc x) hi xs

abbrev pub IsOrdered : SendQueue → Type 0
IsOrdered q = Rising 0 q.next_id (ids q.entries)

Rising-le : (lo hi : ℕ) (xs : List ℕ) → Rising lo hi xs → lo ≤ hi
Rising-le lo hi [] r = r
Rising-le lo hi (x ∷ xs) (h, r) = omega (arith, Rising-le (suc x) hi xs r)

Rising-weaken : (lo lo' hi : ℕ) (xs : List ℕ) → lo' ≤ lo → Rising lo hi xs → Rising lo' hi xs
Rising-weaken lo lo' hi [] h r = omega arith
Rising-weaken lo lo' hi (x ∷ xs) h (l, r) = (omega arith, r)

Rising-snoc :
    (lo hi : ℕ) (es : List Entry) (e : Entry)
    → e.packet_id ≡ hi
    → Rising lo hi (ids es)
    → Rising lo (suc hi) (ids (es ++ (e ∷ [])))
Rising-snoc lo hi [] e same r = omega arith
Rising-snoc lo hi (d ∷ es) e same (l, r) = (l, Rising-snoc (suc d.packet_id) hi es e same r)

pub new_send_queue-IsOrdered : (first : ℕ) → IsOrdered (new_send_queue first)
unfolding new_send_queue
new_send_queue-IsOrdered first = omega arith

-- `Enqueue` keeps the order, as long as the packet ID does not wrap.
pub enqueue-IsOrdered :
    (q : SendQueue) (now : ℤ) (payload : Bytes)
    → q.next_id + 1 < 2 ^ 32
    → IsOrdered q
    → IsOrdered (enqueue q now payload).0
unfolding enqueue
enqueue-IsOrdered q now payload h v =
    let e : (q.next_id + 1) % 2 ^ 32 ≡ suc q.next_id = omega arith in
    rw e (Rising-snoc 0 q.next_id q.entries (new_entry q.next_id payload now) refl v)

remove_first-Rising :
    (id lo hi : ℕ) (es : List Entry)
    → Rising lo hi (ids es)
    → Rising lo hi (ids (remove_first id es))
unfolding remove_first
remove_first-Rising id lo hi [] r = r
remove_first-Rising id lo hi (e ∷ es) (l, r) = elim (Bool-cases (e.packet_id == id)) [
  | inl same ↦ rw same (Rising-weaken (suc e.packet_id) lo hi (ids es) (omega arith) r)
  | inr other ↦ rw other (l, remove_first-Rising id (suc e.packet_id) hi es r)
]

pub ack-IsOrdered : (q : SendQueue) (id : ℕ) → IsOrdered q → IsOrdered (ack q id)
unfolding ack
ack-IsOrdered q id v = remove_first-Rising id 0 q.next_id q.entries v

pub ack_many-IsOrdered : (q : SendQueue) (acks : List ℕ) → IsOrdered q → IsOrdered (ack_many q acks)
unfolding ack_many
ack_many-IsOrdered q [] v = v
ack_many-IsOrdered q (id ∷ acks) v = ack_many-IsOrdered (ack q id) acks (ack-IsOrdered q id v)

ids-retransmit_loop : (now : ℤ) (es : List Entry) → ids (retransmit_loop now es).0 ≡ ids es
unfolding retransmit_loop retransmitted
ids-retransmit_loop now [] = refl
ids-retransmit_loop now (e ∷ es) = ground (arith, ids-retransmit_loop now es)

pub due_for_retransmit-IsOrdered :
    (q : SendQueue) (now : ℤ) → IsOrdered q → IsOrdered (due_for_retransmit q now).0
unfolding due_for_retransmit
due_for_retransmit-IsOrdered q now v = rw (ids-retransmit_loop now q.entries) v

-- Every operation of the queue keeps the packet IDs rising and below the next one, `Enqueue` as long as
-- the ID does not wrap.
pub operations_keep_order :
    (q : SendQueue) (now : ℤ) (payload : Bytes) (acks : List ℕ)
    → IsOrdered q
    → q.next_id + 1 < 2 ^ 32
    → IsOrdered (enqueue q now payload).0
      × IsOrdered (ack_many q acks)
      × IsOrdered (due_for_retransmit q now).0
operations_keep_order q now payload acks v h = (
  enqueue-IsOrdered q now payload h v,
  ack_many-IsOrdered q acks v,
  due_for_retransmit-IsOrdered q now v,
)
