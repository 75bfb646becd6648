-- ===== src/Reliable/SendQueue/Acks.antt =====
-- AckMany leaves exactly the entries that are not acknowledged.
use go_openlawsvpn.Base.{
  ℕ, suc, ◌<◌, ◌≡◌, refl, ap, ◌∙◌, sym, arith, Bool, false, ◌||◌, inl, inr, Bool-cases, List, [],
  ◌∷◌, ◌==◌, ==_iff, if◌then◌else◌,
}
use go_openlawsvpn.Reliable.SendQueue.{Entry, SendQueue, remove_first, ack, ack_many}
use go_openlawsvpn.Reliable.SendQueue.Order.{ids, Rising, IsOrdered, ack-IsOrdered}

abbrev pub contains : List ℕ → ℕ → Bool
contains [] id = false
contains (x ∷ xs) id = (x == id) || contains xs id

-- The entries whose packet ID is not among `acks`, in their order.
abbrev pub without : List ℕ → List Entry → List Entry
without acks [] = []
without acks (e ∷ es) = if contains acks e.packet_id then without acks es else e ∷ without acks es

-- Above a rising bound nothing equals the ID that was cut out.
without_one-id :
    (id lo hi : ℕ) (es : List Entry) → id < lo → Rising lo hi (ids es) → without (id ∷ []) es ≡ es
without_one-id id lo hi [] h r = refl
without_one-id id lo hi (e ∷ es) h (l, r) =
    ground (arith, without_one-id id (suc e.packet_id) hi es (omega arith) r)

remove_first-without :
    (id lo hi : ℕ) (es : List Entry)
    → Rising lo hi (ids es)
    → remove_first id es ≡ without (id ∷ []) es
unfolding remove_first
remove_first-without id lo hi [] r = refl
remove_first-without id lo hi (e ∷ es) (l, r) = elim (Bool-cases (e.packet_id == id)) [
  | inl same ↦
      let eq = (==_iff e.packet_id id).0 same in
      ground (arith, same, eq, without_one-id id (suc e.packet_id) hi es (omega arith) r)
  | inr other ↦ ground (arith, other, remove_first-without id (suc e.packet_id) hi es r)
]

without-without :
    (id : ℕ) (acks : List ℕ) (es : List Entry)
    → without acks (without (id ∷ []) es) ≡ without (id ∷ acks) es
without-without id acks [] = refl
without-without id acks (e ∷ es) = elim (Bool-cases (id == e.packet_id)) [
  | inl same ↦ rw same (without-without id acks es)
  | inr other ↦ ground (arith, other, without-without id acks es)
]

without_nothing : (es : List Entry) → without [] es ≡ es
without_nothing [] = refl
without_nothing (e ∷ es) = ap (λ l. e ∷ l) (without_nothing es)

-- With the packet IDs in order, `AckMany` removes exactly the entries whose IDs are acknowledged,
-- whatever the list of IDs (repeated, unordered, or unknown), and keeps the order of the others and the
-- next ID.
ack_many-without :
    (q : SendQueue) (acks : List ℕ)
    → IsOrdered q
    → ack_many q acks ≡ record q { entries = without acks q.entries }
unfolding ack_many
ack_many-without q [] v = ap (λ es. record q { entries = es }) (sym (without_nothing q.entries))
ack_many-without q (id ∷ acks) v =
    ack_many-without (ack q id) acks (ack-IsOrdered q id v)
    ∙ unfold ack in
      ap (λ es. record q { entries = es })
        (ap (without acks) (remove_first-without id 0 q.next_id q.entries v)
          ∙ without-without id acks q.entries)
