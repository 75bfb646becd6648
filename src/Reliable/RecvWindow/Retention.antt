-- ===== src/Reliable/RecvWindow/Retention.antt =====
-- What the receive window acknowledges, and that it keeps what it has acknowledged.
use go_openlawsvpn.Base.{
  ℕ, ◌+◌, ◌^◌, ◌≤◌, ◌<◌, ◌≡◌, ◌↔◌, arith, inl, inr, ◌⊎◌, Bool-cases, List, [], ◌∷◌, ◌==◌, ==_iff,
  some, Bytes, All,
}
use go_openlawsvpn.Reliable.RecvWindow.{RecvWindow, window_size, receive}
use go_openlawsvpn.Reliable.RecvWindow.Window.{id_limit}
use go_openlawsvpn.Reliable.RecvWindow.Delivery.{IsValid, receive_all, receive-Received}

-- Where the window does not wrap, `Receive` acknowledges a packet exactly if its ID is one of the eight
-- from the expected one on. A packet that was delivered before is not acknowledged again.
receive_acks_iff :
    (w : RecvWindow) (id : ℕ) (payload : Bytes)
    → w.expected + window_size < 2 ^ 32
    → ((receive w id payload).2 ≡ id ∷ []) ↔ ((w.expected ≤ id) × (id < w.expected + window_size))
unfolding receive
receive_acks_iff w id payload h = (λ e. ground arith, λ r. ground arith)

-- A packet is delivered, or is held with the peer's payload behind a packet that is missing.
abbrev pub IsRetained : (ℕ → Bytes) → RecvWindow → ℕ → Type 0
IsRetained f w id = (id < w.expected) ⊎ ((w.pending id ≡ some (f id)) × (w.expected < id))

Retained_of_kept :
    (f : ℕ → Bytes) (w : RecvWindow) (id : ℕ)
    → IsValid f w
    → (id < w.expected) ⊎ (w.pending id ≡ some (f id))
    → IsRetained f w id
Retained_of_kept f w id v (inl lt) = inl lt
Retained_of_kept f w id v (inr e) = elim (Bool-cases (id == w.expected)) [
  | inl same ↦
      let at : w.pending w.expected ≡ some (f id) = rw (← (==_iff id w.expected).0 same) e in
      absurd (ground (arith, at, v.missing))
  | inr other ↦ let lo = (v.holds id (f id) e).1 in inr (e, ground (arith, other, lo))
]

receive_all-IsRetained :
    (f : ℕ → Bytes) (w : RecvWindow) (ids : List ℕ) (id : ℕ)
    → IsValid f w
    → All (λ i. i < id_limit) ids
    → IsRetained f w id
    → IsRetained f (receive_all f w ids).0 id
unfolding receive_all
receive_all-IsRetained f w [] id v h r = r
receive_all-IsRetained f w (i ∷ ids) id v (hi, hids) r =
    let got = receive-Received f w i v hi in
    receive_all-IsRetained f (receive w i (f i)).0 ids id got.valid hids (
      Retained_of_kept f _ id got.valid
        (elim r [ inl lt ↦ inl (omega (arith, got.grows)) | inr (e, _) ↦ got.kept id (f id) e ]))

-- A packet that `Receive` acknowledges is never lost: after any further arrivals of the peer's packets
-- it is delivered, or is held behind a missing packet. So the packet the window waits for is never one
-- that it has acknowledged.
pub acked-IsRetained :
    (f : ℕ → Bytes) (w : RecvWindow) (id : ℕ) (ids : List ℕ)
    → IsValid f w
    → id < id_limit
    → All (λ i. i < id_limit) ids
    → (receive w id (f id)).2 ≡ id ∷ []
    → IsRetained f (receive_all f (receive w id (f id)).0 ids).0 id
acked-IsRetained f w id ids v hid hids a =
    let got = receive-Received f w id v hid in
    receive_all-IsRetained f (receive w id (f id)).0 ids id got.valid hids (
      Retained_of_kept f _ id got.valid (elim got.acked [
        | inl no_acks ↦ absurd (ground (arith, no_acks, a))
        | inr (_, kept) ↦ kept
      ]))
