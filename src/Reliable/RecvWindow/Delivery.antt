-- ===== src/Reliable/RecvWindow/Delivery.antt =====
-- The receive window delivers the peer's payloads in order, without a gap, each once.
use go_openlawsvpn.Base.{
  ℕ, ◌+◌, ◌-◌, ◌%◌, ◌^◌, ◌≤◌, ◌<◌, ◌≡◌, refl, arith, inl, inr, ◌⊎◌, Bool-cases, List, [], ◌∷◌, ◌++◌,
  ◌==◌, ==_iff, none, some, Bytes, All, ltb, leb, ltb_false→le, leb_false→lt, ==_refl, min,
}
use go_openlawsvpn.Reliable.RecvWindow.{
  RecvWindow, window_size, update, deliver, receive, new_recv_window_from,
}
use go_openlawsvpn.Reliable.RecvWindow.Window.{
  id_limit, segment, segment-append, Holds, Delivered, deliver-Delivered,
}

-- A window that holds only packets of the peer, not yet delivered and within eight of the expected
-- one; the expected one itself is missing.
pub record IsValid (f : ℕ → Bytes) (w : RecvWindow) : Type 0 where
  pub below : w.expected ≤ id_limit
  pub holds : Holds f (w.expected + window_size) w
  pub below_limit : Holds f id_limit w
  pub missing : w.pending w.expected ≡ none

pub new_recv_window_from-IsValid :
    (f : ℕ → Bytes) (start : ℕ) → start ≤ id_limit → IsValid f (new_recv_window_from start)
unfolding new_recv_window_from
new_recv_window_from-IsValid f start h = record {
  below = h;
  holds = λ i p e. cc;
  below_limit = λ i p e. cc;
  missing = refl;
}

abbrev store : RecvWindow → ℕ → Bytes → RecvWindow
store w id payload = record w { pending = update w.pending id (some payload) }

store-Holds :
    (f : ℕ → Bytes) (w : RecvWindow) (id top : ℕ)
    → Holds f top w
    → w.expected ≤ id
    → id < top
    → Holds f top (store w id (f id))
store-Holds f w id top h lo hi i p e = elim (Bool-cases (i == id)) [
  | inl same ↦
      let e' = (==_iff i id).0 same in
      let payload : some (f id) ≡ some p = rw same at e in
      (ground (arith, payload, e'), omega arith, omega arith)
  | inr other ↦ h i p (rw other at e)
]

-- What one call of `Receive` on the peer's packet `id` does to a valid window.
pub record Received (f : ℕ → Bytes) (w : RecvWindow) (id : ℕ) (w' : RecvWindow) (ps : List Bytes)
    (acks : List ℕ) : Type 0 where
  pub valid : IsValid f w'
  pub grows : w.expected ≤ w'.expected
  pub output : ps ≡ segment f w.expected (w'.expected - w.expected)
  pub kept :
      (i : ℕ) (p : Bytes) → w.pending i ≡ some p → (i < w'.expected) ⊎ (w'.pending i ≡ some p)
  pub acked :
      (acks ≡ []) ⊎ ((acks ≡ id ∷ []) × ((id < w'.expected) ⊎ (w'.pending id ≡ some (f id))))

dropped : (f : ℕ → Bytes) (w : RecvWindow) (id : ℕ) → IsValid f w → Received f w id w [] []
dropped f w id v = record {
  valid = v;
  grows = omega arith;
  output = let z : w.expected - w.expected ≡ 0 = omega arith in rw z;
  kept = λ i p e. inr e;
  acked = inl refl;
}

-- Storing the peer's packet again changes nothing.
store-kept :
    (f : ℕ → Bytes) (w : RecvWindow) (id i : ℕ) (p : Bytes)
    → IsValid f w
    → w.pending i ≡ some p
    → (store w id (f id)).pending i ≡ some p
store-kept f w id i p v e = elim (Bool-cases (i == id)) [
  | inl same ↦ rw same (ground (arith, (v.holds i p e).0, (==_iff i id).0 same))
  | inr other ↦ rw other e
]

abbrev top_of : RecvWindow → ℕ
top_of w = min (w.expected + window_size) id_limit

accepted :
    (f : ℕ → Bytes) (w : RecvWindow) (id : ℕ) (w' : RecvWindow) (ps : List Bytes)
    → IsValid f w
    → Delivered f (top_of w) (store w id (f id)) w' ps
    → Received f w id w' ps (id ∷ [])
accepted f w id w' ps v d = record {
  valid = record {
    below = d.below;
    holds = λ i p e. let (same, lo, hi) = d.holds i p e in (same, lo, omega (arith, d.grows));
    below_limit = λ i p e. let (same, lo, hi) = d.holds i p e in (same, lo, omega arith);
    missing = d.stopped;
  };
  grows = d.grows;
  output = d.output;
  kept = λ i p e. d.kept i p (store-kept f w id i p v e);
  acked = inr (refl, d.kept id (f id) (rw ==_refl));
}

store-Delivered :
    (f : ℕ → Bytes) (w : RecvWindow) (id : ℕ)
    → IsValid f w
    → w.expected ≤ id
    → id < w.expected + window_size
    → id < id_limit
    → let out = deliver (window_size + 1) (store w id (f id)) in
      Delivered f (top_of w) (store w id (f id)) out.0 out.1
store-Delivered f w id v lo hi small =
    deliver-Delivered f (top_of w) (window_size + 1) (store w id (f id)) (omega arith) v.below
      (store-Holds f w id (top_of w)
        (λ i p e.
          let (same, l, h) = v.holds i p e in (same, l, omega (arith, (v.below_limit i p e).2)))
        lo (omega arith))
      (omega arith)

pub receive-Received :
    (f : ℕ → Bytes) (w : RecvWindow) (id : ℕ)
    → IsValid f w
    → id < id_limit
    → let out = receive w id (f id) in Received f w id out.0 out.1 out.2
unfolding receive
receive-Received f w id v small = elim (Bool-cases (ltb id w.expected)) [
  | inl behind ↦ rw behind (dropped f w id v)
  | inr here ↦ elim (Bool-cases (leb ((w.expected + window_size) % 2 ^ 32) id)) [
    | inl ahead ↦ rw (here, ahead) (dropped f w id v)
    | inr inside ↦
        rw (here, inside)
          (accepted f w id _ _ v (
            store-Delivered f w id v (ltb_false→le _ _ here)
              (omega (arith, leb_false→lt _ _ inside, v.below)) small))
  ]
]

-- The calls of `Receive` on the peer's packets with these IDs, in this order, and all payloads that
-- they deliver.
unfoldable pub receive_all : (ℕ → Bytes) → RecvWindow → List ℕ → RecvWindow × List Bytes
receive_all f w [] = (w, [])
receive_all f w (id ∷ ids) =
    let (w', ps, _) = receive w id (f id) in let (w'', qs) = receive_all f w' ids in (w'', ps ++ qs)

receive_all-Received :
    (f : ℕ → Bytes) (w : RecvWindow) (ids : List ℕ)
    → IsValid f w
    → All (λ id. id < id_limit) ids
    → let (w', ps) = receive_all f w ids in
      (w.expected ≤ w'.expected)
      × (ps ≡ segment f w.expected (w'.expected - w.expected))
      × IsValid f w'
unfolding receive_all
receive_all-Received f w [] v h =
    let z : w.expected - w.expected ≡ 0 = omega arith in (omega arith, rw z, v)
receive_all-Received f w (id ∷ ids) v (hid, hids) =
    let r = receive-Received f w id v hid in
    let w' = (receive w id (f id)).0 in
    let (grows, output, valid) = receive_all-Received f w' ids r.valid hids in
    let w'' = (receive_all f w' ids).0 in
    let middle : w.expected + (w'.expected - w.expected) ≡ w'.expected = omega (arith, r.grows) in
    let total : (w'.expected - w.expected) + (w''.expected - w'.expected)
        ≡ w''.expected - w.expected =
      omega (arith, r.grows, grows) in
    (
      omega (arith, r.grows, grows),
      rw (r.output, output)
          (rw (middle, total) at
            (segment-append f w.expected (w'.expected - w.expected) (w''.expected - w'.expected))),
      valid,
    )

-- From a new window that expects `start`, whatever packets of the peer arrive, in whatever order and
-- however often, the payloads delivered are those of `start`, `start + 1` and so on up to the ID then
-- expected: in order, without a gap, each once. (IDs stay below the range where they wrap.)
pub receive_all_in_order :
    (f : ℕ → Bytes) (start : ℕ) (ids : List ℕ)
    → start ≤ id_limit
    → All (λ id. id < id_limit) ids
    → let (w, ps) = receive_all f (new_recv_window_from start) ids in
      (start ≤ w.expected) × (ps ≡ segment f start (w.expected - start))
receive_all_in_order f start ids hs h =
    let r =
      receive_all-Received f (new_recv_window_from start) ids
        (new_recv_window_from-IsValid f start hs) h in
    unfold new_recv_window_from in (r.0, r.1)
