-- ===== src/Reliable/RecvWindow/Window.antt =====
-- What the delivery loop does with a window whose held packets lie within the window, below the range
-- where the packet ID would wrap.
use go_openlawsvpn.Base.{
  ℕ, zero, suc, ◌+◌, ◌-◌, ◌%◌, ◌^◌, ◌≤◌, ◌<◌, ◌≡◌, ◌≢◌, ap, arith, inl, inr, ◌⊎◌, Option-cases,
  Bool-cases, List, [], ◌∷◌, ◌++◌, ◌==◌, ==_iff, Option, none, some, Bytes,
}
use go_openlawsvpn.Reliable.RecvWindow.{RecvWindow, update, deliver}

-- Packet IDs below this bound do not wrap within the window.
abbrev pub id_limit : ℕ
id_limit = 2 ^ 32 - 9

-- The payloads that the peer sends as `start`, `start + 1`, and so on.
abbrev pub segment : (ℕ → Bytes) → ℕ → ℕ → List Bytes
segment f start zero = []
segment f start (suc n) = f start ∷ segment f (start + 1) n

pub segment-append :
    (f : ℕ → Bytes) (s m n : ℕ) → segment f s m ++ segment f (s + m) n ≡ segment f s (m + n)
segment-append f s zero n =
    let e : s + 0 ≡ s = omega arith in let z : 0 + n ≡ n = omega arith in rw (e, z)
segment-append f s (suc m) n =
    let e : s + suc m ≡ s + 1 + m = omega arith in
    let k : suc m + n ≡ suc (m + n) = omega arith in
    rw (e, k) (ap (λ l. f s ∷ l) (segment-append f (s + 1) m n))

-- Each held packet is the peer's, not yet delivered, and below `top`.
abbrev pub Holds : (ℕ → Bytes) → ℕ → RecvWindow → Type 0
Holds f top w =
    (i : ℕ) (p : Bytes) → w.pending i ≡ some p → (p ≡ f i) × (w.expected ≤ i) × (i < top)

-- From `w` the loop delivers the peer's payloads in order and without a gap, stops at the first ID that
-- is not held, and keeps the others.
pub record Delivered (f : ℕ → Bytes) (top : ℕ) (w w' : RecvWindow) (ps : List Bytes) : Type 0 where
  pub grows : w.expected ≤ w'.expected
  pub below : w'.expected ≤ id_limit
  pub output : ps ≡ segment f w.expected (w'.expected - w.expected)
  pub stopped : w'.pending w'.expected ≡ none
  pub holds : Holds f top w'
  pub kept :
      (i : ℕ) (p : Bytes) → w.pending i ≡ some p → (i < w'.expected) ⊎ (w'.pending i ≡ some p)

update-none :
    (m : ℕ → Option Bytes) (k i : ℕ) {p : Bytes}
    → update m k none i ≡ some p
    → (m i ≡ some p) × (i ≢ k)
update-none m k i e = ground arith

abbrev delivered_one : RecvWindow → RecvWindow
delivered_one w = record {
  expected = (w.expected + 1) % 2 ^ 32;
  pending = update w.pending w.expected none;
}

delivered_one-Holds :
    (f : ℕ → Bytes) (top : ℕ) (w : RecvWindow)
    → top ≤ id_limit
    → w.expected < top
    → Holds f top w
    → Holds f top (delivered_one w)
delivered_one-Holds f top w ht he h i p e =
    let (old, ne) = update-none w.pending w.expected i e in
    let (same, lo, hi) = h i p old in (same, omega arith, hi)

Delivered-stop :
    (f : ℕ → Bytes) (top : ℕ) (w : RecvWindow)
    → w.expected ≤ id_limit
    → Holds f top w
    → w.pending w.expected ≡ none
    → Delivered f top w w []
Delivered-stop f top w hw h e = record {
  grows = omega arith;
  below = hw;
  output = let z : w.expected - w.expected ≡ 0 = omega arith in rw z;
  stopped = e;
  holds = h;
  kept = λ i p e'. inr e';
}

kept_step :
    (w w' : RecvWindow) (i : ℕ) (p : Bytes)
    → w.expected < w'.expected
    → w.pending i ≡ some p
    → ((delivered_one w).pending i ≡ some p → (i < w'.expected) ⊎ (w'.pending i ≡ some p))
    → (i < w'.expected) ⊎ (w'.pending i ≡ some p)
kept_step w w' i p lt e ih = elim (Bool-cases (i == w.expected)) [
  | inl same ↦ inl (omega (arith, (==_iff i w.expected).0 same))
  | inr other ↦ ih (rw other e)
]

Delivered-step :
    (f : ℕ → Bytes) (top : ℕ) (w w' : RecvWindow) (p : Bytes) (ps : List Bytes)
    → top ≤ id_limit
    → w.expected < top
    → p ≡ f w.expected
    → Delivered f top (delivered_one w) w' ps
    → Delivered f top w w' (p ∷ ps)
Delivered-step f top w w' p ps ht he hp d =
    let one : (w.expected + 1) % 2 ^ 32 ≡ w.expected + 1 = omega arith in
    let lt : w.expected < w'.expected = omega (arith, d.grows) in
    let count : w'.expected - w.expected ≡ suc (w'.expected - (w.expected + 1)) = omega arith in
    record {
      grows = omega arith;
      below = d.below;
      output = rw (count, ← one, ← d.output, hp);
      stopped = d.stopped;
      holds = d.holds;
      kept = λ i q e. kept_step w w' i q lt e (d.kept i q);
    }

pub deliver-Delivered :
    (f : ℕ → Bytes) (top fuel : ℕ) (w : RecvWindow)
    → top ≤ id_limit
    → w.expected ≤ id_limit
    → Holds f top w
    → top < w.expected + fuel
    → Delivered f top w (deliver fuel w).0 (deliver fuel w).1
unfolding deliver
deliver-Delivered f top zero w ht hw h hf = elim (Option-cases (w.pending w.expected)) [
  | inl e ↦ Delivered-stop f top w hw h e
  | inr (p, e) ↦ absurd (omega (arith, (h w.expected p e).2))
]
deliver-Delivered f top (suc fuel) w ht hw h hf = elim (Option-cases (w.pending w.expected)) [
  | inl e ↦ rw (e, deliver) (Delivered-stop f top w hw h e)
  | inr (p, e) ↦
      let (same, _, inside) = h w.expected p e in
      rw (e, deliver)
        (Delivered-step f top w _ p _ ht inside same (
          deliver-Delivered f top fuel (delivered_one w) ht (omega arith)
            (delivered_one-Holds f top w ht inside h) (omega arith)))
]
