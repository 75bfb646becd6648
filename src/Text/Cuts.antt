-- ===== src/Text/Cuts.antt =====
-- A text is what it was cut into, and without a byte there is nothing to cut.
use go_openlawsvpn.Base.{
  ℕ, ◌≡◌, refl, sym, arith, Bool-cases, inl, inr, false, [], ◌∷◌, ◌++◌, ◌==◌, ==_refl, Bytes,
  Option, none, some,
}
use go_openlawsvpn.Text.{cut_at, cut_at_pair, after_prefix, trim_right, unless_blank}
use go_openlawsvpn.Text.Laws.{cut_at-eq-none}

pub after_prefix-eq-some :
    (prefix s : Bytes) {rest : Bytes} → after_prefix prefix s ≡ some rest → s ≡ prefix ++ rest
unfolding after_prefix
after_prefix-eq-some [] s h = ground (arith, h)
after_prefix-eq-some (p ∷ prefix) [] h = cc
after_prefix-eq-some (p ∷ prefix) (c ∷ s) h = elim (Bool-cases (p == c)) [
  | inl same ↦
      let tail = after_prefix-eq-some prefix s (rw same at h) in
      let head : p ≡ c = ground (arith, same) in rw (head, tail) refl
  | inr other ↦ ground (arith, other, h)
]

-- What stands in front of the first separator does not contain it.
pub cut_at-front :
    (sep : ℕ) (s : Bytes) {a b : Bytes} → cut_at sep s ≡ some (a, b) → cut_at sep a ≡ none
unfolding cut_at
cut_at-front sep [] h = cc
cut_at-front sep (c ∷ s) {a} {b} h = elim (Bool-cases (c == sep)) [
  | inl found ↦ here (rw found at h)
  | inr other ↦ later other (cut_at sep s) (λ x y e. cut_at-front sep s e) (rw other at h)
]
  where
    here : ◌≡◌ {A = Option (Bytes × Bytes)} (some ([], s)) (some (a, b)) → cut_at sep a ≡ none
    here k = let empty : [] ≡ a = ground (arith, k) in rw (sym empty) refl

    later :
        (c == sep) ≡ false
        → (o : Option (Bytes × Bytes)) → ((x y : Bytes) → o ≡ some (x, y) → cut_at sep x ≡ none)
        → elim o as (λ _. Option (Bytes × Bytes)) [ none ↦ none | some (x, y) ↦ some (c ∷ x, y) ]
          ≡ some (a, b)
        → cut_at sep a ≡ none
    later other none ih k = cc
    later other (some (x, y)) ih k =
        let front : c ∷ x ≡ a = ground (arith, k) in rw (sym front) (rw (other, ih x y refl) refl)

pub trim_right-without : (cut : ℕ) (s : Bytes) → cut_at cut s ≡ none → trim_right cut s ≡ s
unfolding trim_right
trim_right-without cut [] h = refl
trim_right-without cut (c ∷ s) h =
    let (other, rest) = cut_at-eq-none cut c s h in
    rw (trim_right-without cut s rest) (kept s other)
  where
    kept : (t : Bytes) → (c == cut) ≡ false → unless_blank cut c t ≡ c ∷ t
    kept [] other = rw other refl
    kept (d ∷ t) other = refl

-- No separator, no two of them, not even at the end.
pub cut_at_pair-without :
    (sep : ℕ) (s : Bytes) → cut_at sep s ≡ none → cut_at_pair sep (s ++ (sep ∷ [])) ≡ none
unfolding cut_at_pair
cut_at_pair-without sep [] h = rw (==_refl sep) refl
cut_at_pair-without sep (c ∷ s) h =
    let (other, rest) = cut_at-eq-none sep c s h in rw (other, cut_at_pair-without sep s rest) refl
