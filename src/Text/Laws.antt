-- ===== src/Text/Laws.antt =====
-- Splitting at a byte undoes joining with it.
use go_openlawsvpn.Base.{
  ℕ, suc, ◌≡◌, ◌≢◌, refl, ap, ◌∙◌, arith, ◌&&◌, Bool-cases, inl, inr, false, List, [], ◌∷◌, ◌++◌,
  ◌==◌, ==_refl, Bytes, Option, none, some,
}
use go_openlawsvpn.Text.{
  split, split_n, cons_first, cut_at, cut_at_pair, starts_with, after_prefix, trim_right,
  unless_blank, is_empty,
}

cons_first-append :
    (c : ℕ) (xs ys : List Bytes) → xs ≢ [] → cons_first c (xs ++ ys) ≡ cons_first c xs ++ ys
cons_first-append c [] ys h = absurd (h refl)
cons_first-append c (x ∷ xs) ys h = refl

cons_first-ne-nil : (c : ℕ) (xs : List Bytes) → cons_first c xs ≢ []
cons_first-ne-nil c [] e = cc
cons_first-ne-nil c (x ∷ xs) e = cc

split-ne-nil : (sep : ℕ) (s : Bytes) → split sep s ≢ []
unfolding split
split-ne-nil sep [] e = cc
split-ne-nil sep (c ∷ s) e = elim (Bool-cases (c == sep)) [
  | inl found ↦ ground (arith, found, e)
  | inr other ↦ cons_first-ne-nil c (split sep s) (rw other at e)
]

pub split-append : (sep : ℕ) (a b : Bytes) → split sep (a ++ (sep ∷ b)) ≡ split sep a ++ split sep b
unfolding split
split-append sep [] b = rw (==_refl sep) refl
split-append sep (c ∷ a) b = elim (Bool-cases (c == sep)) [
  | inl found ↦ rw found (ap (λ l. [] ∷ l) (split-append sep a b))
  | inr other ↦ rw other (
      ap (cons_first c) (split-append sep a b)
      ∙ cons_first-append c (split sep a) (split sep b) (split-ne-nil sep a))
]

-- A text without the separator has none at its head, nor in its tail.
pub cut_at-eq-none :
    (sep c : ℕ) (s : Bytes)
    → cut_at sep (c ∷ s) ≡ none
    → ((c == sep) ≡ false) × (cut_at sep s ≡ none)
unfolding cut_at
cut_at-eq-none sep c s h = elim (Bool-cases (c == sep)) [
  | inl found ↦ ground (arith, found, h)
  | inr other ↦ (other, without (cut_at sep s) (rw other at h))
]
  where
    without :
        (o : Option (Bytes × Bytes))
        → elim o as (λ _. Option (Bytes × Bytes)) [ none ↦ none | some (x, y) ↦ some (c ∷ x, y) ]
          ≡ none
        → o ≡ none
    without none h = refl
    without (some _) h = ground (arith, h)

-- A text without the separator is one part.
pub split_one : (sep : ℕ) (s : Bytes) → cut_at sep s ≡ none → split sep s ≡ s ∷ []
unfolding split
split_one sep [] h = refl
split_one sep (c ∷ s) h =
    let (other, rest) = cut_at-eq-none sep c s h in
    rw other (ap (cons_first c) (split_one sep s rest))

same_pair :
    {a b x y : Bytes}
    → ◌≡◌ {A = Option (Bytes × Bytes)} (some (x, y)) (some (a, b))
    → (x ≡ a) × (y ≡ b)
same_pair h = ground (arith, h)

-- Cutting at the first separator, as SplitN does.
pub split_n-cut_at :
    (n sep : ℕ) (s : Bytes) {a b : Bytes}
    → cut_at sep s ≡ some (a, b)
    → split_n (suc n) sep s ≡ a ∷ split_n n sep b
unfolding split_n cut_at
split_n-cut_at n sep [] h = cc
split_n-cut_at n sep (c ∷ s) {a} {b} h = elim (Bool-cases (c == sep)) [
  | inl found ↦ ground (arith, found, h)
  | inr other ↦ rw other (later (cut_at sep s) (λ x y e. split_n-cut_at n sep s e) (rw other at h))
]
  where
    later :
        (o : Option (Bytes × Bytes))
        → ((x y : Bytes) → o ≡ some (x, y) → split_n (suc n) sep s ≡ x ∷ split_n n sep y)
        → elim o as (λ _. Option (Bytes × Bytes)) [ none ↦ none | some (x, y) ↦ some (c ∷ x, y) ]
          ≡ some (a, b)
        → cons_first c (split_n (suc n) sep s) ≡ a ∷ split_n n sep b
    later none ih k = cc
    later (some (x, y)) ih k =
        let (front, behind) = same_pair k in
        ap (cons_first c) (ih x y refl)
        ∙ ap (λ l. l ∷ split_n n sep y) front
        ∙ ap (λ l. a ∷ split_n n sep l) behind

-- A text without the separator, then the separator: that is where it is cut.
pub cut_at-append :
    (sep : ℕ) (a b : Bytes) → cut_at sep a ≡ none → cut_at sep (a ++ (sep ∷ b)) ≡ some (a, b)
unfolding cut_at
cut_at-append sep [] b h = rw (==_refl sep) refl
cut_at-append sep (c ∷ a) b h =
    let (other, rest) = cut_at-eq-none sep c a h in rw (other, cut_at-append sep a b rest) refl

pub after_prefix-append : (prefix s : Bytes) → after_prefix prefix (prefix ++ s) ≡ some s
unfolding after_prefix
after_prefix-append [] s = refl
after_prefix-append (p ∷ prefix) s = rw (==_refl p) (after_prefix-append prefix s)

pub trim_right-append : (cut : ℕ) (s : Bytes) → trim_right cut (s ++ (cut ∷ [])) ≡ trim_right cut s
unfolding trim_right
trim_right-append cut [] = rw (==_refl cut) refl
trim_right-append cut (c ∷ s) = ap (unless_blank cut c) (trim_right-append cut s)

unless_blank-cons : (cut c : ℕ) (s : Bytes) → is_empty s ≡ false → unless_blank cut c s ≡ c ∷ s
unless_blank-cons cut c [] h = cc
unless_blank-cons cut c (d ∷ s) h = refl

is_empty-append : (a b : Bytes) → is_empty b ≡ false → is_empty (a ++ b) ≡ false
is_empty-append [] b h = h
is_empty-append (x ∷ a) b h = refl

-- Nothing is cut off in front of what is kept.
pub trim_right-front :
    (cut : ℕ) (a b : Bytes)
    → is_empty b ≡ false
    → trim_right cut b ≡ b
    → trim_right cut (a ++ b) ≡ a ++ b
unfolding trim_right
trim_right-front cut [] b h k = k
trim_right-front cut (c ∷ a) b h k =
    ap (unless_blank cut c) (trim_right-front cut a b h k)
    ∙ unless_blank-cons cut c (a ++ b) (is_empty-append a b h)

starts_with-append :
    (sep : ℕ) (a b : Bytes) → starts_with sep (a ++ (sep ∷ b)) ≡ starts_with sep (a ++ (sep ∷ []))
starts_with-append sep [] b = refl
starts_with-append sep (x ∷ a) b = refl

cut_at_pair-eq-none :
    (sep c : ℕ) (s : Bytes)
    → cut_at_pair sep (c ∷ s) ≡ none
    → ((c == sep && starts_with sep s) ≡ false) × (cut_at_pair sep s ≡ none)
unfolding cut_at_pair
cut_at_pair-eq-none sep c s h = elim (Bool-cases (c == sep && starts_with sep s)) [
  | inl found ↦ ground (arith, found, h)
  | inr other ↦ (other, without (cut_at_pair sep s) (rw other at h))
]
  where
    without :
        (o : Option (Bytes × Bytes))
        → elim o as (λ _. Option (Bytes × Bytes)) [ none ↦ none | some (x, y) ↦ some (c ∷ x, y) ]
          ≡ none
        → o ≡ none
    without none h = refl
    without (some _) h = ground (arith, h)

-- The same for the separator twice in a row.
pub cut_at_pair-append :
    (sep : ℕ) (a b : Bytes)
    → cut_at_pair sep (a ++ (sep ∷ [])) ≡ none
    → cut_at_pair sep (a ++ (sep ∷ (sep ∷ b))) ≡ some (a, b)
unfolding cut_at_pair
cut_at_pair-append sep [] b h = rw (==_refl sep) refl
cut_at_pair-append sep (c ∷ a) b h =
    let (other, rest) = cut_at_pair-eq-none sep c (a ++ (sep ∷ [])) h in
    let still : (c == sep && starts_with sep (a ++ (sep ∷ (sep ∷ b)))) ≡ false =
      ap (λ t. c == sep && t) (starts_with-append sep a (sep ∷ b)) ∙ other in
    rw (still, cut_at_pair-append sep a b rest) refl
