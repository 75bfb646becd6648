-- ===== src/Compress/Laws.antt =====
-- The stub framing is undone exactly, and the first option that names a mode decides.
use go_openlawsvpn.Base.{
  ℕ, ◌≡◌, ◌↔◌, ◌⊎◌, inl, inr, refl, sym, ap, ◌∙◌, arith, Bool-cases, List, [], ◌∷◌, ◌++◌, ◌==◌,
  some, ok, Bytes,
}
use go_openlawsvpn.Compress.{
  Mode, mode_none, mode_lz4, mode_lzo, wrap, unwrap, tokens, add_front, first_mode, parse_mode,
  token_mode, trim,
}

-- `Unwrap` accepts exactly what `Wrap` makes under the same mode, and returns the payload: every
-- wrapped payload is recovered, and whatever is accepted is the wrapping of what is returned.
pub unwrap_iff : (m : Mode) (framed p : Bytes) → (unwrap m framed ≡ ok p) ↔ (framed ≡ wrap m p)
unfolding unwrap wrap
unwrap_iff mode_none framed p = (λ e. ground arith, λ e. ground arith)
unwrap_iff mode_lzo framed p = (λ e. ground arith, λ e. ground arith)
unwrap_iff mode_lz4 [] p = (λ e. ground arith, λ e. ground arith)
unwrap_iff mode_lz4 (b ∷ rest) p = (λ e. ground arith, λ e. ground arith)

-- The first mode, or the second where the first is ModeNone.
abbrev pub or_mode : Mode → Mode → Mode
or_mode mode_none n = n
or_mode mode_lz4 n = mode_lz4
or_mode mode_lzo n = mode_lzo

-- A token's mode is never ModeNone.
token_mode-ne-none : (t : Bytes) → token_mode t ≡ some mode_none → ⊥
unfolding token_mode
token_mode-ne-none t e = ground arith

first_mode-append :
    (xs ys : List Bytes) → first_mode (xs ++ ys) ≡ or_mode (first_mode xs) (first_mode ys)
unfolding first_mode
first_mode-append [] ys = refl
first_mode-append (t ∷ xs) ys = ground (arith, first_mode-append xs ys, token_mode-ne-none (trim t))

-- Behind a comma the tokens start anew.
tokens-comma :
    (s rest : Bytes)
    → (t : Bytes) × (ts : List Bytes) × (tokens (s ++ (b',' ∷ [])) ≡ t ∷ ts)
      × (tokens (s ++ (b',' ∷ rest)) ≡ (t ∷ ts) ++ tokens rest)
unfolding tokens
tokens-comma [] rest = ([], [], refl, refl)
tokens-comma (c ∷ s) rest =
    let (t, ts, e, f) = tokens-comma s rest in
    elim (Bool-cases (c == b',')) [
      | inl comma ↦ ([], t ∷ ts, ground (arith, comma, e), ground (arith, comma, f))
      | inr other ↦ (c ∷ t, ts, ground (arith, other, e), ground (arith, other, f))
    ]

add_front-append_empty :
    (c : ℕ) (ts : List Bytes)
    → (add_front c (ts ++ ([] ∷ [])) ≡ add_front c ts)
      ⊎ (add_front c (ts ++ ([] ∷ [])) ≡ add_front c ts ++ ([] ∷ []))
add_front-append_empty c [] = inl refl
add_front-append_empty c (t ∷ ts) = inr refl

-- A comma at the end adds an empty token at most.
tokens-comma_end :
    (s : Bytes)
    → (tokens (s ++ (b',' ∷ [])) ≡ tokens s) ⊎ (tokens (s ++ (b',' ∷ [])) ≡ tokens s ++ ([] ∷ []))
unfolding tokens
tokens-comma_end [] = inr refl
tokens-comma_end (c ∷ s) = elim (Bool-cases (c == b',')) [
  | inl comma ↦ elim (tokens-comma_end s) [
    | inl same ↦ inl (rw (comma, same))
    | inr more ↦ inr (rw (comma, more))
  ]
  | inr other ↦ elim (tokens-comma_end s) [
    | inl same ↦ inl (rw (other, same))
    | inr more ↦ rw (other, more) (add_front-append_empty c (tokens s))
  ]
]

first_mode-comma_end : (s : Bytes) → first_mode (tokens (s ++ (b',' ∷ []))) ≡ first_mode (tokens s)
first_mode-comma_end s = elim (tokens-comma_end s) [
  | inl same ↦ ap first_mode same
  | inr more ↦
      ap first_mode more ∙ first_mode-append (tokens s) ([] ∷ []) ∙ or_empty (first_mode (tokens s))
]
  where
    or_empty : (m : Mode) → or_mode m (first_mode ([] ∷ [])) ≡ m
    or_empty mode_none = unfold first_mode token_mode trim in refl
    or_empty mode_lz4 = refl
    or_empty mode_lzo = refl

-- `ParseMode` of two option lists joined by a comma is the mode of the first list, unless that names
-- none; then it is the mode of the second. So the first option that names a mode decides.
parse_mode-append :
    (s rest : Bytes) → parse_mode (s ++ (b',' ∷ rest)) ≡ or_mode (parse_mode s) (parse_mode rest)
unfolding parse_mode
parse_mode-append s rest =
    let (t, ts, e, f) = tokens-comma s rest in
    ap first_mode f
    ∙ first_mode-append (t ∷ ts) (tokens rest)
    ∙ ap (λ m. or_mode m (first_mode (tokens rest)))
        (sym (ap first_mode e) ∙ first_mode-comma_end s)
