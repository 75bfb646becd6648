-- ===== src/Saml/Token.antt =====
-- auth/saml/token.go: the earliest NotOnOrAfter time of an assertion. Base64 decoding and time.Parse are
-- parameters. A time is the number of units of time since the earliest that time.Parse can read;
-- `zero_time` is the number of the zero time.Time.
use go_openlawsvpn.Base.{
  ℕ, zero, suc, ◌≤◌, ◌<◌, ◌≡◌, ◌≢◌, ◌⊎◌, inl, inr, ap, arith, subst, Bool, true, false, List, [],
  ◌∷◌, length, ltb, ◌==◌, ◌||◌, if◌then◌else◌, Option, none, some, Bytes,
}
use go_openlawsvpn.Compress.{codes}
use go_openlawsvpn.Text.{after_prefix, cut_at}

-- The text behind the first occurrence of `word`, which strings.Index finds.
unfoldable pub behind_first : Bytes → Bytes → Option Bytes
behind_first word [] = after_prefix word []
behind_first word (c ∷ s) =
    let later = behind_first word s in
    elim (after_prefix word (c ∷ s)) [ some rest ↦ some rest | none ↦ later ]

abbrev pub not_on_or_after : Bytes
not_on_or_after = codes "NotOnOrAfter=\""

-- What one time stamp makes of the earliest time.
abbrev pub earlier : ℕ → ℕ → ℕ → ℕ
earlier zero_time earliest t =
    if t == zero_time
    then earliest
    else if earliest == zero_time || ltb t earliest
    then t
    else earliest

-- The first time stamp in a text, and what follows it.
unfoldable pub next_stamp : Bytes → Option (Bytes × Bytes)
next_stamp rest = elim (behind_first not_on_or_after rest) [ none ↦ none | some r ↦ cut_at b'\"' r ]

-- The first layout by which the text can be parsed.
unfoldable pub first_parsed : (Bytes → Bytes → Option ℕ) → ℕ → List Bytes → Bytes → ℕ
first_parsed time_parse zero_time [] s = zero_time
first_parsed time_parse zero_time (layout ∷ layouts) s =
    let later = first_parsed time_parse zero_time layouts s in
    elim (time_parse layout s) [ some t ↦ t | none ↦ later ]

abbrev pub layouts : List Bytes
layouts =
    codes "2006-01-02T15:04:05Z"
    ∷ codes "2006-01-02T15:04:05.000Z"
    ∷ codes "2006-01-02T15:04:05.0Z"
    ∷ codes "2006-01-02T15:04:05.00Z"
    ∷ codes "2006-01-02T15:04:05Z07:00"
    ∷ []

module _ (time_parse : Bytes → Bytes → Option ℕ) (zero_time : ℕ) where
  unfoldable pub parse_saml_time : Bytes → ℕ
  unfolding first_parsed
  parse_saml_time s = first_parsed time_parse zero_time layouts s

  -- The loop; a round passes over one byte at least, so the length of the text is enough fuel.
  unfoldable pub scan : ℕ → ℕ → Bytes → ℕ
  scan zero earliest rest = earliest
  scan (suc fuel) earliest rest = elim (next_stamp rest) [
    | none ↦ earliest
    | some (stamp, behind) ↦ scan fuel (earlier zero_time earliest (parse_saml_time stamp)) behind
  ]

  unfoldable pub earliest_not_on_or_after : Bytes → ℕ
  unfolding scan next_stamp behind_first parse_saml_time
  earliest_not_on_or_after xml = scan (length xml) zero_time xml

  -- `decode` and `decode_url` are the two base64 alphabets.
  unfoldable pub token_expiry : (Bytes → Option Bytes) → (Bytes → Option Bytes) → Bytes → ℕ
  unfolding earliest_not_on_or_after
  token_expiry decode decode_url token = elim (decode token) [
    | some xml ↦ earliest_not_on_or_after xml
    | none ↦ elim (decode_url token) [ some xml ↦ earliest_not_on_or_after xml | none ↦ zero_time ]
  ]

-- A time stamp of the text, as one reads them from left to right.
pub data Stamp (ts : Bytes) : Bytes → Type 0 where
  this : {text behind : Bytes} → next_stamp text ≡ some (ts, behind) → Stamp ts text
  further :
      {text stamp behind : Bytes}
      → next_stamp text ≡ some (stamp, behind)
      → Stamp ts behind
      → Stamp ts text

abbrev Shorter : ℕ → Option (Bytes × Bytes) → Type 0
Shorter n none = Unit {0}
Shorter n (some (_, b)) = length b < n

cut_at-Shorter : (sep : ℕ) (s : Bytes) → Shorter (length s) (cut_at sep s)
unfolding cut_at
cut_at-Shorter sep [] = tt
cut_at-Shorter sep (c ∷ s) = longer (c == sep) (cut_at sep s) (cut_at-Shorter sep s)
  where
    longer :
        (b : Bool) (o : Option (Bytes × Bytes))
        → Shorter (length s) o
        → Shorter (suc (length s)) (
            if b then some ([], s) else elim o as (λ _. Option (Bytes × Bytes)) [
              | none ↦ none
              | some (x, y) ↦ some (c ∷ x, y)
            ])
    longer true o h = omega arith
    longer false none h = tt
    longer false (some (x, y)) h = omega (arith, h)

abbrev NotLonger : ℕ → Option Bytes → Type 0
NotLonger n none = Unit {0}
NotLonger n (some b) = length b ≤ n

after_prefix-NotLonger : (word s : Bytes) → NotLonger (length s) (after_prefix word s)
unfolding after_prefix
after_prefix-NotLonger [] s = omega arith
after_prefix-NotLonger (w ∷ word) [] = tt
after_prefix-NotLonger (w ∷ word) (c ∷ s) =
    longer (w == c) (after_prefix word s) (after_prefix-NotLonger word s)
  where
    longer :
        (b : Bool) (o : Option Bytes)
        → NotLonger (length s) o
        → NotLonger (suc (length s)) (if b then o else none)
    longer true none h = tt
    longer true (some x) h = omega (arith, h)
    longer false o h = tt

behind_first-NotLonger : (word s : Bytes) → NotLonger (length s) (behind_first word s)
unfolding behind_first
behind_first-NotLonger word [] = after_prefix-NotLonger word []
behind_first-NotLonger word (c ∷ s) =
    first (after_prefix word (c ∷ s)) (behind_first word s) (after_prefix-NotLonger word (c ∷ s))
      (behind_first-NotLonger word s)
  where
    first :
        (o later : Option Bytes)
        → NotLonger (suc (length s)) o
        → NotLonger (length s) later
        → NotLonger
            (suc (length s))
            (elim o as (λ _. Option Bytes) [ some rest ↦ some rest | none ↦ later ])
    first (some x) later h k = h
    first none none h k = tt
    first none (some x) h k = omega (arith, k)

next_stamp-Shorter : (s : Bytes) → Shorter (length s) (next_stamp s)
unfolding next_stamp
next_stamp-Shorter s =
    cut (behind_first not_on_or_after s) (behind_first-NotLonger not_on_or_after s)
  where
    cut :
        (o : Option Bytes)
        → NotLonger (length s) o
        → Shorter
            (length s)
            (elim o as (λ _. Option (Bytes × Bytes)) [ none ↦ none | some r ↦ cut_at b'\"' r ])
    cut none h = tt
    cut (some r) h = weaken (cut_at b'\"' r) (cut_at-Shorter b'\"' r) h
      where
        weaken :
            (o : Option (Bytes × Bytes))
            → Shorter (length r) o
            → length r ≤ length s
            → Shorter (length s) o
        weaken none h k = tt
        weaken (some (x, y)) h k = omega (arith, h, k)

-- A time that is set, and no later than `t`.
abbrev pub NotLater : ℕ → ℕ → ℕ → Type 0
NotLater zero_time e t = (e ≢ zero_time) × (e ≤ t)

earlier-NotLater :
    (zero_time earliest stamp t : ℕ)
    → NotLater zero_time earliest t ⊎ NotLater zero_time stamp t
    → NotLater zero_time (earlier zero_time earliest stamp) t
earlier-NotLater zero_time earliest stamp t h = ground (arith, h)

module _ (time_parse : Bytes → Bytes → Option ℕ) (zero_time : ℕ) where
  scan-NotLater :
      (fuel earliest : ℕ) (rest : Bytes) (t : ℕ)
      → NotLater zero_time earliest t
      → NotLater zero_time (scan time_parse zero_time fuel earliest rest) t
  unfolding scan
  scan-NotLater zero earliest rest t h = h
  scan-NotLater (suc fuel) earliest rest t h =
      round (next_stamp rest) (λ next behind k. scan-NotLater fuel next behind t k)
    where
      round :
          (o : Option (Bytes × Bytes))
          → ((next : ℕ) (behind : Bytes)
              → NotLater zero_time next t
              → NotLater zero_time (scan time_parse zero_time fuel next behind) t)
          → NotLater zero_time
              (elim o as (λ _. ℕ) [
                | none ↦ earliest
                | some (stamp, behind) ↦
                    scan time_parse zero_time fuel
                      (earlier zero_time earliest (parse_saml_time time_parse zero_time stamp))
                      behind
              ])
              t
      round none ih = h
      round (some (stamp, behind)) ih =
          let u = parse_saml_time time_parse zero_time stamp in
          ih (earlier zero_time earliest u) behind (earlier-NotLater zero_time earliest u t (inl h))

  scan_next :
      (fuel earliest : ℕ) (rest : Bytes) {stamp behind : Bytes}
      → next_stamp rest ≡ some (stamp, behind)
      → scan time_parse zero_time (suc fuel) earliest rest
        ≡ scan time_parse zero_time fuel
            (earlier zero_time earliest (parse_saml_time time_parse zero_time stamp))
            behind
  unfolding scan
  scan_next fuel earliest rest q =
      ap
        (λ o. elim o as (λ _. ℕ) [
          | none ↦ earliest
          | some (stamp, behind) ↦
              scan time_parse zero_time fuel
                (earlier zero_time earliest (parse_saml_time time_parse zero_time stamp)) behind
        ])
        q

  scan_takes :
      (fuel earliest : ℕ) {ts rest : Bytes}
      → length rest ≤ fuel
      → Stamp ts rest
      → parse_saml_time time_parse zero_time ts ≢ zero_time
      → NotLater zero_time
          (scan time_parse zero_time fuel earliest rest)
          (parse_saml_time time_parse zero_time ts)
  unfolding scan
  scan_takes zero earliest {rest = rest} h (this q) e =
      absurd (omega (arith, h, subst (Shorter (length rest)) q (next_stamp-Shorter rest)))
  scan_takes zero earliest {rest = rest} h (further q st) e =
      absurd (omega (arith, h, subst (Shorter (length rest)) q (next_stamp-Shorter rest)))
  scan_takes (suc fuel) earliest {ts = ts} {rest = rest} h (this {behind = behind} q) e =
      let t = parse_saml_time time_parse zero_time ts in
      rw (scan_next fuel earliest rest q) (
        scan-NotLater fuel (earlier zero_time earliest t) behind t
          (earlier-NotLater zero_time earliest t t (inr (e, omega arith))))
  scan_takes (suc fuel) earliest {rest = rest} h (further {stamp = stamp} q st) e =
      let less = subst (Shorter (length rest)) q (next_stamp-Shorter rest) in
      let u = parse_saml_time time_parse zero_time stamp in
      rw (scan_next fuel earliest rest q)
        (scan_takes fuel (earlier zero_time earliest u) (omega (arith, h, less)) st e)

  -- The expiry time is set and not later than any time stamp of the text, read from left to right, that a
  -- layout reads: the loop over the text ends only behind the last time stamp.
  pub earliest_not_on_or_after-NotLater :
      (xml ts : Bytes)
      → Stamp ts xml
      → parse_saml_time time_parse zero_time ts ≢ zero_time
      → NotLater zero_time
          (earliest_not_on_or_after time_parse zero_time xml)
          (parse_saml_time time_parse zero_time ts)
  unfolding earliest_not_on_or_after
  earliest_not_on_or_after-NotLater xml ts st e =
      scan_takes (length xml) zero_time (omega arith) st e
