-- ===== src/Saml/Response.antt =====
-- auth/saml/saml.go: normalizeAndValidateResponse. Base64 decoding and the XML parser are parameters.
use go_openlawsvpn.Base.{
  ℕ, zero, suc, ◌+◌, ◌*◌, ◌%◌, ◌≤◌, ◌≡◌, ◌⊎◌, inl, inr, refl, subst, arith, Bool-cases, Bool, true,
  false, ◌||◌, ◌&&◌, [], ◌∷◌, ◌++◌, length, length-append, ltb, leb, ◌==◌, if◌then◌else◌, Option,
  none, some, Result, ok, err, ◌>>=◌, >>=-eq-ok, Bytes, All, All-append,
}
use go_openlawsvpn.Text.{trim_right, unless_blank, cut_at}
use go_openlawsvpn.Saml.{
  Error, empty_response, response_too_long, invalid_base64, invalid_padding, invalid_xml,
}
use go_openlawsvpn.Saml.Challenge.{need, need-eq-ok}

abbrev pub max_saml_response_bytes : ℕ
max_saml_response_bytes = 128 * 1024

-- `c >= low && c <= high`
abbrev pub between : ℕ → ℕ → ℕ → Bool
between low high c = leb low c && leb c high

abbrev pub is_base64 : ℕ → Bool
is_base64 c =
    between b'A' b'Z' c || between b'a' b'z' c || between b'0' b'9' c || c == b'+' || c == b'/'

-- What the switch on one byte makes of it: what is appended, or `none` for an error.
unfoldable pub normalize_byte : ℕ → Option Bytes
normalize_byte c =
    if c == b' '
    then some (b'+' ∷ [])
    else if is_base64 c || c == b'='
    then some (c ∷ [])
    else if c == b'-'
    then some (b'+' ∷ [])
    else if c == b'_'
    then some (b'/' ∷ [])
    else if c == b'\n' || c == b'\r' || c == b'\t'
    then some []
    else none

-- What one byte appends in front of what the others do.
abbrev pub join_output : Option Bytes → Option Bytes → Option Bytes
join_output (some out) (some rest) = some (out ++ rest)
join_output _ _ = none

-- The loop over the response.
unfoldable pub normalize_bytes : Bytes → Option Bytes
normalize_bytes [] = some []
normalize_bytes (c ∷ s) = join_output (normalize_byte c) (normalize_bytes s)

-- The loop `for len(out)%4 != 0`; three rounds are enough.
unfoldable pub pad : ℕ → Bytes → Bytes
pad zero out = out
pad (suc fuel) out =
    let more = pad fuel (out ++ (b'=' ∷ [])) in if length out % 4 == 0 then out else more

abbrev pub contains : ℕ → Bytes → Bool
contains c s = elim (cut_at c s) [ none ↦ false | some _ ↦ true ]

-- base64.StdEncoding.Strict().Decode, and the tests of validateResponseXML on the decoded text.
module _ (decode : Bytes → Option Bytes) (is_response : Bytes → Bool) where
  -- The tests behind the padding.
  unfoldable pub validated : Bytes → Result Error Bytes
  validated out = do
    decoded ← need (decode out) invalid_base64
    if ltb max_saml_response_bytes (length decoded)
        then err response_too_long
        else if is_response decoded
        then ok out
        else err invalid_xml

  unfoldable pub normalize_and_validate : Bytes → Result Error Bytes
  unfolding pad normalize_bytes validated
  normalize_and_validate s =
      if length s == 0
      then err empty_response
      else if ltb max_saml_response_bytes (length s)
      then err response_too_long
      else (need (normalize_bytes s) invalid_base64 >>= λ bytes.
          let out = trim_right b'=' bytes in
          if contains b'=' out then err invalid_padding else validated (pad 3 out))

-- With enough rounds left, padding ends at a multiple of four.
pad_fills :
    (fuel : ℕ) (out : Bytes)
    → (length out % 4 ≡ 0) ⊎ (4 ≤ length out % 4 + fuel)
    → length (pad fuel out) % 4 ≡ 0
unfolding pad
pad_fills zero out h = elim h [ inl e ↦ e | inr e ↦ absurd (omega (arith, e)) ]
pad_fills (suc fuel) out h = elim (Bool-cases (length out % 4 == 0)) [
  | inl full ↦ rw full (ground (arith, full))
  | inr short ↦
      let next : (length (out ++ (b'=' ∷ [])) % 4 ≡ 0)
          ⊎ (4 ≤ length (out ++ (b'=' ∷ [])) % 4 + fuel) =
        ground (arith, short, h, length-append out (b'=' ∷ [])) in
      rw short (pad_fills fuel (out ++ (b'=' ∷ [])) next)
]

-- The bytes of standard base64 with its padding.
abbrev pub IsAlphabet : ℕ → Type 0
IsAlphabet c = (is_base64 c || c == b'=') ≡ true

pad-All : (fuel : ℕ) (out : Bytes) → All IsAlphabet out → All IsAlphabet (pad fuel out)
unfolding pad
pad-All zero out h = h
pad-All (suc fuel) out h = elim (Bool-cases (length out % 4 == 0)) [
  | inl full ↦ rw full h
  | inr short ↦
      rw short
        (pad-All fuel (out ++ (b'=' ∷ [])) (All-append IsAlphabet out (b'=' ∷ []) h (refl, tt)))
]

abbrev AllOf : Option Bytes → Type 0
AllOf none = Unit {0}
AllOf (some out) = All IsAlphabet out

AllOf-if :
    (b : Bool) (x y : Option Bytes)
    → (b ≡ true → AllOf x)
    → (b ≡ false → AllOf y)
    → AllOf (if b then x else y)
AllOf-if true x y h k = h refl
AllOf-if false x y h k = k refl

normalize_byte-AllOf : (c : ℕ) → AllOf (normalize_byte c)
unfolding normalize_byte
normalize_byte-AllOf c =
    AllOf-if (c == b' ') _ _ (λ _. (refl, tt))
      (λ _.
        AllOf-if (is_base64 c || c == b'=') _ _ (λ h. (h, tt))
          (λ _.
            AllOf-if (c == b'-') _ _ (λ _. (refl, tt))
              (λ _.
                AllOf-if (c == b'_') _ _ (λ _. (refl, tt))
                  (λ _.
                    AllOf-if (c == b'\n' || c == b'\r' || c == b'\t') _ _ (λ _. tt) (λ _. tt)))))

normalize_bytes-AllOf : (s : Bytes) → AllOf (normalize_bytes s)
unfolding normalize_bytes
normalize_bytes-AllOf [] = tt
normalize_bytes-AllOf (c ∷ s) =
    both (normalize_byte c) (normalize_bytes s) (normalize_byte-AllOf c) (normalize_bytes-AllOf s)
  where
    both : (x y : Option Bytes) → AllOf x → AllOf y → AllOf (join_output x y)
    both none y h k = tt
    both (some x) none h k = tt
    both (some x) (some y) h k = All-append IsAlphabet x y h k

trim_right-All : (cut : ℕ) (s : Bytes) → All IsAlphabet s → All IsAlphabet (trim_right cut s)
unfolding trim_right
trim_right-All cut [] h = tt
trim_right-All cut (c ∷ s) (this, rest) = kept (trim_right cut s) (trim_right-All cut s rest)
  where
    kept : (t : Bytes) → All IsAlphabet t → All IsAlphabet (unless_blank cut c t)
    kept [] k = elim (Bool-cases (c == cut)) [ inl e ↦ rw e tt | inr e ↦ rw e (this, tt) ]
    kept (d ∷ t) k = (this, k)

module _ (decode : Bytes → Option Bytes) (is_response : Bytes → Bool) where
  validated-eq-ok :
      (bytes : Bytes) {out : Bytes}
      → validated decode is_response bytes ≡ ok out
      → (out ≡ bytes)
        × (d : Bytes) × (decode bytes ≡ some d)
        × (is_response d ≡ true)
        × (length d ≤ max_saml_response_bytes)
  unfolding validated
  validated-eq-ok bytes {out} h =
      let (d, e, k) = >>=-eq-ok (need (decode bytes) invalid_base64) _ h in
      let (same, small, right) = tests d k in
      (same, d, need-eq-ok (decode bytes) invalid_base64 e, right, small)
    where
      tests :
          (d : Bytes)
          → (if ltb max_saml_response_bytes (length d)
              then err response_too_long
              else if is_response d
              then ok bytes
              else err invalid_xml)
            ≡ ok out
          → (out ≡ bytes) × (length d ≤ max_saml_response_bytes) × (is_response d ≡ true)
      tests d k = ground (arith, k)

  -- A response that is accepted is standard base64: its length is a multiple of four, its bytes are of the
  -- alphabet or the padding, and it decodes to a SAML response within the limit.
  normalize_and_validate-eq-ok :
      (s out : Bytes)
      → normalize_and_validate decode is_response s ≡ ok out
      → (length out % 4 ≡ 0)
        × All IsAlphabet out
        × (d : Bytes) × (decode out ≡ some d)
        × (is_response d ≡ true)
        × (length d ≤ max_saml_response_bytes)
  unfolding normalize_and_validate
  normalize_and_validate-eq-ok s out h =
      let (bytes, e, k) = >>=-eq-ok (need (normalize_bytes s) invalid_base64) _ (passed s h) in
      let kept = trim_right b'=' bytes in
      let (same, d, decoded, right, small) = validated-eq-ok (pad 3 kept) (padded kept k) in
      let clean =
        subst AllOf (need-eq-ok (normalize_bytes s) invalid_base64 e) (normalize_bytes-AllOf s) in
      rw same (
        pad_fills 3 kept (three kept),
        pad-All 3 kept (trim_right-All b'=' bytes clean),
        d,
        decoded,
        right,
        small,
      )
    where
      passed :
          (s : Bytes) {r : Result Error Bytes}
          → (if length s == 0
              then err empty_response
              else if ltb max_saml_response_bytes (length s)
              then err response_too_long
              else r)
            ≡ ok out
          → r ≡ ok out
      passed s k = ground (arith, k)

      padded :
          (kept : Bytes) {r : Result Error Bytes}
          → (if contains b'=' kept then err invalid_padding else r) ≡ ok out
          → r ≡ ok out
      padded kept k = ground (arith, k)

      three : (kept : Bytes) → (length kept % 4 ≡ 0) ⊎ (4 ≤ length kept % 4 + 3)
      three kept = ground arith
