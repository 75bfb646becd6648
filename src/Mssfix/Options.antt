-- ===== src/Mssfix/Options.antt =====
-- The loop of clampTCP over the TCP options, against the grammar of RFC 793: it finds the MSS option
-- wherever it stands, lowers it if it is too large, and changes nothing else.
use go_openlawsvpn.Base.{
  All, IsByte, All-append, All-take, All-drop, Bool, true, false, ◌&&◌, ◌||◌, ◌==◌, take, drop,
  length-take, length-drop, none, ◌^◌, lt→ltb, le→ltb, ℕ, zero, suc, ◌+◌, ◌*◌, ◌%◌, ◌/◌, ◌≤◌, ◌<◌,
  ◌≡◌, ◌≢◌, refl, sym, ap, ◌∙◌, arith, sym, [], ◌∷◌, ◌++◌, length, length-append, length-take,
  length-drop, take, drop, take-append, drop-append, ltb, ◌==◌, if◌then◌else◌, Option, none, some,
  ok, ◌>>=◌, Bytes,
}
use go_openlawsvpn.Mssfix.{
  Go, put_uint16_at, lower_mss, option_length, put_before, clamp_option, clamp_options,
}

-- The option area `opts` has a first MSS option, with the value `n`: in front of it stand NOPs and
-- options of other kinds or lengths.
pub data HasMss (n : ℕ) : Bytes → Type 0 where
  mss_here :
      {opts : Bytes} (high low : ℕ) (rest : Bytes)
      → high * 256 + low ≡ n
      → opts ≡ 2 ∷ (4 ∷ (high ∷ (low ∷ rest)))
      → HasMss n opts
  after_nop : {opts : Bytes} (rest : Bytes) → opts ≡ 1 ∷ rest → HasMss n rest → HasMss n opts
  after_option :
      {opts : Bytes} (kind : ℕ) (body rest : Bytes)
      → 1 < kind
      → (kind ≡ 2 → length body ≢ 2)
      → opts ≡ kind ∷ (suc (suc (length body)) ∷ (body ++ rest))
      → HasMss n rest
      → HasMss n opts

-- The rounds behind a part that the loop passes over.
abbrev passing : Bytes → Go (Option Bytes) → Go (Option Bytes)
passing passed next = next >>= λ o. ok (put_before passed o)

round_nop :
    (fuel max_mss : ℕ) (rest : Bytes)
    → clamp_options (suc fuel) max_mss (1 ∷ rest)
      ≡ passing (1 ∷ []) (clamp_options fuel max_mss rest)
unfolding clamp_options clamp_option option_length
round_nop fuel max_mss [] = refl
round_nop fuel max_mss (b ∷ rest) = refl

option_length_lem :
    (kind len : ℕ) (rest : Bytes) → 1 < kind → option_length (kind ∷ (len ∷ rest)) ≡ len
unfolding option_length
option_length_lem kind len rest proper = ground arith

clamp_option_passes :
    (max_mss kind : ℕ) (body rest : Bytes) (next : Go (Option Bytes))
    → 1 < kind
    → (kind ≡ 2 → length body ≢ 2)
    → clamp_option max_mss (kind ∷ (suc (suc (length body)) ∷ (body ++ rest))) next ≡ next
unfolding clamp_option
clamp_option_passes max_mss kind body rest next proper other =
    ground (arith, length-append body rest, other)

round_option :
    (fuel max_mss kind : ℕ) (body rest : Bytes)
    → 1 < kind
    → (kind ≡ 2 → length body ≢ 2)
    → clamp_options (suc fuel) max_mss (kind ∷ (suc (suc (length body)) ∷ (body ++ rest)))
      ≡ passing (kind ∷ (suc (suc (length body)) ∷ body)) (clamp_options fuel max_mss rest)
unfolding clamp_options
round_option fuel max_mss kind body rest proper other =
    clamp_option_passes max_mss kind body rest _ proper other
    ∙ rw (
      option_length_lem kind (suc (suc (length body))) (body ++ rest) proper,
      take-append (length body) body rest refl,
      drop-append (length body) body rest refl,
    )

-- At the MSS option the loop ends.
round_mss :
    (fuel max_mss high low : ℕ) (rest : Bytes)
    → clamp_options (suc fuel) max_mss (2 ∷ (4 ∷ (high ∷ (low ∷ rest)))) ≡ (
        if ltb max_mss (high * 256 + low)
        then ok (some (2 ∷ (4 ∷ (max_mss / 256 % 256 ∷ (max_mss % 256 ∷ rest)))))
        else ok none)
unfolding clamp_options clamp_option option_length lower_mss put_uint16_at
round_mss fuel max_mss high low rest = ground arith

-- What becomes of options with the MSS `n`.
abbrev pub Outcome : ℕ → ℕ → Bytes → Go (Option Bytes) → Type 0
Outcome max_mss n opts result =
    (n ≤ max_mss → result ≡ ok none)
    × (max_mss < n
        → (out : Bytes) × (result ≡ ok (some out))
          × HasMss max_mss out
          × (length out ≡ length opts))

-- A part in front that the loop passes over stays as it is.
Outcome-passing :
    (max_mss n : ℕ) (passed rest : Bytes) (next : Go (Option Bytes))
    → ((out : Bytes) → HasMss max_mss out → HasMss max_mss (passed ++ out))
    → Outcome max_mss n rest next
    → Outcome max_mss n (passed ++ rest) (passing passed next)
unfolding put_before
Outcome-passing max_mss n passed rest next keeps (within, above) = (
  λ h. ap (passing passed) (within h),
  λ h.
      let (out, e, has, same) = above h in
      (
        passed ++ out,
        ap (passing passed) e,
        keeps out has,
        omega (arith, length-append passed out, length-append passed rest, same),
      ),
)

Outcome-mss :
    (max_mss high low : ℕ) (rest : Bytes)
    → max_mss < 2 ^ 16
    → Outcome max_mss (high * 256 + low) (2 ∷ (4 ∷ (high ∷ (low ∷ rest)))) (
        if ltb max_mss (high * 256 + low)
        then ok (some (2 ∷ (4 ∷ (max_mss / 256 % 256 ∷ (max_mss % 256 ∷ rest)))))
        else ok none)
Outcome-mss max_mss high low rest small = (
  λ h. rw (le→ltb max_mss (high * 256 + low) h),
  λ h. (
    2 ∷ (4 ∷ (max_mss / 256 % 256 ∷ (max_mss % 256 ∷ rest))),
    rw (lt→ltb max_mss (high * 256 + low) h),
    mss_here _ _ rest (omega arith) refl,
    refl,
  ),
)

-- With fuel for every byte, the loop over options with an MSS option of `n` changes nothing if `n` is
-- within the maximum; otherwise it returns options of the same length whose MSS option is the maximum.
clamp_options_finds :
    (fuel max_mss n : ℕ) (opts : Bytes)
    → HasMss n opts
    → length opts ≤ fuel
    → max_mss < 2 ^ 16
    → Outcome max_mss n opts (clamp_options fuel max_mss opts)
clamp_options_finds zero max_mss n opts (mss_here high low rest v e) enough small =
    absurd (omega (arith, ap length e))
clamp_options_finds zero max_mss n opts (after_nop rest e h) enough small =
    absurd (omega (arith, ap length e))
clamp_options_finds zero max_mss n opts (after_option kind body rest p o e h) enough small =
    absurd (omega (arith, ap length e))
clamp_options_finds (suc fuel) max_mss n opts (mss_here high low rest v e) enough small =
    let start = Outcome-mss max_mss high low rest small in
    rw (e, sym v) (rw (round_mss fuel max_mss high low rest) start)
clamp_options_finds (suc fuel) max_mss n opts (after_nop rest e h) enough small =
    let later = clamp_options_finds fuel max_mss n rest h (omega (arith, ap length e)) small in
    let kept = λ (out : Bytes) (has : HasMss max_mss out). after_nop out refl has in
    rw e (rw (round_nop fuel max_mss rest) (Outcome-passing max_mss n (1 ∷ []) rest _ kept later))
clamp_options_finds (suc fuel) max_mss n opts (after_option kind body rest p o e h) enough small =
    let shorter : length rest ≤ fuel = omega (arith, ap length e, length-append body rest) in
    let later = clamp_options_finds fuel max_mss n rest h shorter small in
    let front = kind ∷ (suc (suc (length body)) ∷ body) in
    let kept =
      λ (out : Bytes) (has : HasMss max_mss out). after_option kind body out p o refl has in
    rw e (
      rw (round_option fuel max_mss kind body rest p o)
        (Outcome-passing max_mss n front rest _ kept later))

-- Nothing is written, or as many bytes as there were.
abbrev pub Sized : Bytes → Option Bytes → Type 0
Sized b none = Unit {0}
Sized b (some out) = (length out ≡ length b) × (All IsByte b → All IsByte out)

-- A run that does not panic, and what it ends with.
abbrev pub Ends : {A : Type 0} → (A → Type 0) → Go A → Type 0
Ends {A} P result = (out : A) × (result ≡ ok out) × P out

pub Ends-if :
    {A : Type 0} (P : A → Type 0) (b : Bool) {x y : Go A}
    → (b ≡ true → Ends P x)
    → (b ≡ false → Ends P y)
    → Ends P (if b then x else y)
Ends-if P true h k = h refl
Ends-if P false h k = k refl

abbrev pub Keeps : Bytes → Go (Option Bytes) → Type 0
Keeps b result = Ends (Sized b) result

lower_mss-Keeps :
    (max_mss : ℕ) (opts : Bytes) → 4 ≤ length opts → Keeps opts (lower_mss max_mss opts)
unfolding lower_mss put_uint16_at
lower_mss-Keeps max_mss (kind ∷ (len ∷ (high ∷ (low ∷ rest)))) h =
    Ends-if (Sized (kind ∷ (len ∷ (high ∷ (low ∷ rest))))) (ltb max_mss (high * 256 + low))
      (λ _. (
        some (kind ∷ (len ∷ (max_mss / 256 % 256 ∷ (max_mss % 256 ∷ rest)))),
        ground arith,
        (refl, λ (k, (l, (_, (_, r)))). (k, (l, (omega arith, (omega arith, r))))),
      ))
      (λ _. (none, refl, tt))
lower_mss-Keeps max_mss [] h = absurd (omega arith)
lower_mss-Keeps max_mss (_ ∷ []) h = absurd (omega arith)
lower_mss-Keeps max_mss (_ ∷ (_ ∷ [])) h = absurd (omega arith)
lower_mss-Keeps max_mss (_ ∷ (_ ∷ (_ ∷ []))) h = absurd (omega arith)

clamp_option-Keeps :
    (max_mss : ℕ) (opts : Bytes) (next : Go (Option Bytes))
    → Keeps opts next
    → Keeps opts (clamp_option max_mss opts next)
unfolding clamp_option
clamp_option-Keeps max_mss [] next h = (none, refl, tt)
clamp_option-Keeps max_mss (kind ∷ []) next h =
    Ends-if (Sized (kind ∷ [])) (kind == 1) (λ _. h) (λ _. (none, refl, tt))
clamp_option-Keeps max_mss (kind ∷ (len ∷ rest)) next h =
    let opts = kind ∷ (len ∷ rest) in
    Ends-if (Sized opts) (kind == 0) (λ _. (none, refl, tt))
      (λ _.
        Ends-if (Sized opts) (kind == 1) (λ _. h)
          (λ _.
            Ends-if (Sized opts) (ltb len 2 || ltb (length (kind ∷ (len ∷ rest))) len)
              (λ _. (none, refl, tt))
              (λ fits.
                Ends-if (Sized opts) (kind == 2 && len == 4)
                  (λ mss. lower_mss-Keeps max_mss (kind ∷ (len ∷ rest)) (ground (arith, fits, mss)))
                  (λ _. h))))

put_before-Sized :
    (k : ℕ) (b : Bytes) (out : Option Bytes)
    → Sized (drop k b) out
    → Sized b (put_before (take k b) out)
unfolding put_before
put_before-Sized k b none h = tt
put_before-Sized k b (some out) (same, bytes) = (
  omega (arith, length-append (take k b) out, length-take k b, length-drop k b, same),
  λ h. All-append IsByte (take k b) out (All-take IsByte k b h) (bytes (All-drop IsByte k b h)),
)

-- The loop over any option bytes ends without a panic, and keeps their number.
pub clamp_options-Keeps :
    (fuel max_mss : ℕ) (opts : Bytes) → Keeps opts (clamp_options fuel max_mss opts)
unfolding clamp_options
clamp_options-Keeps zero max_mss opts = (none, refl, tt)
clamp_options-Keeps (suc fuel) max_mss opts =
    let k = option_length opts in
    let (out, e, sized) = clamp_options-Keeps fuel max_mss (drop k opts) in
    let later : Keeps opts (passing (take k opts) (clamp_options fuel max_mss (drop k opts))) = (
      put_before (take k opts) out,
      ap (passing (take k opts)) e,
      put_before-Sized k opts out sized,
    ) in
    clamp_option-Keeps max_mss opts _ later
