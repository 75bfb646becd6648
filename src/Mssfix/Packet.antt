-- ===== src/Mssfix/Packet.antt =====
-- Clamp on whole packets: it never indexes out of range and keeps the length, and the checksums of a
-- packet that it changes verify.
use Prim.Native.Nat.{bit_and}
use go_openlawsvpn.Base.{
  ℕ, ◌+◌, ◌-◌, ◌*◌, ◌/◌, ◌≤◌, ◌<◌, ◌≡◌, refl, arith, ◌||◌, ◌∷◌, ◌++◌, Option, none, some, length,
  length-append, length-take, length-drop, take, drop, take-append, drop-append, ltb, ◌==◌,
  get_elem?, get_elem?_total, ok, index, ◌>>=◌, ltb_false→le, lt→ltb, Bytes, IsByte, All-append,
  All-take, All-drop, put_uint16,
}
use go_openlawsvpn.Mssfix.{
  Go, clamp_options, clamp_tcp, put_before, checksum, checksum_vec, pseudo_header4, pseudo_header6,
  fix_tcp_checksum4, fix_tcp_checksum6, rebuild4, rebuild6,
}
use go_openlawsvpn.Mssfix.Options.{Sized, Keeps, Ends, Ends-if, clamp_options-Keeps}
use go_openlawsvpn.Mssfix.Checksum.{refreshed, refresh_checksum_lem}

index_total :
    (b : Bytes) (i : ℕ)
    → i < length b
    → (x : ℕ) × (get_elem? b i ≡ some x) × (index {E = ⊥} b i ≡ ok x)
index_total b i h = let (x, e) = get_elem?_total b i h in (x, e, ground (arith, e))

pub Ends-index :
    {A : Type 0} (P : A → Type 0) (b : Bytes) (i : ℕ) {next : ℕ → Go A}
    → i < length b
    → ((x : ℕ) → get_elem? b i ≡ some x → Ends P (next x))
    → Ends P (index b i >>= next)
Ends-index P b i h ends = let (x, at, e) = index_total b i h in rw e (ends x at)

-- What clampTCP puts together from the header, the options and the data.
abbrev put_around : Bytes → ℕ → Option Bytes → Option Bytes
put_around tcp offset lowered =
    put_before (take 20 tcp) (elim lowered [ none ↦ none | some o ↦ some (o ++ drop offset tcp) ])

put_around-Sized :
    (tcp : Bytes) (offset : ℕ) (lowered : Option Bytes)
    → 20 ≤ offset
    → offset ≤ length tcp
    → Sized (drop 20 (take offset tcp)) lowered
    → Sized tcp (put_around tcp offset lowered)
unfolding put_before
put_around-Sized tcp offset none h k sized = tt
put_around-Sized tcp offset (some o) h k (same, bytes) = (
  omega (
    arith,
    length-append (take 20 tcp) (o ++ drop offset tcp),
    length-append o (drop offset tcp),
    length-take 20 tcp,
    length-drop offset tcp,
    length-drop 20 (take offset tcp),
    length-take offset tcp,
    same,
  ),
  λ all. All-append IsByte (take 20 tcp) (o ++ drop offset tcp) (All-take IsByte 20 tcp all) (
      All-append IsByte o (drop offset tcp)
        (bytes (All-drop IsByte 20 (take offset tcp) (All-take IsByte offset tcp all)))
        (All-drop IsByte offset tcp all)),
)

clamp_within-Keeps :
    (tcp : Bytes) (max_mss offset : ℕ)
    → 20 ≤ offset
    → offset ≤ length tcp
    → Keeps tcp (
        clamp_options (length (drop 20 (take offset tcp))) max_mss (drop 20 (take offset tcp))
        >>= λ lowered. ok (put_around tcp offset lowered))
clamp_within-Keeps tcp max_mss offset h k =
    let opts = drop 20 (take offset tcp) in
    let (lowered, e, sized) = clamp_options-Keeps (length opts) max_mss opts in
    (put_around tcp offset lowered, rw e refl, put_around-Sized tcp offset lowered h k sized)

-- clampTCP ends on any segment, and what it writes is as long as the segment.
pub clamp_tcp-Keeps : (tcp : Bytes) (max_mss : ℕ) → Keeps tcp (clamp_tcp tcp max_mss)
unfolding clamp_tcp
clamp_tcp-Keeps tcp max_mss =
    Ends-if (Sized tcp) (ltb (length tcp) 20) (λ _. (none, refl, tt))
      (λ long. Ends-index (Sized tcp) tcp 13 (omega (arith, ltb_false→le _ _ long)) (λ flags _.
        Ends-if (Sized tcp) (bit_and flags 0x02 == 0) (λ _. (none, refl, tt))
          (λ _.
            Ends-index (Sized tcp) tcp 12 (omega (arith, ltb_false→le _ _ long)) (λ offset_byte _.
              let offset = offset_byte / 16 * 4 in
              Ends-if (Sized tcp) (ltb offset 20 || ltb (length tcp) offset) (λ _. (none, refl, tt))
                (λ fits.
                  clamp_within-Keeps tcp max_mss offset (ground (arith, fits))
                    (ground (arith, fits)))))))

pub clamp_tcp_short :
    (tcp : Bytes) (max_mss : ℕ) → length tcp < 20 → clamp_tcp tcp max_mss ≡ ok none
unfolding clamp_tcp
clamp_tcp_short tcp max_mss h = rw (lt→ltb (length tcp) 20 h) refl

-- The packet that clamp4 leaves behind if clampTCP wrote.
abbrev pub header4 : Bytes → ℕ → Bytes
header4 pkt ihl = refreshed 10 checksum (take ihl pkt)

abbrev pub rebuilt4 : Bytes → ℕ → Bytes → Bytes
rebuilt4 pkt ihl tcp =
    let header = header4 pkt ihl in
    header ++ refreshed 16 (checksum_vec (pseudo_header4 (header ++ tcp) (length tcp))) tcp

pub length-refreshed :
    (i : ℕ) (sum : Bytes → ℕ) (b : Bytes) → i + 2 ≤ length b → length (refreshed i sum b) ≡ length b
length-refreshed i sum b h = omega (
  arith,
  length-append (take i b)
      (put_uint16 (sum (take i b ++ (0 ∷ (0 ∷ drop (i + 2) b)))) ++ drop (i + 2) b),
  length-take i b,
  length-drop (i + 2) b,
)

pub rebuild4_lem :
    (pkt : Bytes) (ihl : ℕ) (tcp : Bytes)
    → 20 ≤ ihl
    → ihl ≤ length pkt
    → 20 ≤ length tcp
    → rebuild4 pkt ihl (some tcp) ≡ ok (rebuilt4 pkt ihl tcp)
unfolding rebuild4 fix_tcp_checksum4
rebuild4_lem pkt ihl tcp h k l =
    let wide : 10 + 2 ≤ length (take ihl pkt) = omega (arith, length-take ihl pkt) in
    let header = header4 pkt ihl in
    let exact : length header ≡ ihl =
      omega (arith, length-refreshed 10 checksum (take ihl pkt) wide, length-take ihl pkt) in
    let size : length (header ++ tcp) - ihl ≡ length tcp =
      omega (arith, length-append header tcp, exact) in
    rw (refresh_checksum_lem 10 checksum (take ihl pkt) wide) (
      rw (size, take-append ihl header tcp exact, drop-append ihl header tcp exact)
        (rw
          (refresh_checksum_lem 16 (checksum_vec (pseudo_header4 (header ++ tcp) (length tcp))) tcp
            (omega arith))
          refl))

-- The packet that clamp6 leaves behind if clampTCP wrote.
abbrev pub rebuilt6 : Bytes → Bytes → Bytes
rebuilt6 pkt tcp =
    let header = take 40 pkt in
    header ++ refreshed 16 (checksum_vec (pseudo_header6 (header ++ tcp) (length tcp))) tcp

pub rebuild6_lem :
    (pkt tcp : Bytes)
    → 40 ≤ length pkt
    → 20 ≤ length tcp
    → rebuild6 pkt (some tcp) ≡ ok (rebuilt6 pkt tcp)
unfolding rebuild6 fix_tcp_checksum6
rebuild6_lem pkt tcp h k =
    let header = take 40 pkt in
    let exact : length header ≡ 40 = omega (arith, length-take 40 pkt) in
    rw (take-append 40 header tcp exact, drop-append 40 header tcp exact)
      (rw
        (refresh_checksum_lem 16 (checksum_vec (pseudo_header6 (header ++ tcp) (length tcp))) tcp
          (omega arith))
        refl)
