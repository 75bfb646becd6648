-- ===== src/Text.antt =====
-- Go's strings package as the parsers use it. What depends on Unicode tables, on number syntax or on
-- address syntax is a parameter, the record Library.
pub mod Laws
pub mod Cuts
pub mod Samples
use go_openlawsvpn.Base.{
  ℕ, zero, suc, Bool, true, false, not, ◌&&◌, ◌||◌, List, [], ◌∷◌, ◌++◌, length, take, drop, ◌==◌,
  if◌then◌else◌, Option, none, some, Bytes, bytes_eq, ℤ,
}
use go_openlawsvpn.Compress.{codes}

-- strings.ToLower, ToUpper, EqualFold, TrimSpace and Fields; strconv.Atoi, ParseInt and ParseUint
-- (base 10, 64 bits); fmt.Sscanf with "%d"; net.ParseIP, the method To4 and net.ParseCIDR, which gives the address, the
-- address of its network and the length of the prefix. `none` is an error, or a nil address.
pub record Library : Type 0 where
  pub to_lower : Bytes → Bytes
  pub to_upper : Bytes → Bytes
  pub equal_fold : Bytes → Bytes → Bool
  pub trim_space : Bytes → Bytes
  pub fields : Bytes → List Bytes
  pub atoi : Bytes → Option ℤ
  pub parse_int : Bytes → Option ℤ
  pub parse_uint : Bytes → Option ℕ
  pub scan_int : Bytes → Option ℤ
  pub parse_ip : Bytes → Option Bytes
  pub to4 : Bytes → Option Bytes
  pub parse_cidr : Bytes → Option (Bytes × Bytes × ℕ)

abbrev pub cons_first : ℕ → List Bytes → List Bytes
cons_first c [] = (c ∷ []) ∷ []
cons_first c (part ∷ parts) = (c ∷ part) ∷ parts

-- strings.Split at one byte.
unfoldable pub split : ℕ → Bytes → List Bytes
split sep [] = [] ∷ []
split sep (c ∷ s) = if c == sep then [] ∷ split sep s else cons_first c (split sep s)

-- strings.SplitN at one byte into at most `suc n` parts.
unfoldable pub split_n : ℕ → ℕ → Bytes → List Bytes
split_n zero sep s = s ∷ []
split_n (suc n) sep [] = [] ∷ []
split_n (suc n) sep (c ∷ s) =
    let behind = split_n n sep s in
    let within = cons_first c (split_n (suc n) sep s) in if c == sep then [] ∷ behind else within

-- strings.HasPrefix, and what follows the prefix.
unfoldable pub after_prefix : Bytes → Bytes → Option Bytes
after_prefix [] s = some s
after_prefix (p ∷ prefix) [] = none
after_prefix (p ∷ prefix) (c ∷ s) =
    let rest = after_prefix prefix s in if p == c then rest else none

abbrev pub has_prefix : Bytes → Bytes → Bool
has_prefix prefix s = elim (after_prefix prefix s) [ none ↦ false | some _ ↦ true ]

abbrev pub trim_prefix : Bytes → Bytes → Bytes
trim_prefix prefix s = elim (after_prefix prefix s) [ none ↦ s | some rest ↦ rest ]

-- A byte in front of what is left of the text behind it.
abbrev pub unless_blank : ℕ → ℕ → Bytes → Bytes
unless_blank cut c [] = if c == cut then [] else c ∷ []
unless_blank cut c (d ∷ s) = c ∷ (d ∷ s)

-- strings.TrimRight with a cutset of one byte.
unfoldable pub trim_right : ℕ → Bytes → Bytes
trim_right cut [] = []
trim_right cut (c ∷ s) = unless_blank cut c (trim_right cut s)

-- strings.Index of one byte, or of a byte twice in a row: the texts before and behind it.
unfoldable pub cut_at : ℕ → Bytes → Option (Bytes × Bytes)
cut_at sep [] = none
cut_at sep (c ∷ s) =
    let later = cut_at sep s in
    if c == sep then some ([], s) else elim later [ none ↦ none | some (a, b) ↦ some (c ∷ a, b) ]

abbrev pub starts_with : ℕ → Bytes → Bool
starts_with sep [] = false
starts_with sep (c ∷ s) = c == sep

unfoldable pub cut_at_pair : ℕ → Bytes → Option (Bytes × Bytes)
cut_at_pair sep [] = none
cut_at_pair sep (c ∷ s) =
    let later = cut_at_pair sep s in
    if c == sep && starts_with sep s
    then some ([], drop 1 s)
    else elim later [ none ↦ none | some (a, b) ↦ some (c ∷ a, b) ]

abbrev pub is_empty : Bytes → Bool
is_empty [] = true
is_empty (_ ∷ _) = false

-- Whether a flag stands among the arguments, as EqualFold compares.
unfoldable pub has_flag : Library → Bytes → List Bytes → Bool
has_flag lib flag [] = false
has_flag lib flag (arg ∷ args) = lib.equal_fold arg flag || has_flag lib flag args
