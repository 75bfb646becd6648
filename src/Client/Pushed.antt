-- ===== src/Client/Pushed.antt =====
-- client.go: parseTunMTU and parsePeerID, which look for one directive of the reply.
mod Tests
use go_openlawsvpn.Base.{
  ℕ, ◌^◌, ◌≡◌, ◌≤◌, ◌<◌, ◌⊎◌, inl, inr, refl, sym, ap, subst, ◌∙◌, arith, Bool, true, false, not,
  ◌&&◌, List, [], ◌∷◌, leb, if◌then◌else◌, Option, none, some, Bytes, ℤ, pos, lt_ℤ,
}
use go_openlawsvpn.Compress.{codes}
use go_openlawsvpn.Text.{Library, split, trim_right}

module _ (lib : Library) where
  -- The argument of a field with the given name and one argument.
  unfoldable pub argument_of : Bytes → List Bytes → Option Bytes
  argument_of name (word ∷ (value ∷ [])) = if lib.equal_fold word name then some value else none
  argument_of name _ = none

  -- `err == nil && v >= 68 && v <= 65535`
  unfoldable pub mtu_value : Option Bytes → Option ℤ
  mtu_value none = none
  mtu_value (some value) = elim (lib.scan_int value) [
    | none ↦ none
    | some v ↦ if not (lt_ℤ v (pos 68)) && not (lt_ℤ (pos 65535) v) then some v else none
  ]

  -- The loop, which ends at the first value in range; zero if there is none.
  unfoldable pub pushed_mtu : List Bytes → ℤ
  unfolding argument_of mtu_value
  pushed_mtu [] = pos 0
  pushed_mtu (field ∷ fields) =
      let rest = pushed_mtu fields in
      elim (mtu_value (argument_of (codes "tun-mtu") (lib.fields (lib.trim_space field)))) [
        | some v ↦ v
        | none ↦ rest
      ]

  -- The choice between the two.
  abbrev pub chosen_mtu : ℤ → ℤ → ℤ
  chosen_mtu pushed profile_mtu =
      if lt_ℤ (pos 0) profile_mtu
      then (if lt_ℤ (pos 0) pushed && lt_ℤ pushed profile_mtu then pushed else profile_mtu)
      else if lt_ℤ (pos 0) pushed
      then pushed
      else pos 1500

  unfoldable pub parse_tun_mtu : Bytes → ℤ → ℤ
  unfolding pushed_mtu
  parse_tun_mtu push_raw profile_mtu =
      chosen_mtu (pushed_mtu (split b',' (trim_right 0 push_raw))) profile_mtu

  -- `err == nil && v <= 0xFFFFFE`; `scan_uint32` is fmt.Sscanf with "%d" into a uint32.
  unfoldable pub peer_value : (Bytes → Option ℕ) → Option Bytes → Option ℕ
  peer_value scan_uint32 none = none
  peer_value scan_uint32 (some value) = elim (scan_uint32 value) [
    | none ↦ none
    | some v ↦ if leb v 0xFFFFFE then some v else none
  ]

  unfoldable pub pushed_peer : (Bytes → Option ℕ) → List Bytes → ℕ
  unfolding argument_of peer_value
  pushed_peer scan_uint32 [] = 0
  pushed_peer scan_uint32 (field ∷ fields) =
      let rest = pushed_peer scan_uint32 fields in
      elim (peer_value scan_uint32
        (argument_of (codes "peer-id") (lib.fields (lib.trim_space field)))) [
          | some v ↦ v
          | none ↦ rest
        ]

  unfoldable pub parse_peer_id : (Bytes → Option ℕ) → Bytes → ℕ
  unfolding pushed_peer
  parse_peer_id scan_uint32 push_raw = pushed_peer scan_uint32 (split b',' (trim_right 0 push_raw))

-- A TUN MTU that a server may push.
abbrev pub InRange : ℤ → Type 0
InRange v = (lt_ℤ v (pos 68) ≡ false) × (lt_ℤ (pos 65535) v ≡ false)

-- What is found, if anything, is in range.
abbrev Found : Option ℤ → Type 0
Found none = Unit {0}
Found (some v) = InRange v

module _ (lib : Library) where
  mtu_value-Found : (o : Option Bytes) → Found (mtu_value lib o)
  unfolding mtu_value
  mtu_value-Found none = tt
  mtu_value-Found (some value) = scanned (lib.scan_int value)
    where
      kept : (b : Bool) (v : ℤ) → (b ≡ true → InRange v) → Found (if b then some v else none)
      kept true v h = h refl
      kept false v h = tt

      scanned :
          (o : Option ℤ)
          → Found (elim o as (λ _. Option ℤ) [
            | none ↦ none
            | some v ↦ if not (lt_ℤ v (pos 68)) && not (lt_ℤ (pos 65535) v) then some v else none
          ])
      scanned none = tt
      scanned (some v) =
          kept (not (lt_ℤ v (pos 68)) && not (lt_ℤ (pos 65535) v)) v (λ h. ground (arith, h))

  pushed_mtu_lem :
      (fields : List Bytes) → (pushed_mtu lib fields ≡ pos 0) ⊎ InRange (pushed_mtu lib fields)
  unfolding pushed_mtu
  pushed_mtu_lem [] = inl refl
  pushed_mtu_lem (field ∷ fields) =
      first (mtu_value lib (argument_of lib (codes "tun-mtu") (lib.fields (lib.trim_space field))))
        (mtu_value-Found (argument_of lib (codes "tun-mtu") (lib.fields (lib.trim_space field))))
        (pushed_mtu_lem fields)
    where
      first :
          (o : Option ℤ) {rest : ℤ}
          → Found o
          → (rest ≡ pos 0) ⊎ InRange rest
          → (elim o as (λ _. ℤ) [ some v ↦ v | none ↦ rest ] ≡ pos 0)
            ⊎ InRange (elim o as (λ _. ℤ) [ some v ↦ v | none ↦ rest ])
      first none h k = k
      first (some v) h k = inr h

  chosen_mtu_lem :
      (pushed profile_mtu : ℤ)
      → (pushed ≡ pos 0) ⊎ InRange pushed
      → ((lt_ℤ (pos 0) profile_mtu ≡ true)
          × (lt_ℤ profile_mtu (chosen_mtu lib pushed profile_mtu) ≡ false)
          × ((chosen_mtu lib pushed profile_mtu ≡ profile_mtu)
              ⊎ InRange (chosen_mtu lib pushed profile_mtu)))
        ⊎ ((lt_ℤ (pos 0) profile_mtu ≡ false) × InRange (chosen_mtu lib pushed profile_mtu))
  chosen_mtu_lem pushed profile_mtu h =
      choose (lt_ℤ (pos 0) profile_mtu) (lt_ℤ (pos 0) pushed && lt_ℤ pushed profile_mtu)
        (lt_ℤ (pos 0) pushed) (λ e. lower e) (λ e. is_range (lower_positive e)) (λ e. is_range e)
    where
      lower :
          lt_ℤ (pos 0) pushed && lt_ℤ pushed profile_mtu ≡ true → lt_ℤ profile_mtu pushed ≡ false
      lower e = ground (arith, e)

      lower_positive :
          lt_ℤ (pos 0) pushed && lt_ℤ pushed profile_mtu ≡ true → lt_ℤ (pos 0) pushed ≡ true
      lower_positive e = ground (arith, e)

      is_range : lt_ℤ (pos 0) pushed ≡ true → InRange pushed
      is_range e = elim h [ inl z ↦ absurd (zero_positive pushed z e) | inr range ↦ range ]
        where
          zero_positive : (p : ℤ) → p ≡ pos 0 → lt_ℤ (pos 0) p ≡ true → ⊥
          zero_positive p z k =
              let q : lt_ℤ (pos 0) (pos 0) ≡ true = subst (λ x. lt_ℤ (pos 0) x ≡ true) z k in
              ground (arith, q)

      same : (p : ℤ) → lt_ℤ p p ≡ false
      same p = ground arith

      choose :
          (known smaller found : Bool)
          → (smaller ≡ true → lt_ℤ profile_mtu pushed ≡ false)
          → (smaller ≡ true → InRange pushed)
          → (found ≡ true → InRange pushed)
          → ((known ≡ true)
              × (lt_ℤ profile_mtu (
                    if known
                    then (if smaller then pushed else profile_mtu)
                    else if found
                    then pushed
                    else pos 1500)
                  ≡ false)
              × (((if known
                      then (if smaller then pushed else profile_mtu)
                      else if found
                      then pushed
                      else pos 1500)
                    ≡ profile_mtu)
                  ⊎ InRange (
                      if known
                      then (if smaller then pushed else profile_mtu)
                      else if found
                      then pushed
                      else pos 1500)))
            ⊎ ((known ≡ false)
                × InRange (
                    if known
                    then (if smaller then pushed else profile_mtu)
                    else if found
                    then pushed
                    else pos 1500))
      choose true true found a b c = inl (refl, a refl, inr (b refl))
      choose true false found a b c = inl (refl, same profile_mtu, inl refl)
      choose false smaller true a b c = inr (refl, c refl)
      choose false smaller false a b c = inr (refl, (refl, refl))

  -- A positive MTU of the profile is an upper bound of the result, which is that MTU or one between 68 and
  -- 65535; without one the result is between 68 and 65535.
  parse_tun_mtu_lem :
      (push_raw : Bytes) (profile_mtu : ℤ)
      → ((lt_ℤ (pos 0) profile_mtu ≡ true)
          × (lt_ℤ profile_mtu (parse_tun_mtu lib push_raw profile_mtu) ≡ false)
          × ((parse_tun_mtu lib push_raw profile_mtu ≡ profile_mtu)
              ⊎ InRange (parse_tun_mtu lib push_raw profile_mtu)))
        ⊎ ((lt_ℤ (pos 0) profile_mtu ≡ false) × InRange (parse_tun_mtu lib push_raw profile_mtu))
  unfolding parse_tun_mtu
  parse_tun_mtu_lem push_raw profile_mtu =
      chosen_mtu_lem (pushed_mtu lib (split b',' (trim_right 0 push_raw))) profile_mtu
        (pushed_mtu_lem (split b',' (trim_right 0 push_raw)))
