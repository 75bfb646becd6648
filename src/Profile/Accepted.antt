-- ===== src/Profile/Accepted.antt =====
-- The loop of ParseFile in profile/profile.go keeps the profile valid.
pub mod Cases
use go_openlawsvpn.Base.{
  ℕ, ◌≡◌, ◌≢◌, ◌⊎◌, refl, arith, inl, inr, Bool, true, false, not, Bool-cases, List, [], ◌∷◌,
  Option, none, some, Result, ok, err, panic, ◌>>=◌, Bytes, bytes_eq, if◌then◌else◌,
}
use go_openlawsvpn.Compress.{codes}
use go_openlawsvpn.Text.{Library, is_empty, after_prefix}
use go_openlawsvpn.Profile.{Profile, Ipv6Config}
use go_openlawsvpn.Profile.Directives.{
  Error, Directive, first_arg, is_ipv4, proto, ipv6_cidr, ipv6_gateway, ipv6_gateway_arg,
  ifconfig_ipv6, openlawsvpn_flow, verify_x509_name, dns_server, dhcp_option, apply, apply_known,
  parse_fields, directive_of,
}
use go_openlawsvpn.Profile.Valid.{
  Within, AtLeast, default_profile-IsValid, outside-Within, negative-AtLeast, AtLeast-weaken,
  IsIpv6, IsValid, Sound, >>=-Fits, number_arg-Fits, seconds-Fits, remote-Sound, reneg_bytes-Sound,
  mssfix-Sound, keepalive-Sound,
}
use go_openlawsvpn.Profile.Lines.{
  State, start, is_skipped, closing, store_block, inline_line, opened, outer_line, trimmed_line,
  parse_lines, finish, parse_file,
}
use go_openlawsvpn.Profile.Accepted.Cases.{parse_fields-Sound}

module _ (lib : Library) where
  store_block-IsValid :
      (tag text : Bytes) (p : Profile) → IsValid lib p → IsValid lib (store_block tag text p)
  unfolding store_block
  store_block-IsValid tag text p v =
      split (bytes_eq tag (codes "ca")) (bytes_eq tag (codes "cert")) (bytes_eq tag (codes "key"))
    where
      split :
          (a b c : Bool)
          → IsValid lib (
              if a
              then record p { ca = text }
              else if b
              then record p { cert = text }
              else if c
              then record p { key = text }
              else p)
      split true b c = v
      split false true c = v
      split false false true = v
      split false false false = v

  inline_line-IsValid :
      (st : State) (line : Bytes)
      → IsValid lib st.profile
      → IsValid lib (inline_line st line).profile
  unfolding inline_line
  inline_line-IsValid st line v = elim (Bool-cases (bytes_eq line (closing st.inline_tag))) [
    | inl e ↦ rw e (store_block-IsValid st.inline_tag st.inline_buf st.profile v)
    | inr e ↦ rw e v
  ]

  -- A line with both brackets has two bytes.
  opened-ne-panic : (line : Bytes) → opened line ≢ panic
  unfolding opened after_prefix bytes_eq
  opened-ne-panic [] = λ e. ground (arith, e)
  opened-ne-panic (a ∷ []) = λ e. ground (arith, e)
  opened-ne-panic (a ∷ (b ∷ rest)) = λ e. ground (arith, e)

  abbrev SoundState : Result Error State → Type 0
  SoundState (ok st) = IsValid lib st.profile
  SoundState (err _) = Unit {0}
  SoundState panic = ⊥

  outer_line-Sound :
      (st : State) (line : Bytes) (tag : Option Bytes)
      → IsValid lib st.profile
      → SoundState (outer_line lib st line tag)
  outer_line-Sound st line (some tag) v = v
  outer_line-Sound st line none v =
      parsed (parse_fields lib st.profile (lib.fields line))
        (parse_fields-Sound lib st.profile (lib.fields line) v)
    where
      parsed :
          (r : Result Error Profile)
          → Sound lib r
          → SoundState (r >>= λ p. ok (record st { profile = p }))
      parsed (ok p) h = h
      parsed (err e) h = tt
      parsed panic h = h

  trimmed_line-Sound :
      (st : State) (line : Bytes) → IsValid lib st.profile → SoundState (trimmed_line lib st line)
  unfolding trimmed_line
  trimmed_line-Sound st line v =
      split (is_skipped line) (is_empty st.inline_tag) (opened line) (opened-ne-panic line)
    where
      split :
          (skip outer : Bool) (r : Result Error (Option Bytes))
          → r ≢ panic
          → SoundState (
              if skip
              then ok st
              else if not outer
              then ok (inline_line st line)
              else r >>= λ tag. outer_line lib st line tag)
      split true outer r h = v
      split false false r h = inline_line-IsValid st line v
      split false true (ok tag) h = outer_line-Sound st line tag v
      split false true (err e) h = tt
      split false true panic h = h refl

  >>=-SoundState :
      (r : Result Error State) (next : State → Result Error State)
      → SoundState r
      → ((st : State) → IsValid lib st.profile → SoundState (next st))
      → SoundState (r >>= next)
  >>=-SoundState (ok st) next h k = k st h
  >>=-SoundState (err e) next h k = tt
  >>=-SoundState panic next h k = h

  parse_lines-Sound :
      (lines : List Bytes) (st : State)
      → IsValid lib st.profile
      → SoundState (parse_lines lib lines st)
  unfolding parse_lines
  parse_lines-Sound [] st v = v
  parse_lines-Sound (line ∷ lines) st v =
      >>=-SoundState (trimmed_line lib st (lib.trim_space line)) _
        (trimmed_line-Sound st (lib.trim_space line) v) (λ st' w. parse_lines-Sound lines st' w)

  -- `ParseFile` never panics, whatever the lines are: it returns an error, or a profile with a remote in
  -- which every number is in its range, at most one of ping-restart and ping-exit is set, mssfix is 0
  -- unless it is marked as set, and the addresses of ifconfig-ipv6 are no IPv4 addresses.
  pub parse_file-IsValid :
      (lines : List Bytes) (failed : Bool)
      → ((e : Error) × (parse_file lib lines failed ≡ err e))
        ⊎ ((p : Profile) × (parse_file lib lines failed ≡ ok p) × (p.remote ≢ []) × IsValid lib p)
  unfolding parse_file
  parse_file-IsValid lines failed =
      outcome (parse_lines lib lines start)
        (parse_lines-Sound lines start (default_profile-IsValid lib))
    where
      ended :
          (p : Profile) (broken : Bool) (r : Bytes)
          → p.remote ≡ r
          → IsValid lib p
          → ((e : Error) × ((if broken
                  then err Error.read_error
                  else if is_empty r
                  then err Error.no_remote
                  else ok p)
                ≡ err e))
            ⊎ ((q : Profile) × ((if broken
                    then err Error.read_error
                    else if is_empty r
                    then err Error.no_remote
                    else ok p)
                  ≡ ok q)
                × (q.remote ≢ [])
                × IsValid lib q)
      ended p true r e v = inl (Error.read_error, refl)
      ended p false [] e v = inl (Error.no_remote, refl)
      ended p false (c ∷ r) e v = inr (p, refl, (λ h. cc), v)

      outcome :
          (r : Result Error State)
          → SoundState r
          → ((e : Error) × ((r >>= λ st. finish failed st.profile) ≡ err e))
            ⊎ ((p : Profile) × ((r >>= λ st. finish failed st.profile) ≡ ok p)
                × (p.remote ≢ [])
                × IsValid lib p)
      outcome (ok st) h = ended st.profile failed st.profile.remote refl h
      outcome (err e) h = inl (e, refl)
      outcome panic h = absurd h
