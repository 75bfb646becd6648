-- ===== src/Profile/Valid.antt =====
-- What ParseFile of profile/profile.go promises of every profile that it accepts.
use go_openlawsvpn.Base.{
  ℕ, ◌≤◌, ◌≡◌, ◌⊎◌, refl, arith, inl, inr, Bool, true, false, List, [], ◌∷◌, Option, none, some,
  Result, ok, err, panic, ◌>>=◌, Bytes, ℤ, pos, negsuc, if◌then◌else◌,
}
use go_openlawsvpn.Text.{Library}
use go_openlawsvpn.Profile.{Profile, default_profile, Ipv6Config}
use go_openlawsvpn.Profile.Directives.{
  Error, Directive, checked, outside, is_negative, not_positive, number_arg, parse_positive_seconds,
  port_arg, remote, reneg_bytes, mssfix, keepalive,
}

abbrev pub Within : ℕ → ℕ → ℤ → Type 0
Within lo hi (pos n) = (lo ≤ n) × (n ≤ hi)
Within lo hi (negsuc n) = ⊥

abbrev pub AtLeast : ℕ → ℤ → Type 0
AtLeast lo (pos n) = lo ≤ n
AtLeast lo (negsuc n) = ⊥

abbrev pub AreRanges : Profile → Type 0
AreRanges p =
    Within 1 65535 p.port
    × Within 0 11 p.verb
    × AtLeast 0 p.reneg_sec
    × AtLeast 0 p.reneg_bytes
    × AtLeast 0 p.become_primary_sec
    × ((p.tun_mtu ≡ pos 0) ⊎ Within 68 65535 p.tun_mtu)

abbrev pub IsMssfix : Profile → Type 0
IsMssfix p = AtLeast 0 p.mss_fix × (p.mss_fix_set ≡ false → p.mss_fix ≡ pos 0)

abbrev pub AreTimers : Profile → Type 0
AreTimers p =
    AtLeast 0 p.ping_interval
    × AtLeast 0 p.ping_restart
    × AtLeast 0 p.ping_exit
    × ((p.ping_restart ≡ pos 0) ⊎ (p.ping_exit ≡ pos 0))

abbrev pub Fits : (ℤ → Type 0) → Result Error ℤ → Type 0
Fits P (ok n) = P n
Fits P (err _) = Unit {0}
Fits P panic = ⊥

-- What the tests on a number let through.
checked-Fits :
    (P : ℤ → Type 0) (bad : ℤ → Bool) (d : Directive) (text : Bytes) (n : Option ℤ)
    → ((v : ℤ) → bad v ≡ false → P v)
    → Fits P (checked bad d text n)
checked-Fits P bad d text none h = tt
checked-Fits P bad d text (some v) h = split (bad v) refl
  where
    split : (b : Bool) → bad v ≡ b → Fits P (if b then err (Error.invalid d text) else ok v)
    split true e = tt
    split false e = h v e

pub outside-Within : (lo hi : ℕ) (v : ℤ) → outside lo hi v ≡ false → Within lo hi v
outside-Within lo hi (pos n) h = ground (arith, h)
outside-Within lo hi (negsuc n) h = ground (arith, h)

pub negative-AtLeast : (v : ℤ) → is_negative v ≡ false → AtLeast 0 v
negative-AtLeast (pos n) h = omega arith
negative-AtLeast (negsuc n) h = ground (arith, h)

not_positive-AtLeast : (v : ℤ) → not_positive v ≡ false → AtLeast 1 v
not_positive-AtLeast (pos n) h = ground (arith, h)
not_positive-AtLeast (negsuc n) h = ground (arith, h)

pub AtLeast-weaken : (v : ℤ) → AtLeast 1 v → AtLeast 0 v
AtLeast-weaken (pos n) h = omega arith
AtLeast-weaken (negsuc n) h = h

module _ (lib : Library) where
  abbrev pub IsIpv6 : Option Ipv6Config → Type 0
  IsIpv6 none = Unit {0}
  IsIpv6 (some cfg) =
      (lib.to4 cfg.local_ip ≡ none) × ((ip : Bytes) → cfg.gateway ≡ some ip → lib.to4 ip ≡ none)

  -- Every number is in its range, ping-restart and ping-exit are not both set, the numeric mssfix is set or
  -- 0, and the addresses of ifconfig-ipv6 are no IPv4 addresses.
  abbrev pub IsValid : Profile → Type 0
  IsValid p = AreRanges p × IsMssfix p × AreTimers p × IsIpv6 p.ifconfig6

  -- A result that is no panic, and a valid profile if it is no error.
  abbrev pub Sound : Result Error Profile → Type 0
  Sound (ok p) = IsValid p
  Sound (err _) = Unit {0}
  Sound panic = ⊥

  pub >>=-Fits :
      (P : ℤ → Type 0) (m : Result Error ℤ) (next : ℤ → Result Error Profile)
      → Fits P m
      → ((n : ℤ) → P n → Sound (next n))
      → Sound (m >>= next)
  >>=-Fits P (ok n) next h k = k n h
  >>=-Fits P (err e) next h k = tt
  >>=-Fits P panic next h k = h

  pub number_arg-Fits :
      (P : ℤ → Type 0) (bad : ℤ → Bool) (d : Directive) (args : List Bytes)
      → ((v : ℤ) → bad v ≡ false → P v)
      → Fits P (number_arg lib bad d args)
  number_arg-Fits P bad d [] h = tt
  number_arg-Fits P bad d (text ∷ args) h = checked-Fits P bad d text (lib.atoi text) h

  pub seconds-Fits :
      (d : Directive) (args : List Bytes) → Fits (AtLeast 1) (parse_positive_seconds lib d args)
  unfolding parse_positive_seconds
  seconds-Fits d args = number_arg-Fits (AtLeast 1) not_positive d args not_positive-AtLeast

  pub remote-Sound : (p : Profile) (args : List Bytes) → IsValid p → Sound (remote lib p args)
  unfolding remote port_arg
  remote-Sound p [] v = tt
  remote-Sound p (host ∷ []) v = v
  remote-Sound p (host ∷ (text ∷ args)) v =
      >>=-Fits (Within 1 65535) (checked (outside 1 65535) _ text (lib.atoi text)) _
        (checked-Fits _ _ _ text (lib.atoi text) (outside-Within 1 65535))
        (λ n h. ((h, v.0.1, v.0.2, v.0.3, v.0.4, v.0.5), v.1, v.2, v.3))

  pub reneg_bytes-Sound :
      (p : Profile) (args : List Bytes) → IsValid p → Sound (reneg_bytes lib p args)
  unfolding reneg_bytes
  reneg_bytes-Sound p [] v = tt
  reneg_bytes-Sound p (text ∷ args) v =
      >>=-Fits (AtLeast 0) (checked is_negative _ text (lib.parse_int text)) _
        (checked-Fits _ _ _ text (lib.parse_int text) negative-AtLeast)
        (λ n h. ((v.0.0, v.0.1, v.0.2, h, v.0.4, v.0.5), v.1, v.2, v.3))

  pub mssfix-Sound : (p : Profile) (args : List Bytes) → IsValid p → Sound (mssfix lib p args)
  unfolding mssfix
  mssfix-Sound p [] v = v
  mssfix-Sound p (text ∷ args) v =
      >>=-Fits (AtLeast 0) (checked is_negative _ text (lib.atoi text)) _
        (checked-Fits _ _ _ text (lib.atoi text) negative-AtLeast)
        (λ n h. (v.0, (h, λ unset. cc), v.2, v.3))

  pub keepalive-Sound : (p : Profile) (args : List Bytes) → IsValid p → Sound (keepalive lib p args)
  unfolding keepalive
  keepalive-Sound p [] v = tt
  keepalive-Sound p (_ ∷ []) v = tt
  keepalive-Sound p (first ∷ (second ∷ args)) v =
      >>=-Fits (AtLeast 1) (checked not_positive _ first (lib.atoi first)) _
        (checked-Fits _ _ _ first (lib.atoi first) not_positive-AtLeast)
        (λ ping h.
          >>=-Fits (AtLeast 1) (checked not_positive _ second (lib.atoi second)) _
            (checked-Fits _ _ _ second (lib.atoi second) not_positive-AtLeast)
            (λ timeout k. (
              v.0,
              v.1,
              (AtLeast-weaken ping h, AtLeast-weaken timeout k, omega arith, inr refl),
              v.3,
            )))

  pub default_profile-IsValid : IsValid default_profile
  default_profile-IsValid = (
    (omega arith, omega arith, omega arith, omega arith, omega arith, inl refl),
    (omega arith, λ _. refl),
    (omega arith, omega arith, omega arith, inl refl),
    tt,
  )
