-- ===== src/Profile/Accepted/Cases.antt =====
-- Every case of the switch in ParseFile of profile/profile.go keeps the profile valid.
use go_openlawsvpn.Base.{
  ℕ, ◌≡◌, refl, arith, inl, inr, Bool, true, false, List, [], ◌∷◌, Option, none, some, Result, ok,
  err, panic, ◌>>=◌, Bytes, bytes_eq, if◌then◌else◌,
}
use go_openlawsvpn.Compress.{codes}
use go_openlawsvpn.Text.{Library}
use go_openlawsvpn.Profile.{Profile, Ipv6Config}
use go_openlawsvpn.Profile.Directives.{
  Error, Directive, first_arg, is_ipv4, proto, ipv6_cidr, ipv6_gateway, ipv6_gateway_arg,
  ifconfig_ipv6, openlawsvpn_flow, verify_x509_name, dns_server, dhcp_option, apply, apply_known,
  parse_fields, directive_of,
}
use go_openlawsvpn.Profile.Valid.{
  Within, AtLeast, outside-Within, negative-AtLeast, AtLeast-weaken, IsIpv6, IsValid, Sound,
  >>=-Fits, number_arg-Fits, seconds-Fits, remote-Sound, reneg_bytes-Sound, mssfix-Sound,
  keepalive-Sound,
}

module _ (lib : Library) where
  abbrev FitsIpv6 : Result Error Ipv6Config → Type 0
  FitsIpv6 (ok cfg) = IsIpv6 lib (some cfg)
  FitsIpv6 (err _) = Unit {0}
  FitsIpv6 panic = ⊥

  not_ipv4 : (ip : Option Bytes) → is_ipv4 ip ≡ false → ip ≡ none
  not_ipv4 none h = refl
  not_ipv4 (some ip) h = cc

  ipv6_cidr-FitsIpv6 :
      (text : Bytes) (cidr : Option (Bytes × Bytes × ℕ)) → FitsIpv6 (ipv6_cidr lib text cidr)
  ipv6_cidr-FitsIpv6 text none = tt
  ipv6_cidr-FitsIpv6 text (some (ip, network, prefix)) = split (is_ipv4 (lib.to4 ip)) refl
    where
      split :
          (b : Bool)
          → is_ipv4 (lib.to4 ip) ≡ b
          → FitsIpv6 (
              if b
              then err (Error.invalid Directive.d_ifconfig_ipv6 text)
              else ok (record { local_ip = ip; prefix = prefix; gateway = none }))
      split true e = tt
      split false e = (not_ipv4 (lib.to4 ip) e, λ gw f. cc)

  ipv6_gateway-FitsIpv6 :
      (cfg : Ipv6Config) (text : Bytes) (ip : Option Bytes)
      → IsIpv6 lib (some cfg)
      → FitsIpv6 (ipv6_gateway lib cfg text ip)
  ipv6_gateway-FitsIpv6 cfg text none v = tt
  ipv6_gateway-FitsIpv6 cfg text (some ip) v = split (is_ipv4 (lib.to4 ip)) refl
    where
      split :
          (b : Bool)
          → is_ipv4 (lib.to4 ip) ≡ b
          → FitsIpv6 (
              if b
              then err (Error.invalid Directive.d_ifconfig_ipv6 text)
              else ok (record cfg { gateway = some ip }))
      split true e = tt
      split false e =
          (v.0, λ gw f. let same : ip ≡ gw = cc in rw (← same) (not_ipv4 (lib.to4 ip) e))

  ipv6_gateway_arg-FitsIpv6 :
      (cfg : Ipv6Config) (args : List Bytes)
      → IsIpv6 lib (some cfg)
      → FitsIpv6 (ipv6_gateway_arg lib cfg args)
  ipv6_gateway_arg-FitsIpv6 cfg [] v = v
  ipv6_gateway_arg-FitsIpv6 cfg (text ∷ args) v =
      ipv6_gateway-FitsIpv6 cfg text (lib.parse_ip text) v

  ifconfig_ipv6-Sound :
      (p : Profile) (args : List Bytes) → IsValid lib p → Sound lib (ifconfig_ipv6 lib p args)
  unfolding ifconfig_ipv6
  ifconfig_ipv6-Sound p [] v = tt
  ifconfig_ipv6-Sound p (text ∷ args) v =
      with_local (ipv6_cidr lib text (lib.parse_cidr text))
        (ipv6_cidr-FitsIpv6 text (lib.parse_cidr text))
    where
      with_gateway :
          (r : Result Error Ipv6Config)
          → FitsIpv6 r
          → Sound lib (r >>= λ full. ok (record p { ifconfig6 = some full }))
      with_gateway (ok full) h = (v.0, v.1, v.2, h)
      with_gateway (err e) h = tt
      with_gateway panic h = h

      with_local :
          (r : Result Error Ipv6Config)
          → FitsIpv6 r
          → Sound lib (
              r >>= λ cfg.
              ipv6_gateway_arg lib cfg args >>= λ full. ok (record p { ifconfig6 = some full }))
      with_local (ok cfg) h =
          with_gateway (ipv6_gateway_arg lib cfg args) (ipv6_gateway_arg-FitsIpv6 cfg args h)
      with_local (err e) h = tt
      with_local panic h = h

  -- The directives on texts change no number.
  proto-Sound : (p : Profile) (value : Bytes) → IsValid lib p → Sound lib (proto lib p value)
  unfolding proto
  proto-Sound p value v = ground (arith, v)

  dns_server-Sound :
      (p : Profile) (text : Bytes) (ip : Option Bytes)
      → IsValid lib p
      → Sound lib (dns_server lib p text ip)
  dns_server-Sound p text none v = tt
  dns_server-Sound p text (some ip) v = v

  dhcp_option-Sound :
      (p : Profile) (args : List Bytes) → IsValid lib p → Sound lib (dhcp_option lib p args)
  unfolding dhcp_option
  dhcp_option-Sound p [] v = v
  dhcp_option-Sound p (_ ∷ []) v = v
  dhcp_option-Sound p (kind ∷ (value ∷ args)) v =
      ground (arith, v, dns_server-Sound p value (lib.parse_ip value) v)

  flow-IsValid :
      (p : Profile) (args : List Bytes) → IsValid lib p → IsValid lib (openlawsvpn_flow lib p args)
  unfolding openlawsvpn_flow
  flow-IsValid p [] v = v
  flow-IsValid p (value ∷ args) v = split (bytes_eq (lib.to_lower value) (codes "saml"))
    where
      split : (b : Bool) → IsValid lib (if b then record p { force_saml_flow = true } else p)
      split true = v
      split false = v

  name-IsValid :
      (p : Profile) (args : List Bytes) → IsValid lib p → IsValid lib (verify_x509_name lib p args)
  unfolding verify_x509_name
  name-IsValid p [] v = v
  name-IsValid p (_ ∷ args) v = v

  -- A directive whose first argument is a text.
  text-Sound :
      (d : Directive) (args : List Bytes) (next : Bytes → Result Error Profile)
      → ((text : Bytes) → Sound lib (next text))
      → Sound lib (first_arg d args >>= next)
  text-Sound d [] next h = tt
  text-Sound d (text ∷ args) next h = h text

  apply-Sound :
      (d : Directive) (p : Profile) (args : List Bytes)
      → IsValid lib p
      → Sound lib (apply lib d p args)
  unfolding apply
  apply-Sound Directive.d_remote p args v = remote-Sound lib p args v
  apply-Sound Directive.d_port p args v =
      >>=-Fits lib (Within 1 65535) _ _
        (number_arg-Fits lib (Within 1 65535) _ _ args (outside-Within 1 65535))
        (λ n h. ((h, v.0.1, v.0.2, v.0.3, v.0.4, v.0.5), v.1, v.2, v.3))
  apply-Sound Directive.d_proto p args v = text-Sound _ args _ (λ value. proto-Sound p value v)
  apply-Sound Directive.d_cipher p args v = text-Sound _ args _ (λ value. v)
  apply-Sound Directive.d_auth p args v = text-Sound _ args _ (λ value. v)
  apply-Sound Directive.d_verb p args v =
      >>=-Fits lib (Within 0 11) _ _
        (number_arg-Fits lib (Within 0 11) _ _ args (outside-Within 0 11))
        (λ n h. ((v.0.0, h, v.0.2, v.0.3, v.0.4, v.0.5), v.1, v.2, v.3))
  apply-Sound Directive.d_reneg_sec p args v =
      >>=-Fits lib (AtLeast 0) _ _ (number_arg-Fits lib (AtLeast 0) _ _ args negative-AtLeast)
        (λ n h. ((v.0.0, v.0.1, h, v.0.3, v.0.4, v.0.5), v.1, v.2, v.3))
  apply-Sound Directive.d_reneg_bytes p args v = reneg_bytes-Sound lib p args v
  apply-Sound Directive.d_become_primary p args v =
      >>=-Fits lib (AtLeast 0) _ _ (number_arg-Fits lib (AtLeast 0) _ _ args negative-AtLeast)
        (λ n h. ((v.0.0, v.0.1, v.0.2, v.0.3, h, v.0.5), v.1, v.2, v.3))
  apply-Sound Directive.d_tun_mtu p args v =
      >>=-Fits lib (Within 68 65535) _ _
        (number_arg-Fits lib (Within 68 65535) _ _ args (outside-Within 68 65535))
        (λ n h. ((v.0.0, v.0.1, v.0.2, v.0.3, v.0.4, inr h), v.1, v.2, v.3))
  apply-Sound Directive.d_mssfix p args v = mssfix-Sound lib p args v
  apply-Sound Directive.d_ping p args v =
      >>=-Fits lib (AtLeast 1) _ _ (seconds-Fits lib _ args)
        (λ n h. (v.0, v.1, (AtLeast-weaken n h, v.2.1, v.2.2, v.2.3), v.3))
  apply-Sound Directive.d_ping_restart p args v =
      >>=-Fits lib (AtLeast 1) _ _ (seconds-Fits lib _ args)
        (λ n h. (v.0, v.1, (v.2.0, AtLeast-weaken n h, omega arith, inr refl), v.3))
  apply-Sound Directive.d_ping_exit p args v =
      >>=-Fits lib (AtLeast 1) _ _ (seconds-Fits lib _ args)
        (λ n h. (v.0, v.1, (v.2.0, omega arith, AtLeast-weaken n h, inl refl), v.3))
  apply-Sound Directive.d_keepalive p args v = keepalive-Sound lib p args v
  apply-Sound Directive.d_ifconfig_ipv6 p args v = ifconfig_ipv6-Sound p args v
  apply-Sound Directive.d_random_hostname p args v = v
  apply-Sound Directive.d_auth_federate p args v = v
  apply-Sound Directive.d_openlawsvpn_flow p args v = flow-IsValid p args v
  apply-Sound Directive.d_verify_x509_name p args v = name-IsValid p args v
  apply-Sound Directive.d_dhcp_option p args v = dhcp_option-Sound p args v
  apply-Sound Directive.d_ca p args v = v
  apply-Sound Directive.d_cert p args v = v
  apply-Sound Directive.d_key p args v = v

  pub parse_fields-Sound :
      (p : Profile) (args : List Bytes) → IsValid lib p → Sound lib (parse_fields lib p args)
  unfolding parse_fields
  parse_fields-Sound p [] v = v
  parse_fields-Sound p (name ∷ args) v = known (directive_of (lib.to_lower name))
    where
      known : (d : Option Directive) → Sound lib (apply_known lib d p args)
      known none = v
      known (some d) = apply-Sound d p args v
