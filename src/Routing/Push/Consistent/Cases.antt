-- ===== src/Routing/Push/Consistent/Cases.antt =====
-- Every case of the switch in ParsePushReply of routing/push.go keeps the options consistent.
use go_openlawsvpn.Base.{◌≢◌, arith, ◌||◌, List, [], ◌∷◌, ok, panic, bytes_eq, >>=-ne-panic, Bytes}
use go_openlawsvpn.Compress.{codes, mode_lz4}
use go_openlawsvpn.Text.{Library}
use go_openlawsvpn.Routing.Push.{Directive, State, Topology}
use go_openlawsvpn.Routing.Push.Directives.{
  need, set_opts, topology, route_gateway, ifconfig, ifconfig_of, route, route_mask,
  route_gateway_arg, cipher, compress, gateway6, ifconfig_ipv6, route_ipv6, redirect_gateway,
  positive_arg, keepalive, mssfix_arg, key_derivation, inactive_bytes_arg, auth_token, apply,
}
use go_openlawsvpn.Routing.Push.Consistent.Options.{
  IsConsistent, Sound, >>=-Sound_total, Sound-if, need-ne-panic, IsNatural, IsMss, Fits,
  with_ping-IsConsistent, with_ping_restart-IsConsistent, with_ping_exit-IsConsistent,
  with_mssfix-IsConsistent, with_inactive-IsConsistent, with_tls_ekm-IsConsistent,
}

module _ (lib : Library) where
  ifconfig_of-ne-panic :
      (t : Topology) (local_ip second text : Bytes) → ifconfig_of lib t local_ip second text ≢ panic
  unfolding ifconfig_of
  ifconfig_of-ne-panic Topology.topology_net30 local_ip second text = λ e. cc
  ifconfig_of-ne-panic Topology.topology_subnet local_ip second text =
      >>=-ne-panic (need (lib.to4 second) _ text) _ (need-ne-panic (lib.to4 second) _ text)
        (λ a e. cc)

  route_mask-ne-panic : (args : List Bytes) → route_mask lib args ≢ panic
  unfolding route_mask
  route_mask-ne-panic [] = λ e. cc
  route_mask-ne-panic (value ∷ args) =
      >>=-ne-panic (need (lib.parse_ip value) _ value) _
        (need-ne-panic (lib.parse_ip value) _ value) (λ ip. need-ne-panic (lib.to4 ip) _ value)

  route_gateway_arg-ne-panic : (args : List Bytes) → route_gateway_arg lib args ≢ panic
  unfolding route_gateway_arg
  route_gateway_arg-ne-panic [] = λ e. cc
  route_gateway_arg-ne-panic (_ ∷ []) = λ e. cc
  route_gateway_arg-ne-panic (_ ∷ (value ∷ args)) =
      >>=-ne-panic (need (lib.parse_ip value) _ value) _
        (need-ne-panic (lib.parse_ip value) _ value) (λ ip e. cc)

  gateway6-ne-panic : (d : Directive) (args : List Bytes) → gateway6 lib d args ≢ panic
  unfolding gateway6
  gateway6-ne-panic d [] = λ e. cc
  gateway6-ne-panic d (value ∷ args) =
      >>=-ne-panic (need (lib.parse_ip value) d value) _
        (need-ne-panic (lib.parse_ip value) d value) (λ ip e. cc)

  addresses-Sound :
      (st : State) (args : List Bytes)
      → IsConsistent st.opts
      → Sound (topology lib st args)
        × Sound (route_gateway lib st args)
        × Sound (ifconfig lib st args)
        × Sound (route lib st args)
        × Sound (ifconfig_ipv6 lib st args)
        × Sound (route_ipv6 lib st args)
  unfolding topology route_gateway ifconfig route ifconfig_ipv6 route_ipv6
  addresses-Sound st [] h = (tt, tt, tt, tt, tt, tt)
  addresses-Sound st (value ∷ args) h = (
    ground (arith, h),
    Sound-if (bytes_eq (lib.to_lower value) (codes "vpn_gateway")) _ _ (λ _. h)
        (λ _.
          >>=-Sound_total (need (lib.parse_ip value) _ value) _
            (need-ne-panic (lib.parse_ip value) _ value) (λ gw. h)),
    two args,
    >>=-Sound_total (need (lib.parse_ip value) _ value) _
        (need-ne-panic (lib.parse_ip value) _ value)
        (λ ip. >>=-Sound_total (route_mask lib args) _ (route_mask-ne-panic args) (λ mask.
          >>=-Sound_total (route_gateway_arg lib args) _ (route_gateway_arg-ne-panic args)
            (λ gw. h))),
    >>=-Sound_total (need (lib.parse_cidr value) _ value) _
        (need-ne-panic (lib.parse_cidr value) _ value)
        (λ cidr. >>=-Sound_total (gateway6 lib _ args) _ (gateway6-ne-panic _ args) (λ gw. h)),
    >>=-Sound_total (need (lib.parse_cidr value) _ value) _
        (need-ne-panic (lib.parse_cidr value) _ value)
        (λ cidr. >>=-Sound_total (gateway6 lib _ args) _ (gateway6-ne-panic _ args) (λ gw. h)),
  )
    where
      two : (rest : List Bytes) → Sound (ifconfig lib st (value ∷ rest))
      two [] = tt
      two (second ∷ rest) =
          >>=-Sound_total (need (lib.parse_ip value) _ value) _
            (need-ne-panic (lib.parse_ip value) _ value)
            (λ a.
              >>=-Sound_total (need (lib.parse_ip second) _ second) _
                (need-ne-panic (lib.parse_ip second) _ second)
                (λ b.
                  >>=-Sound_total (ifconfig_of lib st.opts.topology a b second) _
                    (ifconfig_of-ne-panic st.opts.topology a b second) (λ c. h)))

  -- What the tests on a number let through.
  positive_arg-Fits : (args : List Bytes) → Fits IsNatural (positive_arg lib args)
  unfolding positive_arg
  positive_arg-Fits [] = tt
  positive_arg-Fits (value ∷ args) = ground arith

  inactive_bytes_arg-Fits : (args : List Bytes) → Fits IsNatural (inactive_bytes_arg lib args)
  unfolding inactive_bytes_arg
  inactive_bytes_arg-Fits [] = tt
  inactive_bytes_arg-Fits (_ ∷ []) = tt
  inactive_bytes_arg-Fits (_ ∷ (value ∷ args)) = ground arith

  mssfix_arg-Fits : (args : List Bytes) → Fits IsMss (mssfix_arg lib args)
  unfolding mssfix_arg
  mssfix_arg-Fits [] = tt
  mssfix_arg-Fits (value ∷ args) = ground arith

  keepalive-Sound :
      (st : State) (args : List Bytes) → IsConsistent st.opts → Sound (keepalive lib st args)
  unfolding keepalive
  keepalive-Sound st [] h = h
  keepalive-Sound st (_ ∷ []) h = h
  keepalive-Sound st (ping ∷ (timeout ∷ rest)) h =
      with_ping_restart-IsConsistent _ _
        (with_ping-IsConsistent st.opts _ h (positive_arg-Fits (ping ∷ [])))
        (positive_arg-Fits (timeout ∷ rest))

  others-Sound :
      (st : State) (args : List Bytes)
      → IsConsistent st.opts
      → Sound (cipher lib st args)
        × Sound (compress lib st args)
        × Sound (key_derivation lib st args)
        × Sound (auth_token lib st args)
  unfolding cipher compress key_derivation auth_token
  others-Sound st [] h = (h, h, h, h)
  others-Sound st (value ∷ args) h =
      let word = lib.to_lower value in
      let lz4 =
        bytes_eq word (codes "lz4")
        || bytes_eq word (codes "lz4-v2")
        || bytes_eq word (codes "stub-v2") in
      let chosen = set_opts st (record st.opts { compression = mode_lz4 }) in
      (h, Sound-if lz4 (ok chosen) (ok st) (λ _. h) (λ _. h), with_tls_ekm-IsConsistent _ st h, h)

  pub apply-Sound :
      (d : Directive) (st : State) (args : List Bytes)
      → IsConsistent st.opts
      → Sound (apply lib d st args)
  unfolding apply redirect_gateway
  apply-Sound Directive.d_topology st args h = (addresses-Sound st args h).0
  apply-Sound Directive.d_route_gateway st args h = (addresses-Sound st args h).1
  apply-Sound Directive.d_ifconfig st args h = (addresses-Sound st args h).2
  apply-Sound Directive.d_route st args h = (addresses-Sound st args h).3
  apply-Sound Directive.d_ifconfig_ipv6 st args h = (addresses-Sound st args h).4
  apply-Sound Directive.d_route_ipv6 st args h = (addresses-Sound st args h).5
  apply-Sound Directive.d_ping st args h =
      with_ping-IsConsistent st.opts _ h (positive_arg-Fits args)
  apply-Sound Directive.d_ping_restart st args h =
      with_ping_restart-IsConsistent st.opts _ h (positive_arg-Fits args)
  apply-Sound Directive.d_ping_exit st args h =
      with_ping_exit-IsConsistent st.opts _ h (positive_arg-Fits args)
  apply-Sound Directive.d_keepalive st args h = keepalive-Sound st args h
  apply-Sound Directive.d_mssfix st args h =
      with_mssfix-IsConsistent st.opts _ h (mssfix_arg-Fits args)
  apply-Sound Directive.d_inactive st args h =
      with_inactive-IsConsistent st.opts _ _ h (positive_arg-Fits args)
        (inactive_bytes_arg-Fits args)
  apply-Sound Directive.d_cipher st args h = (others-Sound st args h).0
  apply-Sound Directive.d_compress st args h = (others-Sound st args h).1
  apply-Sound Directive.d_comp_lzo st args h = h
  apply-Sound Directive.d_redirect_gateway st args h = h
  apply-Sound Directive.d_protocol_flags st args h = with_tls_ekm-IsConsistent _ st h
  apply-Sound Directive.d_key_derivation st args h = (others-Sound st args h).2
  apply-Sound Directive.d_auth_token st args h = (others-Sound st args h).3
