-- ===== src/Routing/Push/Directives.antt =====
-- routing/push.go: the cases of the switch in ParsePushReply, and its loop over the fields. `args` are the
-- parts behind the directive's name.
use go_openlawsvpn.Base.{
  Bool, true, not, ◌&&◌, ◌||◌, List, [], ◌∷◌, ◌++◌, if◌then◌else◌, Option, none, some, Result, ok,
  err, ◌>>=◌, Bytes, bytes_eq, ℤ, pos, lt_ℤ,
}
use go_openlawsvpn.Compress.{codes, mode_lz4, mode_lzo}
use go_openlawsvpn.Text.{Library, split, trim_prefix, trim_right, is_empty, has_flag}
use go_openlawsvpn.Routing.Push.{
  Topology, topology_net30, topology_subnet, Ifconfig, Ifconfig6, Route, Route6,
  key_derivation_tls_ekm, PushOptions, State, Directive, Error, missing, invalid, d_topology,
  d_route_gateway, d_ifconfig, d_route, d_cipher, d_compress, d_comp_lzo, d_ifconfig_ipv6,
  d_route_ipv6, d_redirect_gateway, d_ping, d_ping_restart, d_ping_exit, d_keepalive, d_mssfix,
  d_protocol_flags, d_key_derivation, d_inactive, d_auth_token, directive_of, start, finish,
}

abbrev pub set_opts : State → PushOptions → State
set_opts st o = record st { opts = o }

-- The value that a successful parse gives, or the error of this directive.
abbrev pub need {ℓ} : {A : Type ℓ} → Option A → Directive → Bytes → Result Error A
need none d text = err (invalid d text)
need (some a) d text = ok a

abbrev pub with_ping : PushOptions → Option ℤ → PushOptions
with_ping o none = o
with_ping o (some v) = record o { ping_interval = v }

abbrev pub with_ping_restart : PushOptions → Option ℤ → PushOptions
with_ping_restart o none = o
with_ping_restart o (some v) = record o { ping_restart = v; ping_exit = pos 0 }

abbrev pub with_ping_exit : PushOptions → Option ℤ → PushOptions
with_ping_exit o none = o
with_ping_exit o (some v) = record o { ping_exit = v; ping_restart = pos 0 }

abbrev pub with_tls_ekm : Bool → State → State
with_tls_ekm found st =
    if found then set_opts st (record st.opts { key_derivation = key_derivation_tls_ekm }) else st

abbrev pub with_mssfix : PushOptions → Option ℤ → PushOptions
with_mssfix o none = o
with_mssfix o (some v) = record o { mssfix = v }

abbrev pub with_inactive : PushOptions → Option ℤ → Option ℤ → PushOptions
with_inactive o none none = o
with_inactive o none (some b) = record o { inactive_bytes = b }
with_inactive o (some v) none = record o { inactive_timeout = v }
with_inactive o (some v) (some b) = record o { inactive_timeout = v; inactive_bytes = b }

module _ (lib : Library) where
  unfoldable pub topology : State → List Bytes → Result Error State
  topology st [] = err (missing d_topology)
  topology st (value ∷ _) =
      let word = lib.to_lower value in
      if bytes_eq word (codes "subnet")
      then ok (set_opts st (record st.opts { topology = topology_subnet }))
      else if bytes_eq word (codes "net30")
      then ok (set_opts st (record st.opts { topology = topology_net30 }))
      else err (invalid d_topology value)

  unfoldable pub route_gateway : State → List Bytes → Result Error State
  route_gateway st [] = err (missing d_route_gateway)
  route_gateway st (value ∷ _) =
      if bytes_eq (lib.to_lower value) (codes "vpn_gateway")
      then ok st
      else need (lib.parse_ip value) d_route_gateway value >>= λ gw.
          ok (record st { route_gateway = lib.to4 gw })

  -- The two forms of ifconfig, by the topology parsed so far.
  unfoldable pub ifconfig_of : Topology → Bytes → Bytes → Bytes → Result Error Ifconfig
  ifconfig_of topology_subnet local_ip second text =
      need (lib.to4 second) d_ifconfig text >>= λ mask4.
      ok (record { local_ip = lib.to4 local_ip; mask = mask4; gateway = none })
  ifconfig_of topology_net30 local_ip second text = ok (record {
    local_ip = lib.to4 local_ip;
    mask = 255 ∷ 255 ∷ 255 ∷ 252 ∷ [];
    gateway = lib.to4 second;
  })

  unfoldable pub ifconfig : State → List Bytes → Result Error State
  unfolding ifconfig_of
  ifconfig st [] = err (missing d_ifconfig)
  ifconfig st (_ ∷ []) = err (missing d_ifconfig)
  ifconfig st (first ∷ (second ∷ _)) = do
    local_ip ← need (lib.parse_ip first) d_ifconfig first
    second_ip ← need (lib.parse_ip second) d_ifconfig second
    c ← ifconfig_of st.opts.topology local_ip second_ip second
    ok (set_opts st (record st.opts { ifconfig = some c }))

  -- The mask of a route: that of a host if there is no argument.
  unfoldable pub route_mask : List Bytes → Result Error Bytes
  route_mask [] = ok (255 ∷ 255 ∷ 255 ∷ 255 ∷ [])
  route_mask (value ∷ _) = do
    mask_ip ← need (lib.parse_ip value) d_route value
    need (lib.to4 mask_ip) d_route value

  unfoldable pub route_gateway_arg : List Bytes → Result Error (Option Bytes)
  route_gateway_arg (_ ∷ (value ∷ _)) = do
    gw ← need (lib.parse_ip value) d_route value
    ok (lib.to4 gw)
  route_gateway_arg _ = ok none

  unfoldable pub route : State → List Bytes → Result Error State
  unfolding route_mask route_gateway_arg
  route st [] = err (missing d_route)
  route st (value ∷ rest) = do
    net_ip ← need (lib.parse_ip value) d_route value
    mask ← route_mask rest
    gateway ← route_gateway_arg rest
    let r : Route = record { network = lib.to4 net_ip; mask = mask; gateway = gateway }
    ok (set_opts st (record st.opts { routes = st.opts.routes ++ (r ∷ []) }))

  unfoldable pub cipher : State → List Bytes → Result Error State
  cipher st [] = ok st
  cipher st (value ∷ _) = ok (set_opts st (record st.opts { cipher = value }))

  unfoldable pub compress : State → List Bytes → Result Error State
  compress st [] = ok st
  compress st (value ∷ _) =
      let word = lib.to_lower value in
      if bytes_eq word (codes "lz4")
        || bytes_eq word (codes "lz4-v2")
        || bytes_eq word (codes "stub-v2")
      then ok (set_opts st (record st.opts { compression = mode_lz4 }))
      else ok st

  unfoldable pub gateway6 : Directive → List Bytes → Result Error (Option Bytes)
  gateway6 d [] = ok none
  gateway6 d (value ∷ _) = need (lib.parse_ip value) d value >>= λ gw. ok (some gw)

  unfoldable pub ifconfig_ipv6 : State → List Bytes → Result Error State
  unfolding gateway6
  ifconfig_ipv6 st [] = err (missing d_ifconfig_ipv6)
  ifconfig_ipv6 st (value ∷ rest) = do
    cidr ← need (lib.parse_cidr value) d_ifconfig_ipv6 value
    gateway ← gateway6 d_ifconfig_ipv6 rest
    let (ip6, _, ones) = cidr
    let c : Ifconfig6 = record { local_ip = ip6; prefix = ones; gateway = gateway }
    ok (set_opts st (record st.opts { ifconfig6 = some c }))

  unfoldable pub route_ipv6 : State → List Bytes → Result Error State
  unfolding gateway6
  route_ipv6 st [] = err (missing d_route_ipv6)
  route_ipv6 st (value ∷ rest) = do
    cidr ← need (lib.parse_cidr value) d_route_ipv6 value
    gateway ← gateway6 d_route_ipv6 rest
    let (_, net6, ones) = cidr
    let r : Route6 = record { network = net6; prefix = ones; gateway = gateway }
    ok (set_opts st (record st.opts { routes6 = st.opts.routes6 ++ (r ∷ []) }))

  unfoldable pub redirect_gateway : State → List Bytes → Result Error State
  unfolding has_flag
  redirect_gateway st args = ok (
      set_opts st (record st.opts {
        redirect_gateway = true;
        redirect_gateway6 = has_flag lib (codes "ipv6") args || st.opts.redirect_gateway6;
      }))

  -- `fmt.Sscanf(parts[1], "%d", &v); err == nil && v > 0`
  unfoldable pub positive_arg : List Bytes → Option ℤ
  positive_arg [] = none
  positive_arg (value ∷ _) = elim (lib.scan_int value) [
    | none ↦ none
    | some v ↦ if lt_ℤ (pos 0) v then some v else none
  ]

  unfoldable pub keepalive : State → List Bytes → Result Error State
  unfolding positive_arg
  keepalive st (ping ∷ (timeout ∷ rest)) =
      let pinged = with_ping st.opts (positive_arg (ping ∷ [])) in
      ok (set_opts st (with_ping_restart pinged (positive_arg (timeout ∷ rest))))
  keepalive st _ = ok st

  -- `err == nil && v >= 68 && v <= 65535`
  unfoldable pub mssfix_arg : List Bytes → Option ℤ
  mssfix_arg [] = none
  mssfix_arg (value ∷ _) = elim (lib.scan_int value) [
    | none ↦ none
    | some v ↦ if not (lt_ℤ v (pos 68)) && not (lt_ℤ (pos 65535) v) then some v else none
  ]

  unfoldable pub key_derivation : State → List Bytes → Result Error State
  key_derivation st [] = ok st
  key_derivation st (value ∷ _) = ok (with_tls_ekm (lib.equal_fold value (codes "tls-ekm")) st)

  -- `err == nil && b >= 0`
  unfoldable pub inactive_bytes_arg : List Bytes → Option ℤ
  inactive_bytes_arg (_ ∷ (value ∷ _)) = elim (lib.scan_int value) [
    | none ↦ none
    | some v ↦ if not (lt_ℤ v (pos 0)) then some v else none
  ]
  inactive_bytes_arg _ = none

  unfoldable pub auth_token : State → List Bytes → Result Error State
  auth_token st [] = ok st
  auth_token st (value ∷ _) = ok (set_opts st (record st.opts { auth_token = value }))

  -- The cases of the switch.
  unfoldable pub apply : Directive → State → List Bytes → Result Error State
  apply d_topology st args = topology st args
  apply d_route_gateway st args = route_gateway st args
  apply d_ifconfig st args = ifconfig st args
  apply d_route st args = route st args
  apply d_cipher st args = cipher st args
  apply d_compress st args = compress st args
  apply d_comp_lzo st args = ok (set_opts st (record st.opts { compression = mode_lzo }))
  apply d_ifconfig_ipv6 st args = ifconfig_ipv6 st args
  apply d_route_ipv6 st args = route_ipv6 st args
  apply d_redirect_gateway st args = redirect_gateway st args
  apply d_ping st args = ok (set_opts st (with_ping st.opts (positive_arg args)))
  apply d_ping_restart st args = ok (set_opts st (with_ping_restart st.opts (positive_arg args)))
  apply d_ping_exit st args = ok (set_opts st (with_ping_exit st.opts (positive_arg args)))
  apply d_keepalive st args = keepalive st args
  apply d_mssfix st args = ok (set_opts st (with_mssfix st.opts (mssfix_arg args)))
  apply d_protocol_flags st args = ok (with_tls_ekm (has_flag lib (codes "tls-ekm") args) st)
  apply d_key_derivation st args = key_derivation st args
  apply d_inactive st args =
      ok (set_opts st (with_inactive st.opts (positive_arg args) (inactive_bytes_arg args)))
  apply d_auth_token st args = auth_token st args

  -- The switch, which passes over a word that it does not know.
  abbrev pub apply_known : Option Directive → State → List Bytes → Result Error State
  apply_known none st args = ok st
  apply_known (some d) st args = apply d st args

  -- One field of the message, as strings.Fields takes it apart.
  unfoldable pub parse_parts : List Bytes → State → Result Error State
  parse_parts [] st = ok st
  parse_parts (name ∷ args) st = apply_known (directive_of (lib.to_lower name)) st args

  unfoldable pub parse_field : Bytes → State → Result Error State
  unfolding parse_parts
  parse_field text st =
      let field = lib.trim_space text in
      if is_empty field then ok st else parse_parts (lib.fields field) st

  -- The loop over the fields.
  unfoldable pub parse_fields : List Bytes → State → Result Error State
  unfolding parse_field
  parse_fields [] st = ok st
  parse_fields (field ∷ fields) st = parse_field field st >>= λ st'. parse_fields fields st'

  unfoldable pub parse_push_reply : Bytes → Result Error PushOptions
  unfolding parse_fields finish split trim_right
  parse_push_reply msg =
      parse_fields (split b',' (trim_right 0 (trim_prefix (codes "PUSH_REPLY,") msg))) start
      >>= λ st. ok (finish st)
