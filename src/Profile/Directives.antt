-- ===== src/Profile/Directives.antt =====
-- profile/profile.go: the cases of the switch in ParseFile. `args` are the fields behind the directive.
use go_openlawsvpn.Base.{
  ℕ, Bool, true, false, not, ◌||◌, List, [], ◌∷◌, ◌++◌, if◌then◌else◌, Option, none, some, Result,
  ok, err, ◌>>=◌, Bytes, bytes_eq, ℤ, pos, lt_ℤ,
}
use go_openlawsvpn.Compress.{codes}
use go_openlawsvpn.Text.{Library}
use go_openlawsvpn.Routing.Push.{find_name}
use go_openlawsvpn.Profile.{Profile, proto_tcp, proto_udp, Ipv6Config}

pub data Directive : Type 0 where
  d_remote d_port d_proto d_cipher d_auth d_verb d_reneg_sec d_reneg_bytes : Directive
  d_become_primary d_tun_mtu d_mssfix d_ping d_ping_restart d_ping_exit d_keepalive : Directive
  d_ifconfig_ipv6 d_random_hostname d_auth_federate d_openlawsvpn_flow : Directive
  d_verify_x509_name d_dhcp_option d_ca d_cert d_key : Directive

-- The last two are the errors behind the loop.
pub data Error : Type 0 where
  missing : Directive → Error
  invalid : Directive → Bytes → Error
  read_error : Error
  no_remote : Error

abbrev pub directive_names : List (Bytes × Directive)
directive_names =
    (codes "remote", d_remote)
    ∷ (codes "port", d_port)
    ∷ (codes "proto", d_proto)
    ∷ (codes "cipher", d_cipher)
    ∷ (codes "auth", d_auth)
    ∷ (codes "verb", d_verb)
    ∷ (codes "reneg-sec", d_reneg_sec)
    ∷ (codes "reneg-bytes", d_reneg_bytes)
    ∷ (codes "become-primary", d_become_primary)
    ∷ (codes "tun-mtu", d_tun_mtu)
    ∷ (codes "mssfix", d_mssfix)
    ∷ (codes "ping", d_ping)
    ∷ (codes "ping-restart", d_ping_restart)
    ∷ (codes "ping-exit", d_ping_exit)
    ∷ (codes "keepalive", d_keepalive)
    ∷ (codes "ifconfig-ipv6", d_ifconfig_ipv6)
    ∷ (codes "remote-random-hostname", d_random_hostname)
    ∷ (codes "auth-federate", d_auth_federate)
    ∷ (codes "x-openlawsvpn-flow", d_openlawsvpn_flow)
    ∷ (codes "verify-x509-name", d_verify_x509_name)
    ∷ (codes "dhcp-option", d_dhcp_option)
    ∷ (codes "ca", d_ca)
    ∷ (codes "cert", d_cert)
    ∷ (codes "key", d_key)
    ∷ []

unfoldable pub directive_of : Bytes → Option Directive
directive_of word = find_name word directive_names

-- `err != nil || bad(n)`
abbrev pub checked : (ℤ → Bool) → Directive → Bytes → Option ℤ → Result Error ℤ
checked bad d text none = err (invalid d text)
checked bad d text (some n) = if bad n then err (invalid d text) else ok n

abbrev pub outside : ℕ → ℕ → ℤ → Bool
outside lo hi n = lt_ℤ n (pos lo) || lt_ℤ (pos hi) n

abbrev pub is_negative : ℤ → Bool
is_negative n = lt_ℤ n (pos 0)

-- `n <= 0`
abbrev pub not_positive : ℤ → Bool
not_positive n = not (lt_ℤ (pos 0) n)

abbrev pub first_arg : Directive → List Bytes → Result Error Bytes
first_arg d [] = err (missing d)
first_arg d (value ∷ _) = ok value

-- Whether `ip.To4() != nil`.
abbrev pub is_ipv4 : Option Bytes → Bool
is_ipv4 none = false
is_ipv4 (some _) = true

module _ (lib : Library) where
  -- The first argument as a number, read by Atoi and tested.
  abbrev pub number_arg : (ℤ → Bool) → Directive → List Bytes → Result Error ℤ
  number_arg bad d args = first_arg d args >>= λ text. checked bad d text (lib.atoi text)

  unfoldable pub parse_positive_seconds : Directive → List Bytes → Result Error ℤ
  parse_positive_seconds d args = number_arg not_positive d args

  unfoldable pub port_arg : Profile → List Bytes → Result Error Profile
  port_arg p [] = ok p
  port_arg p (text ∷ _) = checked (outside 1 65535) d_remote text (lib.atoi text) >>= λ port.
      ok (record p { port = port })

  unfoldable pub remote : Profile → List Bytes → Result Error Profile
  unfolding port_arg
  remote p [] = err (missing d_remote)
  remote p (host ∷ args) = port_arg (record p { remote = host }) args

  unfoldable pub proto : Profile → Bytes → Result Error Profile
  proto p value =
      let word = lib.to_lower value in
      if bytes_eq word (codes "tcp") || bytes_eq word (codes "tcp-client")
      then ok (record p { proto = proto_tcp })
      else if bytes_eq word (codes "udp")
      then ok (record p { proto = proto_udp })
      else err (invalid d_proto value)

  unfoldable pub reneg_bytes : Profile → List Bytes → Result Error Profile
  reneg_bytes p args = first_arg d_reneg_bytes args >>= λ text.
      checked is_negative d_reneg_bytes text (lib.parse_int text) >>= λ n.
      ok (record p { reneg_bytes = n })

  unfoldable pub mssfix : Profile → List Bytes → Result Error Profile
  mssfix p [] = ok p
  mssfix p (text ∷ _) = checked is_negative d_mssfix text (lib.atoi text) >>= λ n.
      ok (record p { mss_fix = n; mss_fix_set = true })

  unfoldable pub keepalive : Profile → List Bytes → Result Error Profile
  keepalive p (first ∷ (second ∷ _)) =
      checked not_positive d_keepalive first (lib.atoi first) >>= λ ping.
      checked not_positive d_keepalive second (lib.atoi second) >>= λ timeout.
      ok (record p { ping_interval = ping; ping_restart = timeout; ping_exit = pos 0 })
  keepalive p _ = err (missing d_keepalive)

  -- An address that is an error, or an IPv4 address, is refused.
  abbrev pub ipv6_cidr : Bytes → Option (Bytes × Bytes × ℕ) → Result Error Ipv6Config
  ipv6_cidr text none = err (invalid d_ifconfig_ipv6 text)
  ipv6_cidr text (some (ip, network, prefix)) =
      if is_ipv4 (lib.to4 ip)
      then err (invalid d_ifconfig_ipv6 text)
      else ok (record { local_ip = ip; prefix = prefix; gateway = none })

  abbrev pub ipv6_gateway : Ipv6Config → Bytes → Option Bytes → Result Error Ipv6Config
  ipv6_gateway cfg text none = err (invalid d_ifconfig_ipv6 text)
  ipv6_gateway cfg text (some ip) =
      if is_ipv4 (lib.to4 ip)
      then err (invalid d_ifconfig_ipv6 text)
      else ok (record cfg { gateway = some ip })

  abbrev pub ipv6_gateway_arg : Ipv6Config → List Bytes → Result Error Ipv6Config
  ipv6_gateway_arg cfg [] = ok cfg
  ipv6_gateway_arg cfg (text ∷ _) = ipv6_gateway cfg text (lib.parse_ip text)

  unfoldable pub ifconfig_ipv6 : Profile → List Bytes → Result Error Profile
  ifconfig_ipv6 p [] = err (missing d_ifconfig_ipv6)
  ifconfig_ipv6 p (text ∷ args) = ipv6_cidr text (lib.parse_cidr text) >>= λ cfg.
      ipv6_gateway_arg cfg args >>= λ full. ok (record p { ifconfig6 = some full })

  unfoldable pub openlawsvpn_flow : Profile → List Bytes → Profile
  openlawsvpn_flow p [] = p
  openlawsvpn_flow p (value ∷ _) =
      if bytes_eq (lib.to_lower value) (codes "saml")
      then record p { force_saml_flow = true }
      else p

  unfoldable pub verify_x509_name : Profile → List Bytes → Profile
  verify_x509_name p [] = p
  verify_x509_name p (name ∷ _) = record p { verify_x509_name = name }

  abbrev pub dns_server : Profile → Bytes → Option Bytes → Result Error Profile
  dns_server p text none = err (invalid d_dhcp_option text)
  dns_server p text (some ip) = ok (record p { dns_servers = p.dns_servers ++ (ip ∷ []) })

  unfoldable pub dhcp_option : Profile → List Bytes → Result Error Profile
  dhcp_option p (kind ∷ (value ∷ _)) =
      let word = lib.to_upper kind in
      if bytes_eq word (codes "DNS")
      then dns_server p value (lib.parse_ip value)
      else if bytes_eq word (codes "DOMAIN")
      then ok (record p { dns_search_domains = p.dns_search_domains ++ (value ∷ []) })
      else if bytes_eq word (codes "DOMAIN-ROUTE")
      then ok (record p { dns_route_domains = p.dns_route_domains ++ (value ∷ []) })
      else ok p
  dhcp_option p _ = ok p

  -- The switch.
  unfoldable pub apply : Directive → Profile → List Bytes → Result Error Profile
  apply d_remote p args = remote p args
  apply d_port p args = number_arg (outside 1 65535) d_port args >>= λ n. ok (record p { port = n })
  apply d_proto p args = first_arg d_proto args >>= λ value. proto p value
  apply d_cipher p args =
      first_arg d_cipher args >>= λ value. ok (record p { cipher = lib.to_upper value })
  apply d_auth p args =
      first_arg d_auth args >>= λ value. ok (record p { auth = lib.to_upper value })
  apply d_verb p args = number_arg (outside 0 11) d_verb args >>= λ n. ok (record p { verb = n })
  apply d_reneg_sec p args =
      number_arg is_negative d_reneg_sec args >>= λ n. ok (record p { reneg_sec = n })
  apply d_reneg_bytes p args = reneg_bytes p args
  apply d_become_primary p args =
      number_arg is_negative d_become_primary args >>= λ n. ok (record p { become_primary_sec = n })
  apply d_tun_mtu p args =
      number_arg (outside 68 65535) d_tun_mtu args >>= λ n. ok (record p { tun_mtu = n })
  apply d_mssfix p args = mssfix p args
  apply d_ping p args =
      parse_positive_seconds d_ping args >>= λ n. ok (record p { ping_interval = n })
  apply d_ping_restart p args = parse_positive_seconds d_ping_restart args >>= λ n.
      ok (record p { ping_restart = n; ping_exit = pos 0 })
  apply d_ping_exit p args = parse_positive_seconds d_ping_exit args >>= λ n.
      ok (record p { ping_exit = n; ping_restart = pos 0 })
  apply d_keepalive p args = keepalive p args
  apply d_ifconfig_ipv6 p args = ifconfig_ipv6 p args
  apply d_random_hostname p args = ok (record p { random_hostname = true })
  apply d_auth_federate p args = ok (record p { force_saml_flow = true })
  apply d_openlawsvpn_flow p args = ok (openlawsvpn_flow p args)
  apply d_verify_x509_name p args = ok (verify_x509_name p args)
  apply d_dhcp_option p args = dhcp_option p args
  apply d_ca p args = ok p
  apply d_cert p args = ok p
  apply d_key p args = ok p

  -- An unknown directive is ignored.
  abbrev pub apply_known : Option Directive → Profile → List Bytes → Result Error Profile
  apply_known none p args = ok p
  apply_known (some d) p args = apply d p args

  -- The fields of a line.
  unfoldable pub parse_fields : Profile → List Bytes → Result Error Profile
  parse_fields p [] = ok p
  parse_fields p (name ∷ args) = apply_known (directive_of (lib.to_lower name)) p args
