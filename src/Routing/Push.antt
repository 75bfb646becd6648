-- ===== src/Routing/Push.antt =====
-- routing/push.go: ParsePushReply. The switch over the directives is `directive_of`, and each of its cases
-- is a function on the options parsed so far.
pub mod Directives
pub mod Consistent
pub mod Ignored
mod Tests
use go_openlawsvpn.Base.{
  ℕ, zero, suc, Bool, true, false, not, ◌&&◌, List, [], ◌∷◌, ◌++◌, length, if◌then◌else◌, Option,
  none, some, Result, ok, err, ◌>>=◌, Bytes, bytes_eq, ℤ, pos, negsuc, lt_ℤ,
}
use go_openlawsvpn.Compress.{codes, Mode, mode_none, mode_lz4, mode_lzo}
use go_openlawsvpn.Text.{Library, split, trim_prefix, trim_right, is_empty, has_flag}

pub data Topology : Type 0 where
  topology_net30 topology_subnet : Topology

-- An address is nil (`none`) if To4 made it so.
pub record Ifconfig : Type 0 where
  pub local_ip : Option Bytes
  pub mask : Bytes
  pub gateway : Option Bytes

pub record Ifconfig6 : Type 0 where
  pub local_ip : Bytes
  pub prefix : ℕ
  pub gateway : Option Bytes

pub record Route : Type 0 where
  pub network : Option Bytes
  pub mask : Bytes
  pub gateway : Option Bytes

pub record Route6 : Type 0 where
  pub network : Bytes
  pub prefix : ℕ
  pub gateway : Option Bytes

pub data KeyDerivation : Type 0 where
  key_derivation_tls_ekm key_derivation_openvpn_prf : KeyDerivation

pub record PushOptions : Type 0 where
  pub topology : Topology
  pub ifconfig : Option Ifconfig
  pub ifconfig6 : Option Ifconfig6
  pub routes : List Route
  pub routes6 : List Route6
  pub redirect_gateway : Bool
  pub redirect_gateway6 : Bool
  pub cipher : Bytes
  pub compression : Mode
  pub ping_interval : ℤ
  pub ping_restart : ℤ
  pub ping_exit : ℤ
  pub mssfix : ℤ
  pub inactive_timeout : ℤ
  pub inactive_bytes : ℤ
  pub auth_token : Bytes
  pub key_derivation : KeyDerivation

-- The options, and the local variable routeGateway.
pub record State : Type 0 where
  pub opts : PushOptions
  pub route_gateway : Option Bytes

-- The directives that the switch knows.
pub data Directive : Type 0 where
  d_topology d_route_gateway d_ifconfig d_route d_cipher d_compress d_comp_lzo : Directive
  d_ifconfig_ipv6 d_route_ipv6 d_redirect_gateway d_ping d_ping_restart d_ping_exit : Directive
  d_keepalive d_mssfix d_protocol_flags d_key_derivation d_inactive d_auth_token : Directive

-- A directive without an argument that it needs, or with one that is no such value.
pub data Error : Type 0 where
  missing : Directive → Error
  invalid : Directive → Bytes → Error

abbrev pub directive_names : List (Bytes × Directive)
directive_names =
    (codes "topology", d_topology)
    ∷ (codes "route-gateway", d_route_gateway)
    ∷ (codes "ifconfig", d_ifconfig)
    ∷ (codes "route", d_route)
    ∷ (codes "cipher", d_cipher)
    ∷ (codes "compress", d_compress)
    ∷ (codes "comp-lzo", d_comp_lzo)
    ∷ (codes "ifconfig-ipv6", d_ifconfig_ipv6)
    ∷ (codes "route-ipv6", d_route_ipv6)
    ∷ (codes "redirect-gateway", d_redirect_gateway)
    ∷ (codes "ping", d_ping)
    ∷ (codes "ping-restart", d_ping_restart)
    ∷ (codes "ping-exit", d_ping_exit)
    ∷ (codes "keepalive", d_keepalive)
    ∷ (codes "mssfix", d_mssfix)
    ∷ (codes "protocol-flags", d_protocol_flags)
    ∷ (codes "key-derivation", d_key_derivation)
    ∷ (codes "inactive", d_inactive)
    ∷ (codes "auth-token", d_auth_token)
    ∷ []

unfoldable pub find_name {ℓ} : {A : Type ℓ} → Bytes → List (Bytes × A) → Option A
find_name word [] = none
find_name word ((name, a) ∷ names) =
    let rest = find_name word names in if bytes_eq word name then some a else rest

unfoldable pub directive_of : Bytes → Option Directive
directive_of word = find_name word directive_names

abbrev pub start : State
start = record {
  opts = record {
    topology = topology_net30;
    ifconfig = none;
    ifconfig6 = none;
    routes = [];
    routes6 = [];
    redirect_gateway = false;
    redirect_gateway6 = false;
    cipher = [];
    compression = mode_none;
    ping_interval = pos 0;
    ping_restart = pos 0;
    ping_exit = pos 0;
    mssfix = pos 0;
    inactive_timeout = pos 0;
    inactive_bytes = pos 0;
    auth_token = [];
    key_derivation = key_derivation_openvpn_prf;
  };
  route_gateway = none;
}

-- `if opts.Ifconfig != nil && opts.Topology == TopologySubnet && routeGateway != nil`
unfoldable pub with_gateway : PushOptions → Option Ifconfig → Topology → Option Bytes → PushOptions
with_gateway o (some c) topology_subnet (some gw) = record o {
  ifconfig = some (record c { gateway = some gw });
}
with_gateway o _ _ _ = o

unfoldable pub finish : State → PushOptions
unfolding with_gateway
finish st = with_gateway st.opts st.opts.ifconfig st.opts.topology st.route_gateway
