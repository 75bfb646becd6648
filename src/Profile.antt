-- ===== src/Profile.antt =====
-- profile/profile.go: the profile that ParseFile builds from the lines of an .ovpn file, and the flow that
-- DetectFlow reads from it.
pub mod Directives
pub mod Lines
pub mod Valid
pub mod Accepted
pub mod Blocks
pub mod Settings
mod Tests
use go_openlawsvpn.Base.{
  ℕ, ◌-◌, Bool, true, false, not, ◌&&◌, List, [], ◌∷◌, length, drop, if◌then◌else◌, Option, none,
  Bytes, bytes_eq, ltb, ℤ, pos, leb,
}
use go_openlawsvpn.Compress.{codes}
use go_openlawsvpn.Text.{has_prefix, is_empty}

pub data Proto : Type 0 where
  proto_tcp proto_udp : Proto

-- A gateway that is not given is nil.
pub record Ipv6Config : Type 0 where
  pub local_ip : Bytes
  pub prefix : ℕ
  pub gateway : Option Bytes

pub record Profile : Type 0 where
  pub remote : Bytes
  pub port : ℤ
  pub proto : Proto
  pub ca : Bytes
  pub cert : Bytes
  pub key : Bytes
  pub cipher : Bytes
  pub auth : Bytes
  pub verb : ℤ
  pub reneg_sec : ℤ
  pub reneg_bytes : ℤ
  pub become_primary_sec : ℤ
  pub tun_mtu : ℤ
  pub mss_fix : ℤ
  pub mss_fix_set : Bool
  pub ping_interval : ℤ
  pub ping_restart : ℤ
  pub ping_exit : ℤ
  pub ifconfig6 : Option Ipv6Config
  pub random_hostname : Bool
  pub verify_x509_name : Bytes
  pub force_saml_flow : Bool
  pub dns_servers : List Bytes
  pub dns_search_domains : List Bytes
  pub dns_route_domains : List Bytes

pub data AuthFlow : Type 0 where
  flow_aws_sso flow_cert_auth flow_user_pass : AuthFlow

-- The profile before the first line.
abbrev pub default_profile : Profile
default_profile = record {
  remote = [];
  port = pos 1194;
  proto = proto_udp;
  ca = [];
  cert = [];
  key = [];
  cipher = codes "AES-256-GCM";
  auth = codes "SHA256";
  verb = pos 3;
  reneg_sec = pos 3600;
  reneg_bytes = pos 0;
  become_primary_sec = pos 0;
  tun_mtu = pos 0;
  mss_fix = pos 0;
  mss_fix_set = false;
  ping_interval = pos 0;
  ping_restart = pos 0;
  ping_exit = pos 0;
  ifconfig6 = none;
  random_hostname = false;
  verify_x509_name = [];
  force_saml_flow = false;
  dns_servers = [];
  dns_search_domains = [];
  dns_route_domains = [];
}

-- strings.HasSuffix
abbrev pub has_suffix : Bytes → Bytes → Bool
has_suffix suffix s =
    leb (length suffix) (length s) && bytes_eq (drop (length s - length suffix) s) suffix

unfoldable pub detect_flow : Profile → AuthFlow
detect_flow p =
    if p.force_saml_flow
    then flow_aws_sso
    else if has_prefix (codes "cvpn-endpoint-") p.remote
        && has_suffix (codes ".amazonaws.com") p.remote
    then flow_aws_sso
    else if ltb 0 (length p.cert) && ltb 0 (length p.key)
    then flow_cert_auth
    else flow_user_pass
