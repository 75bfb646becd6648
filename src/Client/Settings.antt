-- ===== src/Client/Settings.antt =====
-- client.go: the settings that follow from the profile and the pushed options together, for the keepalive
-- timers (effectiveKeepalive) and for the MSS (effectiveMSSFix, clampMSS).
pub mod Timers
pub mod Budget
mod Tests
use go_openlawsvpn.Base.{
  ℕ, zero, suc, ◌+◌, ◌-◌, Bool, true, false, not, Option, none, some, if◌then◌else◌, ltb, ◌==◌,
  Result, Bytes, ℤ, pos, negsuc, lt_ℤ, pos_part, neg_part,
}
use go_openlawsvpn.Compress.{Mode, mode_none, mode_lz4, mode_lzo, codes}
use go_openlawsvpn.Mssfix.{Go}
use go_openlawsvpn.Mssfix

pub data Proto : Type 0 where
  proto_tcp proto_udp : Proto

-- The fields of profile.Profile that these settings read.
pub record Profile : Type 0 where
  pub ping_interval : ℤ
  pub ping_restart : ℤ
  pub ping_exit : ℤ
  pub mss_fix : ℤ
  pub mss_fix_set : Bool

-- The fields of routing.PushOptions that effectiveKeepalive reads.
pub record PushOptions : Type 0 where
  pub ping_interval : ℤ
  pub ping_restart : ℤ
  pub ping_exit : ℤ

-- `n > 0`
abbrev pub is_positive : ℤ → Bool
is_positive n = lt_ℤ (pos 0) n

abbrev pub eq_ℤ : ℤ → ℤ → Bool
eq_ℤ (pos a) (pos b) = a == b
eq_ℤ (negsuc a) (negsuc b) = a == b
eq_ℤ _ _ = false

-- What effectiveKeepalive returns.
pub record Keepalive : Type 0 where
  pub interval : ℤ
  pub timeout : ℤ
  pub ping_exit : Bool

-- The block on the profile.
unfoldable pub static_keepalive : Profile → Keepalive
static_keepalive p =
    if is_positive p.ping_exit
    then record { interval = p.ping_interval; timeout = p.ping_exit; ping_exit = true }
    else record { interval = p.ping_interval; timeout = p.ping_restart; ping_exit = false }

-- The block on the pushed options.
unfoldable pub pushed_keepalive : PushOptions → Keepalive → Keepalive
pushed_keepalive push k =
    let interval = if is_positive push.ping_interval then push.ping_interval else k.interval in
    if is_positive push.ping_exit
    then record { interval = interval; timeout = push.ping_exit; ping_exit = true }
    else if is_positive push.ping_restart
    then record { interval = interval; timeout = push.ping_restart; ping_exit = false }
    else record k { interval = interval }

-- The value that stands for a missing setting.
abbrev pub or_default : ℤ → ℤ → ℤ
or_default n default = if eq_ℤ n (pos 0) then default else n

unfoldable pub effective_keepalive : Profile → PushOptions → Keepalive
unfolding static_keepalive pushed_keepalive
effective_keepalive p push =
    let k = pushed_keepalive push (static_keepalive p) in
    record k { interval = or_default k.interval (pos 10); timeout = or_default k.timeout (pos 60) }

-- The header sizes.
abbrev pub aws_default_mss_fix_mtu : ℕ
aws_default_mss_fix_mtu = 1450

abbrev pub outer_ip_len : Bool → ℕ
outer_ip_len is_ipv6 = if is_ipv6 then 40 else 20

abbrev pub transport_overhead : Proto → ℕ
transport_overhead proto_tcp = 20 + 2
transport_overhead proto_udp = 8

-- `if compressionMode == compress.ModeLZ4 { dataOverhead++ }`
abbrev pub stub_overhead : Mode → ℕ
stub_overhead mode_none = 0
stub_overhead mode_lz4 = 1
stub_overhead mode_lzo = 0

abbrev pub data_overhead : Bool → Mode → ℕ
data_overhead is_cbc mode = (if is_cbc then 72 else 24) + stub_overhead mode

-- `equal_fold` is strings.EqualFold, and `to4` is net.IP's To4.
module _ (equal_fold : Bytes → Bytes → Bool) (to4 : Bytes → Option Bytes) where
  -- `ip != nil && ip.To4() == nil` for the `ip` of addrIP.
  abbrev pub is_outer_ipv6 : Option Bytes → Bool
  is_outer_ipv6 none = false
  is_outer_ipv6 (some ip) = elim (to4 ip) [ none ↦ true | some _ ↦ false ]

  abbrev pub is_cbc : Bytes → Bool
  is_cbc cipher = equal_fold cipher (codes "AES-256-CBC")

  -- `ip` is what addrIP makes of the remote address. The results are the explicit maximum of the MSS and
  -- the MTU of a packet.
  unfoldable pub effective_mss_fix : Profile → ℤ → ℤ → Proto → Bytes → Mode → Option Bytes → ℤ × ℤ
  effective_mss_fix p pushed_mss tun_mtu proto cipher mode ip =
      if is_positive pushed_mss
      then (pushed_mss, pos 0)
      else if p.mss_fix_set
      then (p.mss_fix, pos 0)
      else if not (eq_ℤ tun_mtu (pos 1500))
      then (pos 0, tun_mtu)
      else (
        pos 0,
        pos (
            aws_default_mss_fix_mtu
            - outer_ip_len (is_outer_ipv6 ip)
            - transport_overhead proto
            - data_overhead (is_cbc cipher) mode),
      )

-- `mss_fix` and `mss_fix_mtu` are the client's fields, set from effectiveMSSFix.
unfoldable pub clamp_mss : ℤ → ℤ → Bytes → Go Bytes
clamp_mss mss_fix mss_fix_mtu pkt =
    if is_positive mss_fix then Mssfix.clamp pkt mss_fix else Mssfix.clamp_to_mtu pkt mss_fix_mtu
