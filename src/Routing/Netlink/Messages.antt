-- ===== src/Routing/Netlink/Messages.antt =====
-- routing/netlink.go: the messages that are sent.
use go_openlawsvpn.Base.{
  ℕ, zero, suc, ◌+◌, ◌%◌, ◌^◌, Bool, true, false, ◌&&◌, [], ◌∷◌, ◌++◌, length, if◌then◌else◌, ltb,
  ◌==◌, Option, none, some, Bytes,
}
use Prim.Native.Nat.{bit_or}
use go_openlawsvpn.Routing.Netlink.{
  nlmsg_hdr_size, rta_dst, rta_oif, rta_gateway, af_inet, af_inet6, rt_table_main, rtprot_static,
  rt_scope_link, rtn_unicast, put_uint16_le, put_uint32_le, request_ack,
}

-- `for len(b)%4 != 0 { b = append(b, 0) }`: three rounds of fuel are enough.
unfoldable pub pad : ℕ → Bytes → Bytes
pad zero b = b
pad (suc fuel) b = let longer = pad fuel (b ++ (0 ∷ [])) in if length b % 4 == 0 then b else longer

unfoldable pub nl_attr : ℕ → Bytes → Bytes
unfolding pad
nl_attr typ value =
    pad 3 (put_uint16_le ((4 + length value) % 2 ^ 16) ++ (put_uint16_le (typ % 2 ^ 16) ++ value))

pub record NlMsghdr : Type 0 where
  pub len : ℕ
  pub typ : ℕ
  pub flags : ℕ
  pub seq : ℕ
  pub pid : ℕ

unfoldable pub marshal_nl_hdr : NlMsghdr → Bytes
marshal_nl_hdr h =
    put_uint32_le h.len
    ++ (put_uint16_le h.typ
        ++ (put_uint16_le h.flags ++ (put_uint32_le h.seq ++ put_uint32_le h.pid)))

-- The fields that are set here; Src_len, Tos and Flags are 0.
pub record RtMsg : Type 0 where
  pub family : ℕ
  pub dst_len : ℕ
  pub table : ℕ
  pub protocol : ℕ
  pub scope : ℕ
  pub typ : ℕ

unfoldable pub marshal_rt_msg : RtMsg → Bytes
marshal_rt_msg m =
    m.family ∷ m.dst_len ∷ 0 ∷ 0 ∷ m.table ∷ m.protocol ∷ m.scope ∷ m.typ ∷ 0 ∷ 0 ∷ 0 ∷ 0 ∷ []

abbrev pub attr_of : ℕ → Option Bytes → Bytes
attr_of typ none = []
attr_of typ (some value) = nl_attr typ value

abbrev pub is_nil : Option Bytes → Bool
is_nil none = true
is_nil (some _) = false

abbrev pub route_scope : ℕ → ℕ → Option Bytes → ℕ
route_scope ones host gw = if ones == host && is_nil gw then rt_scope_link else 0

-- The payload of netlinkRouteMsg for an IPv4 mask with `ones` leading ones. `dst` and `gw` are what To4
-- returns, and the interface is a positive index or 0.
unfoldable pub route_payload : ℕ → Bytes → ℕ → Option Bytes → Bytes
unfolding nl_attr marshal_rt_msg
route_payload if_index dst ones gw =
    marshal_rt_msg (record {
      family = af_inet;
      dst_len = ones % 256;
      table = rt_table_main;
      protocol = rtprot_static;
      scope = route_scope ones 32 gw;
      typ = rtn_unicast;
    })
    ++ (nl_attr rta_dst dst
        ++ (attr_of rta_gateway gw
            ++ (if ltb 0 if_index
                then nl_attr rta_oif (put_uint32_le (if_index % 2 ^ 32))
                else [])))

-- The payload of netlinkRouteMsg6. `dst` and `gw` are what To16 returns.
unfoldable pub route_payload6 : ℕ → Bytes → ℕ → Option Bytes → Bytes
unfolding nl_attr marshal_rt_msg
route_payload6 if_index dst prefix gw =
    marshal_rt_msg (record {
      family = af_inet6;
      dst_len = prefix % 256;
      table = rt_table_main;
      protocol = rtprot_static;
      scope = route_scope prefix 128 gw;
      typ = rtn_unicast;
    })
    ++ (nl_attr rta_dst dst
        ++ (attr_of rta_gateway gw ++ nl_attr rta_oif (put_uint32_le (if_index % 2 ^ 32))))

-- The bytes that sendNetlinkMsg sends; `pid` is the number of the process.
unfoldable pub frame_message : ℕ → ℕ → ℕ → Bytes → Bytes
unfolding pad marshal_nl_hdr
frame_message pid msg_type flags payload = pad 3 (
    marshal_nl_hdr (record {
      len = (nlmsg_hdr_size + length payload) % 2 ^ 32;
      typ = msg_type;
      flags = bit_or request_ack flags;
      seq = 1;
      pid = pid;
    })
    ++ payload)

pub record IfAddrMsg : Type 0 where
  pub family : ℕ
  pub prefixlen : ℕ
  pub flags : ℕ
  pub scope : ℕ
  pub index : ℕ

unfoldable pub marshal_if_addr_msg : IfAddrMsg → Bytes
marshal_if_addr_msg m = m.family ∷ m.prefixlen ∷ m.flags ∷ m.scope ∷ put_uint32_le m.index
