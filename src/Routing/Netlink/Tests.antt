-- ===== src/Routing/Netlink/Tests.antt =====
-- Messages, and the theorems at them.
use go_openlawsvpn.Base.{
  ℕ, ◌≡◌, refl, arith, false, [], ◌∷◌, ◌++◌, Option, none, some, ok, panic, Bytes, bytes_eq,
}
use go_openlawsvpn.Routing.Netlink.{rtm_newroute, af_inet}
use go_openlawsvpn.Routing.Netlink.Messages.{
  NlMsghdr, RtMsg, marshal_nl_hdr, marshal_rt_msg, frame_message, route_payload,
}
use go_openlawsvpn.Routing.Netlink.Replies.{parse_route_identity, find_route_identity}
use go_openlawsvpn.Routing.Netlink.RoundTrip.{
  quad, Gateway, gateway_of, route_identity, find_route_identity-frame,
}
use go_openlawsvpn.Routing.Netlink.Unaligned.{bare_attr, parse_route_identity-unaligned}

abbrev show : ℕ → Bytes → ℕ → Bytes
show family dst prefix = family ∷ prefix ∷ dst

abbrev shown : Option Bytes → Bytes
shown none = []
shown (some ip) = ip

find_route_identity-frame_example :
    find_route_identity show shown bytes_eq
      (frame_message 77 rtm_newroute 0x600
          (route_payload 9 (quad 10 0 0 0) 16 (gateway_of (Gateway.via 10 1 0 1)))
        ++ (1 ∷ 2 ∷ []))
      (quad 10 0 0 0)
      16
    ≡ ok (
      some (route_identity show shown bytes_eq (quad 10 0 0 0) 16 (some (quad 10 1 0 1)) 9),
      false,
    )
unfolding bytes_eq
find_route_identity-frame_example =
    find_route_identity-frame show shown bytes_eq 77 0x600 9 16 10 0 0 0 (Gateway.via 10 1 0 1)
      (1 ∷ 2 ∷ []) (omega arith) (omega arith) (omega arith) refl

abbrev header : NlMsghdr
header = record { len = 33; typ = rtm_newroute; flags = 2; seq = 3; pid = 77 }

abbrev message : RtMsg
message = record { family = af_inet; dst_len = 24; table = 254; protocol = 4; scope = 0; typ = 1 }

parse_route_identity-unaligned_example :
    parse_route_identity show shown bytes_eq
      (marshal_nl_hdr header ++ (marshal_rt_msg message ++ bare_attr 30 (5 ∷ [])))
      (quad 10 0 0 0)
      24
    ≡ panic
parse_route_identity-unaligned_example =
    parse_route_identity-unaligned show shown bytes_eq header message 30 (5 ∷ []) (quad 10 0 0 0)
      refl (omega arith) (omega arith)
