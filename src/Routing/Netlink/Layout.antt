-- ===== src/Routing/Netlink/Layout.antt =====
-- parseRouteIdentity of routing/netlink.go on a message that is laid out as a header, a route and attributes.
use go_openlawsvpn.Base.{
  ℕ, ◌+◌, ◌*◌, ◌/◌, ◌%◌, ◌≡◌, refl, arith, Bool, false, ◌++◌, length, replicate, ltb, ◌==◌, ==_refl,
  Option, none, ok, ◌>>=◌, Bytes,
}
use go_openlawsvpn.Routing.Netlink.{rtm_newroute, nlmsg_error, slice_inside}
use go_openlawsvpn.Routing.Netlink.Messages.{NlMsghdr, RtMsg, marshal_nl_hdr, marshal_rt_msg}
use go_openlawsvpn.Routing.Netlink.Replies.{
  Error, Found, read_attrs, route_of, parse_route_identity, identity_of,
}

-- The local variables in front of the loop.
abbrev pub unread : Bytes → Found
unread expected_dst = record {
  actual_dst = replicate (length expected_dst) 0;
  gateway = none;
  if_index = 0;
}

module _ (show_prefix : ℕ → Bytes → ℕ → Bytes) (ip_string : Option Bytes → Bytes)
    (ip_equal : Bytes → Bytes → Bool) where
  pub parse_route_identity-marshal :
      (h : NlMsghdr) (m : RtMsg) (attrs expected_dst : Bytes)
      → h.typ ≡ rtm_newroute
      → parse_route_identity show_prefix ip_string ip_equal
          (marshal_nl_hdr h ++ (marshal_rt_msg m ++ attrs))
          expected_dst
          m.dst_len
        ≡ (read_attrs (length attrs) attrs (unread expected_dst) >>= λ st.
            ok (identity_of show_prefix ip_string ip_equal m.family expected_dst m.dst_len st))
  unfolding parse_route_identity route_of marshal_nl_hdr marshal_rt_msg
  parse_route_identity-marshal h m attrs expected_dst route =
      let buf = marshal_nl_hdr h ++ (marshal_rt_msg m ++ attrs) in
      let long : ltb (length buf) 28 ≡ false = ground arith in
      let kind : (h.typ % 256 + h.typ / 256 % 256 * 256 == nlmsg_error) ≡ false =
        ground (arith, route) in
      rw
        (
          long,
          slice_inside {E = Error} buf 4 6 (omega arith) (omega arith),
          kind,
          ==_refl m.dst_len,
        )
        refl
