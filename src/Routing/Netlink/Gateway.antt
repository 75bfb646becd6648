-- ===== src/Routing/Netlink/Gateway.antt =====
-- routing/netlink.go: parseRouteGateway. A slice expression goes up to the capacity of the buffer, so the
-- bytes of the buffer behind the answer are an argument, `spare`.
use go_openlawsvpn.Base.{
  ℕ, zero, suc, ◌+◌, ◌-◌, ◌<◌, ◌≡◌, refl, arith, true, false, ◌&&◌, ◌||◌, ◌++◌, length, take, drop,
  replicate, if◌then◌else◌, ltb, leb, ◌==◌, Option, none, some, Result, ok, err, panic, ◌>>=◌,
  slice_from, Bytes,
}
use go_openlawsvpn.Routing.Netlink.{
  nlmsg_hdr_size, nlmsg_error, rtm_newroute, rta_gateway, uint16_le, uint32_le, slice, align,
}
use go_openlawsvpn.Routing.Netlink.Messages.{
  pad, nl_attr, marshal_nl_hdr, marshal_rt_msg, route_payload, frame_message,
}
use go_openlawsvpn.Routing.Netlink.Replies.{
  Error, response_too_short, error_too_short, system_error, copy,
}
use go_openlawsvpn.Routing.Netlink.RoundTrip.{quad}

-- `attrs[4:attrLen]`
abbrev pub value_within : Bytes → Bytes → ℕ → Result Error Bytes
value_within attrs spare len =
    if ltb (length attrs + length spare) len || ltb len 4
    then panic
    else ok (take (len - 4) (drop 4 (attrs ++ spare)))

-- One attribute: the gateway, or how far the next one is; `none` ends the loop.
pub data Look : Type 0 where
  no_gateway : Look
  gateway_is : Bytes → Look
  skip : ℕ → Look

unfoldable pub look : Bytes → Bytes → Result Error Look
look attrs spare = slice attrs 0 2 >>= λ two. uint16_le two >>= λ len. slice attrs 2 4 >>= λ kind.
    uint16_le kind >>= λ typ.
    if ltb len 4
    then ok no_gateway
    else if typ == rta_gateway && leb 8 len
    then (value_within attrs spare len >>= λ value. ok (gateway_is (copy (replicate 4 0) value)))
    else if ltb (length attrs) (align len)
    then ok no_gateway
    else ok (skip (align len))

abbrev pub behind_look :
    Bytes → (Bytes → Result Error (Option Bytes)) → Look → Result Error (Option Bytes)
behind_look attrs rest no_gateway = ok none
behind_look attrs rest (gateway_is gw) = ok (some gw)
behind_look attrs rest (skip n) = slice_from attrs n >>= λ attrs'. rest attrs'

-- Each round takes four bytes at least.
unfoldable pub gateway_loop : ℕ → Bytes → Bytes → Result Error (Option Bytes)
unfolding look
gateway_loop zero attrs spare = ok none
gateway_loop (suc fuel) attrs spare =
    let more = look attrs spare >>= λ r.
    behind_look attrs (λ (attrs' : Bytes). gateway_loop fuel attrs' spare) r in
    if ltb (length attrs) 4 then ok none else more

unfoldable pub parse_route_gateway : Bytes → Bytes → Result Error (Option Bytes)
unfolding gateway_loop slice
parse_route_gateway buf spare =
    if ltb (length buf) nlmsg_hdr_size
    then err response_too_short
    else slice buf 4 6 >>= λ two. uint16_le two >>= λ msg_type.
        if msg_type == nlmsg_error
        then (if ltb (length buf) (nlmsg_hdr_size + 4)
            then err error_too_short
            else slice_from buf nlmsg_hdr_size >>= λ rest.
                uint32_le rest >>= λ code. if code == 0 then ok none else err (system_error code))
        else if ltb (length buf) (nlmsg_hdr_size + 12)
        then ok none
        else slice_from buf (nlmsg_hdr_size + 12) >>= λ attrs.
            gateway_loop (length attrs) attrs spare

-- The gateway of a route message, whatever else the buffer holds.
parse_route_gateway-frame :
    (pid flags i ones a b c d x y z w : ℕ) (spare : Bytes)
    → 0 < i
    → parse_route_gateway
        (frame_message pid rtm_newroute flags
          (route_payload i (quad a b c d) ones (some (quad x y z w))))
        spare
      ≡ ok (some (quad x y z w))
unfolding parse_route_gateway frame_message route_payload marshal_nl_hdr marshal_rt_msg nl_attr pad
parse_route_gateway-frame pid flags i ones a b c d x y z w spare h =
    let positive : ltb 0 i ≡ true = ground arith in
    let room : ltb (16 + length spare) 8 ≡ false = ground arith in rw positive (rw room refl)
