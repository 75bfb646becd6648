-- ===== src/Routing/Netlink/Replies.antt =====
-- routing/netlink.go: parseNlError, findRouteIdentity, parseRouteIdentity and parseRouteGateway.
use go_openlawsvpn.Base.{
  ℕ, zero, suc, ◌+◌, ◌-◌, ◌^◌, Bool, true, false, not, ◌&&◌, ◌||◌, [], ◌∷◌, ◌++◌, length, take,
  drop, replicate, if◌then◌else◌, ltb, leb, ◌==◌, Option, none, some, Result, ok, err, ◌>>=◌,
  slice_from, index, Bytes, pos,
}
use go_openlawsvpn.Routing.Ownership.{RouteIdentity}
use go_openlawsvpn.Routing.Netlink.{
  nlmsg_hdr_size, nlmsg_error, nlmsg_done, rtm_newroute, rta_dst, rta_oif, rta_gateway,
  rt_table_main, uint16_le, uint32_le, slice, align,
}

-- A system error has the 32 bits of its number as they stand in the message, which are those of its
-- negative.
pub data Error : Type 0 where
  response_too_short error_too_short malformed_dump malformed_alignment : Error
  system_error : ℕ → Error

-- The bits of -ESRCH and -ENOENT.
abbrev pub no_process : ℕ
no_process = 2 ^ 32 - 3

abbrev pub no_entry : ℕ
no_entry = 2 ^ 32 - 2

unfoldable pub parse_nl_error : Bytes → Result Error (Unit {0})
parse_nl_error buf =
    if ltb (length buf) nlmsg_hdr_size
    then err response_too_short
    else slice buf 4 6 >>= λ two. uint16_le two >>= λ msg_type.
        if not (msg_type == nlmsg_error)
        then ok tt
        else if ltb (length buf) (nlmsg_hdr_size + 4)
        then err error_too_short
        else slice_from buf nlmsg_hdr_size >>= λ rest.
            uint32_le rest >>= λ code. if code == 0 then ok tt else err (system_error code)

-- `copy(dst, src)`
abbrev pub copy : Bytes → Bytes → Bytes
copy dst src = take (length dst) src ++ drop (length src) dst

-- The local variables of the loop over the attributes.
pub record Found : Type 0 where
  pub actual_dst : Bytes
  pub gateway : Option Bytes
  pub if_index : ℕ

-- `ifIndex` is set from a value of four bytes at least.
abbrev pub with_index : Found → Bytes → Result Error Found
with_index st value =
    if leb 4 (length value)
    then (uint32_le value >>= λ n. ok (record st { if_index = n }))
    else ok st

-- `append(net.IP(nil), value...)`
abbrev pub appended : Bytes → Option Bytes
appended [] = none
appended (b ∷ value) = some (b ∷ value)

-- The switch on the type of an attribute.
unfoldable pub with_attr : ℕ → Bytes → Found → Result Error Found
with_attr typ value st =
    if typ == rta_dst
    then ok (record st { actual_dst = copy st.actual_dst value })
    else if typ == rta_gateway
    then ok (record st { gateway = appended value })
    else if typ == rta_oif
    then with_index st value
    else ok st

-- One attribute: how long it says it is, and what it changes. `none` ends the loop.
unfoldable pub read_attr : Bytes → Found → Result Error (Option (ℕ × Found))
unfolding with_attr
read_attr attrs st = slice attrs 0 2 >>= λ two. uint16_le two >>= λ len.
    if ltb len 4 || ltb (length attrs) len
    then ok none
    else slice attrs 4 len >>= λ value. slice attrs 2 4 >>= λ kind.
        uint16_le kind >>= λ typ. with_attr typ value st >>= λ st'. ok (some (len, st'))

-- `attrs = attrs[(length+3)&^3:]`, and then the rest of the loop.
abbrev pub behind_attr :
    Bytes → Found → (Bytes → Found → Result Error Found) → Option (ℕ × Found) → Result Error Found
behind_attr attrs st rest none = ok st
behind_attr attrs st rest (some (len, st')) =
    slice_from attrs (align len) >>= λ attrs'. rest attrs' st'

-- Each round takes four bytes at least, so a round of fuel for each byte is enough.
unfoldable pub read_attrs : ℕ → Bytes → Found → Result Error Found
unfolding read_attr
read_attrs zero attrs st = ok st
read_attrs (suc fuel) attrs st =
    let more = read_attr attrs st >>= λ r.
    behind_attr attrs st (λ (attrs' : Bytes) (st' : Found). read_attrs fuel attrs' st') r in
    if ltb (length attrs) 4 then ok st else more

-- What a message of a dump gives: the end of the dump, a route, or nothing.
pub data Item : Type 0 where
  ended nothing : Item
  route : RouteIdentity → Item

abbrev pub item_of : Option RouteIdentity → Item
item_of none = nothing
item_of (some r) = route r

-- `show_prefix` prints a destination of a family with its prefix, `ip_string` a gateway or "" for none,
-- and `ip_equal` is the method Equal of net.IP.
module _ (show_prefix : ℕ → Bytes → ℕ → Bytes) (ip_string : Option Bytes → Bytes)
    (ip_equal : Bytes → Bytes → Bool) where
  abbrev pub identity_of : ℕ → Bytes → ℕ → Found → Option RouteIdentity
  identity_of family expected_dst prefix st =
      if ltb 0 prefix && not (ip_equal st.actual_dst expected_dst)
      then none
      else some (record {
        destination = show_prefix family expected_dst prefix;
        gateway = ip_string st.gateway;
        interface = pos st.if_index;
      })

  -- Behind the test for an error message.
  unfoldable pub route_of : Bytes → Bytes → ℕ → Result Error (Option RouteIdentity)
  unfolding read_attrs
  route_of buf expected_dst prefix = index buf (nlmsg_hdr_size + 1) >>= λ dst_len.
      index buf nlmsg_hdr_size >>= λ family.
      if not (dst_len == prefix)
      then ok none
      else slice_from buf (nlmsg_hdr_size + 12) >>= λ attrs.
          read_attrs (length attrs) attrs (record {
            actual_dst = replicate (length expected_dst) 0;
            gateway = none;
            if_index = 0;
          })
          >>= λ st. ok (identity_of family expected_dst prefix st)

  -- The test for an error message with a number that is not 0.
  abbrev pub after_code :
      ℕ → Result Error (Option RouteIdentity) → Result Error (Option RouteIdentity)
  after_code code behind =
      if code == no_process || code == no_entry
      then ok none
      else if code == 0
      then behind
      else err (system_error code)

  unfoldable pub parse_route_identity : Bytes → Bytes → ℕ → Result Error (Option RouteIdentity)
  unfolding route_of
  parse_route_identity buf expected_dst prefix =
      if ltb (length buf) (nlmsg_hdr_size + 12)
      then ok none
      else slice buf 4 6 >>= λ two. uint16_le two >>= λ msg_type.
          if msg_type == nlmsg_error
          then (slice_from buf nlmsg_hdr_size >>= λ rest.
              uint32_le rest >>= λ code. after_code code (route_of buf expected_dst prefix))
          else route_of buf expected_dst prefix

  -- The switch on the type of a message.
  unfoldable pub read_message : Bytes → Bytes → ℕ → Result Error Item
  unfolding parse_route_identity
  read_message msg expected_dst prefix = slice msg 4 6 >>= λ two. uint16_le two >>= λ msg_type.
      if msg_type == nlmsg_done
      then ok ended
      else if msg_type == nlmsg_error
      then (if ltb (length msg) (nlmsg_hdr_size + 4)
          then err error_too_short
          else slice_from msg nlmsg_hdr_size >>= λ rest.
              uint32_le rest >>= λ code. if code == 0 then ok nothing else err (system_error code))
      else if msg_type == rtm_newroute && leb (nlmsg_hdr_size + 12) (length msg)
      then (index msg (nlmsg_hdr_size + 4) >>= λ table.
          if table == rt_table_main
          then (parse_route_identity msg expected_dst prefix >>= λ r. ok (item_of r))
          else ok nothing)
      else ok nothing

  -- The route, and whether the dump is at its end.
  abbrev pub after_item :
      Item → Result Error (Option RouteIdentity × Bool) → Result Error (Option RouteIdentity × Bool)
  after_item ended rest = ok (none, true)
  after_item (route r) rest = ok (some r, false)
  after_item nothing rest = rest

  -- Each round takes a header at least.
  unfoldable pub find_loop : ℕ → Bytes → Bytes → ℕ → Result Error (Option RouteIdentity × Bool)
  unfolding read_message
  find_loop zero buf expected_dst prefix = ok (none, false)
  find_loop (suc fuel) buf expected_dst prefix =
      let next = λ (len : ℕ).
        if ltb (length buf) (align len)
        then err malformed_alignment
        else slice_from buf (align len) >>= λ buf'. find_loop fuel buf' expected_dst prefix in
      if ltb (length buf) nlmsg_hdr_size
      then ok (none, false)
      else uint32_le buf >>= λ len.
          if ltb len nlmsg_hdr_size || ltb (length buf) len
          then err malformed_dump
          else slice buf 0 len >>= λ msg.
              read_message msg expected_dst prefix >>= λ item. after_item item (next len)

  unfoldable pub find_route_identity :
      Bytes → Bytes → ℕ → Result Error (Option RouteIdentity × Bool)
  unfolding find_loop
  find_route_identity buf expected_dst prefix = find_loop (length buf) buf expected_dst prefix
