-- ===== src/Routing/Netlink/RoundTrip.antt =====
-- routing/netlink.go: a route message that the client builds is found again by findRouteIdentity.
use go_openlawsvpn.Base.{
  ℕ, suc, ◌-◌, ◌%◌, ◌^◌, ◌<◌, ◌≤◌, ◌≡◌, refl, ap, subst, ◌∙◌, arith, Bool, true, false, not, ◌&&◌,
  ◌||◌, [], ◌∷◌, ◌++◌, length, length-append, take, take-append, if◌then◌else◌, ltb, Option, none,
  some, ok, ◌>>=◌, Bytes, pos,
}
use Prim.Native.Nat.{bit_or}
use go_openlawsvpn.Routing.Ownership.{RouteIdentity}
use go_openlawsvpn.Routing.Netlink.{
  rtm_newroute, af_inet, rt_table_main, rtprot_static, rtn_unicast, put_uint32_le, uint32_le, slice,
  slice_inside,
}
use go_openlawsvpn.Routing.Netlink.Messages.{
  NlMsghdr, RtMsg, pad, nl_attr, marshal_nl_hdr, marshal_rt_msg, route_payload, route_scope,
  frame_message,
}
use go_openlawsvpn.Routing.Netlink.Replies.{
  Error, Found, Item, with_attr, read_attr, read_attrs, identity_of, parse_route_identity,
  read_message, item_of, find_loop, find_route_identity,
}
use go_openlawsvpn.Routing.Netlink.Layout.{unread, parse_route_identity-marshal}

abbrev pub quad : ℕ → ℕ → ℕ → ℕ → Bytes
quad a b c d = a ∷ b ∷ c ∷ d ∷ []

-- A gateway of four bytes, or none.
pub data Gateway : Type 0 where
  direct : Gateway
  via : ℕ → ℕ → ℕ → ℕ → Gateway

abbrev pub gateway_of : Gateway → Option Bytes
gateway_of direct = none
gateway_of (via a b c d) = some (quad a b c d)

abbrev gateway_attr : Gateway → Bytes
gateway_attr direct = []
gateway_attr (via a b c d) = 8 ∷ 0 ∷ 5 ∷ 0 ∷ quad a b c d

abbrev attrs_of : ℕ → Bytes → Gateway → Bytes
attrs_of i dst g =
    8 ∷ 0 ∷ 1 ∷ 0 ∷ (dst ++ (gateway_attr g ++ (8 ∷ 0 ∷ 4 ∷ 0 ∷ put_uint32_le (i % 2 ^ 32))))

abbrev size_of : Gateway → ℕ
size_of direct = 44
size_of (via a b c d) = 52

abbrev header : ℕ → ℕ → Gateway → NlMsghdr
header pid flags g = record {
  len = size_of g;
  typ = rtm_newroute;
  flags = bit_or 5 flags;
  seq = 1;
  pid = pid;
}

abbrev message : ℕ → Gateway → RtMsg
message ones g = record {
  family = af_inet;
  dst_len = ones % 256;
  table = rt_table_main;
  protocol = rtprot_static;
  scope = route_scope ones 32 (gateway_of g);
  typ = rtn_unicast;
}

frame_lem :
    (pid flags i ones a b c d : ℕ) (g : Gateway)
    → 0 < i
    → frame_message pid rtm_newroute flags (route_payload i (quad a b c d) ones (gateway_of g))
      ≡ marshal_nl_hdr (header pid flags g)
        ++ (marshal_rt_msg (message ones g) ++ attrs_of i (quad a b c d) g)
unfolding frame_message route_payload marshal_nl_hdr marshal_rt_msg nl_attr pad
frame_lem pid flags i ones a b c d direct h =
    let positive : ltb 0 i ≡ true = ground arith in rw positive refl
frame_lem pid flags i ones a b c d (via x y z w) h =
    let positive : ltb 0 i ≡ true = ground arith in rw positive refl

read_attrs_lem :
    (i a b c d : ℕ) (g : Gateway)
    → i < 2 ^ 32
    → read_attrs
        (length (attrs_of i (quad a b c d) g))
        (attrs_of i (quad a b c d) g)
        (unread (quad a b c d))
      ≡ ok (record { actual_dst = quad a b c d; gateway = gateway_of g; if_index = i })
unfolding read_attrs read_attr with_attr slice
read_attrs_lem i a b c d direct h =
    ap (λ n. ok (record { actual_dst = quad a b c d; gateway = none; if_index = n })) (omega arith)
read_attrs_lem i a b c d (via x y z w) h =
    ap (λ n. ok (record { actual_dst = quad a b c d; gateway = some (quad x y z w); if_index = n }))
      (omega arith)

module _ (show_prefix : ℕ → Bytes → ℕ → Bytes) (ip_string : Option Bytes → Bytes)
    (ip_equal : Bytes → Bytes → Bool) where
  abbrev pub route_identity : Bytes → ℕ → Option Bytes → ℕ → RouteIdentity
  route_identity dst ones gw i = record {
    destination = show_prefix af_inet dst ones;
    gateway = ip_string gw;
    interface = pos i;
  }

  parsed :
      (pid flags i ones a b c d : ℕ) (g : Gateway)
      → i < 2 ^ 32
      → ip_equal (quad a b c d) (quad a b c d) ≡ true
      → parse_route_identity show_prefix ip_string ip_equal
          (marshal_nl_hdr (header pid flags g)
            ++ (marshal_rt_msg (message ones g) ++ attrs_of i (quad a b c d) g))
          (quad a b c d)
          (ones % 256)
        ≡ ok (some (route_identity (quad a b c d) (ones % 256) (gateway_of g) i))
  parsed pid flags i ones a b c d g h same =
      let found : Found = record {
        actual_dst = quad a b c d;
        gateway = gateway_of g;
        if_index = i;
      } in
      let differs : (ltb 0 (ones % 256) && not (ip_equal (quad a b c d) (quad a b c d))) ≡ false =
        ground (arith, same) in
      parse_route_identity-marshal show_prefix ip_string ip_equal (header pid flags g)
        (message ones g) (attrs_of i (quad a b c d) g) (quad a b c d) refl
      ∙ ap
          (λ r. r >>= λ st.
            ok (identity_of show_prefix ip_string ip_equal af_inet (quad a b c d) (ones % 256) st))
          (read_attrs_lem i a b c d g h)
      ∙ ap
          (λ (t : Bool). ok (
            if t then none else some (route_identity (quad a b c d) (ones % 256) (gateway_of g) i)))
          differs

  -- The message is one of a dump: a route of the main table.
  read_message_lem :
      (pid flags i ones a b c d : ℕ) (g : Gateway) (dst : Bytes) (prefix : ℕ)
      → read_message show_prefix ip_string ip_equal
          (marshal_nl_hdr (header pid flags g)
            ++ (marshal_rt_msg (message ones g) ++ attrs_of i (quad a b c d) g))
          dst
          prefix
        ≡ (parse_route_identity show_prefix ip_string ip_equal
              (marshal_nl_hdr (header pid flags g)
                ++ (marshal_rt_msg (message ones g) ++ attrs_of i (quad a b c d) g))
              dst
              prefix
            >>= λ r. ok (item_of r))
  unfolding read_message slice marshal_nl_hdr marshal_rt_msg
  read_message_lem pid flags i ones a b c d direct dst prefix = refl
  read_message_lem pid flags i ones a b c d (via x y z w) dst prefix = refl

  -- The first message of a buffer is the route that is looked for.
  find_loop-first :
      (fuel : ℕ) (msg rest dst : Bytes) (prefix : ℕ) (r : RouteIdentity)
      → 16 ≤ length msg
      → uint32_le {E = Error} (msg ++ rest) ≡ ok (length msg)
      → read_message show_prefix ip_string ip_equal msg dst prefix ≡ ok (Item.route r)
      → find_loop show_prefix ip_string ip_equal (suc fuel) (msg ++ rest) dst prefix
        ≡ ok (some r, false)
  unfolding find_loop
  find_loop-first fuel msg rest dst prefix r h e q =
      let total = length-append msg rest in
      let long : ltb (length (msg ++ rest)) 16 ≡ false = ground (arith, total, h) in
      let fits : (ltb (length msg) 16 || ltb (length (msg ++ rest)) (length msg)) ≡ false =
        ground (arith, total, h) in
      let cut : take (length msg - 0) (msg ++ rest) ≡ msg =
        take-append (length msg - 0) msg rest (omega arith) in
      rw
        (
          long,
          e,
          fits,
          slice_inside {E = Error} (msg ++ rest) 0 (length msg) (omega arith)
              (omega (arith, total)),
          cut,
          q,
        )
        refl

  find_first :
      (msg rest dst : Bytes) (prefix : ℕ) (r : RouteIdentity)
      → 16 ≤ length msg
      → uint32_le {E = Error} (msg ++ rest) ≡ ok (length msg)
      → read_message show_prefix ip_string ip_equal msg dst prefix ≡ ok (Item.route r)
      → find_route_identity show_prefix ip_string ip_equal (msg ++ rest) dst prefix
        ≡ ok (some r, false)
  unfolding find_route_identity
  find_first [] rest dst prefix r h e q = absurd (omega arith)
  find_first (x ∷ msg) rest dst prefix r h e q =
      find_loop-first (length (msg ++ rest)) (x ∷ msg) rest dst prefix r h e q

  found :
      (pid flags i ones a b c d : ℕ) (g : Gateway) (rest : Bytes)
      → i < 2 ^ 32
      → ip_equal (quad a b c d) (quad a b c d) ≡ true
      → find_route_identity show_prefix ip_string ip_equal
          ((marshal_nl_hdr (header pid flags g)
              ++ (marshal_rt_msg (message ones g) ++ attrs_of i (quad a b c d) g))
            ++ rest)
          (quad a b c d)
          (ones % 256)
        ≡ ok (some (route_identity (quad a b c d) (ones % 256) (gateway_of g) i), false)
  unfolding marshal_nl_hdr marshal_rt_msg
  found pid flags i ones a b c d direct rest h same =
      find_first
        (marshal_nl_hdr (header pid flags direct)
          ++ (marshal_rt_msg (message ones direct) ++ attrs_of i (quad a b c d) direct))
        rest (quad a b c d) (ones % 256) (route_identity (quad a b c d) (ones % 256) none i)
        (omega arith) refl
        (read_message_lem pid flags i ones a b c d direct (quad a b c d) (ones % 256)
          ∙ ap (λ r. r >>= λ x. ok (item_of x)) (parsed pid flags i ones a b c d direct h same))
  found pid flags i ones a b c d (via x y z w) rest h same =
      find_first
        (marshal_nl_hdr (header pid flags (via x y z w))
          ++ (marshal_rt_msg (message ones (via x y z w))
              ++ attrs_of i (quad a b c d) (via x y z w)))
        rest (quad a b c d) (ones % 256)
        (route_identity (quad a b c d) (ones % 256) (some (quad x y z w)) i) (omega arith) refl
        (read_message_lem pid flags i ones a b c d (via x y z w) (quad a b c d) (ones % 256)
          ∙ ap (λ r. r >>= λ x. ok (item_of x))
              (parsed pid flags i ones a b c d (via x y z w) h same))

  -- A message by which the client adds an IPv4 route to an interface, with a gateway or without one, is
  -- what findRouteIdentity finds at the head of a dump for the same destination and prefix: with that
  -- destination, gateway and interface.
  pub find_route_identity-frame :
      (pid flags i ones a b c d : ℕ) (g : Gateway) (rest : Bytes)
      → 0 < i
      → i < 2 ^ 32
      → ones ≤ 32
      → ip_equal (quad a b c d) (quad a b c d) ≡ true
      → find_route_identity show_prefix ip_string ip_equal
          (frame_message pid rtm_newroute flags (route_payload i (quad a b c d) ones (gateway_of g))
            ++ rest)
          (quad a b c d)
          ones
        ≡ ok (some (route_identity (quad a b c d) ones (gateway_of g) i), false)
  find_route_identity-frame pid flags i ones a b c d g rest p h o same =
      let small : ones % 256 ≡ ones = omega arith in
      let dst = quad a b c d in
      rw (frame_lem pid flags i ones a b c d g p) (
        subst
          (λ k.
            find_route_identity show_prefix ip_string ip_equal
              ((marshal_nl_hdr (header pid flags g)
                  ++ (marshal_rt_msg (message ones g) ++ attrs_of i dst g))
                ++ rest)
              dst k
            ≡ ok (some (route_identity dst k (gateway_of g) i), false))
          small (found pid flags i ones a b c d g rest h same))
