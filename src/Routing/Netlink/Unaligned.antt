-- ===== src/Routing/Netlink/Unaligned.antt =====
-- parseRouteIdentity of routing/netlink.go on a message whose last attribute is not padded.
use go_openlawsvpn.Base.{
  ℕ, suc, ◌+◌, ◌-◌, ◌*◌, ◌/◌, ◌%◌, ◌^◌, ◌<◌, ◌≤◌, ◌≡◌, ◌≢◌, refl, ap, ◌∙◌, arith, Bool, true, false,
  ◌||◌, Bool-cases, inl, inr, [], ◌∷◌, ◌++◌, length, take, drop, if◌then◌else◌, ltb, leb, ◌==◌,
  Option, some, ok, panic, ◌>>=◌, Bytes, lt→ltb,
}
use go_openlawsvpn.Routing.Netlink.{
  rtm_newroute, rta_dst, rta_gateway, rta_oif, put_uint16_le, uint32_le, slice_inside, align,
}
use go_openlawsvpn.Routing.Netlink.Messages.{NlMsghdr, RtMsg, marshal_nl_hdr, marshal_rt_msg}
use go_openlawsvpn.Routing.Netlink.Layout.{unread, parse_route_identity-marshal}
use go_openlawsvpn.Routing.Netlink.Replies.{
  Error, Found, appended, with_index, with_attr, read_attr, read_attrs, parse_route_identity,
  identity_of,
}

-- An attribute as it stands in a message, without the padding.
abbrev pub bare_attr : ℕ → Bytes → Bytes
bare_attr typ value = put_uint16_le (4 + length value) ++ (put_uint16_le typ ++ value)

uint32_le_total :
    (value : Bytes) → 4 ≤ length value → (n : ℕ) × (uint32_le {E = Error} value ≡ ok n)
uint32_le_total (a ∷ (b ∷ (c ∷ (d ∷ rest)))) h = (_, refl)
uint32_le_total [] h = absurd (omega arith)
uint32_le_total (a ∷ []) h = absurd (omega arith)
uint32_le_total (a ∷ (b ∷ [])) h = absurd (omega arith)
uint32_le_total (a ∷ (b ∷ (c ∷ []))) h = absurd (omega arith)

with_index_total : (st : Found) (value : Bytes) → (st' : Found) × (with_index st value ≡ ok st')
with_index_total st value = elim (Bool-cases (leb 4 (length value))) [
  | inl long ↦
      let (n, e) = uint32_le_total value (ground (arith, long)) in
      (record st { if_index = n }, rw (long, e) refl)
  | inr short ↦ (st, rw short refl)
]

pub with_attr_total :
    (typ : ℕ) (value : Bytes) (st : Found) → (st' : Found) × (with_attr typ value st ≡ ok st')
unfolding with_attr
with_attr_total typ value st =
    split (typ == rta_dst) (typ == rta_gateway) (typ == rta_oif) (with_index_total st value)
  where
    split :
        (a b c : Bool)
        → ((st' : Found) × (with_index st value ≡ ok st'))
        → (st' : Found) × ((if a
              then ok (record st {
                actual_dst = take (length st.actual_dst) value ++ drop (length value) st.actual_dst;
              })
              else if b
              then ok (record st { gateway = appended value })
              else if c
              then with_index st value
              else ok st)
            ≡ ok st')
    split true b c i = (_, refl)
    split false true c i = (_, refl)
    split false false true i = i
    split false false false i = (st, refl)

take-all : (xs : Bytes) → take (length xs) xs ≡ xs
take-all [] = refl
take-all (x ∷ xs) = ap (λ l. x ∷ l) (take-all xs)

add_sub : (n : ℕ) → 4 + n - 4 ≡ n
add_sub n = omega arith

-- The attribute at the end of a message is read whole.
read_attr-bare :
    (typ : ℕ) (value : Bytes) (st : Found)
    → 4 + length value < 2 ^ 16
    → (st' : Found) × (read_attr (bare_attr typ value) st ≡ ok (some (4 + length value, st')))
unfolding read_attr
read_attr-bare typ value st h =
    let n = length value in
    let low : ℕ = (4 + n) % 256 in
    let high : ℕ = (4 + n) / 256 % 256 in
    let attrs = bare_attr typ value in
    let len : low + high * 256 ≡ 4 + n = omega arith in
    let inside : (ltb (4 + n) 4 || ltb (length attrs) (4 + n)) ≡ false = ground arith in
    let cut : take (4 + n - 4) value ≡ value = rw (add_sub n) (take-all value) in
    let (st', e) = with_attr_total (typ % 256 + typ / 256 % 256 * 256) value st in
    (
      st',
      rw
          (
            slice_inside {E = Error} attrs 0 2 (omega arith) (omega arith),
            len,
            inside,
            slice_inside {E = Error} attrs 4 (4 + n) (omega arith) (omega arith),
            cut,
            slice_inside {E = Error} attrs 2 4 (omega arith) (omega arith),
            e,
          )
          refl,
    )

-- The loop over the attributes panics behind an attribute that ends the message and has no padding.
read_attrs-bare :
    (fuel typ : ℕ) (value : Bytes) (st : Found)
    → 4 + length value < 2 ^ 16
    → length value % 4 ≢ 0
    → read_attrs (suc fuel) (bare_attr typ value) st ≡ panic
unfolding read_attrs
read_attrs-bare fuel typ value st h odd =
    let (st', e) = read_attr-bare typ value st h in
    let more : ltb (length (bare_attr typ value)) 4 ≡ false = ground arith in
    let beyond : ltb (length (bare_attr typ value)) (align (4 + length value)) ≡ true =
      lt→ltb _ _ (omega arith) in
    rw (more, e, beyond) refl

module _ (show_prefix : ℕ → Bytes → ℕ → Bytes) (ip_string : Option Bytes → Bytes)
    (ip_equal : Bytes → Bytes → Bool) where
  -- A route message for the expected prefix length whose last attribute has a length that is no multiple of
  -- four, and is not padded, makes parseRouteIdentity panic, where other malformed attributes end the loop.
  pub parse_route_identity-unaligned :
      (h : NlMsghdr) (m : RtMsg) (typ : ℕ) (value expected_dst : Bytes)
      → h.typ ≡ rtm_newroute
      → 4 + length value < 2 ^ 16
      → length value % 4 ≢ 0
      → parse_route_identity show_prefix ip_string ip_equal
          (marshal_nl_hdr h ++ (marshal_rt_msg m ++ bare_attr typ value))
          expected_dst
          m.dst_len
        ≡ panic
  parse_route_identity-unaligned h m typ value expected_dst route l odd =
      parse_route_identity-marshal show_prefix ip_string ip_equal h m (bare_attr typ value)
        expected_dst route
      ∙ ap
          (λ r. r >>= λ st.
            ok (identity_of show_prefix ip_string ip_equal m.family expected_dst m.dst_len st))
          (read_attrs-bare (suc (suc (suc (length value)))) typ value (unread expected_dst) l odd)
