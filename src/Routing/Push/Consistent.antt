-- ===== src/Routing/Push/Consistent.antt =====
-- What ParsePushReply of routing/push.go promises of every reply it accepts.
pub mod Options
pub mod Cases
use go_openlawsvpn.Base.{
  ◌≡◌, ◌≢◌, ◌⊎◌, refl, arith, inl, inr, false, true, ◌||◌, List, [], ◌∷◌, Option, none, some,
  Result, ok, err, panic, bytes_eq, Bool, ◌>>=◌, >>=-ne-panic, Bytes, ℤ, pos, lt_ℤ, if◌then◌else◌,
}
use go_openlawsvpn.Compress.{codes, mode_lz4}
use go_openlawsvpn.Text.{Library, is_empty}
use go_openlawsvpn.Routing.Push
use go_openlawsvpn.Routing.Push.{
  directive_of, Directive, Error, State, PushOptions, Topology, start, finish, with_gateway,
}
use go_openlawsvpn.Routing.Push.Directives.{
  need, set_opts, topology, route_gateway, ifconfig, ifconfig_of, route, route_mask,
  route_gateway_arg, cipher, compress, gateway6, ifconfig_ipv6, route_ipv6, redirect_gateway,
  positive_arg, with_ping, with_ping_restart, with_ping_exit, keepalive, mssfix_arg, with_mssfix,
  with_tls_ekm, key_derivation, inactive_bytes_arg, with_inactive, auth_token, apply, apply_known,
  parse_parts, parse_field, parse_fields, parse_push_reply,
}
use go_openlawsvpn.Routing.Push.Consistent.Options.{IsConsistent, Sound, Sound-if}
use go_openlawsvpn.Routing.Push.Consistent.Cases.{apply-Sound}

module _ (lib : Library) where
  parse_parts-Sound :
      (parts : List Bytes) (st : State) → IsConsistent st.opts → Sound (parse_parts lib parts st)
  unfolding parse_parts
  parse_parts-Sound [] st h = h
  parse_parts-Sound (name ∷ args) st h = known (directive_of (lib.to_lower name))
    where
      known : (d : Option Directive) → Sound (apply_known lib d st args)
      known none = h
      known (some d) = apply-Sound lib d st args h

  parse_field-Sound :
      (field : Bytes) (st : State) → IsConsistent st.opts → Sound (parse_field lib field st)
  unfolding parse_field
  parse_field-Sound field st h =
      Sound-if (is_empty (lib.trim_space field)) _ _ (λ _. h) (λ _. parse_parts-Sound _ st h)

  >>=-Sound :
      (r : Result Error State) (next : State → Result Error State)
      → Sound r
      → ((st : State) → IsConsistent st.opts → Sound (next st))
      → Sound (r >>= next)
  >>=-Sound (ok st) next h k = k st h
  >>=-Sound (err e) next h k = tt
  >>=-Sound panic next h k = h

  parse_fields-Sound :
      (fields : List Bytes) (st : State) → IsConsistent st.opts → Sound (parse_fields lib fields st)
  unfolding parse_fields
  parse_fields-Sound [] st h = h
  parse_fields-Sound (field ∷ fields) st h =
      >>=-Sound (parse_field lib field st) _ (parse_field-Sound field st h)
        (λ st' k. parse_fields-Sound fields st' k)

  with_gateway-IsConsistent :
      (o : PushOptions) (c : Option Push.Ifconfig) (t : Topology) (gw : Option Bytes)
      → IsConsistent o
      → IsConsistent (with_gateway o c t gw)
  unfolding with_gateway
  with_gateway-IsConsistent o none t gw h = h
  with_gateway-IsConsistent o (some c) Topology.topology_net30 gw h = h
  with_gateway-IsConsistent o (some c) Topology.topology_subnet none h = h
  with_gateway-IsConsistent o (some c) Topology.topology_subnet (some gw) h = h

  finish-IsConsistent : (st : State) → IsConsistent st.opts → IsConsistent (finish st)
  unfolding finish
  finish-IsConsistent st h = with_gateway-IsConsistent st.opts _ _ _ h

  -- `ParsePushReply` never panics; it returns an error, or options in which ping-restart and ping-exit are
  -- not both set, no time is negative, and the MSS is unset or from 68 to 65535.
  pub parse_push_reply-IsConsistent :
      (msg : Bytes)
      → ((e : Error) × (parse_push_reply lib msg ≡ err e))
        ⊎ ((o : PushOptions) × (parse_push_reply lib msg ≡ ok o) × IsConsistent o)
  unfolding parse_push_reply
  parse_push_reply-IsConsistent msg =
      outcome (parse_fields lib _ start)
        (parse_fields-Sound _ start (inl refl, refl, refl, refl, inl refl, refl, refl))
    where
      outcome :
          (r : Result Error State)
          → Sound r
          → ((e : Error) × ((r >>= λ st. ok (finish st)) ≡ err e))
            ⊎ ((o : PushOptions) × ((r >>= λ st. ok (finish st)) ≡ ok o) × IsConsistent o)
      outcome (ok st) h = inr (finish st, refl, finish-IsConsistent st h)
      outcome (err e) h = inl (e, refl)
      outcome panic h = absurd h
