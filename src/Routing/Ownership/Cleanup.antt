-- ===== src/Routing/Ownership/Cleanup.antt =====
-- Cleanup removes the client's own routes and nothing else.
use go_openlawsvpn.Base.{
  ◌≡◌, refl, sym, ap, subst, ◌∙◌, arith, inl, inr, Bool-cases, Bool, true, false, ◌&&◌, ◌||◌, List,
  [], ◌∷◌, ◌++◌, Option, none, some, ok, Bytes, bytes_eq, bytes_eq_iff, eq_ℤ_iff,
}
use go_openlawsvpn.Routing.Ownership.{
  RouteIdentity, same_route, Error, Ownership, IsBackend, Succeeds, callbacks, remove_failed,
  with_error, cleanup_one, cleanup_loop, cleanup,
}

-- Whether a route is one that the ledger owns.
abbrev pub owns : List RouteIdentity → RouteIdentity → Bool
owns [] r = false
owns (expected ∷ owned) r = same_route r expected || owns owned r

-- No route, or one that the ledger does not own.
abbrev pub Foreign : List RouteIdentity → Option RouteIdentity → Type 0
Foreign owned none = Unit {0}
Foreign owned (some r) = owns owned r ≡ false

Foreign-tail :
    (e : RouteIdentity) (owned : List RouteIdentity) (current : Option RouteIdentity)
    → Foreign (e ∷ owned) current
    → Foreign owned current
Foreign-tail e owned none h = tt
Foreign-tail e owned (some r) h = ground (arith, h)

pub with_error-host {ℓ} :
    {H : Type ℓ} (e : Error) (b : Bool) (out : H × List Error) → (with_error e b out).0 ≡ out.0
with_error-host e true out = refl
with_error-host e false out = refl

same_route_refl : (r : RouteIdentity) → same_route r r ≡ true
unfolding same_route
same_route_refl r = ground (
  arith,
  (bytes_eq_iff r.destination r.destination).1 refl,
  (bytes_eq_iff r.gateway r.gateway).1 refl,
  (eq_ℤ_iff r.interface r.interface).1 refl,
)

pub same_route-eq : (a b : RouteIdentity) → same_route a b ≡ true → a ≡ b
unfolding same_route
same_route-eq a b h =
    let (d, g, i) = fields h in
    let d' = (bytes_eq_iff a.destination b.destination).0 d in
    let g' = (bytes_eq_iff a.gateway b.gateway).0 g in
    let i' = (eq_ℤ_iff a.interface b.interface).0 i in
    λ t. record { destination = d' t; gateway = g' t; interface = i' t }
  where
    fields : {x y z : Bool} → x && y && z ≡ true → (x ≡ true) × (y ≡ true) × (z ≡ true)
    fields k = ground (arith, k)

module _ {ℓ} {H : Type ℓ} (lookup : H → Bytes → Option (Option RouteIdentity))
    (add remove : H → RouteIdentity → H × Bool) where
  -- The routing table behind one round, and behind all of them.
  abbrev round : RouteIdentity → H → H × List Error
  round e host = cleanup_one (some remove) e (lookup host e.destination) host

  abbrev cleaned : List RouteIdentity → H → H
  cleaned [] host = host
  cleaned (e ∷ owned) host = cleaned owned (round e host).0

  abbrev cleaned_errs : List RouteIdentity → H → List Error
  cleaned_errs [] host = []
  cleaned_errs (e ∷ owned) host = (round e host).1 ++ cleaned_errs owned (round e host).0

  cleanup_loop-cleaned :
      (owned : List RouteIdentity) (host : H)
      → cleanup_loop (callbacks lookup add remove) owned host
        ≡ ok (cleaned owned host, cleaned_errs owned host)
  unfolding cleanup_loop
  cleanup_loop-cleaned [] host = refl
  cleanup_loop-cleaned (e ∷ owned) host = rw (cleanup_loop-cleaned owned (round e host).0) refl

  round_keeps :
      IsBackend lookup add remove
      → (e : RouteIdentity) (owned : List RouteIdentity) (host : H) (d : Bytes)
        (current : Option RouteIdentity)
      → lookup host d ≡ some current
      → Foreign (e ∷ owned) current
      → lookup (round e host).0 d ≡ some current
  unfolding cleanup_one
  round_keeps laws e owned host d current h foreign = found (lookup host e.destination) refl
    where
      both :
          (remove host e).1 && bytes_eq e.destination d ≡ true
          → ((remove host e).1 ≡ true) × (bytes_eq e.destination d ≡ true)
      both k = ground (arith, k)

      some_eq :
          {a b : Option RouteIdentity}
          → ◌≡◌ {A = Option (Option RouteIdentity)} (some a) (some b)
          → a ≡ b
      some_eq k = ground (arith, k)

      not_foreign :
          (cur : RouteIdentity) → same_route cur e ≡ true → Foreign (e ∷ owned) (some cur) → ⊥
      not_foreign cur same k = ground (arith, same, k)

      taken :
          (cur : RouteIdentity)
          → lookup host e.destination ≡ some (some cur)
          → same_route cur e ≡ true
          → lookup (remove host e).0 d ≡ some current
      taken cur q same = elim (Bool-cases ((remove host e).1 && bytes_eq e.destination d)) [
        | inl hit ↦
            let (done, here) = both hit in
            let at_d : e.destination ≡ d = (bytes_eq_iff e.destination d).0 here in
            let it : current ≡ some cur = some_eq (sym h ∙ ap (lookup host) (sym at_d) ∙ q) in
            absurd (not_foreign cur same (subst (Foreign (e ∷ owned)) it foreign))
        | inr miss ↦ laws.removes host e d ∙ rw miss h
      ]

      found :
          (o : Option (Option RouteIdentity))
          → lookup host e.destination ≡ o
          → lookup (cleanup_one (some remove) e o host).0 d ≡ some current
      found none q = h
      found (some none) q = h
      found (some (some cur)) q = elim (Bool-cases (same_route cur e)) [
        | inl same ↦ rw same (
            ap (λ t. lookup t d)
              (with_error-host (remove_failed e.destination) (remove host e).1
                ((remove host e).0, []))
            ∙ taken cur q same)
        | inr other ↦ rw other h
      ]

  cleaned_keeps :
      IsBackend lookup add remove
      → (owned : List RouteIdentity) (host : H) (d : Bytes) (current : Option RouteIdentity)
      → lookup host d ≡ some current
      → Foreign owned current
      → lookup (cleaned owned host) d ≡ some current
  cleaned_keeps laws [] host d current h foreign = h
  cleaned_keeps laws (e ∷ owned) host d current h foreign =
      cleaned_keeps laws owned (round e host).0 d current
        (round_keeps laws e owned host d current h foreign) (Foreign-tail e owned current foreign)

  -- The route that is found at its own destination is removed in its round.
  round_removes :
      IsBackend lookup add remove
      → Succeeds remove
      → (e : RouteIdentity) (host : H) → lookup host e.destination ≡ some (some e)
      → lookup (round e host).0 e.destination ≡ some none
  unfolding cleanup_one
  round_removes laws done e host h =
      let same = same_route_refl e in
      let here : ((remove host e).1 && bytes_eq e.destination e.destination) ≡ true =
        rw (done host e) ((bytes_eq_iff e.destination e.destination).1 refl) in
      rw (h, same)
        (ap (λ t. lookup t e.destination)
            (with_error-host (remove_failed e.destination) (remove host e).1
              ((remove host e).0, []))
          ∙ laws.removes host e e.destination
          ∙ rw here refl)

  cleaned_removes :
      IsBackend lookup add remove
      → Succeeds remove
      → (owned : List RouteIdentity) (host : H) (r : RouteIdentity)
      → lookup host r.destination ≡ some (some r)
      → owns owned r ≡ true
      → lookup (cleaned owned host) r.destination ≡ some none
  cleaned_removes laws done [] host r h own = cc
  cleaned_removes laws done (e ∷ owned) host r h own = elim (Bool-cases (same_route r e)) [
    | inl same ↦
        let gone : (e' : RouteIdentity)
            → r ≡ e'
            → lookup (round e' host).0 r.destination ≡ some none =
          λ e' q.
            subst (λ x. lookup (round x host).0 r.destination ≡ some none) q
              (round_removes laws done r host h) in
        cleaned_keeps laws owned (round e host).0 r.destination none
          (gone e (same_route-eq r e same)) tt
    | inr other ↦
        let still = round_keeps laws e [] host r.destination (some r) h (rw other refl) in
        cleaned_removes laws done owned (round e host).0 r still (rw other at own)
  ]

  cleanup-ok :
      (o : Ownership) (host : H)
      → o.closed ≡ false
      → cleanup (callbacks lookup add remove) o host
        ≡ ok (record o { closed = true }, cleaned o.owned host, cleaned_errs o.owned host)
  unfolding cleanup
  cleanup-ok o host live = rw (live, cleanup_loop-cleaned o.owned host) refl

  -- Cleanup of an open ledger closes it, and whatever fails on the way, the destinations without a route
  -- and those with a route that differs from every owned one are left as they were.
  pub cleanup_keeps :
      (o : Ownership) (host : H) (d : Bytes) (current : Option RouteIdentity)
      → IsBackend lookup add remove
      → o.closed ≡ false
      → lookup host d ≡ some current
      → Foreign o.owned current
      → (out : Ownership × H × List Error) × (cleanup (callbacks lookup add remove) o host ≡ ok out)
        × (out.0.closed ≡ true)
        × (lookup out.1 d ≡ some current)
  cleanup_keeps o host d current laws live h foreign =
      (_, cleanup-ok o host live, refl, cleaned_keeps laws o.owned host d current h foreign)

  -- If no removal fails, every owned route that is still in the table as it was added is gone after
  -- Cleanup.
  pub cleanup_removes :
      (o : Ownership) (host : H) (r : RouteIdentity)
      → IsBackend lookup add remove
      → Succeeds remove
      → o.closed ≡ false
      → owns o.owned r ≡ true
      → lookup host r.destination ≡ some (some r)
      → (out : Ownership × H × List Error) × (cleanup (callbacks lookup add remove) o host ≡ ok out)
        × (lookup out.1 r.destination ≡ some none)
  cleanup_removes o host r laws done live own h =
      (_, cleanup-ok o host live, cleaned_removes laws done o.owned host r h own)
