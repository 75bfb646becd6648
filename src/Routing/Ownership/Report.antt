-- ===== src/Routing/Ownership/Report.antt =====
-- What Check reports, and what Repair looks up in the ledger.
use go_openlawsvpn.Base.{
  ◌≡◌, ◌⊎◌, refl, sym, ap, subst, ◌∙◌, arith, inl, inr, Bool-cases, Bool, true, false, List, [],
  ◌∷◌, if◌then◌else◌, Option, none, some, Result, ok, >>=-eq-ok, Bytes, bytes_eq, bytes_eq_iff,
}
use go_openlawsvpn.Routing.Ownership.{
  RouteIdentity, same_route, drift_missing, drift_changed, Drift, Error, Answers, inspected,
  check_one, check_loop, find_owned,
}
use go_openlawsvpn.Routing.Ownership.Cleanup.{owns, same_route-eq}

pub find_owned-eq-some :
    (d : Bytes) (owned : List RouteIdentity) {e : RouteIdentity}
    → find_owned d owned ≡ some e
    → e.destination ≡ d
unfolding find_owned
find_owned-eq-some d [] h = cc
find_owned-eq-some d (x ∷ owned) {e} h = elim (Bool-cases (bytes_eq x.destination d)) [
  | inl same ↦
      let it : x ≡ e = some_eq (rw same at h) in
      ap (λ r. r.destination) (sym it) ∙ (bytes_eq_iff x.destination d).0 same
  | inr other ↦ find_owned-eq-some d owned (rw other at h)
]
  where
    some_eq : {a b : RouteIdentity} → some a ≡ some b → a ≡ b
    some_eq k = ground (arith, k)

-- The destination of an owned route is one of the owned destinations.
pub find_owned-owns :
    (r : RouteIdentity) (owned : List RouteIdentity)
    → owns owned r ≡ true
    → (e : RouteIdentity) × (find_owned r.destination owned ≡ some e)
unfolding find_owned
find_owned-owns r [] h = cc
find_owned-owns r (x ∷ owned) h = elim (Bool-cases (bytes_eq x.destination r.destination)) [
  | inl same ↦ (x, rw same refl)
  | inr other ↦ elim (Bool-cases (same_route r x)) [
    | inl it ↦ absurd (differ other (ap (λ e. e.destination) (sym (same_route-eq r x it))))
    | inr unlike ↦ let (e, q) = find_owned-owns r owned (rw unlike at h) in (e, rw other q)
  ]
]
  where
    differ : {a b : Bytes} → bytes_eq a b ≡ false → a ≡ b → ⊥
    differ {a} {b} k q = ground (arith, k, (bytes_eq_iff a b).1 q)

-- A missing route to `d` is among the drift.
abbrev pub HasMissing : List Drift → Bytes → Type 0
HasMissing [] d = ⊥
HasMissing (item ∷ drift) d =
    ((item.kind ≡ drift_missing) × (item.destination ≡ d)) ⊎ HasMissing drift d

check_one-HasMissing :
    (e : RouteIdentity) (current : Option RouteIdentity) (drift : List Drift) (d : Bytes)
    → HasMissing drift d
    → HasMissing (check_one e current drift) d
unfolding check_one
check_one-HasMissing e none drift d h = inr h
check_one-HasMissing e (some cur) drift d h = elim (Bool-cases (same_route cur e)) [
  | inl same ↦ rw same h
  | inr other ↦ rw other (inr h)
]

module _ {ℓ} {H : Type ℓ} (lookup : H → Bytes → Option (Option RouteIdentity)) where
  -- There is a route to `d`.
  abbrev pub Present : H → Bytes → Type 0
  Present host d = (current : RouteIdentity) × (lookup host d ≡ some (some current))

  pub check_loop_total :
      Answers lookup
      → (owned : List RouteIdentity) (host : H)
      → (drift : List Drift) × (check_loop (lookup host) owned ≡ ok drift)
  unfolding check_loop
  check_loop_total answers [] host = ([], refl)
  check_loop_total answers (e ∷ owned) host =
      let (current, q) = answers host e.destination in
      let (drift, k) = check_loop_total answers owned host in
      (check_one e current drift, rw (q, k) refl)

  check_loop-cons :
      (e : RouteIdentity) (owned : List RouteIdentity) (host : H) {drift : List Drift}
      → check_loop (lookup host) (e ∷ owned) ≡ ok drift
      → (current : Option RouteIdentity) × (rest : List Drift) × (lookup host e.destination
          ≡ some current)
        × (check_loop (lookup host) owned ≡ ok rest)
        × (check_one e current rest ≡ drift)
  unfolding check_loop
  check_loop-cons e owned host h =
      let (current, q, k) = >>=-eq-ok (inspected (lookup host e.destination) e.destination) _ h in
      let (rest, q', k') = >>=-eq-ok (check_loop (lookup host) owned) _ k in
      (current, rest, found (lookup host e.destination) e.destination q, q', ok_eq k')
    where
      found :
          (o : Option (Option RouteIdentity)) (d : Bytes) {current : Option RouteIdentity}
          → inspected o d ≡ ok current
          → o ≡ some current
      found none d q = cc
      found (some x) d q = ground (arith, q)

      ok_eq : {a b : List Drift} → ◌≡◌ {A = Result Error (List Drift)} (ok a) (ok b) → a ≡ b
      ok_eq q = ground (arith, q)

  -- Whatever is reported as missing is.
  pub check_loop-missing :
      (owned : List RouteIdentity) (host : H) (drift : List Drift) (d : Bytes)
      → check_loop (lookup host) owned ≡ ok drift
      → HasMissing drift d
      → lookup host d ≡ some none
  unfolding check_loop check_one
  check_loop-missing [] host drift d h m = absurd (nothing drift h m)
    where
      nothing :
          (drift : List Drift)
          → ◌≡◌ {A = Result Error (List Drift)} (ok []) (ok drift)
          → HasMissing drift d
          → ⊥
      nothing [] q m = m
      nothing (x ∷ xs) q m = cc
  check_loop-missing (e ∷ owned) host drift d h m =
      let (current, rest, q, k, made) = check_loop-cons e owned host h in
      one current rest q k (subst (λ l. HasMissing l d) (sym made) m)
        (λ m'. check_loop-missing owned host rest d k m')
    where
      changed :
          (b : Bool) (rest : List Drift)
          → HasMissing
              (if b
                then rest
                else record { kind = drift_changed; destination = e.destination } ∷ rest)
              d
          → HasMissing rest d
      changed true rest m' = m'
      changed false rest (inl (kind, _)) = cc
      changed false rest (inr m') = m'

      one :
          (current : Option RouteIdentity) (rest : List Drift)
          → lookup host e.destination ≡ some current
          → check_loop (lookup host) owned ≡ ok rest
          → HasMissing (check_one e current rest) d
          → (HasMissing rest d → lookup host d ≡ some none)
          → lookup host d ≡ some none
      one none rest q k (inl (_, here)) ih = subst (λ x. lookup host x ≡ some none) here q
      one none rest q k (inr m') ih = ih m'
      one (some cur) rest q k m' ih = ih (changed (same_route cur e) rest m')

  -- An owned route is there, or it is reported as missing.
  pub check_loop-owns :
      (owned : List RouteIdentity) (host : H) (drift : List Drift) (r : RouteIdentity)
      → check_loop (lookup host) owned ≡ ok drift
      → owns owned r ≡ true
      → Present host r.destination ⊎ HasMissing drift r.destination
  unfolding check_one
  check_loop-owns [] host drift r h own = cc
  check_loop-owns (e ∷ owned) host drift r h own =
      let (current, rest, q, k, made) = check_loop-cons e owned host h in
      subst (λ l. Present host r.destination ⊎ HasMissing l r.destination) made
        (elim (Bool-cases (same_route r e)) [
          | inl same ↦
              subst
                (λ x.
                  Present host x.destination ⊎ HasMissing (check_one e current rest) x.destination)
                (sym (same_route-eq r e same)) (here current rest q)
          | inr other ↦ behind current rest (check_loop-owns owned host rest r k (rw other at own))
        ])
    where
      here :
          (current : Option RouteIdentity) (rest : List Drift)
          → lookup host e.destination ≡ some current
          → Present host e.destination ⊎ HasMissing (check_one e current rest) e.destination
      here none rest q = inr (inl (refl, refl))
      here (some cur) rest q = inl (cur, q)

      behind :
          (current : Option RouteIdentity) (rest : List Drift)
          → Present host r.destination ⊎ HasMissing rest r.destination
          → Present host r.destination ⊎ HasMissing (check_one e current rest) r.destination
      behind current rest (inl there) = inl there
      behind current rest (inr m) = inr (check_one-HasMissing e current rest r.destination m)
