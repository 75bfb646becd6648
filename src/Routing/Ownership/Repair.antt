-- ===== src/Routing/Ownership/Repair.antt =====
-- Repair restores the routes that are missing, and leaves every other route alone.
use go_openlawsvpn.Base.{
  ◌≡◌, refl, sym, ap, subst, ◌∙◌, arith, inl, inr, Bool-cases, Bool, true, false, ◌&&◌, List, [],
  ◌∷◌, Option, none, some, ok, Bytes, bytes_eq, bytes_eq_iff,
}
use go_openlawsvpn.Routing.Ownership.{
  RouteIdentity, DriftKind, drift_missing, drift_changed, Drift, Error, restore_failed, Ownership,
  IsBackend, Answers, Succeeds, callbacks, check_loop, check, check_with, find_owned, restore,
  repair_loop, repair,
}
use go_openlawsvpn.Routing.Ownership.Cleanup.{owns, with_error-host}
use go_openlawsvpn.Routing.Ownership.Report.{
  find_owned-eq-some, find_owned-owns, HasMissing, Present, check_loop_total, check_loop-missing,
  check_loop-owns,
}

module _ {ℓ} {H : Type ℓ} (lookup : H → Bytes → Option (Option RouteIdentity))
    (add remove : H → RouteIdentity → H × Bool) where
  -- The routing table behind one round, and behind all of them.
  abbrev restored : List RouteIdentity → Drift → H → H
  restored owned item host =
      (restore item.kind (some add) (find_owned item.destination owned) host).0

  abbrev repaired : List RouteIdentity → List Drift → H → H
  repaired owned drift host = (repair_loop (some add) owned drift host).0

  repaired-cons :
      (owned : List RouteIdentity) (item : Drift) (drift : List Drift) (host : H)
      → repaired owned (item ∷ drift) host ≡ repaired owned drift (restored owned item host)
  unfolding repair_loop
  repaired-cons owned item drift host = with_error-host (restore_failed item.destination) _ _

  restored_keeps :
      IsBackend lookup add remove
      → (owned : List RouteIdentity) (item : Drift) (host : H) (d : Bytes) (current : RouteIdentity)
      → (HasMissing (item ∷ []) d → ⊥)
      → lookup host d ≡ some (some current)
      → lookup (restored owned item host) d ≡ some (some current)
  unfolding restore
  restored_keeps laws owned item host d current other h =
      step item.kind (find_owned item.destination owned) refl (λ k e. other (inl (k, e)))
    where
      apart : (a b : Bytes) (done : Bool) → (a ≡ b → ⊥) → done && bytes_eq a b ≡ false
      apart a b done n = elim (Bool-cases (bytes_eq a b)) [
        | inl same ↦ absurd (n ((bytes_eq_iff a b).0 same))
        | inr unlike ↦ ground (arith, unlike)
      ]

      step :
          (k : DriftKind) (o : Option RouteIdentity)
          → find_owned item.destination owned ≡ o
          → (k ≡ drift_missing → item.destination ≡ d → ⊥)
          → lookup (restore k (some add) o host).0 d ≡ some (some current)
      step drift_changed o q n = h
      step drift_missing none q n = h
      step drift_missing (some e) q n =
          laws.adds host e d
          ∙ rw
              (apart e.destination d (add host e).1
                (λ t. n refl (sym (find_owned-eq-some item.destination owned q) ∙ t)))
              h

  restored-Present :
      IsBackend lookup add remove
      → (owned : List RouteIdentity) (item : Drift) (host : H) (d : Bytes) → Present lookup host d
      → Present lookup (restored owned item host) d
  unfolding restore
  restored-Present laws owned item host d (current, h) =
      step item.kind (find_owned item.destination owned)
    where
      step :
          (k : DriftKind) (o : Option RouteIdentity)
          → Present lookup (restore k (some add) o host).0 d
      step drift_changed o = (current, h)
      step drift_missing none = (current, h)
      step drift_missing (some e) = elim (Bool-cases ((add host e).1 && bytes_eq e.destination d)) [
        | inl hit ↦ (e, laws.adds host e d ∙ rw hit refl)
        | inr miss ↦ (current, laws.adds host e d ∙ rw miss h)
      ]

  -- The round that finds the route missing.
  restored_adds :
      IsBackend lookup add remove
      → Succeeds add
      → (owned : List RouteIdentity) (item : Drift) (host : H) (d : Bytes) {e : RouteIdentity}
      → item.kind ≡ drift_missing
      → item.destination ≡ d
      → find_owned d owned ≡ some e
      → Present lookup (restored owned item host) d
  unfolding restore
  restored_adds laws done owned item host d {e} kind here q =
      let hit : ((add host e).1 && bytes_eq e.destination d) ≡ true =
        rw (done host e) ((bytes_eq_iff e.destination d).1 (find_owned-eq-some d owned q)) in
      let added : Present lookup (restore drift_missing (some add) (some e) host).0 d =
        (e, laws.adds host e d ∙ rw hit refl) in
      let first = ap (λ x. find_owned x owned) here ∙ q in
      subst
        (λ k. Present lookup (restore k (some add) (find_owned item.destination owned) host).0 d)
        (sym kind)
        (subst (λ o. Present lookup (restore drift_missing (some add) o host).0 d) (sym first)
          added)

  repaired-Present :
      IsBackend lookup add remove
      → (owned : List RouteIdentity) (drift : List Drift) (host : H) (d : Bytes)
      → Present lookup host d
      → Present lookup (repaired owned drift host) d
  unfolding repair_loop
  repaired-Present laws owned [] host d h = h
  repaired-Present laws owned (item ∷ drift) host d h =
      subst (λ t. Present lookup t d) (sym (repaired-cons owned item drift host))
        (repaired-Present laws owned drift (restored owned item host) d
          (restored-Present laws owned item host d h))

  repaired_adds :
      IsBackend lookup add remove
      → Succeeds add
      → (owned : List RouteIdentity) (drift : List Drift) (host : H) (d : Bytes) {e : RouteIdentity}
      → find_owned d owned ≡ some e
      → HasMissing drift d
      → Present lookup (repaired owned drift host) d
  repaired_adds laws done owned [] host d q m = absurd m
  repaired_adds laws done owned (item ∷ drift) host d q (inl (kind, here)) =
      subst (λ t. Present lookup t d) (sym (repaired-cons owned item drift host))
        (repaired-Present laws owned drift (restored owned item host) d
          (restored_adds laws done owned item host d kind here q))
  repaired_adds laws done owned (item ∷ drift) host d q (inr m) =
      subst (λ t. Present lookup t d) (sym (repaired-cons owned item drift host))
        (repaired_adds laws done owned drift (restored owned item host) d q m)

  repaired_keeps :
      IsBackend lookup add remove
      → (owned : List RouteIdentity) (drift : List Drift) (host : H) (d : Bytes)
        (current : RouteIdentity)
      → (HasMissing drift d → ⊥)
      → lookup host d ≡ some (some current)
      → lookup (repaired owned drift host) d ≡ some (some current)
  unfolding repair_loop
  repaired_keeps laws owned [] host d current other h = h
  repaired_keeps laws owned (item ∷ drift) host d current other h =
      subst (λ t. lookup t d ≡ some (some current)) (sym (repaired-cons owned item drift host))
        (repaired_keeps laws owned drift (restored owned item host) d current (λ m. other (inr m))
          (restored_keeps laws owned item host d current (first other) h))
    where
      first : (HasMissing (item ∷ drift) d → ⊥) → HasMissing (item ∷ []) d → ⊥
      first n (inl m) = n (inl m)
      first n (inr m) = m

  repair-ok :
      (o : Ownership) (host : H) {drift : List Drift}
      → o.closed ≡ false
      → check_loop (lookup host) o.owned ≡ ok drift
      → (errs : List Error) × (repair (callbacks lookup add remove) o host
          ≡ ok (repaired o.owned drift host, drift, errs))
  unfolding repair check check_with
  repair-ok o host {drift} live h =
      ((repair_loop (some add) o.owned drift host).1, rw (live, h) refl)

  -- Repair of an open ledger leaves every destination that has a route with that route, whether it is an
  -- owned one, a changed one or one of somebody else, and whatever fails in adding routes.
  repair_keeps :
      (o : Ownership) (host : H) (d : Bytes) (current : RouteIdentity)
      → IsBackend lookup add remove
      → Answers lookup
      → o.closed ≡ false
      → lookup host d ≡ some (some current)
      → (out : H × List Drift × List Error) × (repair (callbacks lookup add remove) o host ≡ ok out)
        × (lookup out.0 d ≡ some (some current))
  repair_keeps o host d current laws answers live h =
      let (drift, checked) = check_loop_total lookup answers o.owned host in
      let (errs, e) = repair-ok o host live checked in
      (
        _,
        e,
        repaired_keeps laws o.owned drift host d current
            (λ m. apart (sym h ∙ check_loop-missing lookup o.owned host drift d checked m)) h,
      )
    where
      apart : ◌≡◌ {A = Option (Option RouteIdentity)} (some (some current)) (some none) → ⊥
      apart q = ground (arith, q)

  -- If adding does not fail, every owned destination has a route after Repair.
  repair_restores :
      (o : Ownership) (host : H) (r : RouteIdentity)
      → IsBackend lookup add remove
      → Answers lookup
      → Succeeds add
      → o.closed ≡ false
      → owns o.owned r ≡ true
      → (out : H × List Drift × List Error) × (repair (callbacks lookup add remove) o host ≡ ok out)
        × Present lookup out.0 r.destination
  repair_restores o host r laws answers done live own =
      let (drift, checked) = check_loop_total lookup answers o.owned host in
      let (errs, e) = repair-ok o host live checked in
      let (first, q) = find_owned-owns r o.owned own in
      let there : Present lookup (repaired o.owned drift host) r.destination =
        elim (check_loop-owns lookup o.owned host drift r checked own) [
          | inl h ↦ repaired-Present laws o.owned drift host r.destination h
          | inr m ↦ repaired_adds laws done o.owned drift host r.destination q m
        ] in
      (_, e, there)
