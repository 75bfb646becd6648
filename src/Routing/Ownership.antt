-- ===== src/Routing/Ownership.antt =====
-- routing/ownership.go: the ledger of the routes that the client added. The routing table of the host is a
-- state, which the callbacks read and change.
pub mod Cleanup
pub mod Report
pub mod Repair
mod Tests
use go_openlawsvpn.Base.{
  Bool, true, false, ◌&&◌, List, [], ◌∷◌, ◌++◌, ◌≡◌, if◌then◌else◌, Option, none, some, Result, ok,
  err, panic, ◌>>=◌, Bytes, bytes_eq, ℤ, eq_ℤ,
}

pub record RouteIdentity : Type 0 where
  pub destination : Bytes
  pub gateway : Bytes
  pub interface : ℤ

-- `*current == expected`
unfoldable pub same_route : RouteIdentity → RouteIdentity → Bool
same_route a b =
    bytes_eq a.destination b.destination
    && bytes_eq a.gateway b.gateway
    && eq_ℤ a.interface b.interface

pub data DriftKind : Type 0 where
  drift_missing drift_changed : DriftKind

pub record Drift : Type 0 where
  pub kind : DriftKind
  pub destination : Bytes

pub data Error : Type 0 where
  inspect_failed restore_failed remove_failed : Bytes → Error

-- The callbacks; one that is nil is `none`. A lookup that fails is `none`, and a change says whether it
-- succeeded.
pub record Backend {ℓ} (H : Type ℓ) : Type ℓ where
  pub lookup : Option (H → Bytes → Option (Option RouteIdentity))
  pub add : Option (H → RouteIdentity → H × Bool)
  pub remove : Option (H → RouteIdentity → H × Bool)

-- The fields that change, or are not callbacks.
pub record Ownership : Type 0 where
  pub owned : List RouteIdentity
  pub closed : Bool

abbrev pub new_ownership : List RouteIdentity → Ownership
new_ownership owned = record { owned = owned; closed = false }

-- What one expected route adds to the drift.
unfoldable pub check_one : RouteIdentity → Option RouteIdentity → List Drift → List Drift
check_one expected none drift =
    record { kind = drift_missing; destination = expected.destination } ∷ drift
check_one expected (some current) drift =
    if same_route current expected
    then drift
    else record { kind = drift_changed; destination = expected.destination } ∷ drift

abbrev pub inspected : Option (Option RouteIdentity) → Bytes → Result Error (Option RouteIdentity)
inspected none destination = err (inspect_failed destination)
inspected (some current) destination = ok current

-- The loop of checkLocked.
unfoldable pub check_loop :
    (Bytes → Option (Option RouteIdentity)) → List RouteIdentity → Result Error (List Drift)
unfolding check_one
check_loop lookup [] = ok []
check_loop lookup (expected ∷ owned) =
    inspected (lookup expected.destination) expected.destination >>= λ current.
    check_loop lookup owned >>= λ drift. ok (check_one expected current drift)

-- The first owned route to a destination.
unfoldable pub find_owned : Bytes → List RouteIdentity → Option RouteIdentity
find_owned destination [] = none
find_owned destination (expected ∷ owned) =
    let rest = find_owned destination owned in
    if bytes_eq expected.destination destination then some expected else rest

module _ {ℓ} {H : Type ℓ} where
  abbrev pub with_error : Error → Bool → H × List Error → H × List Error
  with_error e true out = out
  with_error e false (host, errs) = (host, e ∷ errs)

  unfoldable pub check_with :
      Option (H → Bytes → Option (Option RouteIdentity)) → Ownership → H → Result Error (List Drift)
  unfolding check_loop
  check_with none o host = ok []
  check_with (some lookup) o host = if o.closed then ok [] else check_loop (lookup host) o.owned

  unfoldable pub check : Backend H → Ownership → H → Result Error (List Drift)
  unfolding check_with
  check b o host = check_with b.lookup o host

  -- What Repair does about one drift: only a missing route is added.
  unfoldable pub restore :
      DriftKind → Option (H → RouteIdentity → H × Bool) → Option RouteIdentity → H → H × Bool
  restore drift_missing (some add) (some expected) host = add host expected
  restore _ _ _ host = (host, true)

  -- The loop of Repair over the drift.
  unfoldable pub repair_loop :
      Option (H → RouteIdentity → H × Bool) → List RouteIdentity → List Drift → H → H × List Error
  unfolding restore find_owned
  repair_loop add owned [] host = (host, [])
  repair_loop add owned (item ∷ drift) host =
      let out = restore item.kind add (find_owned item.destination owned) host in
      with_error (restore_failed item.destination) out.1 (repair_loop add owned drift out.0)

  -- The routing table, the drift that was found, and what went wrong in repairing it.
  unfoldable pub repair : Backend H → Ownership → H → Result Error (H × List Drift × List Error)
  unfolding check repair_loop
  repair b o host =
      if o.closed
      then ok (host, [], [])
      else (check b o host >>= λ drift.
          let out = repair_loop b.add o.owned drift host in ok (out.0, drift, out.1))

  abbrev pub removed : Option (H → RouteIdentity → H × Bool) → RouteIdentity → H → H × Bool
  removed none expected host = (host, true)
  removed (some remove) expected host = remove host expected

  -- One round of Cleanup, on what the lookup found.
  unfoldable pub cleanup_one :
      Option (H → RouteIdentity → H × Bool)
      → RouteIdentity
      → Option (Option RouteIdentity)
      → H
      → H × List Error
  cleanup_one remove expected none host = (host, inspect_failed expected.destination ∷ [])
  cleanup_one remove expected (some none) host = (host, [])
  cleanup_one remove expected (some (some current)) host =
      if same_route current expected
      then (let out = removed remove expected host in
          with_error (remove_failed expected.destination) out.1 (out.0, []))
      else (host, [])

  -- The loop of Cleanup, which calls the lookup whether it is nil or not.
  unfoldable pub cleanup_loop : Backend H → List RouteIdentity → H → Result Error (H × List Error)
  unfolding cleanup_one
  cleanup_loop b [] host = ok (host, [])
  cleanup_loop b (expected ∷ owned) host = elim b.lookup [
    | none ↦ panic
    | some lookup ↦
        let out = cleanup_one b.remove expected (lookup host expected.destination) host in
        (cleanup_loop b owned out.0 >>= λ rest. ok (rest.0, out.1 ++ rest.1))
  ]

  unfoldable pub cleanup : Backend H → Ownership → H → Result Error (Ownership × H × List Error)
  unfolding cleanup_loop
  cleanup b o host =
      if o.closed
      then ok (o, host, [])
      else (cleanup_loop b o.owned host >>= λ out. ok (record o { closed = true }, out.0, out.1))

-- What the callbacks of a platform do, on a routing table with one route for each destination: a change is
-- seen by the next lookup at its own destination, and nowhere else; it is not seen if the change failed.
pub record IsBackend {ℓ} {H : Type ℓ} (lookup : H → Bytes → Option (Option RouteIdentity))
    (add remove : H → RouteIdentity → H × Bool) : Type ℓ where
  pub adds :
      (host : H) (r : RouteIdentity) (d : Bytes)
      → lookup (add host r).0 d
        ≡ (if (add host r).1 && bytes_eq r.destination d then some (some r) else lookup host d)
  pub removes :
      (host : H) (r : RouteIdentity) (d : Bytes)
      → lookup (remove host r).0 d
        ≡ (if (remove host r).1 && bytes_eq r.destination d then some none else lookup host d)

abbrev pub callbacks {ℓ} :
    {H : Type ℓ}
    → (H → Bytes → Option (Option RouteIdentity))
    → (H → RouteIdentity → H × Bool)
    → (H → RouteIdentity → H × Bool)
    → Backend H
callbacks lookup add remove = record { lookup = some lookup; add = some add; remove = some remove }

-- A lookup that never fails, and changes that never do.
abbrev pub Answers {ℓ} : {H : Type ℓ} → (H → Bytes → Option (Option RouteIdentity)) → Type ℓ
Answers {H = H} lookup =
    (host : H) (d : Bytes) → (current : Option RouteIdentity) × (lookup host d ≡ some current)

abbrev pub Succeeds {ℓ} : {H : Type ℓ} → (H → RouteIdentity → H × Bool) → Type ℓ
Succeeds {H = H} change = (host : H) (r : RouteIdentity) → (change host r).1 ≡ true
