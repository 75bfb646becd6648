-- ===== src/Routing/Ownership/Tests.antt =====
-- A routing table as a list of routes, and the theorems at one.
use go_openlawsvpn.Base.{
  ◌≡◌, refl, ap, ◌∙◌, arith, Bool, true, false, List, [], ◌∷◌, if◌then◌else◌, Option, none, some,
  ok, Bytes, bytes_eq, bytes_eq_iff, pos,
}
use go_openlawsvpn.Compress.{codes}
use go_openlawsvpn.Routing.Ownership.{
  RouteIdentity, same_route, Error, Ownership, new_ownership, IsBackend, callbacks, find_owned,
  cleanup,
}
use go_openlawsvpn.Routing.Ownership.Cleanup.{cleanup_keeps, cleanup_removes}

abbrev Table : Type 0
Table = List RouteIdentity

abbrev find : Table → Bytes → Option (Option RouteIdentity)
find table d = some (find_owned d table)

abbrev add : Table → RouteIdentity → Table × Bool
add table r = (r ∷ table, true)

abbrev without : Bytes → Table → Table
without d [] = []
without d (r ∷ table) = if bytes_eq d r.destination then without d table else r ∷ without d table

abbrev remove : Table → RouteIdentity → Table × Bool
remove table r = (without r.destination table, true)

find-without :
    (d : Bytes) (table : Table) (x : Bytes)
    → find_owned x (without d table) ≡ (if bytes_eq d x then none else find_owned x table)
unfolding find_owned
find-without d [] x = ground arith
find-without d (r ∷ table) x = ground (
  arith,
  find-without d table x,
  bytes_eq_iff d r.destination,
  bytes_eq_iff r.destination x,
  bytes_eq_iff d x,
)

table-IsBackend : IsBackend find add remove
unfolding find_owned
table-IsBackend = record {
  adds = λ table r d. cons (bytes_eq r.destination d) r (find_owned d table);
  removes = λ table r d.
      ap some (find-without r.destination table d)
      ∙ gone (bytes_eq r.destination d) (find_owned d table);
}
  where
    cons :
        (b : Bool) (r : RouteIdentity) (o : Option RouteIdentity)
        → ◌≡◌ {A = Option (Option RouteIdentity)}
            (some (if b then some r else o))
            (if b then some (some r) else some o)
    cons true r o = refl
    cons false r o = refl

    gone :
        (b : Bool) (o : Option RouteIdentity)
        → ◌≡◌ {A = Option (Option RouteIdentity)}
            (some (if b then none else o))
            (if b then some none else some o)
    gone true o = refl
    gone false o = refl

abbrev vpn : RouteIdentity
vpn = record {
  destination = codes "10.130.0.0/16";
  gateway = codes "172.16.77.1";
  interface = pos 7;
}

abbrev home : RouteIdentity
home = record { destination = codes "192.168.1.0/24"; gateway = []; interface = pos 2 }

abbrev ledger : Ownership
ledger = new_ownership (vpn ∷ [])

cleanup_keeps_example :
    (out : Ownership × Table × List Error) × (cleanup
        (callbacks find add remove)
        ledger
        (home ∷ vpn ∷ [])
      ≡ ok out)
    × (out.0.closed ≡ true)
    × (find out.1 home.destination ≡ some (some home))
unfolding find_owned same_route bytes_eq
cleanup_keeps_example =
    cleanup_keeps find add remove ledger (home ∷ vpn ∷ []) home.destination (some home)
      table-IsBackend refl refl refl

cleanup_removes_example :
    (out : Ownership × Table × List Error) × (cleanup
        (callbacks find add remove)
        ledger
        (home ∷ vpn ∷ [])
      ≡ ok out)
    × (find out.1 vpn.destination ≡ some none)
unfolding find_owned same_route bytes_eq
cleanup_removes_example =
    cleanup_removes find add remove ledger (home ∷ vpn ∷ []) vpn table-IsBackend (λ table r. refl)
      refl refl refl
