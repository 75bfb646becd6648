-- ===== src/Dns/Ownership/Tests.antt =====
-- Two files, and the theorems at them.
use go_openlawsvpn.Base.{
  ◌≡◌, ◌≢◌, refl, Option, none, some, if◌then◌else◌, Bytes, bytes_eq, Bool-cases, inl, inr,
  bytes_eq_iff, arith,
}
use go_openlawsvpn.Compress.{codes}
use go_openlawsvpn.Dns.Ownership.{
  Files, AreFiles, Read, contents, unread, Failure, not_exist, new_file_ownership, repair, cleanup,
  remove_backup, cleanup_file,
}
use go_openlawsvpn.Dns.Ownership.Kept.{changed_file_kept}
use go_openlawsvpn.Dns.Ownership.Restored.{cleanup_restores}

-- A host is what each path holds; every operation succeeds, unless a file does not exist.
abbrev Host : Type 0
Host = Bytes → Option Bytes

abbrev read : Option Bytes → Read
read none = unread not_exist
read (some bytes) = contents bytes

abbrev put : Host → Bytes → Option Bytes → Host
put h path v = λ p. if bytes_eq p path then v else h p

abbrev missing_failure : Option Bytes → Option Failure
missing_failure none = some not_exist
missing_failure (some _) = none

abbrev files : Files Host
files = record {
  read_file = λ h p. read (h p);
  write_file = λ h p bytes. (put h p (some bytes), none);
  remove = λ h p. (put h p none, missing_failure (h p));
}

put_own : (h : Host) (path : Bytes) (v : Option Bytes) → put h path v path ≡ v
put_own h path v = rw ((bytes_eq_iff path path).1 refl) refl

put_other :
    (h : Host) (path other : Bytes) (v : Option Bytes) → other ≢ path → put h path v other ≡ h other
put_other h path other v apart = elim (Bool-cases (bytes_eq other path)) [
  | inl e ↦ absurd (apart ((bytes_eq_iff other path).0 e))
  | inr e ↦ rw e refl
]

files-AreFiles : AreFiles files
files-AreFiles = record {
  write_other = λ h path other bytes apart. rw (put_other h path other (some bytes) apart) refl;
  write_own = λ h path bytes e. rw (put_own h path (some bytes)) refl;
  remove_other = λ h path other apart. rw (put_other h path other none apart) refl;
  remove_own = λ h path e. rw (put_own h path none) refl;
  remove_missing = λ h path e. rw (put_own h path none) refl;
}

abbrev conf : Bytes
conf = codes "/etc/resolv.conf"

abbrev saved : Bytes
saved = codes "/etc/resolv.bak"

abbrev host : Option Bytes → Host
host v = λ p. if bytes_eq p conf then v else if bytes_eq p saved then some (codes "old") else none

apart : conf ≢ saved
unfolding bytes_eq
apart e = let same = (bytes_eq_iff conf saved).1 e in ground (arith, same)

changed_file_kept_example :
    ((repair files (new_file_ownership conf saved (codes "vpn")) (host (some (codes "admin")))).0
      ≡ host (some (codes "admin")))
    × (files.read_file
          (cleanup files
            (new_file_ownership conf saved (codes "vpn"))
            (host (some (codes "admin")))).1
          conf
        ≡ contents (codes "admin"))
unfolding bytes_eq
changed_file_kept_example =
    changed_file_kept files files-AreFiles conf saved (codes "vpn") (codes "admin")
      (host (some (codes "admin"))) apart refl refl

cleanup_restores_example :
    (files.read_file
        (cleanup files (new_file_ownership conf saved (codes "vpn")) (host (some (codes "vpn")))).1
        conf
      ≡ contents (codes "old"))
    × (files.read_file
          (cleanup files
            (new_file_ownership conf saved (codes "vpn"))
            (host (some (codes "vpn")))).1
          saved
        ≡ unread not_exist)
unfolding bytes_eq cleanup cleanup_file remove_backup
cleanup_restores_example =
    cleanup_restores files files-AreFiles conf saved (codes "vpn") (codes "old")
      (host (some (codes "vpn"))) apart refl refl refl refl
