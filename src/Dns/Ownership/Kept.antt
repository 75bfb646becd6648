-- ===== src/Dns/Ownership/Kept.antt =====
-- dns/ownership.go: a configuration that someone else wrote is kept.
use go_openlawsvpn.Base.{
  Bool, true, false, refl, ◌∙◌, ◌≡◌, ◌≢◌, none, if◌then◌else◌, Bytes, bytes_eq,
}
use go_openlawsvpn.Text.{is_empty}
use go_openlawsvpn.Dns.Ownership.{
  Ownership, Files, AreFiles, contents, new_file_ownership, check, repair, removed, remove_backup,
  is_owned, cleanup_file, cleanup,
}

module _ {H : Type 0} (fs : Files H) (laws : AreFiles fs) where
  pub remove_backup_keeps :
      (backup path : Bytes) (h : H)
      → path ≢ backup
      → fs.read_file (remove_backup fs backup h).0 path ≡ fs.read_file h path
  unfolding remove_backup
  remove_backup_keeps backup path h apart = split (is_empty backup)
    where
      split :
          (b : Bool)
          → fs.read_file (if b then (h, none) else removed fs (fs.remove h backup)).0 path
            ≡ fs.read_file h path
      split true = refl
      split false = laws.remove_other h backup path apart

  cleanup_file_keeps :
      (o : Ownership H) (h : H)
      → is_owned fs o.expected (fs.read_file h o.path) ≡ false
      → o.path ≢ o.backup
      → fs.read_file (cleanup_file fs o h).0 o.path ≡ fs.read_file h o.path
  unfolding cleanup_file
  cleanup_file_keeps o h other apart = rw other (remove_backup_keeps o.backup o.path h apart)

  -- When the bytes of the file of an open ownership differ from the owned ones, Repair changes nothing, and
  -- Cleanup leaves the file as it is, whatever fails; the backup is not the file itself.
  pub changed_file_kept :
      (path backup expected current : Bytes) (h : H)
      → path ≢ backup
      → fs.read_file h path ≡ contents current
      → bytes_eq current expected ≡ false
      → ((repair fs (new_file_ownership path backup expected) h).0 ≡ h)
        × (fs.read_file (cleanup fs (new_file_ownership path backup expected) h).1 path
            ≡ contents current)
  unfolding repair cleanup check
  changed_file_kept path backup expected current h apart now differs = (
    rw (now, differs) refl,
    cleanup_file_keeps (new_file_ownership path backup expected) h (rw now differs) apart ∙ now,
  )
