-- ===== src/Dns/Ownership/Restored.antt =====
-- dns/ownership.go: what Cleanup and Repair bring back.
use go_openlawsvpn.Base.{
  true, false, refl, sym, ◌∙◌, ◌≡◌, ◌≢◌, ap, Option, none, some, Bytes, bytes_eq, bytes_eq_iff,
}
use go_openlawsvpn.Text.{is_empty}
use go_openlawsvpn.Dns.Ownership.{
  Files, AreFiles, contents, unread, Failure, no_drift, not_exist, other_failure,
  new_file_ownership, check, check_contents, missing, repair, real_failure, remove_backup,
  behind_write, cleanup_file, cleanup,
}
use go_openlawsvpn.Dns.Ownership.Kept.{remove_backup_keeps}

module _ {H : Type 0} (fs : Files H) (laws : AreFiles fs) where
  -- If the file of an open ownership is missing, and Repair reports no error, then the file holds the owned
  -- bytes again, and Check finds no drift.
  check-repair :
      (path backup expected : Bytes) (h : H)
      → fs.read_file h path ≡ unread not_exist
      → (repair fs (new_file_ownership path backup expected) h).1.failure ≡ none
      → (fs.read_file (repair fs (new_file_ownership path backup expected) h).0 path
          ≡ contents expected)
        × (check fs
              (new_file_ownership path backup expected)
              (repair fs (new_file_ownership path backup expected) h).0
            ≡ no_drift)
  unfolding repair check
  check-repair path backup expected h gone fine =
      let o = new_file_ownership path backup expected in
      let e : repair fs o h ≡ missing fs (fs.write_file h path expected) = rw gone refl in
      let wrote : (fs.write_file h path expected).1 ≡ none = ap (λ r. r.1.failure) (sym e) ∙ fine in
      let now : fs.read_file (repair fs o h).0 path ≡ contents expected =
        ap (λ r. fs.read_file r.0 path) e ∙ laws.write_own h path expected wrote in
      (now, ap (check_contents fs expected) now ∙ rw ((bytes_eq_iff expected expected).1 refl) refl)

  -- A backup whose removal reports no error does not exist.
  remove_backup-gone :
      (backup : Bytes) (h : H)
      → is_empty backup ≡ false
      → (remove_backup fs backup h).1 ≡ none
      → fs.read_file (remove_backup fs backup h).0 backup ≡ unread not_exist
  unfolding remove_backup
  remove_backup-gone backup h named fine =
      rw named (by_failure (fs.remove h backup).1 refl (rw named at fine))
    where
      by_failure :
          (f : Option Failure)
          → (fs.remove h backup).1 ≡ f
          → real_failure fs (fs.remove h backup).1 ≡ none
          → fs.read_file (fs.remove h backup).0 backup ≡ unread not_exist
      by_failure none e k = laws.remove_own h backup e
      by_failure (some not_exist) e k = laws.remove_missing h backup e
      by_failure (some other_failure) e k = let same = ap (real_failure fs) (sym e) ∙ k in cc

  behind_write_lem :
      (backup : Bytes) (w : H × Option Failure)
      → (behind_write fs backup w).1 ≡ none
      → (w.1 ≡ none) × (behind_write fs backup w ≡ remove_backup fs backup w.0)
  behind_write_lem backup (h, none) k = (refl, refl)
  behind_write_lem backup (h, some failure) k = (cc, cc)

  -- If the file of an open ownership still holds the owned bytes, there is a backup beside it, and Cleanup
  -- reports no error, then the file holds what the backup held, and the backup is gone.
  pub cleanup_restores :
      (path backup expected saved : Bytes) (h : H)
      → path ≢ backup
      → is_empty backup ≡ false
      → fs.read_file h path ≡ contents expected
      → fs.read_file h backup ≡ contents saved
      → (cleanup fs (new_file_ownership path backup expected) h).2 ≡ none
      → (fs.read_file (cleanup fs (new_file_ownership path backup expected) h).1 path
          ≡ contents saved)
        × (fs.read_file (cleanup fs (new_file_ownership path backup expected) h).1 backup
            ≡ unread not_exist)
  unfolding cleanup cleanup_file
  cleanup_restores path backup expected saved h apart named now held fine =
      let o = new_file_ownership path backup expected in
      let owned : bytes_eq expected expected ≡ true = (bytes_eq_iff expected expected).1 refl in
      let e : cleanup_file fs o h ≡ behind_write fs backup (fs.write_file h path saved) =
        rw (now, owned, named, held) refl in
      let (wrote, f) =
        behind_write_lem backup (fs.write_file h path saved) (ap (λ r. r.1) (sym e) ∙ fine) in
      let h' = (fs.write_file h path saved).0 in
      let g : cleanup_file fs o h ≡ remove_backup fs backup h' = e ∙ f in
      let gone = remove_backup-gone backup h' named (ap (λ r. r.1) (sym g) ∙ fine) in
      (
        ap (λ r. fs.read_file r.0 path) g
            ∙ remove_backup_keeps fs laws backup path h' apart
            ∙ laws.write_own h path saved wrote,
        ap (λ r. fs.read_file r.0 backup) g ∙ gone,
      )
