-- ===== src/Dns/Ownership.antt =====
-- dns/ownership.go: the ownership of resolv.conf. The files of the host are a state of any type, with
-- os.ReadFile, os.WriteFile and os.Remove as functions on it.
pub mod Kept
pub mod Restored
mod Tests
use go_openlawsvpn.Base.{
  Bool, true, false, not, ◌&&◌, Option, none, some, if◌then◌else◌, Bytes, bytes_eq, ◌≡◌, ◌≢◌,
}
use go_openlawsvpn.Text.{is_empty}

pub data DriftKind : Type 0 where
  drift_missing drift_changed : DriftKind

-- An error of the system, and whether it is os.ErrNotExist.
pub data Failure : Type 0 where
  not_exist other_failure : Failure

pub data Read : Type 0 where
  contents : Bytes → Read
  unread : Failure → Read

-- An operation that fails may have changed the files.
pub record Files (H : Type 0) : Type 0 where
  pub read_file : H → Bytes → Read
  pub write_file : H → Bytes → Bytes → H × Option Failure
  pub remove : H → Bytes → H × Option Failure

-- An operation changes no file but its own; what is written can be read, and what is removed does not exist.
pub record AreFiles {H : Type 0} (fs : Files H) : Type 0 where
  pub write_other :
      (h : H) (path other bytes : Bytes)
      → other ≢ path
      → fs.read_file (fs.write_file h path bytes).0 other ≡ fs.read_file h other
  pub write_own :
      (h : H) (path bytes : Bytes)
      → (fs.write_file h path bytes).1 ≡ none
      → fs.read_file (fs.write_file h path bytes).0 path ≡ contents bytes
  pub remove_other :
      (h : H) (path other : Bytes)
      → other ≢ path
      → fs.read_file (fs.remove h path).0 other ≡ fs.read_file h other
  pub remove_own :
      (h : H) (path : Bytes)
      → (fs.remove h path).1 ≡ none
      → fs.read_file (fs.remove h path).0 path ≡ unread not_exist
  pub remove_missing :
      (h : H) (path : Bytes)
      → (fs.remove h path).1 ≡ some not_exist
      → fs.read_file (fs.remove h path).0 path ≡ unread not_exist

-- The kind of a drift, if there is one, and an error.
pub record Report : Type 0 where
  pub drift : Option DriftKind
  pub failure : Option Failure

abbrev pub no_drift : Report
no_drift = record { drift = none; failure = none }

-- The callbacks are nil for the ownership of a file.
pub record Ownership (H : Type 0) : Type 0 where
  pub path : Bytes
  pub backup : Bytes
  pub expected : Bytes
  pub closed : Bool
  pub inspect : Option (H → Report)
  pub repair : Option (H → H × Option Failure)
  pub cleanup : Option (H → H × Option Failure)

abbrev pub new_file_ownership : {H : Type 0} → Bytes → Bytes → Bytes → Ownership H
new_file_ownership path backup expected = record {
  path = path;
  backup = backup;
  expected = expected;
  closed = false;
  inspect = none;
  repair = none;
  cleanup = none;
}

module _ {H : Type 0} (fs : Files H) where
  abbrev pub check_contents : Bytes → Read → Report
  check_contents expected (contents current) =
      if bytes_eq current expected
      then no_drift
      else record { drift = some drift_changed; failure = none }
  check_contents expected (unread not_exist) = record { drift = some drift_missing; failure = none }
  check_contents expected (unread other_failure) = record {
    drift = none;
    failure = some other_failure;
  }

  abbrev pub inspected : Option (H → Report) → Ownership H → H → Report
  inspected (some inspect) o h = inspect h
  inspected none o h = check_contents o.expected (fs.read_file h o.path)

  -- Check, and checkLocked.
  unfoldable pub check : Ownership H → H → Report
  check o h = if o.closed then no_drift else inspected o.inspect o h

  abbrev pub repaired : Option (H → H × Option Failure) → Ownership H → H → H × Option Failure
  repaired (some repair) o h = repair h
  repaired none o h = fs.write_file h o.path o.expected

  abbrev pub missing : (H × Option Failure) → H × Report
  missing (h, failure) = (h, record { drift = some drift_missing; failure = failure })

  abbrev pub repair_report : Report → Ownership H → H → H × Report
  repair_report r o h = elim r.failure [
    | some _ ↦ (h, r)
    | none ↦ elim r.drift [
      | none ↦ (h, r)
      | some drift_changed ↦ (h, r)
      | some drift_missing ↦ missing (repaired o.repair o h)
    ]
  ]

  unfoldable pub repair : Ownership H → H → H × Report
  unfolding check
  repair o h = repair_report (check o h) o h

  -- The removal of the backup. A backup that does not exist is no error.
  abbrev pub real_failure : Option Failure → Option Failure
  real_failure (some other_failure) = some other_failure
  real_failure _ = none

  abbrev pub removed : (H × Option Failure) → H × Option Failure
  removed (h, failure) = (h, real_failure failure)

  unfoldable pub remove_backup : Bytes → H → H × Option Failure
  remove_backup backup h = if is_empty backup then (h, none) else removed (fs.remove h backup)

  -- The backup is written back, and removed if that succeeds.
  abbrev pub behind_write : Bytes → (H × Option Failure) → H × Option Failure
  behind_write backup (h, some failure) = (h, some failure)
  behind_write backup (h, none) = remove_backup backup h

  abbrev pub write_back : Ownership H → H → Read → H × Option Failure
  write_back o h (unread failure) = (h, some failure)
  write_back o h (contents bytes) = behind_write o.backup (fs.write_file h o.path bytes)

  -- `err == nil && bytes.Equal(current, o.expected)`
  abbrev pub is_owned : Bytes → Read → Bool
  is_owned expected (contents current) = bytes_eq current expected
  is_owned expected (unread _) = false

  unfoldable pub cleanup_file : Ownership H → H → H × Option Failure
  unfolding remove_backup
  cleanup_file o h =
      if is_owned o.expected (fs.read_file h o.path) && not (is_empty o.backup)
      then write_back o h (fs.read_file h o.backup)
      else remove_backup o.backup h

  abbrev pub cleaned : Option (H → H × Option Failure) → Ownership H → H → H × Option Failure
  cleaned (some cleanup) o h = cleanup h
  cleaned none o h = cleanup_file o h

  -- The ownership is closed in front of everything else.
  unfoldable pub cleanup : Ownership H → H → Ownership H × H × Option Failure
  unfolding cleanup_file
  cleanup o h =
      let done = cleaned o.cleanup o h in
      if o.closed then (o, h, none) else (record o { closed = true }, done.0, done.1)
