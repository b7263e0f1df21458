-- ===== src/Linux/Ops.antt =====
-- crates/cursdel-linux/src/ops.rs: deletions relative to the descriptor of the parent directory, and
-- remediation. `OwnedFd` closes a descriptor when it goes out of scope; here each way out closes it.
use cursedelete.Base.{
  ℕ, Bool, true, false, Option, none, some, if◌then◌else◌, Text, FilePath, codes, Result, ok, err,
}
use cursedelete.Paths.{parent, file_name}
use cursedelete.Failure.{DeleteFailure}
use cursedelete.Options.{DeleteOptions}
use cursedelete.Engine.{
  deleted, already_gone, DeleteAttempt, failed_attempt, RemediationOutcome, applied, not_applicable,
}
use cursedelete.Linux.Kernel.{
  Kernel, OsError, os, invalid_input, raw_os_error, c_string, path_to_cstring, error_text, is_errno,
  categorize, open_dir_nofollow,
}

abbrev pub name_cstring : Text → Result Text OsError
name_cstring s = c_string (codes "name contains a NUL byte") s

module _ (K : Kernel) where
  abbrev pub unlinked : Option ℕ × K.World → Result (Unit {0}) OsError × K.World
  unlinked (none, w) = (ok tt, w)
  unlinked (some n, w) = (err (os n), w)

  abbrev pub unlink_name :
      K.Fd → Bool → Result Text OsError → K.World → Result (Unit {0}) OsError × K.World
  unlink_name fd as_dir (err e) w = (err e, w)
  unlink_name fd as_dir (ok name) w = unlinked (K.unlinkat fd name as_dir w)

  -- The end of the scope of a descriptor.
  abbrev pub closing : {A : Type 0} → K.Fd → A × K.World → A × K.World
  closing fd (a, w) = (a, K.close fd w)

  abbrev pub unlink_opened :
      Text → Bool → Result K.Fd OsError × K.World → Result (Unit {0}) OsError × K.World
  unlink_opened name as_dir (err e, w) = (err e, w)
  unlink_opened name as_dir (ok fd, w) = closing fd (unlink_name fd as_dir (name_cstring name) w)

  abbrev pub unlink_in :
      Option FilePath → Option Text → Bool → K.World → Result (Unit {0}) OsError × K.World
  unlink_in none n as_dir w = (err (invalid_input (codes "path has no parent")), w)
  unlink_in (some p) none as_dir w = (err (invalid_input (codes "path has no file name")), w)
  unlink_in (some p) (some n) as_dir w = unlink_opened n as_dir (open_dir_nofollow K p w)

  unfoldable pub unlink_relative : FilePath → Bool → K.World → Result (Unit {0}) OsError × K.World
  unlink_relative path as_dir w = unlink_in (parent path) (file_name path) as_dir w

  abbrev pub attempt_of : FilePath → Bool → Result (Unit {0}) OsError → DeleteAttempt
  attempt_of path as_dir (ok u) = record { outcome = deleted; bytes = 0 }
  attempt_of path as_dir (err e) =
      if is_errno K K.enoent e
      then record { outcome = already_gone; bytes = 0 }
      else failed_attempt (record {
        path = path;
        is_directory = as_dir;
        category = categorize K e;
        message = error_text K e;
        os_error_code = raw_os_error e;
      })

  abbrev pub attempted :
      FilePath → Bool → Result (Unit {0}) OsError × K.World → DeleteAttempt × K.World
  attempted path as_dir (r, w) = (attempt_of path as_dir r, w)

  unfoldable pub unlink_leaf : FilePath → Bool → K.World → DeleteAttempt × K.World
  unlink_leaf path as_dir w = attempted path as_dir (unlink_relative path as_dir w)

  unfoldable pub delete_file : FilePath → DeleteOptions → K.World → DeleteAttempt × K.World
  delete_file path opts w = unlink_leaf path false w

  unfoldable pub delete_dir : FilePath → DeleteOptions → K.World → DeleteAttempt × K.World
  delete_dir path opts w = unlink_leaf path true w

  -- What the two changes of permissions amount to.
  abbrev pub remediated : Bool → Option ℕ × K.World → RemediationOutcome × K.World
  remediated object_ok (none, w) = (applied, w)
  remediated true (some n, w) = (applied, w)
  remediated false (some n, w) = (RemediationOutcome.failed (K.strerror n), w)

  abbrev pub chmod_parent : Result FilePath OsError → Bool × K.World → RemediationOutcome × K.World
  chmod_parent (err e) (object_ok, w) = (not_applicable, w)
  chmod_parent (ok p) (object_ok, w) = remediated object_ok (K.chmod p 0o755 w)

  abbrev pub remediate_name :
      FilePath → Bool → K.Fd → Result Text OsError → K.World → RemediationOutcome × K.World
  remediate_name p is_dir fd (err e) w = (not_applicable, w)
  remediate_name p is_dir fd (ok name) w =
      chmod_parent (path_to_cstring p) (K.fchmodat fd name (if is_dir then 0o755 else 0o644) w)

  abbrev pub remediate_child :
      FilePath → Bool → K.Fd → Option Text → K.World → RemediationOutcome × K.World
  remediate_child p is_dir fd none w = (not_applicable, w)
  remediate_child p is_dir fd (some name) w = remediate_name p is_dir fd (name_cstring name) w

  abbrev pub remediate_opened :
      FilePath → Bool → Option Text → Result K.Fd OsError × K.World → RemediationOutcome × K.World
  remediate_opened p is_dir name (err e, w) = (not_applicable, w)
  remediate_opened p is_dir name (ok fd, w) = closing fd (remediate_child p is_dir fd name w)

  abbrev pub remediate_in :
      Option FilePath → Option Text → Bool → K.World → RemediationOutcome × K.World
  remediate_in none name is_dir w = (not_applicable, w)
  remediate_in (some p) name is_dir w = remediate_opened p is_dir name (open_dir_nofollow K p w)

  unfoldable pub remediate :
      FilePath → Bool → DeleteFailure → K.World → RemediationOutcome × K.World
  remediate path is_dir failure w = remediate_in (parent path) (file_name path) is_dir w
