-- ===== src/Failure.antt =====
-- crates/cursdel-core/src/error.rs: why a target is refused, and why a deletion failed.
use cursedelete.Base.{ℕ, Bool, Option, ◌==◌, Text, FilePath, codes}

-- The `source` of `canonicalize` is an I/O error, kept as its message.
pub data TargetError : Type 0 where
  not_found : FilePath → TargetError
  canonicalize : FilePath → Text → TargetError
  filesystem_root : FilePath → TargetError
  share_root : FilePath → TargetError
  resolves_to_root : FilePath → FilePath → TargetError
  empty_path : TargetError
  unsupported_file_type : FilePath → TargetError

pub data FailureCategory : Type 0 where
  access_denied : FailureCategory
  sharing_violation : FailureCategory
  not_found : FailureCategory
  not_empty : FailureCategory
  path_too_long : FailureCategory
  reparse_point_refused : FailureCategory
  outside_boundary : FailureCategory
  remote_lock_unsupported : FailureCategory
  remote_lock_failed : FailureCategory
  local_lock_unresolved : FailureCategory
  io : FailureCategory
  other : FailureCategory

-- The numeral that stands for a category in the tests of equality.
abbrev pub tag : FailureCategory → ℕ
tag access_denied = 0
tag sharing_violation = 1
tag FailureCategory.not_found = 2
tag not_empty = 3
tag path_too_long = 4
tag reparse_point_refused = 5
tag outside_boundary = 6
tag remote_lock_unsupported = 7
tag remote_lock_failed = 8
tag local_lock_unresolved = 9
tag io = 10
tag FailureCategory.other = 11

-- The derived `==` on categories.
abbrev pub category_eq : FailureCategory → FailureCategory → Bool
category_eq c d = tag c == tag d

-- `Display for FailureCategory`: the stable names.
abbrev pub display : FailureCategory → Text
display access_denied = codes "access_denied"
display sharing_violation = codes "sharing_violation"
display FailureCategory.not_found = codes "not_found"
display not_empty = codes "not_empty"
display path_too_long = codes "path_too_long"
display reparse_point_refused = codes "reparse_point_refused"
display outside_boundary = codes "outside_boundary"
display remote_lock_unsupported = codes "remote_lock_unsupported"
display remote_lock_failed = codes "remote_lock_failed"
display local_lock_unresolved = codes "local_lock_unresolved"
display io = codes "io"
display FailureCategory.other = codes "other"

pub record DeleteFailure : Type 0 where
  pub path : FilePath
  pub is_directory : Bool
  pub category : FailureCategory
  pub message : Text
  pub os_error_code : Option ℕ
