-- ===== src/Linux/Kernel.antt =====
-- What the crate crates/cursdel-linux takes from libc and from `std::fs`, as the parameter `Kernel`,
-- and the errors of src/sys.rs and src/errno_map.rs. A path or a name is its list of bytes, and the
-- text of a file that of its code points.
use cursedelete.Base.{
  ℕ, Bool, ◌||◌, Option, none, some, List, ◌==◌, if◌then◌else◌, any, Text, FilePath, codes, Result,
  ok, err, is_some_and,
}
use cursedelete.Failure.{
  FailureCategory, access_denied, sharing_violation, not_empty, path_too_long,
  reparse_point_refused, io,
}

-- An `i64`; `negsuc n` is -(n + 1).
pub data ℤ : Type 0 where
  pos negsuc : ℕ → ℤ

-- `libc::statx_timestamp`, and the two fields of `libc::stat` for one time.
pub record Timestamp : Type 0 where
  pub tv_sec : ℤ
  pub tv_nsec : ℤ

-- `libc::statx`
pub record Statx : Type 0 where
  pub stx_mask : ℕ
  pub stx_mode : ℕ
  pub stx_size : ℕ
  pub stx_btime : Timestamp
  pub stx_mtime : Timestamp
  pub stx_atime : Timestamp

-- `libc::stat`
pub record Stat : Type 0 where
  pub st_mode : ℕ
  pub st_size : ℤ
  pub st_mtime : Timestamp
  pub st_atime : Timestamp

-- A call that fails gives its `errno`. What only reads sees the world as it is.
pub record Kernel : Type 1 where
  pub World : Type 0
  pub Fd : Type 0
  -- `open` with `O_RDONLY | O_DIRECTORY | O_NOFOLLOW | O_CLOEXEC`, and `close` and `closedir`
  pub open_dir : FilePath → World → Result Fd ℕ × World
  pub close : Fd → World → World
  -- `unlinkat`, with `AT_REMOVEDIR` or without, `fchmodat` with `AT_SYMLINK_NOFOLLOW`, and `chmod`
  pub unlinkat : Fd → Text → Bool → World → Option ℕ × World
  pub fchmodat : Fd → Text → ℕ → World → Bool × World
  pub chmod : FilePath → ℕ → World → Option ℕ × World
  -- `kill` with `SIGTERM`, and `thread::sleep`
  pub kill : ℕ → World → Bool × World
  pub sleep : ℕ → World → World
  -- `fdopendir`, and all that `readdir` gives: names with their types, and the error at the end
  pub fdopendir : World → Fd → Option ℕ
  pub readdir : World → Fd → List (Text × ℕ) × Option ℕ
  pub statx : World → Fd → Text → Result Statx ℕ
  pub fstatat : World → Fd → Text → Result Stat ℕ
  -- `std::fs` and `std::process::id`
  pub canonicalize : World → FilePath → Option FilePath
  pub read_dir : World → FilePath → Result (List Text) Text  -- the names, but for failed entries
  pub read_to_string : World → FilePath → Option Text
  pub read_link : World → FilePath → Option FilePath
  pub process_id : ℕ
  -- the text of an error, and the numbers that libc defines
  pub strerror : ℕ → Text
  pub eacces : ℕ
  pub eperm : ℕ
  pub ebusy : ℕ
  pub etxtbsy : ℕ
  pub enoent : ℕ
  pub enotempty : ℕ
  pub enametoolong : ℕ
  pub eloop : ℕ
  pub enosys : ℕ
  pub dt_dir : ℕ

-- `io::Error`: one of the system, or one of kind `InvalidInput` that the crate makes.
pub data OsError : Type 0 where
  os : ℕ → OsError
  invalid_input : Text → OsError

abbrev pub raw_os_error : OsError → Option ℕ
raw_os_error (os n) = some n
raw_os_error (invalid_input t) = none

abbrev pub has_nul : Text → Bool
has_nul s = any (λ c. c == 0) s

-- `path_to_cstring`, and `CString::new` of a name, with their messages.
abbrev pub c_string : Text → Text → Result Text OsError
c_string message s = if has_nul s then err (invalid_input message) else ok s

abbrev pub path_to_cstring : FilePath → Result FilePath OsError
path_to_cstring p = c_string (codes "path contains a NUL byte") p

module _ (K : Kernel) where
  abbrev pub error_text : OsError → Text
  error_text (os n) = K.strerror n
  error_text (invalid_input t) = t

  -- The error is this one of the system.
  abbrev pub is_errno : ℕ → OsError → Bool
  is_errno n e = is_some_and (λ m. m == n) (raw_os_error e)

  -- `categorize`
  unfoldable pub categorize : OsError → FailureCategory
  categorize e =
      if is_errno K.eacces e || is_errno K.eperm e
      then access_denied
      else if is_errno K.ebusy e || is_errno K.etxtbsy e
      then sharing_violation
      else if is_errno K.enoent e
      then FailureCategory.not_found
      else if is_errno K.enotempty e
      then not_empty
      else if is_errno K.enametoolong e
      then path_too_long
      else if is_errno K.eloop e
      then reparse_point_refused
      else io

  abbrev pub opened : Result K.Fd ℕ × K.World → Result K.Fd OsError × K.World
  opened (ok fd, w) = (ok fd, w)
  opened (err n, w) = (err (os n), w)

  abbrev pub open_cstring : Result FilePath OsError → K.World → Result K.Fd OsError × K.World
  open_cstring (err e) w = (err e, w)
  open_cstring (ok p) w = opened (K.open_dir p w)

  unfoldable pub open_dir_nofollow : FilePath → K.World → Result K.Fd OsError × K.World
  open_dir_nofollow p w = open_cstring (path_to_cstring p) w
