-- ===== src/Linux/Listing.antt =====
-- crates/cursdel-linux/src/dirlist.rs: the children of a directory, with the metadata of all but
-- those that the directory itself says are directories.
use cursedelete.Base.{
  ℕ, ◌+◌, ◌-◌, ◌*◌, ◌/◌, ◌%◌, ◌^◌, suc, Bool, true, false, ◌||◌, Option, none, some, List, [], ◌∷◌,
  leb, ◌==◌, if◌then◌else◌, Text, FilePath, codes, text_eq, Result, ok, err, ◌>>=◌,
}
use cursedelete.Entry.{SystemTime, EntryTimes}
use cursedelete.Walk.{RawChild}
use cursedelete.Linux.Kernel.{
  ℤ, pos, negsuc, Timestamp, Statx, Stat, Kernel, OsError, os, is_errno, open_dir_nofollow,
}
use cursedelete.Linux.Ops.{name_cstring}

pub record RawMeta : Type 0 where
  pub is_dir : Bool
  pub is_symlink : Bool
  pub size : ℕ
  pub times : EntryTimes
  pub readonly : Bool

-- `max(0)`, for a value that is then cast to an unsigned one.
abbrev pub not_below_zero : ℤ → ℕ
not_below_zero (pos n) = n
not_below_zero (negsuc n) = 0

abbrev pub nanos : ℕ
nanos = 1000000000

-- The distance of the Unix epoch from the earliest instant of a `SystemTime`, which counts seconds
-- in an `i64`.
abbrev pub unix_epoch : SystemTime
unix_epoch = 2 ^ 63 * nanos

abbrev pub checked_sub : SystemTime → ℕ → Option SystemTime
checked_sub t d = if leb d t then some (t - d) else none

-- `systime_from`, whose sum is in range if the nanoseconds are fewer than a second has.
unfoldable pub systime_from : Timestamp → Option SystemTime
systime_from t = elim t.tv_sec [
  | pos n ↦ some (unix_epoch + (n * nanos + not_below_zero t.tv_nsec))
  | negsuc n ↦ checked_sub unix_epoch (suc n * nanos + not_below_zero t.tv_nsec)
]

-- `mode & S_IFMT`, and `mode & S_IWUSR == 0`
abbrev pub file_type : ℕ → ℕ
file_type mode = mode / 4096 % 16

abbrev pub is_link_mode : ℕ → Bool
is_link_mode mode = file_type mode == 10

abbrev pub is_dir_mode : ℕ → Bool
is_dir_mode mode = file_type mode == 4

abbrev pub owner_cannot_write : ℕ → Bool
owner_cannot_write mode = mode / 128 % 2 == 0

-- `stx_mask & STATX_BTIME != 0`
abbrev pub has_btime : ℕ → Bool
has_btime mask = mask / 2048 % 2 == 1

-- `RawMeta::from_statx`
unfoldable pub from_statx : Statx → RawMeta
from_statx stx = record {
  is_dir = is_dir_mode stx.stx_mode;
  is_symlink = is_link_mode stx.stx_mode;
  size = stx.stx_size;
  times = record {
    modified = systime_from stx.stx_mtime;
    created = if has_btime stx.stx_mask then systime_from stx.stx_btime else none;
    accessed = systime_from stx.stx_atime;
  };
  readonly = owner_cannot_write stx.stx_mode;
}

-- `RawMeta::from_stat`
unfoldable pub from_stat : Stat → RawMeta
from_stat st = record {
  is_dir = is_dir_mode st.st_mode;
  is_symlink = is_link_mode st.st_mode;
  size = not_below_zero st.st_size;
  times = record {
    modified = systime_from st.st_mtime;
    created = none;
    accessed = systime_from st.st_atime;
  };
  readonly = owner_cannot_write st.st_mode;
}

abbrev pub is_dots : Text → Bool
is_dots name = text_eq name (codes ".") || text_eq name (codes "..")

-- A child that the directory itself says is a directory.
abbrev pub plain_dir : Text → RawChild
plain_dir name = record {
  name = name;
  is_dir = true;
  is_reparse_point = false;
  size = 0;
  times = record { modified = none; created = none; accessed = none };
  readonly = false;
}

abbrev pub child_of : Text → RawMeta → RawChild
child_of name meta = record {
  name = name;
  is_dir = meta.is_dir;
  is_reparse_point = meta.is_symlink;
  size = meta.size;
  times = meta.times;
  readonly = meta.readonly;
}

module _ (K : Kernel) where
  abbrev pub os_result : {A B : Type 0} → (A → B) → Result A ℕ → Result B OsError
  os_result f (ok a) = ok (f a)
  os_result f (err n) = err (os n)

  -- `fstatat_nofollow` and `statx_nofollow`, whose results are read at once.
  abbrev pub fstatat_nofollow : K.World → K.Fd → Text → Result RawMeta OsError
  fstatat_nofollow w fd name = name_cstring name >>= λ n. os_result from_stat (K.fstatat w fd n)

  abbrev pub statx_nofollow : K.World → K.Fd → Text → Result RawMeta OsError
  statx_nofollow w fd name = name_cstring name >>= λ n. os_result from_statx (K.statx w fd n)

  abbrev pub or_fstatat : K.World → K.Fd → Text → Result RawMeta OsError → Result RawMeta OsError
  or_fstatat w fd name (ok meta) = ok meta
  or_fstatat w fd name (err e) = if is_errno K K.enosys e then fstatat_nofollow w fd name else err e

  unfoldable pub lookup_metadata : K.World → K.Fd → Text → Result RawMeta OsError
  lookup_metadata w fd name = or_fstatat w fd name (statx_nofollow w fd name)

  -- What an entry adds to the list: nothing where it vanished.
  abbrev pub looked_up : Text → Result RawMeta OsError → Result (Option RawChild) OsError
  looked_up name (ok meta) = ok (some (child_of name meta))
  looked_up name (err e) = if is_errno K K.enoent e then ok none else err e

  unfoldable pub list_entry : K.World → K.Fd → Text × ℕ → Result (Option RawChild) OsError
  list_entry w fd (name, d_type) =
      if is_dots name
      then ok none
      else if d_type == K.dt_dir
      then ok (some (plain_dir name))
      else looked_up name (lookup_metadata w fd name)

  abbrev pub cons_child : Option RawChild → List RawChild → List RawChild
  cons_child none cs = cs
  cons_child (some c) cs = c ∷ cs

  abbrev pub at_end : Option ℕ → Result (List RawChild) OsError
  at_end none = ok []
  at_end (some n) = err (os n)

  -- The loop over what `readdir` gives.
  unfoldable pub list_entries :
      K.World → K.Fd → List (Text × ℕ) → Option ℕ → Result (List RawChild) OsError
  list_entries w fd [] end = at_end end
  list_entries w fd (e ∷ es) end =
      list_entry w fd e >>= λ c. list_entries w fd es end >>= λ cs. ok (cons_child c cs)

  abbrev pub list_via_dirp : K.World → K.Fd → Result (List RawChild) OsError
  list_via_dirp w fd = list_entries w fd (K.readdir w fd).0 (K.readdir w fd).1

  abbrev pub list_stream : K.World → K.Fd → Option ℕ → Result (List RawChild) OsError
  list_stream w fd none = list_via_dirp w fd
  list_stream w fd (some n) = err (os n)

  abbrev pub list_opened : Result K.Fd OsError × K.World → Result (List RawChild) OsError × K.World
  list_opened (err e, w) = (err e, w)
  list_opened (ok fd, w) = (list_stream w fd (K.fdopendir w fd), K.close fd w)

  -- `LinuxDirLister::list_children`
  unfoldable pub list_children : FilePath → K.World → Result (List RawChild) OsError × K.World
  list_children dir w = list_opened (open_dir_nofollow K dir w)
