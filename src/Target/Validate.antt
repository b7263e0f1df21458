-- ===== src/Target/Validate.antt =====
-- `validate_target` of target.rs, over a file system that is the parameter `Fs`. Paths are UTF-8,
-- so that `to_string_lossy` changes nothing, and are joined as on POSIX.
use cursedelete.Base.{
  ℕ, Bool, false, not, ◌&&◌, ◌||◌, Option, none, some, ◌==◌, if◌then◌else◌, is_empty, Text,
  FilePath, codes, Result, ok, err, ◌>>=◌, map_err,
}
use Prim.Native.Nat.{bit_and}
use cursedelete.Failure.{
  TargetError, canonicalize, filesystem_root, share_root, resolves_to_root, empty_path,
}
use cursedelete.Paths.{join, parent, file_name}
use cursedelete.Target.Lexical.{
  Panic, Prefix, unc, LexicalPath, prefix_is_relative, is_protected_root, display_string, classify,
}

-- `std::fs::Metadata` of the object itself, and its Windows attributes.
pub record Metadata : Type 0 where
  pub is_symlink : Bool
  pub is_dir : Bool
  pub file_attributes : ℕ

-- The calls of `std::env` and `std::fs`; an error is its message.
pub record Fs : Type 0 where
  pub windows : Bool
  pub current_dir : Result FilePath Text
  pub symlink_metadata : FilePath → Result Metadata Text
  pub canonical_path : FilePath → Result FilePath Text

pub record CanonicalTarget : Type 0 where
  pub requested : FilePath
  pub canonical : FilePath
  pub is_symlink : Bool
  pub is_dir : Bool

abbrev root_error : FilePath → Prefix → TargetError
root_error original (unc server share) = share_root original
root_error original _ = filesystem_root original

unfoldable pub reject_root : FilePath → LexicalPath → LexicalPath → TargetError
unfolding display_string
reject_root original requested_lexical resolved_lexical =
    if is_protected_root requested_lexical
    then root_error original resolved_lexical.prefix
    else resolves_to_root original (display_string resolved_lexical)

abbrev pub is_windows_reparse_point : Bool → Metadata → Bool
is_windows_reparse_point windows meta = windows && not (bit_and meta.file_attributes 0x400 == 0)

abbrev pub or_fail : Option FilePath → TargetError → Result FilePath TargetError
or_fail none e = err e
or_fail (some p) e = ok p

module _ (fs : Fs) where
  -- The parent is resolved instead where the leaf is a dangling link.
  abbrev pub through_parent : FilePath → FilePath → Result FilePath TargetError
  through_parent path original =
      or_fail (parent path) (canonicalize original (codes "path has no parent directory")) >>= λ up.
      or_fail (file_name path) (canonicalize original (codes "path has no final component"))
      >>= λ name. map_err (canonicalize original) (fs.canonical_path up) >>= λ canonical_parent.
          ok (join canonical_parent name)

  unfoldable pub canonicalize_defensively : FilePath → FilePath → Result FilePath TargetError
  canonicalize_defensively path original = elim (fs.canonical_path path) [
    | ok p ↦ ok p
    | err e ↦ through_parent path original
  ]

  -- The text that is classified: a relative path is joined onto the current directory.
  abbrev pub absolute : FilePath → LexicalPath → Result FilePath TargetError
  absolute path lexical =
      if prefix_is_relative lexical.prefix
      then (map_err (canonicalize path) fs.current_dir >>= λ cwd. ok (join cwd path))
      else ok path

  -- The part of `validate_target` behind the resolved path.
  abbrev pub accept :
      FilePath
      → LexicalPath
      → Metadata
      → FilePath
      → LexicalPath
      → Result CanonicalTarget TargetError
  accept path lexical meta canonical canonical_lexical =
      let link = meta.is_symlink || is_windows_reparse_point fs.windows meta in
      if is_protected_root canonical_lexical
      then err (reject_root path lexical canonical_lexical)
      else ok (record {
        requested = path;
        canonical = canonical;
        is_symlink = link;
        is_dir = if link then false else meta.is_dir;
      })

  -- Layer 2, for a text whose lexical path is no root.
  unfoldable pub resolve_target :
      FilePath → FilePath → LexicalPath → Result (Result CanonicalTarget TargetError) Panic
  resolve_target path absolute_raw lexical =
      let reached : Result (Metadata × FilePath) TargetError =
        map_err (λ _. TargetError.not_found path) (fs.symlink_metadata absolute_raw) >>= λ meta.
        canonicalize_defensively absolute_raw path >>= λ canonical. ok (meta, canonical) in
      elim reached [
        | err e ↦ ok (err e)
        | ok (meta, canonical) ↦ classify canonical >>= λ canonical_lexical.
            ok (accept path lexical meta canonical canonical_lexical)
      ]

  -- The outer result is a panic in `classify`; the inner one is that of the source.
  unfoldable pub validate_target : FilePath → Result (Result CanonicalTarget TargetError) Panic
  validate_target path =
      if is_empty path
      then ok (err empty_path)
      else classify path >>= λ given. elim (absolute path given) [
        | err e ↦ ok (err e)
        | ok absolute_raw ↦ classify absolute_raw >>= λ lexical.
            if is_protected_root lexical
            then ok (err (reject_root path lexical lexical))
            else resolve_target path absolute_raw lexical
      ]
