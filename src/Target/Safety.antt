-- ===== src/Target/Safety.antt =====
-- What the validation of a target guarantees about the targets that it lets through.
use Prim.Native.Nat.{bit_and}
use cursedelete.Base.{
  ◌≤◌, ◌≡◌, ◌≢◌, ◌↔◌, ◌⊎◌, true, false, some, arith, length, is_empty, Text, FilePath, ok, err,
}
use cursedelete.Paths.{join, parent, file_name}
use cursedelete.Target.Lexical.{
  not_a_char_boundary, LexicalPath, is_protected_root, is_char_boundary, strip_prefix_ci,
  strip_verbatim, classify,
}
use cursedelete.Target.Validate.{Fs, Metadata, CanonicalTarget, absolute}

module _ (fs : Fs) where
  -- Where a path leads: to what the file system says or, where it says nothing, as of a dangling
  -- link, to its last component beside what the file system says of its parent.
  abbrev pub LeadsTo : FilePath → FilePath → Type 0
  LeadsTo path q =
      (fs.canonical_path path ≡ ok q)
      ⊎ ((e : Text) × (up : FilePath) × (name : Text) × (folder : FilePath) × (fs.canonical_path
              path
            ≡ err e)
          × (parent path ≡ some up)
          × (file_name path ≡ some name)
          × (fs.canonical_path up ≡ ok folder)
          × (q ≡ join folder name))

  -- The object is a link, or a reparse point of Windows.
  abbrev pub IsLink : Metadata → Type 0
  IsLink meta =
      (meta.is_symlink ≡ true) ⊎ ((fs.windows ≡ true) × (bit_and meta.file_attributes 0x400 ≢ 0))

  -- What is known of an accepted target: neither the text that was given, made absolute, nor the
  -- path that it leads to is a root; and the object there is taken for a link exactly when it is
  -- one, and for a directory exactly when it is one and no link.
  pub record IsSafe (path : FilePath) (t : CanonicalTarget) : Type 0 where
    pub nonempty : is_empty path ≡ false
    pub requested_kept : t.requested ≡ path
    pub given : LexicalPath
    pub given_is : classify path ≡ ok given
    pub absolute_raw : FilePath
    pub absolute_is : absolute fs path given ≡ ok absolute_raw
    pub lexical : LexicalPath
    pub lexical_is : classify absolute_raw ≡ ok lexical
    pub lexical_safe : is_protected_root lexical ≡ false
    pub canonical_leads : LeadsTo absolute_raw t.canonical
    pub resolved : LexicalPath
    pub resolved_is : classify t.canonical ≡ ok resolved
    pub resolved_safe : is_protected_root resolved ≡ false
    pub meta : Metadata
    pub meta_is : fs.symlink_metadata absolute_raw ≡ ok meta
    pub link_is : (t.is_symlink ≡ true) ↔ IsLink meta
    pub dir_is : (t.is_dir ≡ true) ↔ ((meta.is_dir ≡ true) × (¬ IsLink meta))

  abbrev Accepted : FilePath → Metadata → FilePath → CanonicalTarget → Type 0
  Accepted path meta canonical t =
      (resolved : LexicalPath) × (classify t.canonical ≡ ok resolved)
      × (is_protected_root resolved ≡ false)
      × (t.requested ≡ path)
      × (t.canonical ≡ canonical)
      × ((t.is_symlink ≡ true) ↔ IsLink meta)
      × ((t.is_dir ≡ true) ↔ ((meta.is_dir ≡ true) × (¬ IsLink meta)))

-- A path of four bytes or more whose byte offset 4 lies inside a character makes the lexical layer
-- panic.
classify_splits :
    (raw : Text)
    → 4 ≤ length raw
    → is_char_boundary raw 4 ≡ false
    → classify raw ≡ err not_a_char_boundary
unfolding classify strip_verbatim strip_prefix_ci
classify_splits raw long inside = ground arith
