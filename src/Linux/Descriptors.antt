-- ===== src/Linux/Descriptors.antt =====
-- No call of the Linux engine leaks a descriptor.
use cursedelete.Base.{
  ℕ, suc, ◌-◌, ◌≡◌, refl, ◌∙◌, Bool, true, false, Option, none, some, List, [], ◌∷◌, arith, Text,
  FilePath, Result, ok, err, if-elim, not, is_empty, if◌then◌else◌,
}
use cursedelete.Failure.{DeleteFailure}
use cursedelete.Options.{DeleteOptions}
use cursedelete.Engine.{LockResolution}
use cursedelete.Linux.Kernel.{Kernel, OsError, path_to_cstring, open_dir_nofollow}
use cursedelete.Linux.Ops.{
  unlink_name, unlink_opened, unlink_in, unlink_relative, unlink_leaf, delete_file, delete_dir,
  chmod_parent, remediated, remediate_name, remediate_child, remediate_opened, remediate_in,
  remediate, name_cstring,
}
use cursedelete.Paths.{parent, file_name}
use cursedelete.Linux.Lock.{
  Sweep, terminate, is_protected_pid, after_kill, resolve_found, swept, resolve_local_lock,
  find_holding_pids,
}
use cursedelete.Linux.Listing.{list_children, list_opened}

module _ (K : Kernel) (count : K.World → ℕ) where
  -- `count` is the number of descriptors that the crate has open: `open` adds one, `close` takes one
  -- away, and no other call changes it.
  pub record Counts : Type 0 where
    pub open_dir :
        (p : FilePath) (w : K.World)
        → count (K.open_dir p w).1
          ≡ elim (K.open_dir p w).0 [ ok fd ↦ suc (count w) | err n ↦ count w ]
    pub close : (fd : K.Fd) (w : K.World) → count (K.close fd w) ≡ count w - 1
    pub unlinkat :
        (fd : K.Fd) (name : Text) (as_dir : Bool) (w : K.World)
        → count (K.unlinkat fd name as_dir w).1 ≡ count w
    pub fchmodat :
        (fd : K.Fd) (name : Text) (mode : ℕ) (w : K.World)
        → count (K.fchmodat fd name mode w).1 ≡ count w
    pub chmod : (p : FilePath) (mode : ℕ) (w : K.World) → count (K.chmod p mode w).1 ≡ count w
    pub kill : (pid : ℕ) (w : K.World) → count (K.kill pid w).1 ≡ count w
    pub sleep : (t : ℕ) (w : K.World) → count (K.sleep t w) ≡ count w

  module _ (c : Counts) where
    -- What follows the opening of a directory: with a descriptor, one more is open.
    abbrev After : ℕ → Result K.Fd OsError × K.World → Type 0
    After n (ok fd, v) = count v ≡ suc n
    After n (err e, v) = count v ≡ n

    open_dir_nofollow-After :
        (p : FilePath) (w : K.World) → After (count w) (open_dir_nofollow K p w)
    unfolding open_dir_nofollow
    open_dir_nofollow-After p w = ground (arith, c.open_dir p w)

    unlink_name-count :
        (fd : K.Fd) (as_dir : Bool) (r : Result Text OsError) (w : K.World)
        → count (unlink_name K fd as_dir r w).1 ≡ count w
    unlink_name-count fd as_dir (err e) w = refl
    unlink_name-count fd as_dir (ok name) w = ground (arith, c.unlinkat fd name as_dir w)

    unlink_opened-count :
        (name : Text) (as_dir : Bool) (n : ℕ) (o : Result K.Fd OsError × K.World)
        → After n o
        → count (unlink_opened K name as_dir o).1 ≡ n
    unlink_opened-count name as_dir n (err e, w) h = h
    unlink_opened-count name as_dir n (ok fd, w) h =
        let step = unlink_name-count fd as_dir (name_cstring name) w in
        c.close fd (unlink_name K fd as_dir (name_cstring name) w).1 ∙ omega (arith, h, step)

    unlink_in-count :
        (p : Option FilePath) (name : Option Text) (as_dir : Bool) (w : K.World)
        → count (unlink_in K p name as_dir w).1 ≡ count w
    unlink_in-count none name as_dir w = refl
    unlink_in-count (some p) none as_dir w = refl
    unlink_in-count (some p) (some n) as_dir w =
        unlink_opened-count n as_dir (count w) (open_dir_nofollow K p w)
          (open_dir_nofollow-After p w)

    unlink_leaf-count :
        (path : FilePath) (as_dir : Bool) (w : K.World)
        → count (unlink_leaf K path as_dir w).1 ≡ count w
    unfolding unlink_leaf unlink_relative
    unlink_leaf-count path as_dir w = unlink_in-count (parent path) (file_name path) as_dir w

    remediated-count :
        (object_ok : Bool) (r : Option ℕ × K.World) → count (remediated K object_ok r).1 ≡ count r.1
    remediated-count object_ok (none, w) = refl
    remediated-count true (some n, w) = refl
    remediated-count false (some n, w) = refl

    chmod_parent-count :
        (r : Result FilePath OsError) (o : Bool × K.World)
        → count (chmod_parent K r o).1 ≡ count o.1
    chmod_parent-count (err e) (object_ok, w) = refl
    chmod_parent-count (ok p) (object_ok, w) =
        remediated-count object_ok (K.chmod p 0o755 w) ∙ c.chmod p 0o755 w

    remediate_name-count :
        (p : FilePath) (is_dir : Bool) (fd : K.Fd) (r : Result Text OsError) (w : K.World)
        → count (remediate_name K p is_dir fd r w).1 ≡ count w
    remediate_name-count p is_dir fd (err e) w = refl
    remediate_name-count p is_dir fd (ok name) w =
        let mode = if is_dir then 0o755 else 0o644 in
        chmod_parent-count (path_to_cstring p) (K.fchmodat fd name mode w)
        ∙ c.fchmodat fd name mode w

    remediate_child-count :
        (p : FilePath) (is_dir : Bool) (fd : K.Fd) (name : Option Text) (w : K.World)
        → count (remediate_child K p is_dir fd name w).1 ≡ count w
    remediate_child-count p is_dir fd none w = refl
    remediate_child-count p is_dir fd (some name) w =
        remediate_name-count p is_dir fd (name_cstring name) w

    remediate_opened-count :
        (p : FilePath) (is_dir : Bool) (name : Option Text) (n : ℕ)
        (o : Result K.Fd OsError × K.World)
        → After n o
        → count (remediate_opened K p is_dir name o).1 ≡ n
    remediate_opened-count p is_dir name n (err e, w) h = h
    remediate_opened-count p is_dir name n (ok fd, w) h =
        let step = remediate_child-count p is_dir fd name w in
        c.close fd (remediate_child K p is_dir fd name w).1 ∙ omega (arith, h, step)

    remediate_in-count :
        (p : Option FilePath) (name : Option Text) (is_dir : Bool) (w : K.World)
        → count (remediate_in K p name is_dir w).1 ≡ count w
    remediate_in-count none name is_dir w = refl
    remediate_in-count (some p) name is_dir w =
        remediate_opened-count p is_dir name (count w) (open_dir_nofollow K p w)
          (open_dir_nofollow-After p w)

    terminate-count :
        (pids : List ℕ) (s : Sweep K) → count (terminate K pids s).world ≡ count s.world
    unfolding terminate
    terminate-count [] s = refl
    terminate-count (pid ∷ pids) s =
        terminate-count pids
          (if is_protected_pid K pid then s else after_kill K s (K.kill pid s.world))
        ∙ if-elim (λ t. count t.world ≡ count s.world) (is_protected_pid K pid) s _ refl
            (c.kill pid s.world)

    swept-count : (pids : List ℕ) (s : Sweep K) → count (swept K pids s).1 ≡ count s.world
    swept-count pids s =
        if-elim (λ (o : LockResolution × K.World). count o.1 ≡ count s.world) s.all_protected _ _
          refl
          (if-elim (λ (o : LockResolution × K.World). count o.1 ≡ count s.world)
            (not s.terminated_any) _ _ refl (c.sleep 200000000 s.world))

    resolve_found-count :
        (r : Result (List ℕ) Text) (w : K.World) → count (resolve_found K r w).1 ≡ count w
    resolve_found-count (err msg) w = refl
    resolve_found-count (ok pids) w =
        let s : Sweep K = record { terminated_any = false; all_protected = true; world = w } in
        if-elim (λ (o : LockResolution × K.World). count o.1 ≡ count w) (is_empty pids) _ _ refl
          (swept-count pids (terminate K pids s) ∙ terminate-count pids s)

    resolve_local_lock-count :
        (path : FilePath) (opts : DeleteOptions) (w : K.World)
        → count (resolve_local_lock K path opts w).1 ≡ count w
    unfolding resolve_local_lock
    resolve_local_lock-count path opts w =
        if-elim (λ (o : LockResolution × K.World). count o.1 ≡ count w) (not opts.kill_locks) _ _
          refl (resolve_found-count (find_holding_pids K w path) w)

    list_opened-count :
        (n : ℕ) (o : Result K.Fd OsError × K.World) → After n o → count (list_opened K o).1 ≡ n
    list_opened-count n (err e, w) h = h
    list_opened-count n (ok fd, w) h = c.close fd w ∙ omega (arith, h)

    -- Where `open` adds one descriptor to those that are open, `close` takes one away and no other
    -- call changes their number, as many are open after a call of the engine as were before it,
    -- whatever its outcome: after a deletion, a remediation, the handling of a lock, and a listing.
    pub calls-count :
        (path : FilePath) (is_dir : Bool) (failure : DeleteFailure) (opts : DeleteOptions)
        (w : K.World)
        → (count (delete_file K path opts w).1 ≡ count w)
          × (count (delete_dir K path opts w).1 ≡ count w)
          × (count (remediate K path is_dir failure w).1 ≡ count w)
          × (count (resolve_local_lock K path opts w).1 ≡ count w)
          × (count (list_children K path w).1 ≡ count w)
    unfolding delete_file delete_dir remediate list_children
    calls-count path is_dir failure opts w = (
      unlink_leaf-count path false w,
      unlink_leaf-count path true w,
      remediate_in-count (parent path) (file_name path) is_dir w,
      resolve_local_lock-count path opts w,
      list_opened-count (count w) (open_dir_nofollow K path w) (open_dir_nofollow-After path w),
    )
