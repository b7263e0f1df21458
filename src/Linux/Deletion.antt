-- ===== src/Linux/Deletion.antt =====
-- What a deletion on Linux says, against what the kernel did.
use cursedelete.Base.{
  ℕ, ◌≡◌, refl, sym, ap, ◌↔◌, inl, inr, Bool, false, Option, none, some, arith, Bool-cases, Text,
  FilePath, Result, ok, err,
}
use cursedelete.Paths.{parent, file_name}
use cursedelete.Engine.{deleted}
use cursedelete.Linux.Kernel.{Kernel, OsError, has_nul, open_dir_nofollow, opened}
use cursedelete.Linux.Ops.{
  unlinked, unlink_opened, unlink_in, unlink_relative, unlink_leaf, attempt_of, closing,
}

module _ (K : Kernel) where
  -- The kernel removed the name of this path, as a directory or not, from its parent, which was
  -- opened as a directory and is no link; the descriptor of the parent was closed.
  abbrev pub Removes : FilePath → Bool → K.World → K.World → Type 0
  Removes path as_dir w v =
      (p : FilePath) × (name : Text) × (fd : K.Fd) × (w1 : K.World) × (w2 : K.World) × (parent path
        ≡ some p)
      × (file_name path ≡ some name)
      × (has_nul p ≡ false)
      × (has_nul name ≡ false)
      × (K.open_dir p w ≡ (ok fd, w1))
      × (K.unlinkat fd name as_dir w1 ≡ (none, w2))
      × (v ≡ K.close fd w2)

  Removes-unlink_relative :
      (path : FilePath) (as_dir : Bool) (w v : K.World)
      → Removes path as_dir w v
      → unlink_relative K path as_dir w ≡ (ok tt, v)
  unfolding unlink_relative open_dir_nofollow
  Removes-unlink_relative path as_dir w v (p, name, fd, w1, w2, e, n, np, nn, o, u, c) =
      rw (e, n, np) (rw o (rw nn (rw u (rw c refl))))

  -- The world after the kernel's call, of which a success says that it gave no error.
  unlinked-ok :
      (fd : K.Fd) (r : Option ℕ × K.World) (v : K.World)
      → closing K fd (unlinked K r) ≡ (ok tt, v)
      → (w2 : K.World) × (r ≡ (none, w2)) × (v ≡ K.close fd w2)
  unlinked-ok fd (none, w2) v h = (w2, refl, sym (ap (λ o. o.1) h))
  unlinked-ok fd (some n, w2) v h = absurd (ground (arith, ap (λ o. o.0) h))

  unlink_opened-ok :
      (name : Text) (as_dir : Bool) (o : Result K.Fd OsError × K.World) (v : K.World)
      → unlink_opened K name as_dir o ≡ (ok tt, v)
      → (fd : K.Fd) × (w1 : K.World) × (w2 : K.World) × (o ≡ (ok fd, w1))
        × (has_nul name ≡ false)
        × (K.unlinkat fd name as_dir w1 ≡ (none, w2))
        × (v ≡ K.close fd w2)
  unlink_opened-ok name as_dir (err e, w1) v h = absurd (ground (arith, ap (λ o. o.0) h))
  unlink_opened-ok name as_dir (ok fd, w1) v h = elim (Bool-cases (has_nul name)) [
    | inl nul ↦ absurd (ground (arith, nul, ap (λ o. o.0) h))
    | inr fine ↦
        let (w2, u, c) = unlinked-ok fd (K.unlinkat fd name as_dir w1) v (rw fine at h) in
        (fd, w1, w2, refl, fine, u, c)
  ]

  opened-ok :
      (r : Result K.Fd ℕ × K.World) (fd : K.Fd) (w1 : K.World)
      → opened K r ≡ (ok fd, w1)
      → r ≡ (ok fd, w1)
  opened-ok (ok fd, w1) fd2 w2 h = cc
  opened-ok (err n, w1) fd' w1' h = absurd (ground (arith, ap (λ o. o.0) h))

  pub open_dir_nofollow-ok :
      (p : FilePath) (w : K.World) (fd : K.Fd) (w1 : K.World)
      → open_dir_nofollow K p w ≡ (ok fd, w1)
      → (has_nul p ≡ false) × (K.open_dir p w ≡ (ok fd, w1))
  unfolding open_dir_nofollow
  open_dir_nofollow-ok p w fd w1 h = elim (Bool-cases (has_nul p)) [
    | inl nul ↦ absurd (ground (arith, nul, ap (λ o. o.0) h))
    | inr fine ↦ (fine, opened-ok (K.open_dir p w) fd w1 (rw fine at h))
  ]

  pub ok-open_dir_nofollow :
      (p : FilePath) (w : K.World) (fd : K.Fd) (w1 : K.World)
      → has_nul p ≡ false
      → K.open_dir p w ≡ (ok fd, w1)
      → open_dir_nofollow K p w ≡ (ok fd, w1)
  unfolding open_dir_nofollow
  ok-open_dir_nofollow p w fd w1 fine od = rw fine (rw od refl)

  unlink_in-Removes :
      (path : FilePath) (p : Option FilePath) (name : Option Text) (as_dir : Bool) (w v : K.World)
      → parent path ≡ p
      → file_name path ≡ name
      → unlink_in K p name as_dir w ≡ (ok tt, v)
      → Removes path as_dir w v
  unlink_in-Removes path none name as_dir w v e n h = absurd (ground (arith, ap (λ o. o.0) h))
  unlink_in-Removes path (some p) none as_dir w v e n h = absurd (ground (arith, ap (λ o. o.0) h))
  unlink_in-Removes path (some p) (some name) as_dir w v e n h =
      let (fd, w1, w2, o, nn, u, c) = unlink_opened-ok name as_dir (open_dir_nofollow K p w) v h in
      let (np, od) = open_dir_nofollow-ok p w fd w1 o in
      (p, name, fd, w1, w2, e, n, np, nn, od, u, c)

  attempt_of-deleted :
      (path : FilePath) (as_dir : Bool) (r : Result (Unit {0}) OsError)
      → (attempt_of K path as_dir r).outcome ≡ deleted
      → r ≡ ok tt
  attempt_of-deleted path as_dir (ok u) h = refl
  attempt_of-deleted path as_dir (err e) h = ground (arith, h)

  -- A deletion reports an object as deleted exactly when the kernel removed it by its name.
  pub unlink_leaf_iff :
      (path : FilePath) (as_dir : Bool) (w : K.World)
      → ((unlink_leaf K path as_dir w).0.outcome ≡ deleted)
        ↔ Removes path as_dir w (unlink_leaf K path as_dir w).1
  unfolding unlink_leaf unlink_relative
  unlink_leaf_iff path as_dir w = (
    (λ h.
        let r = unlink_relative K path as_dir w in
        unlink_in-Removes path (parent path) (file_name path) as_dir w r.1 refl refl
          (ap (λ x. (x, r.1)) (attempt_of-deleted path as_dir r.0 h))),
    λ h.
        ap (λ o. (attempt_of K path as_dir o.0).outcome)
          (Removes-unlink_relative path as_dir w _ h),
  )
