-- ===== src/Tracker/Load.antt =====
-- What the tracker still has to hand over: the directories that wait in the channel, and those that
-- can still become ready. No operation but a registration adds to it.
use cursedelete.Base.{
  ℕ, suc, ◌+◌, ◌≤◌, ◌≡◌, refl, ap, ◌∙◌, Bool, true, false, Option, none, some, [], ◌∷◌, arith,
  if◌then◌else◌, if-elim, if-split, length, length-append, FilePath,
}
use cursedelete.Base.Dict.{Dict, lookup, insert, erase, modify}
use cursedelete.Entry.{DirId}
use cursedelete.Tracker
use cursedelete.Tracker.{
  DirState, ReadyDirectory, DirectoryTracker, add_pending, register_directory, count_in, fresh_dir,
  register_leaf_child, bump_pending, finalise_entry, try_finalise, mark_done, mark_enumeration_done,
  mark_enumeration_done_entry, then_finalise, resolve_child, complete_child_entry, complete_child,
  forget,
}

abbrev pub open_entry : DirState → ℕ
open_entry s = if s.finalised then 0 else 1

-- The directories that were not handed over.
unfoldable pub unfinalised : Dict DirState → ℕ
unfinalised [] = 0
unfinalised ((k, s) ∷ D) = open_entry s + unfinalised D

abbrev pub load : DirectoryTracker → ℕ
load t = length t.ready + unfinalised t.state

unfinalised-insert :
    (k : DirId) (s : DirState) (D : Dict DirState)
    → unfinalised (insert k s D) ≤ suc (unfinalised D)
unfolding unfinalised insert
unfinalised-insert k s [] = ground arith
unfinalised-insert k s ((j, r) ∷ D) = ground (arith, unfinalised-insert k s D)

unfinalised-erase : (k : DirId) (D : Dict DirState) → unfinalised (erase k D) ≤ unfinalised D
unfolding unfinalised erase
unfinalised-erase k [] = omega arith
unfinalised-erase k ((j, r) ∷ D) = ground (arith, unfinalised-erase k D)

-- A change that leaves `finalised` alone.
unfinalised-modify :
    (k : DirId) (f : DirState → DirState) (D : Dict DirState)
    → ((s : DirState) → (f s).finalised ≡ s.finalised)
    → unfinalised (modify k f D) ≡ unfinalised D
unfolding unfinalised modify
unfinalised-modify k f [] keep = refl
unfinalised-modify k f ((j, r) ∷ D) keep = ground (arith, keep r, unfinalised-modify k f D keep)

unfinalised-finalise :
    (k : DirId) (s : DirState) (D : Dict DirState)
    → lookup k D ≡ some s
    → s.finalised ≡ false
    → suc (unfinalised (modify k (λ e. record e { finalised = true }) D)) ≡ unfinalised D
unfolding unfinalised modify lookup
unfinalised-finalise k s [] h e = cc
unfinalised-finalise k s ((j, r) ∷ D) h e = ground (arith, unfinalised-finalise k s D)

load-finalise_entry :
    (d : DirId) (o : Option DirState) (t : DirectoryTracker)
    → lookup d t.state ≡ o
    → load (finalise_entry d o t) ≡ load t
load-finalise_entry d none t h = refl
load-finalise_entry d (some s) t h =
    if-split (λ (u : DirectoryTracker). load u ≡ load t) s.finalised _ _ (λ e. refl)
      (λ e. omega (
        arith,
        unfinalised-finalise d s t.state h e,
        length-append t.ready (Tracker.ready_of d s ∷ []),
      ))

load-then_finalise : (d : DirId) (p : DirectoryTracker × Bool) → load (then_finalise d p) ≡ load p.0
unfolding try_finalise
load-then_finalise d (t, b) =
    if-elim (λ (u : DirectoryTracker). load u ≡ load t) b _ _
      (load-finalise_entry d (lookup d t.state) t refl) refl

pub load-mark_enumeration_done :
    (d : DirId) (t : DirectoryTracker) → load (mark_enumeration_done d t) ≡ load t
unfolding mark_enumeration_done mark_enumeration_done_entry
load-mark_enumeration_done d t =
    load-then_finalise d (mark_enumeration_done_entry d t)
    ∙ ap (λ n. length t.ready + n) (unfinalised-modify d mark_done t.state (λ s. refl))

pub load-complete_child :
    (p : DirId) (b : Bool) (t : DirectoryTracker) → load (complete_child p b t) ≡ load t
unfolding complete_child complete_child_entry
load-complete_child p b t =
    load-then_finalise p (complete_child_entry p b t)
    ∙ ap (λ n. length t.ready + n) (unfinalised-modify p (resolve_child b) t.state (λ s. refl))

pub load-register_leaf_child :
    (p : DirId) (t : DirectoryTracker) → load (register_leaf_child p t) ≡ load t
unfolding register_leaf_child add_pending
load-register_leaf_child p t =
    ap (λ n. length t.ready + n) (unfinalised-modify p (bump_pending 1) t.state (λ s. refl))

load-count_in : (parent : Option DirId) (t : DirectoryTracker) → load (count_in parent t) ≡ load t
unfolding add_pending
load-count_in none t = refl
load-count_in (some p) t =
    ap (λ n. length t.ready + n) (unfinalised-modify p (bump_pending 1) t.state (λ s. refl))

pub load-register_directory :
    (d : DirId) (parent : Option DirId) (path : FilePath) (t : DirectoryTracker)
    → load (register_directory d parent path t) ≤ suc (load t)
unfolding register_directory
load-register_directory d parent path t =
    let u : DirectoryTracker = record t { state = insert d (fresh_dir parent path) t.state } in
    omega (arith, load-count_in parent u, unfinalised-insert d (fresh_dir parent path) t.state)

pub load-forget : (d : DirId) (t : DirectoryTracker) → load (forget d t) ≤ load t
unfolding forget
load-forget d t = omega (arith, unfinalised-erase d t.state)
