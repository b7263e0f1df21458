-- ===== src/Tracker/Once.antt =====
-- No directory is handed over for deletion twice, in whatever order the threads run.
use cursedelete.Base.{
  ℕ, ◌+◌, ◌≤◌, ◌≡◌, refl, Bool, true, Option, none, some, List, [], ◌∷◌, ◌++◌, arith, ◌==◌,
  if◌then◌else◌, count_if, count_if-append, FilePath,
}
use cursedelete.Base.Dict.{map_some, modify, lookup, lookup-insert, lookup-modify, lookup-erase}
use cursedelete.Entry.{DirId}
use cursedelete.Tracker.{
  DirState, ReadyDirectory, DirectoryTracker, new, add_pending, register_directory,
  register_leaf_child, count_in, fresh_dir, finalise_entry, try_finalise,
  mark_enumeration_done_entry, complete_child_entry, forget, bump_pending, ready_of,
}

-- How often a directory was sent to the channel.
abbrev pub sent : DirId → List ReadyDirectory → ℕ
sent d = count_if (λ r. r.dir_id == d)

-- One atomic access to the map by some thread. Here `ready` is all that was ever sent. The ids
-- come from an allocator, so a directory that was sent is not registered again. A thread between
-- its access to an entry and its call of `try_finalise` may be overtaken by any others.
pub data Step (t : DirectoryTracker) : DirectoryTracker → Type 0 where
  registers :
      (d : DirId) (parent : Option DirId) (path : FilePath)
      → sent d t.ready ≡ 0
      → Step t (register_directory d parent path t)
  registers_leaf : (parent : DirId) → Step t (register_leaf_child parent t)
  marks : (d : DirId) → Step t (mark_enumeration_done_entry d t).0
  completes :
      (parent : DirId) (still_present : Bool)
      → Step t (complete_child_entry parent still_present t).0
  finalises : (d : DirId) → Step t (try_finalise d t)
  forgets : (d : DirId) → Step t (forget d t)

pub data Reach : DirectoryTracker → Type 0 where
  start : Reach new
  next : {t u : DirectoryTracker} → Reach t → Step t u → Reach u

-- 1 for an entry that may still be handed over.
abbrev open_of : Option DirState → ℕ
open_of none = 0
open_of (some s) = if s.finalised then 0 else 1

abbrev AtMostOnce : DirId → DirectoryTracker → Type 0
AtMostOnce d t = sent d t.ready + open_of (lookup d t.state) ≤ 1

open_of-same :
    (b : Bool) (f : DirState → DirState) (o : Option DirState)
    → ((s : DirState) → (f s).finalised ≡ s.finalised)
    → open_of (if b then map_some f o else o) ≡ open_of o
open_of-same b f none keep = ground arith
open_of-same b f (some s) keep = ground (arith, keep s)

-- A change of an entry that leaves `finalised` alone.
modify-AtMostOnce :
    (k : DirId) (f : DirState → DirState) (t : DirectoryTracker) (d : DirId)
    → ((s : DirState) → (f s).finalised ≡ s.finalised)
    → AtMostOnce d t
    → AtMostOnce d (record t { state = modify k f t.state })
modify-AtMostOnce k f t d keep h =
    rw lookup-modify (omega (arith, open_of-same (k == d) f (lookup d t.state) keep))

count_in-AtMostOnce :
    (p : Option DirId) (t : DirectoryTracker) (d : DirId)
    → AtMostOnce d t
    → AtMostOnce d (count_in p t)
unfolding add_pending
count_in-AtMostOnce none t d h = h
count_in-AtMostOnce (some p) t d h = modify-AtMostOnce p (bump_pending 1) t d (λ s. refl) h

sent-append :
    (e d : DirId) (s : DirState) (rs : List ReadyDirectory)
    → sent e (rs ++ (ready_of d s ∷ [])) ≡ sent e rs + (if d == e then 1 else 0)
sent-append e d s rs = rw (count_if-append _ rs) (ground arith)

finalise-AtMostOnce :
    (d : DirId) (o : Option DirState) (t : DirectoryTracker) (e : DirId)
    → lookup d t.state ≡ o
    → AtMostOnce e t
    → AtMostOnce e (finalise_entry d o t)
finalise-AtMostOnce d none t e q h = h
finalise-AtMostOnce d (some s) t e q h = ground (
  arith,
  sent-append e d s t.ready,
  lookup-modify e d (λ (x : DirState). record x { finalised = true }) t.state,
)

Step-AtMostOnce : {t u : DirectoryTracker} (e : DirId) → Step t u → AtMostOnce e t → AtMostOnce e u
unfolding register_directory register_leaf_child mark_enumeration_done_entry complete_child_entry
    forget try_finalise
Step-AtMostOnce {t} e (registers d parent path new_id) h =
    count_in-AtMostOnce parent _ e
      (ground (arith, lookup-insert e d (fresh_dir parent path) t.state))
Step-AtMostOnce {t} e (registers_leaf parent) h = count_in-AtMostOnce (some parent) t e h
Step-AtMostOnce {t} e (marks d) h = modify-AtMostOnce d _ t e (λ s. refl) h
Step-AtMostOnce {t} e (completes parent p) h = modify-AtMostOnce parent _ t e (λ s. refl) h
Step-AtMostOnce {t} e (finalises d) h = finalise-AtMostOnce d (lookup d t.state) t e refl h
Step-AtMostOnce {t} e (forgets d) h = ground (arith, lookup-erase e d t.state)

Reach-AtMostOnce : {t : DirectoryTracker} (d : DirId) → Reach t → AtMostOnce d t
unfolding lookup
Reach-AtMostOnce d start = omega arith
Reach-AtMostOnce d (next r s) = Step-AtMostOnce d s (Reach-AtMostOnce d r)

-- Every directory is sent for deletion at most once, over every interleaving of the threads'
-- accesses that registers no id again once it was sent.
pub sent-le-one : {t : DirectoryTracker} (d : DirId) → Reach t → sent d t.ready ≤ 1
sent-le-one d r = omega (arith, Reach-AtMostOnce d r)
