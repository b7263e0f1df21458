-- ===== src/Tracker/Handing.antt =====
-- What `mark_enumeration_done` and `complete_child` come to, entry by entry.
use cursedelete.Base.{
  ◌≡◌, refl, ◌∙◌, Bool, true, false, not, ◌&&◌, some, [], ◌∷◌, ◌++◌, arith, ◌==◌, if◌then◌else◌,
}
use cursedelete.Base.Dict.{lookup, modify, lookup-modify}
use cursedelete.Entry.{DirId}
use cursedelete.Tracker.{
  DirState, DirectoryTracker, ready_of, try_finalise, mark_done, mark_enumeration_done,
  mark_enumeration_done_entry, then_finalise, resolve_child, is_ready_resolved,
  complete_child_entry, complete_child,
}
use cursedelete.Tracker.Counts.{kids, kids-modify, IsUnique, modify-IsUnique}

abbrev set_finalised : DirState → DirState
set_finalised s = record s { finalised = true }

abbrev pub finished : Bool → DirState → DirState
finished f s = record s { finalised = if f then true else s.finalised }

-- The entry of `p` became `s`, and was handed over if `f` says so; nothing else has changed.
abbrev pub Handed : DirId → DirState → Bool → DirectoryTracker → DirectoryTracker → Type 0
Handed p s f t u =
    ((d : DirId) → lookup d u.state ≡ (if p == d then some (finished f s) else lookup d t.state))
    × (u.ready ≡ (if f then t.ready ++ (ready_of p s ∷ []) else t.ready))
    × ((d : DirId) → kids d u.state ≡ kids d t.state)
    × (IsUnique t.state → IsUnique u.state)

then_finalise-Handed :
    (p : DirId) (s : DirState) (t : DirectoryTracker) (f : Bool)
    → lookup p t.state ≡ some s
    → (f ≡ true → s.finalised ≡ false)
    → Handed p s f t (then_finalise p (t, f))
unfolding try_finalise
then_finalise-Handed p s t false h e = (λ d. ground (arith, h), refl, λ d. refl, λ u. u)
then_finalise-Handed p s t true h e = rw h (
    rw (e refl) (
      λ d. rw (lookup-modify d p set_finalised t.state) ground (arith, h),
      refl,
      λ d. kids-modify d p set_finalised t.state (λ r. refl),
      modify-IsUnique p set_finalised t.state,
    ))

-- The end of a directory's enumeration.
pub mark_enumeration_done-Handed :
    (p : DirId) (s : DirState) (t : DirectoryTracker)
    → lookup p t.state ≡ some s
    → Handed p (mark_done s) ((s.pending == 0) && not s.finalised) t (mark_enumeration_done p t)
unfolding mark_enumeration_done mark_enumeration_done_entry
mark_enumeration_done-Handed p s t h =
    let t1 : DirectoryTracker = record t { state = modify p mark_done t.state } in
    let f = (s.pending == 0) && not s.finalised in
    let (entries, ready, same, unique) =
      then_finalise-Handed p (mark_done s) t1 f
        (rw (lookup-modify p p mark_done t.state) (rw h (ground arith))) (λ e. ground arith) in
    rw h (
      λ d. entries d ∙ (rw (lookup-modify d p mark_done t.state) (ground arith)),
      ready,
      λ d. same d ∙ kids-modify d p mark_done t.state (λ r. refl),
      λ u. unique (modify-IsUnique p mark_done t.state u),
    )

-- The end of one of its children.
pub complete_child-Handed :
    (p : DirId) (b : Bool) (s : DirState) (t : DirectoryTracker)
    → lookup p t.state ≡ some s
    → Handed p
        (resolve_child b s)
        (is_ready_resolved (some (resolve_child b s)))
        t
        (complete_child p b t)
unfolding complete_child complete_child_entry
complete_child-Handed p b s t h =
    let r : DirState → DirState = resolve_child b in
    let t1 : DirectoryTracker = record t { state = modify p r t.state } in
    let f = is_ready_resolved (some (r s)) in
    let present : lookup p t1.state ≡ some (r s) =
      (rw (lookup-modify p p r t.state) (rw h (ground arith))) in
    let (entries, ready, same, unique) =
      then_finalise-Handed p (r s) t1 f present (λ e. ground arith) in
    rw present (
      λ d. entries d ∙ (rw (lookup-modify d p r t.state) (ground arith)),
      ready,
      λ d. same d ∙ kids-modify d p r t.state (λ s. refl),
      λ u. unique (modify-IsUnique p r t.state u),
    )
