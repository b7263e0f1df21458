-- ===== src/Pipeline/System/Moves.antt =====
-- How the moves of the coordinator and of the workers on the tracker keep the invariant.
use cursedelete.Base.{
  ℕ, suc, ◌+◌, ◌<◌, ◌≡◌, refl, sym, ap, ◌∙◌, subst, inl, inr, Bool, true, Option, none, some, List,
  [], ◌∷◌, ◌++◌, arith, ◌==◌, if◌then◌else◌, count_if-append, i64_limit,
}
use cursedelete.Base.Dict.{lookup, modify, lookup-modify, map_some}
use cursedelete.Entry.{DirId}
use cursedelete.Tracker.{
  DirState, ReadyDirectory, DirectoryTracker, bump_pending, add_pending, register_leaf_child,
}
use cursedelete.Tracker.Once.{sent}
use cursedelete.Tracker.Counts.{kids, kids-modify, modify-IsUnique}
use cursedelete.Pipeline.Delete.{FileWorkItem}
use cursedelete.Pipeline.System.Invariant.{
  is_open, waiting, EntryOk, EntryOk-change, EntryIn, present, Registered, one_of, Inv, All-map,
  id-cases, id_refl,
}

-- One more child of a directory that is being listed.
EntryOk-bump_pending :
    (sends children left : ℕ) (bound d : DirId) (s : DirState)
    → children + suc left < i64_limit
    → EntryOk true sends children bound d (some s)
    → EntryOk true sends (children + 1) bound d (some (bump_pending 1 s))
EntryOk-bump_pending sends children left bound d s room (pe, fi, op, se, lt, ab) =
    (ground arith, ground arith, op, se, lt, ab)

EntryOk-bump_option :
    (opened : Bool) (sends children left : ℕ) (bound d : DirId) (o : Option DirState)
    → opened ≡ true
    → children + suc left < i64_limit
    → EntryOk opened sends children bound d o
    → EntryOk opened sends (children + 1) bound d (map_some (bump_pending 1) o)
EntryOk-bump_option opened sends children left bound d none y room (op, se, ch) =
    absurd (ground arith)
EntryOk-bump_option opened sends children left bound d (some s) y room h =
    subst (λ x. EntryOk x sends (children + 1) bound d (some (bump_pending 1 s))) (sym y)
      (EntryOk-bump_pending sends children left bound d s room
        (subst (λ x. EntryOk x sends children bound d (some s)) y h))

present-map_some :
    (f : DirState → DirState) (o : Option DirState) → present (map_some f o) ≡ present o
present-map_some f none = refl
present-map_some f (some s) = refl

module _ (opens : List DirId) (bound : DirId) (left : ℕ) (q : List FileWorkItem) (n : ℕ) (p : DirId)
    (t : DirectoryTracker) (opened : is_open p opens ≡ true)
    (v : Inv opens bound (suc left) none t q n) where
  bumped-entries : (d : DirId) → EntryIn opens bound left q n (some p) (register_leaf_child p t) d
  unfolding register_leaf_child add_pending
  bumped-entries d = elim (id-cases p d) [
    | inl (e, y) ↦ subst (EntryIn opens bound left q n (some p) (register_leaf_child p t)) e (
        EntryOk-change (is_open p opens) bound p
          (sym (
            lookup-modify p p (bump_pending 1) t.state
            ∙ ap (λ c. if c then map_some (bump_pending 1) (lookup p t.state) else lookup p t.state)
                (id_refl p)))
          refl (ground (arith, kids-modify p p (bump_pending 1) t.state (λ s. refl)))
          (EntryOk-bump_option (is_open p opens) (sent p t.ready) (kids p t.state + waiting p q + 0)
            left bound p (lookup p t.state) opened (ground (arith, v.room p)) (v.entries p)))
    | inr y ↦
        EntryOk-change (is_open d opens) bound d
          (sym (
            lookup-modify d p (bump_pending 1) t.state
            ∙ ap (λ c. if c then map_some (bump_pending 1) (lookup d t.state) else lookup d t.state)
                y))
          refl (ground (arith, y, kids-modify d p (bump_pending 1) t.state (λ s. refl)))
          (v.entries d)
  ]

  bumped-Registered :
      (x : ReadyDirectory) → Registered t.state x → Registered (modify p (bump_pending 1) t.state) x
  bumped-Registered x (s, e, pa) = elim (id-cases p x.dir_id) [
    | inl (i, y) ↦ (
      bump_pending 1 s,
      lookup-modify x.dir_id p (bump_pending 1) t.state
          ∙ ap
              (λ c.
                if c
                then map_some (bump_pending 1) (lookup x.dir_id t.state)
                else lookup x.dir_id t.state)
              y
          ∙ ap (map_some (bump_pending 1)) e,
      pa,
    )
    | inr y ↦ (
      s,
      lookup-modify x.dir_id p (bump_pending 1) t.state
          ∙ ap
              (λ c.
                if c
                then map_some (bump_pending 1) (lookup x.dir_id t.state)
                else lookup x.dir_id t.state)
              y
          ∙ e,
      pa,
    )
  ]

  -- A leaf is counted with its parent, and is then to be settled or queued.
  pub register_leaf_child-Inv : Inv opens bound left (some p) (register_leaf_child p t) q n
  unfolding register_leaf_child add_pending
  register_leaf_child-Inv = record {
    unique = modify-IsUnique p (bump_pending 1) t.state v.unique;
    entries = bumped-entries;
    room = λ d. ground (arith, v.room d, kids-modify d p (bump_pending 1) t.state (λ s. refl));
    registered =
        All-map (Registered t.state) (Registered (modify p (bump_pending 1) t.state)) t.ready
          bumped-Registered v.registered;
    root = ground (
      arith,
      v.root,
      lookup-modify 0 p (bump_pending 1) t.state,
      present-map_some (bump_pending 1) (lookup 0 t.state),
    );
  }

-- A child that is to be settled may be queued instead.
pub queued-Inv :
    (opens : List DirId) (bound : DirId) (left : ℕ) (q : List FileWorkItem) (n : ℕ)
    (i : FileWorkItem) (t : DirectoryTracker)
    → Inv opens bound left (some i.parent_dir_id) t q n
    → Inv opens bound left none t (q ++ (i ∷ [])) n
queued-Inv opens bound left q n i t v =
    let more : (d : DirId)
        → waiting d (q ++ (i ∷ [])) ≡ waiting d q + one_of (some i.parent_dir_id) d =
      λ d. ground (arith, count_if-append (λ i. i.parent_dir_id == d) q (i ∷ [])) in
    record {
      unique = v.unique;
      entries = λ d.
          EntryOk-change (is_open d opens) bound d refl refl (omega (arith, more d)) (v.entries d);
      room = λ d. omega (arith, more d, v.room d);
      registered = v.registered;
      root = v.root;
    }

-- A queued file that a worker took is to be settled.
pub taken-Inv :
    (opens : List DirId) (bound : DirId) (left : ℕ) (before after : List FileWorkItem) (n : ℕ)
    (i : FileWorkItem) (t : DirectoryTracker)
    → Inv opens bound left none t (before ++ (i ∷ after)) n
    → Inv opens bound left (some i.parent_dir_id) t (before ++ after) n
taken-Inv opens bound left before after n i t v =
    let less : (d : DirId)
        → waiting d (before ++ (i ∷ after))
          ≡ waiting d (before ++ after) + one_of (some i.parent_dir_id) d =
      λ d. ground (
        arith,
        count_if-append (λ i. i.parent_dir_id == d) before (i ∷ after),
        count_if-append (λ i. i.parent_dir_id == d) before after,
      ) in
    record {
      unique = v.unique;
      entries = λ d.
          EntryOk-change (is_open d opens) bound d refl refl (omega (arith, less d)) (v.entries d);
      room = λ d. omega (arith, less d, v.room d);
      registered = v.registered;
      root = v.root;
    }
