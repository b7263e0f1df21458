-- ===== src/Pipeline/System/Removal.antt =====
-- How the removal of a directory keeps the invariant.
use cursedelete.Base.{
  ℕ, suc, ◌+◌, ◌≡◌, refl, sym, ap, ◌∙◌, subst, inl, inr, Bool, false, Option, none, some, List, [],
  ◌∷◌, ◌++◌, arith, ◌==◌, if◌then◌else◌, count_if-append, All,
}
use cursedelete.Base.Dict.{Dict, lookup, erase, lookup-erase}
use cursedelete.Entry.{DirId}
use cursedelete.Tracker.{DirState, ReadyDirectory, DirectoryTracker}
use cursedelete.Tracker.Once.{sent}
use cursedelete.Tracker.Counts.{kids, is_child, child_entry, kids-erase, erase-IsUnique}
use cursedelete.Pipeline.Delete.{FileWorkItem}
use cursedelete.Pipeline.System.Invariant.{
  is_open, waiting, IsAbove, EntryOk, EntryOk-change, EntryIn, present, Registered, one_of, Inv,
  id-cases, id_refl,
}

All-middle :
    {A : Type 0} (P : A → Type 0) (before after : List A) (x : A)
    → All P (before ++ (x ∷ after))
    → P x × All P (before ++ after)
All-middle P [] after x h = h
All-middle P (y ∷ before) after x (hy, h) =
    let (hx, rest) = All-middle P before after x h in (hx, (hy, rest))

-- Once the one directory that was sent under an id is gone, no other has that id.
erase-Registered :
    (d : DirId) (D : Dict DirState) (R : List ReadyDirectory)
    → sent d R ≡ 0
    → All (Registered D) R
    → All (Registered (erase d D)) R
erase-Registered d D [] z h = tt
erase-Registered d D (x ∷ R) z ((s, e, pa), h) =
    let y : (d == x.dir_id) ≡ false = ground arith in
    (
      (s, lookup-erase x.dir_id d D ∙ ap (λ c. if c then none else lookup x.dir_id D) y ∙ e, pa),
      erase-Registered d D R (ground arith) h,
    )

one_of-is_child : (o : Option DirId) (k : DirId) → is_child k o ≡ one_of o k
one_of-is_child none k = refl
one_of-is_child (some p) k = refl

IsAbove-one_of : (o : Option DirId) (d : DirId) → IsAbove o d → one_of o d ≡ 0
IsAbove-one_of none d h = refl
IsAbove-one_of (some p) d h = ground arith

-- The messages that the removal of a directory sends to the channel that ends the operation.
abbrev pub ending : Option DirId → ℕ
ending none = 1
ending (some p) = 0

-- A directory that was handed over waits for nothing and is listed to its end.
handed_over :
    (opened : Bool) (sends children bound d : ℕ) (s : DirState)
    → EntryOk opened (suc sends) children bound d (some s)
    → (opened ≡ false) × (sends ≡ 0) × (children ≡ 0) × IsAbove s.parent d
handed_over opened sends children bound d s (pe, fi, op, se, lt, ab) =
    (ground arith, ground arith, ground arith, ab)

ending_root :
    (o : Option DirId) (d n : ℕ) (D : Dict DirState) (s : DirState)
    → IsAbove o d
    → lookup d D ≡ some s
    → n + present (lookup 0 D) ≡ 1
    → n + ending o + present (if d == 0 then none else lookup 0 D) ≡ 1
ending_root none d n D s h e r = ground arith
ending_root (some p) d n D s h e r = ground arith

module _ (opens : List DirId) (bound : DirId) (left : ℕ) (q : List FileWorkItem) (n : ℕ)
    (x : ReadyDirectory) (before after : List ReadyDirectory) (t : DirectoryTracker)
    (split_at : t.ready ≡ before ++ (x ∷ after)) (v : Inv opens bound left none t q n) where
  abbrev rest : DirectoryTracker
  rest = record { state = erase x.dir_id t.state; ready = before ++ after }

  sends : (k : DirId) → sent k t.ready ≡ sent k (before ++ after) + (if x.dir_id == k then 1 else 0)
  sends k =
      ap (sent k) split_at
      ∙ ground (
        arith,
        count_if-append (λ r. r.dir_id == k) before (x ∷ after),
        count_if-append (λ r. r.dir_id == k) before after,
      )

  all : Registered t.state x × All (Registered t.state) (before ++ after)
  all =
      All-middle (Registered t.state) before after x
        (subst (All (Registered t.state)) split_at v.registered)

  over :
      (is_open x.dir_id opens ≡ false)
      × (sent x.dir_id (before ++ after) ≡ 0)
      × (kids x.dir_id t.state + waiting x.dir_id q + 0 ≡ 0)
      × IsAbove all.0.0.parent x.dir_id
  over =
      handed_over (is_open x.dir_id opens) (sent x.dir_id (before ++ after))
        (kids x.dir_id t.state + waiting x.dir_id q + 0) bound x.dir_id all.0.0
        (EntryOk-change (is_open x.dir_id opens) bound x.dir_id all.0.1
          (ground (arith, sends x.dir_id)) refl (v.entries x.dir_id))

  children :
      (k : DirId)
      → kids k t.state + waiting k q + 0 ≡ kids k rest.state + waiting k q + one_of x.parent k
  children k =
      let e : child_entry k (lookup x.dir_id t.state) ≡ one_of x.parent k =
        ap (child_entry k) all.0.1 ∙ ap (is_child k) all.0.2 ∙ one_of-is_child x.parent k in
      omega (arith, e, kids-erase k x.dir_id t.state v.unique)

  rest-entries : (k : DirId) → EntryIn opens bound left q n x.parent rest k
  rest-entries k = elim (id-cases x.dir_id k) [
    | inl (e, y) ↦ subst (EntryIn opens bound left q n x.parent rest) e (
        EntryOk-change (is_open x.dir_id opens) bound x.dir_id {sends = 0} {children = 0} {o = none}
          (sym (
            lookup-erase x.dir_id x.dir_id t.state
            ∙ ap (λ c. if c then none else lookup x.dir_id t.state) (id_refl x.dir_id)))
          (sym over.1) (sym (sym (children x.dir_id) ∙ over.2)) (over.0, refl, refl))
    | inr y ↦
        EntryOk-change (is_open k opens) bound k
          (sym (lookup-erase k x.dir_id t.state ∙ ap (λ c. if c then none else lookup k t.state) y))
          (ground (arith, sends k, y)) (children k) (v.entries k)
  ]

  -- The directory is forgotten; its parent, if it has one, is still to be told.
  pub forgotten-Inv : Inv opens bound left x.parent rest q (n + ending x.parent)
  forgotten-Inv = record {
    unique = erase-IsUnique x.dir_id t.state v.unique;
    entries = rest-entries;
    room = λ k. omega (arith, children k, v.room k);
    registered = erase-Registered x.dir_id t.state (before ++ after) over.1 all.1;
    root =
        let above : IsAbove x.parent x.dir_id = subst (λ o. IsAbove o x.dir_id) all.0.2 over.3 in
        ap (λ o. n + ending x.parent + present o) (lookup-erase 0 x.dir_id t.state)
        ∙ ending_root x.parent x.dir_id n t.state all.0.0 above all.0.1 v.root;
  }
