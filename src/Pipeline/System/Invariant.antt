-- ===== src/Pipeline/System/Invariant.antt =====
-- What holds between the rounds of a run: each directory waits for exactly its registered children
-- and its queued files, and is in the channel once it waits for nothing.
use cursedelete.Base.{
  ℕ, ◌+◌, ◌<◌, ◌≡◌, refl, sym, ap, ◌∙◌, subst, ◌⊎◌, inl, inr, Bool, true, false, not, ◌&&◌, Option,
  none, some, List, [], ◌∷◌, ◌++◌, arith, ◌==◌, if◌then◌else◌, if-elim, Bool-cases, Option-cases,
  any, count_if, count_if-append, All, All-append, i64_limit,
}
use cursedelete.Base.Dict.{Dict, lookup}
use cursedelete.Entry.{DirId}
use cursedelete.Tracker.{
  DirState, ReadyDirectory, DirectoryTracker, ready_of, complete_child, resolve_child,
  is_ready_resolved,
}
use cursedelete.Tracker.Once.{sent}
use cursedelete.Tracker.Counts.{kids, IsUnique}
use cursedelete.Tracker.Handing.{Handed, complete_child-Handed, finished}
use cursedelete.Pipeline.Delete.{FileWorkItem}

-- The directories that are being listed.
abbrev pub is_open : DirId → List DirId → Bool
is_open d = any (λ k. k == d)

-- The queued files of a directory.
abbrev pub waiting : DirId → List FileWorkItem → ℕ
waiting d = count_if (λ i. i.parent_dir_id == d)

-- Ids grow downwards, and only the root has no parent.
abbrev pub IsAbove : Option DirId → DirId → Type 0
IsAbove none d = d ≡ 0
IsAbove (some p) d = p < d

-- The entry of `d`, where `children` are still to be settled and it was sent `sends` times.
abbrev pub EntryOk : Bool → ℕ → ℕ → DirId → DirId → Option DirState → Type 0
EntryOk opened sends children bound d none = (opened ≡ false) × (sends ≡ 0) × (children ≡ 0)
EntryOk opened sends children bound d (some s) =
    (s.pending ≡ children)
    × (s.finalised ≡ (s.enumeration_done && (s.pending == 0)))
    × (opened ≡ not s.enumeration_done)
    × (sends ≡ (if s.finalised then 1 else 0))
    × (d < bound)
    × IsAbove s.parent d

abbrev pub present : Option DirState → ℕ
present none = 0
present (some s) = 1

-- A directory in the channel is registered, with the same parent.
abbrev pub Registered : Dict DirState → ReadyDirectory → Type 0
Registered D x = (s : DirState) × (lookup x.dir_id D ≡ some s) × (s.parent ≡ x.parent)

-- The child of `p` that is being settled.
abbrev pub one_of : Option DirId → DirId → ℕ
one_of none d = 0
one_of (some p) d = if p == d then 1 else 0

-- `left` events are to come, the ids from `bound` on are unused, and a child of `settling` is no
-- longer registered or queued but not reported either.
pub record Inv (opens : List DirId) (bound : DirId) (left : ℕ) (settling : Option DirId)
    (t : DirectoryTracker) (q : List FileWorkItem) (root_done : ℕ) : Type 0 where
  pub unique : IsUnique t.state
  pub entries :
      (d : DirId)
      → EntryOk
          (is_open d opens)
          (sent d t.ready)
          (kids d t.state + waiting d q + one_of settling d)
          bound
          d
          (lookup d t.state)
  pub room : (d : DirId) → kids d t.state + waiting d q + one_of settling d + left < i64_limit
  pub registered : All (Registered t.state) t.ready
  pub root : root_done + present (lookup 0 t.state) ≡ 1

module _ {ℓ κ μ} {A : Type ℓ} where
  pub All-map :
      (P : A → Type κ) (Q : A → Type μ) (xs : List A) → ((x : A) → P x → Q x) → All P xs → All Q xs
  All-map P Q [] f h = tt
  All-map P Q (x ∷ xs) f (hx, hs) = (f x hx, All-map P Q xs f hs)

pub id-cases : (p d : DirId) → ((p ≡ d) × ((p == d) ≡ true)) ⊎ ((p == d) ≡ false)
id-cases p d = elim (Bool-cases (p == d)) [ inl y ↦ inl (ground arith, y) | inr y ↦ inr y ]

sent-handed :
    (d p : DirId) (s : DirState) (f : Bool) (R : List ReadyDirectory)
    → sent d (if f then R ++ (ready_of p s ∷ []) else R)
      ≡ sent d R + (if f then (if p == d then 1 else 0) else 0)
sent-handed d p s false R = omega arith
sent-handed d p s true R =
    ground (arith, count_if-append (λ r. r.dir_id == d) R (ready_of p s ∷ []))

-- The entry of the parent, when a child is settled.
EntryOk-resolve_child :
    (opened : Bool) (sends children left : ℕ) (bound d : DirId) (b : Bool) (s : DirState)
    → children + 1 + left < i64_limit
    → EntryOk opened sends (children + 1) bound d (some s)
    → let f = is_ready_resolved (some (resolve_child b s)) in
      EntryOk opened
        (sends + (if f then 1 else 0))
        children
        bound
        d
        (some (finished f (resolve_child b s)))
EntryOk-resolve_child opened sends children left bound d b s room (pe, fi, op, se, lt, ab) =
    (ground arith, ground arith, op, ground arith, lt, ab)

pub EntryOk-change :
    (opened : Bool) (bound d : DirId) {sends sends' children children' : ℕ} {o o' : Option DirState}
    → o ≡ o'
    → sends ≡ sends'
    → children ≡ children'
    → EntryOk opened sends children bound d o
    → EntryOk opened sends' children' bound d o'
EntryOk-change opened bound d {sends} {sends'} {children} {children'} {o} {o'} eo es ec h =
    subst (λ x. EntryOk opened sends' children' bound d x) eo
      (subst (λ x. EntryOk opened x children' bound d o) es
        (subst (λ x. EntryOk opened sends x bound d o) ec h))

pub id_refl : (p : DirId) → (p == p) ≡ true
id_refl p = ground arith

module _ (opens : List DirId) (bound : DirId) (left : ℕ) (q : List FileWorkItem) (n : ℕ) where
  -- The invariant's clause on the entry of `d`.
  abbrev pub EntryIn : Option DirId → DirectoryTracker → DirId → Type 0
  EntryIn settling t d =
      EntryOk (is_open d opens) (sent d t.ready) (kids d t.state + waiting d q + one_of settling d)
        bound d (lookup d t.state)

module _ (opens opens' : List DirId) (bound : DirId) (left left' : ℕ)
    (settling settling' : Option DirId) (q : List FileWorkItem) (n : ℕ) (p : DirId) (s r : DirState)
    (f : Bool) (t u : DirectoryTracker) (v : Inv opens bound left settling t q n)
    (here : lookup p t.state ≡ some s) (same : r.parent ≡ s.parent) (h : Handed p r f t u)
    (others : (d : DirId)
      → (p == d) ≡ false
      → (is_open d opens' ≡ is_open d opens) × (one_of settling d ≡ one_of settling' d))
    (room : (d : DirId) → kids d t.state + waiting d q + one_of settling' d + left' < i64_limit)
    (entry : EntryOk
      (is_open p opens')
      (sent p t.ready + (if f then 1 else 0))
      (kids p t.state + waiting p q + one_of settling' p)
      bound
      p
      (some (finished f r))) where
  at_handed : EntryIn opens' bound left' q n settling' u p
  at_handed =
      let (en, re, ka, un) = h in
      EntryOk-change (is_open p opens') bound p
        (sym (en p ∙ ap (λ c. if c then some (finished f r) else lookup p t.state) (id_refl p)))
        (sym (ap (sent p) re ∙ sent-handed p p r f t.ready ∙ ground arith)) (ground (arith, ka p))
        entry

  elsewhere : (d : DirId) → (p == d) ≡ false → EntryIn opens' bound left' q n settling' u d
  elsewhere d y =
      let (en, re, ka, un) = h in
      let (op, on) = others d y in
      subst
        (λ o.
          EntryOk o (sent d u.ready) (kids d u.state + waiting d q + one_of settling' d) bound d
            (lookup d u.state))
        (sym op)
        (EntryOk-change (is_open d opens) bound d
          (sym (en d ∙ ap (λ c. if c then some (finished f r) else lookup d t.state) y))
          (sym (ap (sent d) re ∙ sent-handed d p r f t.ready ∙ ground (arith, y)))
          (omega (arith, ka d, on)) (v.entries d))

  handed-entries : (d : DirId) → EntryIn opens' bound left' q n settling' u d
  handed-entries d = elim (id-cases p d) [
    | inl (e, y) ↦ subst (EntryIn opens' bound left' q n settling' u) e at_handed
    | inr y ↦ elsewhere d y
  ]

  still-Registered : (x : ReadyDirectory) → Registered t.state x → Registered u.state x
  still-Registered x (s1, e, pa) =
      let (en, re, ka, un) = h in
      elim (id-cases p x.dir_id) [
        | inl (e1, y) ↦ (
          finished f r,
          en x.dir_id ∙ ap (λ c. if c then some (finished f r) else lookup x.dir_id t.state) y,
          ground (arith, here, e, e1, pa, same),
        )
        | inr y ↦ (
          s1,
          en x.dir_id ∙ ap (λ c. if c then some (finished f r) else lookup x.dir_id t.state) y ∙ e,
          pa,
        )
      ]

  handed-registered : All (Registered u.state) u.ready
  handed-registered =
      let (en, re, ka, un) = h in
      let old =
        All-map (Registered t.state) (Registered u.state) t.ready still-Registered v.registered in
      subst (All (Registered u.state)) (sym re) (
        if-elim (All (Registered u.state)) f _ _
          (All-append (Registered u.state) t.ready (ready_of p r ∷ []) old (
            (
              finished f r,
              en p ∙ ap (λ c. if c then some (finished f r) else lookup p t.state) (id_refl p),
              refl,
            ),
            tt,
          ))
          old)

  -- A change of one entry keeps the invariant, if it keeps that entry's clause.
  pub Handed-Inv : Inv opens' bound left' settling' u q n
  Handed-Inv =
      let (en, re, ka, un) = h in
      record {
        unique = un v.unique;
        entries = handed-entries;
        room = λ d. omega (arith, ka d, room d);
        registered = handed-registered;
        root = ground (arith, v.root, en 0, here);
      }

module _ (opens : List DirId) (bound : DirId) (left : ℕ) (q : List FileWorkItem) (n : ℕ) where
  settled-Inv :
      (p : DirId) (b : Bool) (s : DirState) (t : DirectoryTracker)
      → Inv opens bound left (some p) t q n
      → lookup p t.state ≡ some s
      → Inv opens bound left none (complete_child p b t) q n
  settled-Inv p b s t v here =
      let r = resolve_child b s in
      let f = is_ready_resolved (some r) in
      Handed-Inv opens opens bound left left (some p) none q n p s r f t (complete_child p b t) v
        here refl (complete_child-Handed p b s t here) (λ d y. (refl, ground (arith, y)))
        (λ d. omega (arith, v.room d))
        (EntryOk-change (is_open p opens) bound p {sends = sent p t.ready + (if f then 1 else 0)}
          {children = kids p t.state + waiting p q} {children' = kids p t.state + waiting p q + 0}
          {o = some (finished f r)} refl refl (omega arith)
          (EntryOk-resolve_child (is_open p opens) (sent p t.ready) (kids p t.state + waiting p q)
            left bound p b s (ground (arith, v.room p))
            (EntryOk-change (is_open p opens) bound p here refl (ground arith) (v.entries p))))

  -- Reporting a child to its parent makes up for the child that is gone.
  pub complete_child-Inv :
      (p : DirId) (b : Bool) (t : DirectoryTracker)
      → Inv opens bound left (some p) t q n
      → Inv opens bound left none (complete_child p b t) q n
  complete_child-Inv p b t v = elim (Option-cases (lookup p t.state)) [
    | inl e ↦ absurd (missing e)
    | inr (s, e) ↦ settled-Inv p b s t v e
  ]
    where
      missing : lookup p t.state ≡ none → ⊥
      missing e =
          let w : EntryOk (is_open p opens) (sent p t.ready)
              (kids p t.state + waiting p q + one_of (some p) p) bound p none =
            EntryOk-change (is_open p opens) bound p e refl refl (v.entries p) in
          ground (arith, w)
