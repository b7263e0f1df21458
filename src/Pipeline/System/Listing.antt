-- ===== src/Pipeline/System/Listing.antt =====
-- How the listing of directories keeps the invariant: one that is found is registered, and one that
-- is listed to its end is no longer open.
use cursedelete.Base.{
  ℕ, suc, ◌+◌, ◌≤◌, ◌<◌, ◌≡◌, refl, sym, ap, ◌∙◌, subst, inl, inr, Bool, true, false, not, ◌&&◌,
  ◌||◌, Option, none, some, List, [], ◌∷◌, arith, ◌==◌, if◌then◌else◌, Option-cases, FilePath,
}
use cursedelete.Base.Dict.{Dict, lookup, modify, insert, lookup-insert}
use cursedelete.Entry.{DirId}
use cursedelete.Tracker.{
  DirState, ReadyDirectory, DirectoryTracker, bump_pending, add_pending, register_leaf_child,
  fresh_dir, register_directory, mark_done, mark_enumeration_done,
}
use cursedelete.Tracker.Once.{sent}
use cursedelete.Tracker.Counts.{kids, kids-insert, insert-IsUnique}
use cursedelete.Tracker.Handing.{mark_enumeration_done-Handed, finished}
use cursedelete.Pipeline.Delete.{FileWorkItem}
use cursedelete.Pipeline.System.Invariant.{
  is_open, waiting, EntryOk, EntryOk-change, EntryIn, Registered, one_of, Inv, All-map, id-cases,
  id_refl, Handed-Inv,
}
use cursedelete.Pipeline.System.Moves.{register_leaf_child-Inv}

-- The open directories without one that is done.
unfoldable pub without : DirId → List DirId → List DirId
without d [] = []
without d (k ∷ ks) = let rest = without d ks in if k == d then rest else k ∷ rest

pub is_open-without :
    (j d : DirId) (ks : List DirId)
    → is_open j (without d ks) ≡ (if d == j then false else is_open j ks)
unfolding without
is_open-without j d [] = ground arith
is_open-without j d (k ∷ ks) = ground (arith, is_open-without j d ks)

EntryOk-mark_done :
    (sends children : ℕ) (bound d : DirId) (s : DirState)
    → EntryOk true sends children bound d (some s)
    → let f = (s.pending == 0) && not s.finalised in
      EntryOk false
        (sends + (if f then 1 else 0))
        children
        bound
        d
        (some (finished f (mark_done s)))
EntryOk-mark_done sends children bound d s (pe, fi, op, se, lt, ab) =
    (pe, ground arith, ground arith, ground arith, lt, ab)

module _ (opens : List DirId) (bound : DirId) (left : ℕ) (q : List FileWorkItem) (n : ℕ) (p : DirId)
    (t : DirectoryTracker) (opened : is_open p opens ≡ true)
    (v : Inv opens bound (suc left) none t q n) where
  marked-Inv :
      (s : DirState)
      → lookup p t.state ≡ some s
      → Inv (without p opens) bound left none (mark_enumeration_done p t) q n
  marked-Inv s here =
      let f = (s.pending == 0) && not s.finalised in
      Handed-Inv opens (without p opens) bound (suc left) left none none q n p s (mark_done s) f t
        (mark_enumeration_done p t) v here refl (mark_enumeration_done-Handed p s t here)
        (λ d y.
          (is_open-without d p opens ∙ ap (λ c. if c then false else is_open d opens) y, refl))
        (λ d. omega (arith, v.room d))
        (subst
          (λ o.
            EntryOk o (sent p t.ready + (if f then 1 else 0)) (kids p t.state + waiting p q + 0)
              bound p (some (finished f (mark_done s))))
          (sym (
            is_open-without p p opens ∙ ap (λ c. if c then false else is_open p opens) (id_refl p)))
          (EntryOk-mark_done (sent p t.ready) (kids p t.state + waiting p q + 0) bound p s (
            subst
              (λ o. EntryOk o (sent p t.ready) (kids p t.state + waiting p q + 0) bound p (some s))
              opened (EntryOk-change (is_open p opens) bound p here refl refl (v.entries p)))))

  -- The end of a listing.
  pub mark_enumeration_done-Inv :
      Inv (without p opens) bound left none (mark_enumeration_done p t) q n
  mark_enumeration_done-Inv = elim (Option-cases (lookup p t.state)) [
    | inl e ↦ absurd (missing e)
    | inr (s, e) ↦ marked-Inv s e
  ]
    where
      missing : lookup p t.state ≡ none → ⊥
      missing e =
          let w : EntryOk (is_open p opens) (sent p t.ready) (kids p t.state + waiting p q + 0)
              bound p none =
            EntryOk-change (is_open p opens) bound p e refl refl (v.entries p) in
          ground (arith, w, opened)

insert-modify :
    (d p : DirId) (f : DirState → DirState) (s : DirState) (D : Dict DirState)
    → (d == p) ≡ false
    → modify p f (insert d s D) ≡ insert d s (modify p f D)
unfolding insert modify
insert-modify d p f s [] y = ground (arith, y)
insert-modify d p f s ((j, r) ∷ D) y = ground (arith, y, insert-modify d p f s D y)

EntryOk-wider :
    (opened : Bool) (sends children bound wider d : ℕ) (o : Option DirState)
    → bound ≤ wider
    → EntryOk opened sends children bound d o
    → EntryOk opened sends children wider d o
EntryOk-wider opened sends children bound wider d none le h = h
EntryOk-wider opened sends children bound wider d (some s) le (pe, fi, op, se, lt, ab) =
    (pe, fi, op, se, omega arith, ab)

absent-EntryOk :
    (opened : Bool) (sends children bound d : ℕ) (o : Option DirState)
    → bound ≤ d
    → EntryOk opened sends children bound d o
    → (o ≡ none) × (sends ≡ 0) × (children ≡ 0)
absent-EntryOk opened sends children bound d none le (op, se, ch) = (refl, se, ch)
absent-EntryOk opened sends children bound d (some s) le (pe, fi, op, se, lt, ab) =
    absurd (omega arith)

module _ (opens : List DirId) (bound : DirId) (left : ℕ) (q : List FileWorkItem) (n : ℕ)
    (d p : DirId) (path : FilePath) (t : DirectoryTracker) (new_id : bound ≤ d) (above : p < d)
    (v : Inv opens bound left (some p) t q n) where
  abbrev fresh : DirState
  fresh = fresh_dir (some p) path

  abbrev inserted : DirectoryTracker
  inserted = record t { state = insert d fresh t.state }

  absent :
      (lookup d t.state ≡ none)
      × (sent d t.ready ≡ 0)
      × (kids d t.state + waiting d q + one_of (some p) d ≡ 0)
  absent =
      absent-EntryOk (is_open d opens) (sent d t.ready)
        (kids d t.state + waiting d q + one_of (some p) d) bound d (lookup d t.state) new_id
        (v.entries d)

  found : (k : DirId) → lookup k inserted.state ≡ (if d == k then some fresh else lookup k t.state)
  found k = lookup-insert k d fresh t.state

  children :
      (k : DirId)
      → kids k inserted.state + waiting k q + 0 ≡ kids k t.state + waiting k q + one_of (some p) k
  children k = ground (arith, kids-insert k d fresh t.state absent.0)

  inserted-entries : (k : DirId) → EntryIn (d ∷ opens) (suc d) left q n none inserted k
  inserted-entries k = elim (id-cases d k) [
    | inl (e, y) ↦ subst (EntryIn (d ∷ opens) (suc d) left q n none inserted) e (
        EntryOk-change (is_open d (d ∷ opens)) (suc d) d {sends = 0} {children = 0} {o = some fresh}
          (sym (found d ∙ ap (λ c. if c then some fresh else lookup d t.state) (id_refl d)))
          (sym absent.1) (sym (children d ∙ absent.2))
          (refl, refl, ground arith, refl, omega arith, above))
    | inr y ↦
        subst
          (λ o.
            EntryOk o (sent k t.ready) (kids k inserted.state + waiting k q + 0) (suc d) k
              (lookup k inserted.state))
          (ap (λ c. c || is_open k opens) (sym y))
          (EntryOk-change (is_open k opens) (suc d) k
            (sym (found k ∙ ap (λ c. if c then some fresh else lookup k t.state) y)) refl
            (sym (children k))
            (EntryOk-wider (is_open k opens) (sent k t.ready)
              (kids k t.state + waiting k q + one_of (some p) k) bound (suc d) k (lookup k t.state)
              (omega arith) (v.entries k)))
  ]

  inserted-Registered : (x : ReadyDirectory) → Registered t.state x → Registered inserted.state x
  inserted-Registered x (s, e, pa) = elim (id-cases d x.dir_id) [
    | inl (i, y) ↦ absurd (ground (arith, absent.0, e, i))
    | inr y ↦
        (s, found x.dir_id ∙ ap (λ c. if c then some fresh else lookup x.dir_id t.state) y ∙ e, pa)
  ]

  inserted-Inv : Inv (d ∷ opens) (suc d) left none inserted q n
  inserted-Inv = record {
    unique = insert-IsUnique d fresh t.state v.unique;
    entries = inserted-entries;
    room = λ k. omega (arith, children k, v.room k);
    registered =
        All-map (Registered t.state) (Registered inserted.state) t.ready inserted-Registered
          v.registered;
    root = ground (arith, v.root, found 0);
  }

-- A directory that is found is registered and open.
pub register_directory-Inv :
    (opens : List DirId) (bound : DirId) (left : ℕ) (q : List FileWorkItem) (n : ℕ) (d p : DirId)
    (path : FilePath) (t : DirectoryTracker)
    → is_open p opens ≡ true
    → bound ≤ d
    → p < d
    → Inv opens bound (suc left) none t q n
    → Inv (d ∷ opens) (suc d) left none (register_directory d (some p) path t) q n
unfolding register_directory add_pending register_leaf_child
register_directory-Inv opens bound left q n d p path t op le lt v =
    let fresh = fresh_dir (some p) path in
    subst (λ D. Inv (d ∷ opens) (suc d) left none (record t { state = D }) q n)
      (sym (insert-modify d p (bump_pending 1) fresh t.state (ground arith)))
      (inserted-Inv opens bound left q n d p path (register_leaf_child p t) le lt
        (register_leaf_child-Inv opens bound left q n p t op v))
