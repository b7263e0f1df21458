-- ===== src/Walk/Links.antt =====
-- What lies behind a symbolic link or a reparse point is never looked at.
use cursedelete.Base.{
  arith, ℕ, zero, suc, ◌≡◌, refl, sym, ap, ◌∙◌, subst, inl, inr, Bool, true, false, Option, some,
  List, [], ◌∷◌, if-elim, if-split, length, All, Text, FilePath, add64, Result, ok, err, ◌>>=◌,
  Result-cases,
}
use mathlib.Core.List.{reverse}
use cursedelete.Paths.{join}
use cursedelete.Entry.{DirId}
use cursedelete.Engine.{EnumEvent, entry, directory_complete, error}
use cursedelete.Walk.{
  RawChild, OpenDir, Host, Walk, Walked, subdirectory, leaf, recurses, send, visit_child,
  visit_children, handle_listing, visit, flush, stream, stream_tree,
}

-- The real subdirectories among the children of a path are inside.
abbrev pub RealChildren : (FilePath → Type 0) → FilePath → List RawChild → Type 0
RealChildren Inside p =
    All (λ c. c.is_dir ≡ true → c.is_reparse_point ≡ false → Inside (join p c.name))

is_real : (c : RawChild) → recurses c ≡ true → (c.is_dir ≡ true) × (c.is_reparse_point ≡ false)
is_real c h = ground (arith, h)

module _ (Inside : FilePath → Type 0) where
  -- A set of paths that is closed under real subdirectories, links left aside.
  abbrev pub IsClosed : Host → Type 0
  IsClosed H =
      (n : ℕ) (p : FilePath) (cs : List RawChild)
      → Inside p
      → H.list_children n p ≡ ok cs
      → RealChildren Inside p cs

  -- Two hosts that agree inside.
  pub record Agree (H K : Host) : Type 0 where
    pub listings : (n : ℕ) (p : FilePath) → Inside p → H.list_children n p ≡ K.list_children n p
    pub cancels : (n : ℕ) → H.is_cancelled n ≡ K.is_cancelled n
    pub channel : (n : ℕ) → H.receives n ≡ K.receives n

  abbrev StaysInside : Walked → Type 0
  StaysInside (ok t) = All (λ o. Inside o.path) t.stack
  StaysInside (err e) = Unit

  StaysInside->>= :
      (m : Walked) (f : Walk → Walked)
      → StaysInside m
      → ((t : Walk) → All (λ o. Inside o.path) t.stack → StaysInside (f t))
      → StaysInside (m >>= f)
  StaysInside->>= (ok t) f h g = g t h
  StaysInside->>= (err e) f h g = tt

  module _ (H : Host) where
    send-StaysInside :
        (e : EnumEvent) (s : Walk) → All (λ o. Inside o.path) s.stack → StaysInside (send H e s)
    unfolding send
    send-StaysInside e s h = if-elim StaysInside (H.receives (length s.events)) _ _ h tt

    visit_child-StaysInside :
        (current : OpenDir) (c : RawChild) (s : Walk)
        → (recurses c ≡ true → Inside (join current.path c.name))
        → All (λ o. Inside o.path) s.stack
        → StaysInside (visit_child H current c s)
    unfolding visit_child
    visit_child-StaysInside current c s real h =
        if-split StaysInside (recurses c) _ _
          (λ y.
            StaysInside->>=
              (send H (entry (subdirectory current c s.dir_ids))
                (record s { dir_ids = add64 s.dir_ids 1 }))
              _ (send-StaysInside _ (record s { dir_ids = add64 s.dir_ids 1 }) h)
              (λ t k. (real y, k)))
          (λ y. send-StaysInside (entry (leaf current c)) s h)

    visit_children-StaysInside :
        (current : OpenDir) (cs : List RawChild) (s : Walk)
        → RealChildren Inside current.path cs
        → All (λ o. Inside o.path) s.stack
        → StaysInside (visit_children H current cs s)
    unfolding visit_children
    visit_children-StaysInside current [] s real h = h
    visit_children-StaysInside current (c ∷ cs) s (rc, real) h =
        StaysInside->>= (visit_child H current c s) _
          (visit_child-StaysInside current c s (λ y. let r = is_real c y in rc r.0 r.1) h)
          (λ t k. visit_children-StaysInside current cs t real k)

    visit-StaysInside :
        (n : ℕ) (current : OpenDir) (s : Walk)
        → IsClosed H
        → Inside current.path
        → All (λ o. Inside o.path) s.stack
        → StaysInside (visit H n current s)
    unfolding visit
    visit-StaysInside n current s closed i h =
        StaysInside->>= _ _
          (elim (Result-cases (H.list_children n current.path)) [
            | inl (cs, e) ↦
                subst (λ l. StaysInside (handle_listing H current l s)) (sym e)
                  (visit_children-StaysInside current cs s (closed n current.path cs i e) h)
            | inr (m, e) ↦
                subst (λ l. StaysInside (handle_listing H current l s)) (sym e)
                  (send-StaysInside (error current.path m) s h)
          ])
          (λ t k. send-StaysInside (directory_complete current.dir_id) t k)

  module _ (H K : Host) (agree : Agree H K) where
    send-same : (e : EnumEvent) (s : Walk) → send H e s ≡ send K e s
    unfolding send
    send-same e s = rw (agree.channel (length s.events)) refl

    visit_child-same :
        (current : OpenDir) (c : RawChild) (s : Walk)
        → visit_child H current c s ≡ visit_child K current c s
    unfolding visit_child
    visit_child-same current c s =
        rw
          (send-same (entry (subdirectory current c s.dir_ids))
            (record s { dir_ids = add64 s.dir_ids 1 }))
          (rw (send-same (entry (leaf current c)) s) refl)

    >>=-same : (m : Walked) (f g : Walk → Walked) → ((t : Walk) → f t ≡ g t) → (m >>= f) ≡ (m >>= g)
    >>=-same (ok t) f g h = h t
    >>=-same (err e) f g h = refl

    visit_children-same :
        (current : OpenDir) (cs : List RawChild) (s : Walk)
        → visit_children H current cs s ≡ visit_children K current cs s
    unfolding visit_children
    visit_children-same current [] s = refl
    visit_children-same current (c ∷ cs) s =
        ap (λ m. m >>= λ t. visit_children H current cs t) (visit_child-same current c s)
        ∙ >>=-same (visit_child K current c s) _ _ (visit_children-same current cs)

    handle_listing-same :
        (current : OpenDir) (l : Result (List RawChild) Text) (s : Walk)
        → handle_listing H current l s ≡ handle_listing K current l s
    handle_listing-same current (ok cs) s = visit_children-same current cs s
    handle_listing-same current (err m) s = send-same (error current.path m) s

    visit-same :
        (n : ℕ) (current : OpenDir) (s : Walk)
        → Inside current.path
        → visit H n current s ≡ visit K n current s
    unfolding visit
    visit-same n current s i =
        ap (λ l. handle_listing H current l s >>= λ t. send H (directory_complete current.dir_id) t)
          (agree.listings n current.path i)
        ∙ ap (λ m. m >>= λ t. send H (directory_complete current.dir_id) t)
            (handle_listing-same current (K.list_children n current.path) s)
        ∙ >>=-same (handle_listing K current (K.list_children n current.path) s) _ _
            (send-same (directory_complete current.dir_id))

    flush-same : (os : List OpenDir) (s : Walk) → flush H os s ≡ flush K os s
    unfolding flush
    flush-same [] s = refl
    flush-same (o ∷ os) s =
        ap (λ m. m >>= λ t. flush H os t) (send-same (directory_complete o.dir_id) s)
        ∙ >>=-same (send K (directory_complete o.dir_id) s) _ _ (flush-same os)

    module _ (closed : IsClosed H) where
      stream-same :
          (fuel n : ℕ) (es : List EnumEvent) (i : DirId) (os : List OpenDir)
          → All (λ o. Inside o.path) os
          → stream H fuel n (record { events = es; dir_ids = i; stack = os })
            ≡ stream K fuel n (record { events = es; dir_ids = i; stack = os })
      unfolding stream
      stream-same zero n es i os h = refl
      stream-same (suc f) n es i [] h = refl
      stream-same (suc f) n es i (o ∷ os) (ho, h) =
          subst (λ c. Round H (H.is_cancelled n) (visit H n o s) ≡ Round K c (visit K n o s))
            (agree.cancels n)
            (subst (λ m. Round H (H.is_cancelled n) (visit H n o s) ≡ Round K (H.is_cancelled n) m)
              (visit-same n o s ho)
              (rounds (H.is_cancelled n) (visit H n o s) (visit-StaysInside H n o s closed ho h)
                (λ u k. stream-same f (suc n) u.events u.dir_ids u.stack k)))
        where
          s : Walk
          s = record { events = es; dir_ids = i; stack = os }

          Round : Host → Bool → Walked → Option Walked
          Round L c m = elim c [
            | true ↦ some (flush L (reverse (o ∷ os)) (record s { stack = o ∷ os }))
            | false ↦ elim m [ err e ↦ some (err e) | ok u ↦ stream L f (suc n) u ]
          ]

          rounds :
              (c : Bool) (m : Walked)
              → StaysInside m
              → ((u : Walk)
                  → All (λ o. Inside o.path) u.stack
                  → stream H f (suc n) u ≡ stream K f (suc n) u)
              → Round H c m ≡ Round K c m
          rounds true m k g = ap some (flush-same (reverse (o ∷ os)) (record s { stack = o ∷ os }))
          rounds false (ok u) k g = g u k
          rounds false (err e) k g = refl

-- The walk is a function of what lies inside: two hosts that agree on a set of paths which contains
-- the root and, with a path, its real subdirectories, are walked alike. So nothing that lies only
-- behind links has any effect on it.
pub stream_tree_inside :
    (Inside : FilePath → Type 0) (H K : Host) (fuel : ℕ) (root : FilePath)
    → Inside root
    → IsClosed Inside H
    → Agree Inside H K
    → stream_tree H fuel root ≡ stream_tree K fuel root
unfolding stream_tree
stream_tree_inside Inside H K fuel root here closed agree =
    stream-same Inside H K agree closed fuel 0 [] 1 (record { dir_id = 0; path = root } ∷ [])
      (here, tt)
