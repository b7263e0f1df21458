-- ===== src/Walk/Ends.antt =====
-- A walk over a finite tree is over after finitely many rounds.
use cursedelete.Base.{
  not, ◌&&◌, ℕ, zero, suc, ◌+◌, ◌-◌, ◌≤◌, ◌<◌, ◌≡◌, refl, sym, subst, inl, inr, Bool, true, false,
  some, List, [], ◌∷◌, arith, if◌then◌else◌, if-elim, if-split, length, FilePath, add64, ok, err,
  ◌>>=◌, Result-cases,
}
use mathlib.Core.List.{reverse}
use cursedelete.Paths.{join}
use cursedelete.Entry.{DirId}
use cursedelete.Engine.{EnumEvent, entry, directory_complete, error}
use cursedelete.Walk.{
  RawChild, OpenDir, Host, Walk, Walked, subdirectory, recurses, send, visit_child, visit_children,
  handle_listing, visit, flush, stream, stream_tree,
}

module _ (weight : FilePath → ℕ) where
  -- What the subdirectories among the children weigh.
  abbrev pub children_weight : FilePath → List RawChild → ℕ
  children_weight p [] = 0
  children_weight p (c ∷ cs) =
      (if c.is_dir && not c.is_reparse_point then weight (join p c.name) else 0)
      + children_weight p cs

  -- Each directory weighs more than its subdirectories together, in whichever round it is listed.
  pub record IsFinite (H : Host) : Type 0 where
    pub positive : (p : FilePath) → 1 ≤ weight p
    pub listed :
        (n : ℕ) (p : FilePath) (cs : List RawChild)
        → H.list_children n p ≡ ok cs
        → children_weight p cs < weight p

  stack_weight : List OpenDir → ℕ
  stack_weight [] = 0
  stack_weight (o ∷ os) = weight o.path + stack_weight os

  -- A walk that goes on has so much on its stack.
  abbrev Weighs : ℕ → Walked → Type 0
  Weighs k (ok t) = stack_weight t.stack ≤ k
  Weighs k (err e) = Unit

  Weighs->>= :
      (j k : ℕ) (m : Walked) (f : Walk → Walked)
      → Weighs j m
      → ((t : Walk) → stack_weight t.stack ≤ j → Weighs k (f t))
      → Weighs k (m >>= f)
  Weighs->>= j k (ok t) f h g = g t h
  Weighs->>= j k (err e) f h g = tt

  module _ (H : Host) where
    send-Weighs :
        (k : ℕ) (e : EnumEvent) (s : Walk) → stack_weight s.stack ≤ k → Weighs k (send H e s)
    unfolding send
    send-Weighs k e s h = if-elim (Weighs k) (H.receives (length s.events)) _ _ h tt

    visit_child-Weighs :
        (k : ℕ) (current : OpenDir) (c : RawChild) (s : Walk)
        → stack_weight s.stack + (if recurses c then weight (join current.path c.name) else 0) ≤ k
        → Weighs k (visit_child H current c s)
    unfolding visit_child stack_weight
    visit_child-Weighs k current c s h =
        let w = weight (join current.path c.name) in
        if-split (Weighs k) (recurses c) _ _
          (λ y.
            Weighs->>= (stack_weight s.stack) k
              (send H (entry (subdirectory current c s.dir_ids))
                (record s { dir_ids = add64 s.dir_ids 1 }))
              _
              (send-Weighs (stack_weight s.stack) _ (record s { dir_ids = add64 s.dir_ids 1 })
                (omega arith))
              (λ t le. ground (arith, y)))
          (λ y. send-Weighs k _ s (ground (arith, y)))

    visit_children-Weighs :
        (k : ℕ) (current : OpenDir) (cs : List RawChild) (s : Walk)
        → stack_weight s.stack + children_weight current.path cs ≤ k
        → Weighs k (visit_children H current cs s)
    unfolding visit_children
    visit_children-Weighs k current [] s h = omega arith
    visit_children-Weighs k current (c ∷ cs) s h =
        let w = (if recurses c then weight (join current.path c.name) else 0) in
        Weighs->>= (stack_weight s.stack + w) k (visit_child H current c s) _
          (visit_child-Weighs (stack_weight s.stack + w) current c s (omega arith))
          (λ t le. visit_children-Weighs k current cs t (omega arith))

    handle_listing-Weighs :
        (f : IsFinite H) (n : ℕ) (current : OpenDir) (s : Walk) (k : ℕ)
        → stack_weight s.stack + weight current.path ≤ suc k
        → Weighs k (handle_listing H current (H.list_children n current.path) s)
    handle_listing-Weighs f n current s k h = elim (Result-cases (H.list_children n current.path)) [
      | inl (cs, e) ↦
          subst (λ l. Weighs k (handle_listing H current l s)) (sym e)
            (visit_children-Weighs k current cs s (omega (arith, f.listed n current.path cs e)))
      | inr (m, e) ↦
          subst (λ l. Weighs k (handle_listing H current l s)) (sym e)
            (send-Weighs k (error current.path m) s (omega (arith, f.positive current.path)))
    ]

    visit-Weighs :
        (f : IsFinite H) (n : ℕ) (current : OpenDir) (s : Walk) (k : ℕ)
        → stack_weight s.stack + weight current.path ≤ suc k
        → Weighs k (visit H n current s)
    unfolding visit
    visit-Weighs f n current s k h =
        Weighs->>= k k (handle_listing H current (H.list_children n current.path) s) _
          (handle_listing-Weighs f n current s k h)
          (λ t le. send-Weighs k (directory_complete current.dir_id) t le)

    stream-ends :
        (f : IsFinite H) (fuel n : ℕ) (es : List EnumEvent) (i : DirId) (os : List OpenDir)
        → stack_weight os < fuel
        → (r : Walked) × (stream H fuel n (record { events = es; dir_ids = i; stack = os })
            ≡ some r)
    unfolding stream stack_weight
    stream-ends f zero n es i os h = absurd (omega arith)
    stream-ends f (suc k) n es i [] h = (_, refl)
    stream-ends f (suc k) n es i (o ∷ os) h =
        rounds (H.is_cancelled n) (visit H n o s)
          (visit-Weighs f n o s (stack_weight os + weight o.path - 1)
            (omega (arith, f.positive o.path)))
          (λ u le.
            stream-ends f k (suc n) u.events u.dir_ids u.stack (omega (arith, f.positive o.path)))
      where
        s : Walk
        s = record { events = es; dir_ids = i; stack = os }

        rounds :
            (c : Bool) (m : Walked)
            → Weighs (stack_weight os + weight o.path - 1) m
            → ((u : Walk)
                → stack_weight u.stack ≤ stack_weight os + weight o.path - 1
                → (r : Walked) × (stream H k (suc n) u ≡ some r))
            → (r : Walked) × ((elim c [
              | true ↦ some (flush H (reverse (o ∷ os)) (record s { stack = o ∷ os }))
              | false ↦ elim m [ err e ↦ some (err e) | ok u ↦ stream H k (suc n) u ]
            ])
                ≡ some r)
        rounds true m le g = (_, refl)
        rounds false (ok u) le g = g u le
        rounds false (err e) le g = (_, refl)

-- Over a finite tree the walk is over within as many rounds as the root weighs, and one more.
pub stream_tree_ends :
    (weight : FilePath → ℕ) (H : Host) (root : FilePath) (fuel : ℕ)
    → IsFinite weight H
    → weight root < fuel
    → (r : Walked) × (stream_tree H fuel root ≡ some r)
unfolding stream_tree stack_weight
stream_tree_ends weight H root fuel f h =
    stream-ends weight H f fuel 0 [] 1 (record { dir_id = 0; path = root } ∷ []) (omega arith)
