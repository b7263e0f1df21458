-- ===== src/Walk/Opens.antt =====
-- What is open after a part of the events of a walk.
use cursedelete.Base.{
  suc, ◌+◌, ◌≤◌, ◌<◌, ◌≡◌, refl, sym, ap, ◌∙◌, subst, ◌⊎◌, inl, inr, true, false, ◌||◌, some, List,
  [], ◌∷◌, ◌++◌, arith, ◌==◌, if◌then◌else◌, length, length-append, All, i64_limit,
}
use cursedelete.Entry.{DirId, DiscoveredEntry, is_dir}
use cursedelete.Engine.{EnumEvent, entry, directory_complete, error}
use cursedelete.Pipeline.System.Invariant.{is_open, id-cases, id_refl}
use cursedelete.Pipeline.System.Listing.{without, is_open-without}
use cursedelete.Pipeline.System.Keeping.{Protocol}

-- `Protocol` up to a point where `opens'` are open and the ids from `bound'` on unused.
abbrev pub ProtocolTo : List DirId → DirId → List EnumEvent → List DirId → DirId → Type 0
ProtocolTo opens bound [] opens' bound' = (opens ≡ opens') × (bound ≡ bound')
ProtocolTo opens bound (entry e ∷ es) opens' bound' =
    ((d : DirId) × (p : DirId) × (is_dir e ≡ true)
      × (e.dir_id ≡ some d)
      × (e.parent_dir_id ≡ some p)
      × (is_open p opens ≡ true)
      × (bound ≤ d)
      × (p < d)
      × ProtocolTo (d ∷ opens) (suc d) es opens' bound')
    ⊎ ((p : DirId) × (is_dir e ≡ false)
        × (e.parent_dir_id ≡ some p)
        × (is_open p opens ≡ true)
        × ProtocolTo opens bound es opens' bound')
ProtocolTo opens bound (directory_complete d ∷ es) opens' bound' =
    (is_open d opens ≡ true) × ProtocolTo (without d opens) bound es opens' bound'
ProtocolTo opens bound (error path message ∷ es) opens' bound' =
    ProtocolTo opens bound es opens' bound'

ProtocolTo-append :
    (opens : List DirId) (bound : DirId) (es fs : List EnumEvent) (o o' : List DirId) (b b' : DirId)
    → ProtocolTo opens bound es o b
    → ProtocolTo o b fs o' b'
    → ProtocolTo opens bound (es ++ fs) o' b'
ProtocolTo-append opens bound [] fs o o' b b' (eo, eb) k =
    subst (λ x. ProtocolTo x bound fs o' b') (sym eo)
      (subst (λ x. ProtocolTo o x fs o' b') (sym eb) k)
ProtocolTo-append opens bound (entry e ∷ es) fs o o' b b' (inl (d, p, y, di, pa, op, le, lt, rest))
      k =
    inl (d, p, y, di, pa, op, le, lt, ProtocolTo-append (d ∷ opens) (suc d) es fs o o' b b' rest k)
ProtocolTo-append opens bound (entry e ∷ es) fs o o' b b' (inr (p, y, pa, op, rest)) k =
    inr (p, y, pa, op, ProtocolTo-append opens bound es fs o o' b b' rest k)
ProtocolTo-append opens bound (directory_complete d ∷ es) fs o o' b b' (op, rest) k =
    (op, ProtocolTo-append (without d opens) bound es fs o o' b b' rest k)
ProtocolTo-append opens bound (error path message ∷ es) fs o o' b b' rest k =
    ProtocolTo-append opens bound es fs o o' b b' rest k

pub ProtocolTo-ended :
    (opens : List DirId) (bound : DirId) (es : List EnumEvent) (b : DirId)
    → ProtocolTo opens bound es [] b
    → Protocol opens bound es
ProtocolTo-ended opens bound [] b (eo, eb) = eo
ProtocolTo-ended opens bound (entry e ∷ es) b (inl (d, p, y, di, pa, op, le, lt, rest)) =
    inl (d, p, y, di, pa, op, le, lt, ProtocolTo-ended (d ∷ opens) (suc d) es b rest)
ProtocolTo-ended opens bound (entry e ∷ es) b (inr (p, y, pa, op, rest)) =
    inr (p, y, pa, op, ProtocolTo-ended opens bound es b rest)
ProtocolTo-ended opens bound (directory_complete d ∷ es) b (op, rest) =
    (op, ProtocolTo-ended (without d opens) bound es b rest)
ProtocolTo-ended opens bound (error path message ∷ es) b rest =
    ProtocolTo-ended opens bound es b rest

-- No id stands twice.
abbrev pub Distinct : List DirId → Type 0
Distinct [] = Unit
Distinct (d ∷ ds) = (is_open d ds ≡ false) × Distinct ds

-- What was sent until now, where `held` are the ids that the walk still has to complete.
pub record Tracks (held : List DirId) (events : List EnumEvent) (next_id : DirId) : Type 0 where
  pub opens : List DirId
  pub sent : ProtocolTo (0 ∷ []) 1 events opens next_id
  pub same : (d : DirId) → is_open d opens ≡ is_open d held
  pub below : All (λ d. d < next_id) held
  pub distinct : Distinct held
  pub counted : next_id ≤ length events + 1
  pub few : length events < i64_limit

fresh-is_open : (n m : DirId) (ds : List DirId) → n ≤ m → All (λ d. d < n) ds → is_open m ds ≡ false
fresh-is_open n m [] le h = refl
fresh-is_open n m (d ∷ ds) le (lt, h) = ground (arith, fresh-is_open n m ds le h)

All-wider : (n m : DirId) (ds : List DirId) → n ≤ m → All (λ d. d < n) ds → All (λ d. d < m) ds
All-wider n m [] le h = tt
All-wider n m (d ∷ ds) le (lt, h) = (omega arith, All-wider n m ds le h)

module _ (held : List DirId) (es : List EnumEvent) (n : DirId) (t : Tracks held es n)
    (room : suc (length es) < i64_limit) where
  -- An event that changes nothing: a leaf or a failed listing.
  pub noted-Tracks :
      (e : EnumEvent) → ProtocolTo t.opens n (e ∷ []) t.opens n → Tracks held (es ++ (e ∷ [])) n
  noted-Tracks e k = record {
    opens = t.opens;
    sent = ProtocolTo-append (0 ∷ []) 1 es (e ∷ []) t.opens t.opens n n t.sent k;
    same = t.same;
    below = t.below;
    distinct = t.distinct;
    counted = omega (arith, t.counted, length-append es (e ∷ []));
    few = omega (arith, length-append es (e ∷ []));
  }

  -- A new directory below one that is held.
  pub entered-Tracks :
      (e : DiscoveredEntry) (p : DirId)
      → is_dir e ≡ true
      → e.dir_id ≡ some n
      → e.parent_dir_id ≡ some p
      → is_open p held ≡ true
      → p < n
      → Tracks (n ∷ held) (es ++ (entry e ∷ [])) (suc n)
  entered-Tracks e p y di pa op lt = record {
    opens = n ∷ t.opens;
    sent =
        ProtocolTo-append (0 ∷ []) 1 es (entry e ∷ []) t.opens (n ∷ t.opens) n (suc n) t.sent
          (inl (n, p, y, di, pa, t.same p ∙ op, omega arith, lt, (refl, refl)));
    same = λ d. ap (λ b. (n == d) || b) (t.same d);
    below = (omega arith, All-wider n (suc n) held (omega arith) t.below);
    distinct = (fresh-is_open n n held (omega arith) t.below, t.distinct);
    counted = omega (arith, t.counted, length-append es (entry e ∷ []));
    few = omega (arith, length-append es (entry e ∷ []));
  }

-- The completion of a directory that is held.
pub completed-Tracks :
    (d : DirId) (held : List DirId) (es : List EnumEvent) (n : DirId)
    → suc (length es) < i64_limit
    → Tracks (d ∷ held) es n
    → Tracks held (es ++ (directory_complete d ∷ [])) n
completed-Tracks d held es n room t = record {
  opens = without d t.opens;
  sent =
      ProtocolTo-append (0 ∷ []) 1 es (directory_complete d ∷ []) t.opens (without d t.opens) n n
        t.sent (t.same d ∙ ap (λ b. b || is_open d held) (id_refl d), (refl, refl));
  same = λ j. is_open-without j d t.opens ∙ elim (id-cases d j) [
    | inl (e, y) ↦
        ap (λ c. if c then false else is_open j t.opens) y
        ∙ subst (λ k. false ≡ is_open k held) e (sym t.distinct.0)
    | inr y ↦
        ap (λ c. if c then false else is_open j t.opens) y
        ∙ t.same j
        ∙ ap (λ c. c || is_open j held) y
  ];
  below = t.below.1;
  distinct = t.distinct.1;
  counted = omega (arith, t.counted, length-append es (directory_complete d ∷ []));
  few = omega (arith, length-append es (directory_complete d ∷ []));
}

held-lt : (p n : DirId) (ds : List DirId) → is_open p ds ≡ true → All (λ d. d < n) ds → p < n
held-lt p n [] y h = cc
held-lt p n (d ∷ ds) y (lt, h) = ground (arith, held-lt p n ds)

pub swapped-Tracks :
    (a b : DirId) (held : List DirId) (es : List EnumEvent) (n : DirId)
    → Tracks (a ∷ b ∷ held) es n
    → Tracks (b ∷ a ∷ held) es n
swapped-Tracks a b held es n t = record {
  opens = t.opens;
  sent = t.sent;
  same = λ d. t.same d ∙ ground arith;
  below = (t.below.1.0, (t.below.0, t.below.1.1));
  distinct = (ground (arith, t.distinct), (ground (arith, t.distinct), t.distinct.1.1));
  counted = t.counted;
  few = t.few;
}
