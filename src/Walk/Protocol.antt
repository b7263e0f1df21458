-- ===== src/Walk/Protocol.antt =====
-- The events that a walk sends keep to the protocol that the pipeline relies on, also when the walk
-- is cancelled half way.
use cursedelete.Base.{
  ℕ, zero, suc, ◌<◌, ◌≡◌, refl, sym, ap, ◌∙◌, subst, ◌⊎◌, inl, inr, Bool, true, false, ◌||◌, Option,
  none, some, List, [], ◌∷◌, ◌++◌, arith, length, All, All-append, FilePath, i64_limit, ok, err,
}
use mathlib.Core.List.{reverse, reverse-cons}
use cursedelete.Entry.{DirId}
use cursedelete.Engine.{EnumEvent, cancelled, channel_closed}
use cursedelete.Pipeline.System.Invariant.{is_open}
use cursedelete.Pipeline.System.Keeping.{Protocol}
use cursedelete.Walk.{OpenDir, Host, Walk, Walked, visit, flush, stream, stream_tree}
use cursedelete.Walk.Opens.{ProtocolTo, ProtocolTo-ended, Distinct, Tracks}
use cursedelete.Walk.Rounds.{ids, Post, Holds, Never, Done, visit-Post, flush-Post}

ids-append : (xs ys : List OpenDir) → ids (xs ++ ys) ≡ ids xs ++ ids ys
ids-append [] ys = refl
ids-append (x ∷ xs) ys = ap (λ l. x.dir_id ∷ l) (ids-append xs ys)

is_open-append :
    (d : DirId) (xs ys : List DirId) → is_open d (xs ++ ys) ≡ (is_open d xs || is_open d ys)
is_open-append d [] ys = refl
is_open-append d (x ∷ xs) ys = ground (arith, is_open-append d xs ys)

Distinct-snoc :
    (d : DirId) (xs : List DirId) → is_open d xs ≡ false → Distinct xs → Distinct (xs ++ (d ∷ []))
Distinct-snoc d [] y h = (refl, tt)
Distinct-snoc d (x ∷ xs) y (z, h) =
    (ground (arith, z, is_open-append x xs (d ∷ [])), Distinct-snoc d xs (ground arith) h)

-- The same ids in the other order.
abbrev SameIds : List DirId → List DirId → Type 0
SameIds xs ys =
    ((d : DirId) → is_open d xs ≡ is_open d ys)
    × ((n : DirId) → All (λ d. d < n) ys → All (λ d. d < n) xs)
    × (Distinct ys → Distinct xs)

SameIds-snoc : (d : DirId) (xs ys : List DirId) → SameIds xs ys → SameIds (xs ++ (d ∷ [])) (d ∷ ys)
SameIds-snoc d xs ys (same, below, distinct) = (
  λ j. is_open-append j xs (d ∷ []) ∙ ground (arith, same j),
  λ n h. All-append (λ d. d < n) xs (d ∷ []) (below n h.1) (h.0, tt),
  λ h. Distinct-snoc d xs (same d ∙ h.0) (distinct h.1),
)

SameIds-reverse : (os : List OpenDir) → SameIds (ids (reverse os)) (ids os)
SameIds-reverse [] = (λ d. refl, λ n h. h, λ h. h)
SameIds-reverse (o ∷ os) =
    subst (λ l. SameIds l (o.dir_id ∷ ids os))
      (sym (ap ids (reverse-cons o os) ∙ ids-append (reverse os) (o ∷ [])))
      (SameIds-snoc o.dir_id (ids (reverse os)) (ids os) (SameIds-reverse os))

reversed-Tracks :
    (os : List OpenDir) (es : List EnumEvent) (n : DirId)
    → Tracks (ids os) es n
    → Tracks (ids (reverse os)) es n
reversed-Tracks os es n t =
    let (same, below, distinct) = SameIds-reverse os in
    record {
      opens = t.opens;
      sent = t.sent;
      same = λ d. t.same d ∙ sym (same d);
      below = below n t.below;
      distinct = distinct t.distinct;
      counted = t.counted;
      few = t.few;
    }

abbrev PostIf : Option Walked → Type 0
PostIf none = Unit
PostIf (some r) = Post Done Done r

Post-weaken : (P Q R : Walk → Type 0) (m : Walked) → Post Never Q m → Post R Q m
Post-weaken P Q R (ok t) h = absurd h
Post-weaken P Q R (err (cancelled, t)) h = h
Post-weaken P Q R (err (channel_closed, t)) h = tt

module _ (H : Host) (limit : (n : ℕ) → H.receives n ≡ true → suc n < i64_limit) where
  stream-Post :
      (f n : ℕ) (es : List EnumEvent) (i : DirId) (os : List OpenDir)
      → Tracks (ids os) es i
      → PostIf (stream H f n (record { events = es; dir_ids = i; stack = os }))
  unfolding stream
  stream-Post zero n es i os t = tt
  stream-Post (suc f) n es i [] t = t
  stream-Post (suc f) n es i (o ∷ os) t =
      rounds (H.is_cancelled n) (visit H n o s) (visit-Post H limit n o s t)
        (λ u v. stream-Post f (suc n) u.events u.dir_ids u.stack v)
    where
      s : Walk
      s = record { events = es; dir_ids = i; stack = os }

      rounds :
          (c : Bool) (m : Walked)
          → Post Holds Never m
          → ((u : Walk) → Holds u → PostIf (stream H f (suc n) u))
          → PostIf (elim c [
            | true ↦ some (flush H (reverse (o ∷ os)) (record s { stack = o ∷ os }))
            | false ↦ elim m [ err e ↦ some (err e) | ok u ↦ stream H f (suc n) u ]
          ])
      rounds true m h k = Post-weaken Done Done Done _ (
          flush-Post H limit (reverse (o ∷ os)) (record s { stack = o ∷ os })
            (reversed-Tracks (o ∷ os) es i t))
      rounds false (ok u) h k = k u h
      rounds false (err (cancelled, u)) h k = absurd h
      rounds false (err (channel_closed, u)) h k = tt

-- The walk is over, with or without a cancellation, and these are the events that it sent.
abbrev pub Sent : List EnumEvent → Option Walked → Type 0
Sent es r = (t : Walk) × (t.events ≡ es) × ((r ≡ some (ok t)) ⊎ (r ≡ some (err (cancelled, t))))

no_opens : (ds : List DirId) → ((d : DirId) → is_open d ds ≡ false) → ds ≡ []
no_opens [] h = refl
no_opens (d ∷ ds) h = absurd (ground (arith, h d))

Done-Protocol : (t : Walk) → Done t → Protocol (0 ∷ []) 1 t.events × (length t.events < i64_limit)
Done-Protocol t d = (
  ProtocolTo-ended (0 ∷ []) 1 t.events t.dir_ids
      (subst (λ o. ProtocolTo (0 ∷ []) 1 t.events o t.dir_ids) (no_opens d.opens d.same) d.sent),
  d.few,
)

-- If the channel never takes 2 ^ 63 events, then the events of a walk that is over, be it through or
-- cancelled, keep to the protocol, and they are fewer than 2 ^ 63.
pub stream_tree-Protocol :
    (H : Host) (fuel : ℕ) (root : FilePath) (es : List EnumEvent)
    → ((n : ℕ) → H.receives n ≡ true → suc n < i64_limit)
    → Sent es (stream_tree H fuel root)
    → Protocol (0 ∷ []) 1 es × (length es < i64_limit)
unfolding stream_tree
stream_tree-Protocol H fuel root es limit (t, e, r) =
    let h = stream-Post H limit fuel 0 [] 1 (record { dir_id = 0; path = root } ∷ []) (record {
      opens = 0 ∷ [];
      sent = (refl, refl);
      same = λ d. refl;
      below = (omega arith, tt);
      distinct = (refl, tt);
      counted = omega arith;
      few = omega arith;
    }) in
    subst (λ x. Protocol (0 ∷ []) 1 x × (length x < i64_limit)) e
      (Done-Protocol t (elim r [ inl k ↦ subst PostIf k h | inr k ↦ subst PostIf k h ]))
