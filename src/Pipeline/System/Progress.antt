-- ===== src/Pipeline/System/Progress.antt =====
-- No run stops half way: when no thread has anything left to do, every directory was dealt with and
-- the operation has ended.
use cursedelete.Base.{
  ℕ, zero, suc, ◌+◌, ◌≤◌, ◌<◌, ◌≡◌, refl, ap, ◌∙◌, subst, inl, inr, Bool, false, Option, none, some,
  List, [], ◌∷◌, arith, ltb, if◌then◌else◌, Bool-cases, Option-cases, length, FilePath, i64_limit,
}
use cursedelete.Base.Dict.{Dict, lookup, insert}
use cursedelete.Entry.{DirId}
use cursedelete.Options.{DeleteOptions}
use cursedelete.Metrics.{WindowSampler}
use cursedelete.Engine.{PlatformEngine, EnumEvent}
use cursedelete.Filter.{Globs}
use cursedelete.Tracker
use cursedelete.Tracker.Once
use cursedelete.Tracker.{DirState}
use cursedelete.Tracker.Counts.{kids, IsUnique, is_child}
use cursedelete.Pipeline.System.{System, Reach, launched}
use cursedelete.Pipeline.System.Invariant.{waiting, EntryOk, EntryOk-change, id-cases}
use cursedelete.Pipeline.System.Keeping.{Protocol, Holds, Good}
use cursedelete.Pipeline.System.Stepping.{Reach-Holds}

-- A directory that is nobody's parent has no registered children.
kids-none :
    (d : DirId) (D : Dict DirState)
    → IsUnique D
    → ((k : DirId) (s : DirState) → lookup k D ≡ some s → is_child d s.parent ≡ 0)
    → kids d D ≡ 0
unfolding kids lookup
kids-none d [] u h = refl
kids-none d ((j, r) ∷ D) (fresh, u) h =
    let tail : (k : DirId) (s : DirState) → lookup k D ≡ some s → is_child d s.parent ≡ 0 = λ k s e.
      h k s (elim (id-cases j k) [
        | inl (i, y) ↦ absurd (ground (arith, fresh, e, i))
        | inr y ↦ ap (λ c. if c then some r else lookup k D) y ∙ e
      ]) in
    omega (arith, kids-none d D u tail, h j r (ground arith))

EntryOk-none :
    (children bound d : ℕ) (o : Option DirState)
    → children ≡ 0
    → EntryOk false 0 children bound d o
    → o ≡ none
EntryOk-none children bound d none z h = refl
EntryOk-none children bound d (some s) z (pe, fi, op, se, lt, ab) = absurd (ground arith)

EntryOk-below :
    (opened : Bool) (sends children bound d : ℕ) (s : DirState)
    → EntryOk opened sends children bound d (some s)
    → (k : DirId) → d ≤ k
    → is_child k s.parent ≡ 0
EntryOk-below opened sends children bound d s (pe, fi, op, se, lt, ab) k le = ground arith

empty-lookup : (D : Dict DirState) → ((d : DirId) → lookup d D ≡ none) → D ≡ []
unfolding lookup
empty-lookup [] h = refl
empty-lookup ((j, r) ∷ D) h = absurd (ground (arith, h j))

module _ {W : Type 0} where
  module _ (bound : DirId) (left : ℕ) (S : System W) (v : Good [] bound left S.run)
      (q : S.run.file_queue ≡ []) (r : S.run.tracker.ready ≡ []) where
    -- Below every directory there are others, as long as there is one.
    settled_from : (m d : ℕ) → bound ≤ d + m → lookup d S.run.tracker.state ≡ none
    settled_from zero d le = elim (Option-cases (lookup d S.run.tracker.state)) [
      | inl e ↦ e
      | inr (s, e) ↦
          let w = EntryOk-change false bound d e refl refl (v.entries d) in absurd (omega arith)
    ]
    settled_from (suc m) d le =
        let none_below : kids d S.run.tracker.state ≡ 0 =
          kids-none d S.run.tracker.state v.unique (λ k s e. elim (Bool-cases (ltb d k)) [
            | inl y ↦ absurd (ground (arith, settled_from m k (ground arith), e))
            | inr y ↦
                EntryOk-below false _ _ bound k s
                  (EntryOk-change false bound k e refl refl (v.entries k)) d (ground arith)
          ]) in
        EntryOk-none (kids d S.run.tracker.state + waiting d S.run.file_queue + 0) bound d
          (lookup d S.run.tracker.state) (ground (arith, none_below, ap (waiting d) q))
          (EntryOk-change false bound d refl (ap (λ x. Once.sent d x) r) refl (v.entries d))

    settled_all : (S.run.tracker.state ≡ []) × (S.run.root_done ≡ 1)
    settled_all =
        let all : (d : DirId) → lookup d S.run.tracker.state ≡ none =
          λ d. settled_from bound d (omega arith) in
        (empty-lookup S.run.tracker.state all, ground (arith, v.root, all 0))

  launched-Holds :
      (root : FilePath) (sampler : WindowSampler) (w : W) (es : List EnumEvent)
      → Protocol (0 ∷ []) 1 es
      → length es < i64_limit
      → Holds (launched root sampler w es)
  unfolding Tracker.register_directory lookup insert kids
  launched-Holds root sampler w es p h = (
    0 ∷ [],
    1,
    record {
      unique = (refl, tt);
      entries = λ d. elim (id-cases 0 d) [
        | inl (e, y) ↦ ground (arith, e, y)
        | inr y ↦ ground (arith, y)
      ];
      room = λ d. ground arith;
      registered = tt;
      root = refl;
    },
    p,
  )

-- If the enumerator keeps to the protocol, with fewer than 2 ^ 63 events, then in whatever order the
-- threads take turns: once all events are handled and nothing is queued or waits in the channel,
-- every directory was dealt with, and the operation has ended, exactly once.
pub run_ends :
    {G : Globs} (E : PlatformEngine) (opts : DeleteOptions) (root : FilePath)
    (sampler : WindowSampler) (w : E.World) (es : List EnumEvent) (S : System E.World)
    → Protocol (0 ∷ []) 1 es
    → length es < i64_limit
    → Reach G E opts (launched root sampler w es) S
    → S.events ≡ []
    → S.run.file_queue ≡ []
    → S.run.tracker.ready ≡ []
    → (S.run.tracker.state ≡ []) × (S.run.root_done ≡ 1)
run_ends {G} E opts root sampler w es S p h reach done q r =
    let (opens, bound, v, rest) =
      Reach-Holds G E opts (launched root sampler w es) S reach
        (launched-Holds root sampler w es p h) in
    let closed : opens ≡ [] = subst (Protocol opens bound) done rest in
    settled_all bound (length S.events) S
      (subst (λ o. Good o bound (length S.events) S.run) closed v) q r
