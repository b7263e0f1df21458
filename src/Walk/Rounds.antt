-- ===== src/Walk/Rounds.antt =====
-- One round of the walk, and what it keeps true of the events and the stack.
use cursedelete.Base.{
  ℕ, suc, ◌<◌, ◌≡◌, refl, ◌∙◌, subst, inr, true, false, List, [], ◌∷◌, ◌++◌, arith, if-elim,
  if-split, length, Text, i64_limit, add64, Result, ok, err, ◌>>=◌,
}
use cursedelete.Entry.{DirId, is_dir}
use cursedelete.Engine.{
  EnumEvent, entry, directory_complete, error, cancelled, channel_closed, next_dir_id,
}
use cursedelete.Paths
use cursedelete.Walk.{
  RawChild, OpenDir, Host, Walk, Walked, subdirectory, leaf, push_open, recurses, send, enter,
  visit_child, visit_children, handle_listing, visit, flush,
}
use cursedelete.Walk.Opens.{Tracks, noted-Tracks, entered-Tracks, completed-Tracks, swapped-Tracks}

abbrev pub ids : List OpenDir → List DirId
ids [] = []
ids (o ∷ os) = o.dir_id ∷ ids os

-- What holds of a walk that goes on, and of one that is cancelled; a channel that lost its receiver
-- ends the operation anyway.
abbrev pub Post : (Walk → Type 0) → (Walk → Type 0) → Walked → Type 0
Post P Q (ok t) = P t
Post P Q (err (cancelled, t)) = Q t
Post P Q (err (channel_closed, t)) = Unit

Post->>= :
    (P Q R : Walk → Type 0) (m : Walked) (f : Walk → Walked)
    → Post P Q m
    → ((t : Walk) → P t → Post R Q (f t))
    → Post R Q (m >>= f)
Post->>= P Q R (ok t) f h k = k t h
Post->>= P Q R (err (cancelled, t)) f h k = h
Post->>= P Q R (err (channel_closed, t)) f h k = tt

-- The walk holds what is on its stack.
abbrev pub Holds : Walk → Type 0
Holds s = Tracks (ids s.stack) s.events s.dir_ids

abbrev HoldsAlso : OpenDir → Walk → Type 0
HoldsAlso current s = Tracks (current.dir_id ∷ ids s.stack) s.events s.dir_ids

abbrev pub Never : Walk → Type 0
Never s = ⊥

-- Everything was completed.
abbrev pub Done : Walk → Type 0
Done s = Tracks [] s.events s.dir_ids

module _ (H : Host) (limit : (n : ℕ) → H.receives n ≡ true → suc n < i64_limit) where
  send-Post :
      (P Q : Walk → Type 0) (e : EnumEvent) (s : Walk)
      → (suc (length s.events) < i64_limit → P (record s { events = s.events ++ (e ∷ []) }))
      → Post P Q (send H e s)
  unfolding send
  send-Post P Q e s h =
      if-split (Post P Q) (H.receives (length s.events)) _ _ (λ y. h (limit (length s.events) y))
        (λ y. tt)

  enter-Post :
      (current : OpenDir) (child : RawChild) (s : Walk)
      → HoldsAlso current s
      → Post (HoldsAlso current) Never (enter H current child (next_dir_id s.dir_ids) s)
  enter-Post current child s t =
      let o : OpenDir = record { dir_id = s.dir_ids; path = Paths.join current.path child.name } in
      Post->>= (λ u. HoldsAlso current (push_open o u)) Never (HoldsAlso current)
        (send H (entry (subdirectory current child s.dir_ids))
          (record s { dir_ids = add64 s.dir_ids 1 }))
        _
        (send-Post (λ u. HoldsAlso current (push_open o u)) Never _ _
          (λ room.
            let next : suc s.dir_ids ≡ add64 s.dir_ids 1 = omega (arith, t.counted) in
            subst
              (Tracks (current.dir_id ∷ s.dir_ids ∷ ids s.stack)
                (s.events ++ (entry (subdirectory current child s.dir_ids) ∷ [])))
              next
              (swapped-Tracks s.dir_ids current.dir_id (ids s.stack) _ (suc s.dir_ids) (
                entered-Tracks (current.dir_id ∷ ids s.stack) s.events s.dir_ids t room
                  (subdirectory current child s.dir_ids) current.dir_id refl refl refl
                  (ground arith) t.below.0))))
        (λ u h. h)

  leaf_is_no_dir : (current : OpenDir) (child : RawChild) → is_dir (leaf current child) ≡ false
  leaf_is_no_dir current child = ground arith

  visit_child-Post :
      (current : OpenDir) (child : RawChild) (s : Walk)
      → HoldsAlso current s
      → Post (HoldsAlso current) Never (visit_child H current child s)
  unfolding visit_child
  visit_child-Post current child s t =
      if-elim (Post (HoldsAlso current) Never) (recurses child) _ _ (enter-Post current child s t) (
        send-Post (HoldsAlso current) Never (entry (leaf current child)) s (λ room.
          noted-Tracks (current.dir_id ∷ ids s.stack) s.events s.dir_ids t room
            (entry (leaf current child))
            (inr (
              current.dir_id,
              leaf_is_no_dir current child,
              refl,
              t.same current.dir_id ∙ ground arith,
              (refl, refl),
            ))))

  visit_children-Post :
      (current : OpenDir) (children : List RawChild) (s : Walk)
      → HoldsAlso current s
      → Post (HoldsAlso current) Never (visit_children H current children s)
  unfolding visit_children
  visit_children-Post current [] s t = t
  visit_children-Post current (child ∷ children) s t =
      Post->>= (HoldsAlso current) Never (HoldsAlso current) (visit_child H current child s) _
        (visit_child-Post current child s t) (visit_children-Post current children)

  handle_listing-Post :
      (current : OpenDir) (l : Result (List RawChild) Text) (s : Walk)
      → HoldsAlso current s
      → Post (HoldsAlso current) Never (handle_listing H current l s)
  handle_listing-Post current (ok children) s t = visit_children-Post current children s t
  handle_listing-Post current (err message) s t =
      send-Post (HoldsAlso current) Never (error current.path message) s (λ room.
        noted-Tracks (current.dir_id ∷ ids s.stack) s.events s.dir_ids t room
          (error current.path message) (refl, refl))

  pub visit-Post :
      (n : ℕ) (current : OpenDir) (s : Walk)
      → HoldsAlso current s
      → Post Holds Never (visit H n current s)
  unfolding visit
  visit-Post n current s t =
      Post->>= (HoldsAlso current) Never Holds
        (handle_listing H current (H.list_children n current.path) s) _
        (handle_listing-Post current (H.list_children n current.path) s t)
        (λ u v.
          send-Post Holds Never (directory_complete current.dir_id) u
            (λ room. completed-Tracks current.dir_id (ids u.stack) u.events u.dir_ids room v))

  pub flush-Post :
      (os : List OpenDir) (s : Walk)
      → Tracks (ids os) s.events s.dir_ids
      → Post Never Done (flush H os s)
  unfolding flush
  flush-Post [] s t = t
  flush-Post (o ∷ os) s t =
      Post->>= (λ u. Tracks (ids os) u.events u.dir_ids) Done Never
        (send H (directory_complete o.dir_id) s) _
        (send-Post (λ u. Tracks (ids os) u.events u.dir_ids) Done (directory_complete o.dir_id) s
          (λ room. completed-Tracks o.dir_id (ids os) s.events s.dir_ids room t))
        (flush-Post os)
