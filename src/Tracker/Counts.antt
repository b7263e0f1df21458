-- ===== src/Tracker/Counts.antt =====
-- How many children of a directory are registered with the tracker, and how that changes.
use cursedelete.Base.{
  ℕ, ◌+◌, ◌≡◌, refl, Option, none, some, [], ◌∷◌, arith, ◌==◌, if◌then◌else◌, if-split,
}
use cursedelete.Base.Dict.{
  Dict, lookup, insert, erase, modify, lookup-insert, lookup-erase, lookup-modify,
}
use cursedelete.Entry.{DirId}
use cursedelete.Tracker.{DirState}

abbrev pub is_child : DirId → Option DirId → ℕ
is_child p none = 0
is_child p (some d) = if d == p then 1 else 0

abbrev pub child_entry : DirId → Option DirState → ℕ
child_entry p none = 0
child_entry p (some s) = is_child p s.parent

-- The registered children of a directory.
unfoldable pub kids : DirId → Dict DirState → ℕ
kids p [] = 0
kids p ((k, s) ∷ D) = is_child p s.parent + kids p D

-- No key has two entries.
abbrev pub IsUnique : Dict DirState → Type 0
IsUnique [] = Unit
IsUnique ((k, s) ∷ D) = (lookup k D ≡ none) × IsUnique D

pub kids-insert :
    (p k : DirId) (s : DirState) (D : Dict DirState)
    → lookup k D ≡ none
    → kids p (insert k s D) ≡ kids p D + is_child p s.parent
unfolding kids insert lookup
kids-insert p k s [] h = omega arith
kids-insert p k s ((j, r) ∷ D) h = ground (arith, kids-insert p k s D)

pub kids-modify :
    (p k : DirId) (f : DirState → DirState) (D : Dict DirState)
    → ((s : DirState) → (f s).parent ≡ s.parent)
    → kids p (modify k f D) ≡ kids p D
unfolding kids modify
kids-modify p k f [] keep = refl
kids-modify p k f ((j, r) ∷ D) keep = ground (arith, keep r, kids-modify p k f D keep)

pub kids-erase-none :
    (p k : DirId) (D : Dict DirState) → lookup k D ≡ none → kids p (erase k D) ≡ kids p D
unfolding kids erase lookup
kids-erase-none p k [] h = refl
kids-erase-none p k ((j, r) ∷ D) h = ground (arith, kids-erase-none p k D)

pub kids-erase :
    (p k : DirId) (D : Dict DirState)
    → IsUnique D
    → kids p (erase k D) + child_entry p (lookup k D) ≡ kids p D
unfolding kids erase lookup
kids-erase p k [] u = refl
kids-erase p k ((j, r) ∷ D) (fresh, u) = ground (arith, kids-erase p k D u, kids-erase-none p k D)

pub insert-IsUnique :
    (k : DirId) (s : DirState) (D : Dict DirState) → IsUnique D → IsUnique (insert k s D)
unfolding insert lookup
insert-IsUnique k s [] u = (refl, tt)
insert-IsUnique k s ((j, r) ∷ D) (fresh, u) =
    if-split IsUnique (j == k) _ _ (λ e. ground arith)
      (λ e. (rw (lookup-insert j k s D) (ground (arith, fresh)), insert-IsUnique k s D u))

pub modify-IsUnique :
    (k : DirId) (f : DirState → DirState) (D : Dict DirState) → IsUnique D → IsUnique (modify k f D)
unfolding modify
modify-IsUnique k f [] u = tt
modify-IsUnique k f ((j, r) ∷ D) (fresh, u) =
    if-split IsUnique (j == k) _ _ (λ e. (fresh, u))
      (λ e. (rw (lookup-modify j k f D) (rw fresh (ground arith)), modify-IsUnique k f D u))

pub erase-IsUnique : (k : DirId) (D : Dict DirState) → IsUnique D → IsUnique (erase k D)
unfolding erase
erase-IsUnique k [] u = tt
erase-IsUnique k ((j, r) ∷ D) (fresh, u) =
    if-split IsUnique (j == k) _ _ (λ e. erase-IsUnique k D u)
      (λ e. (rw (lookup-erase j k D) (rw fresh (ground arith)), erase-IsUnique k D u))
