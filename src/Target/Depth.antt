-- ===== src/Target/Depth.antt =====
-- How `.` and `..` are resolved, against a count of how deep the path is.
use cursedelete.Base.{
  ℕ, zero, suc, ◌-◌, ◌≤◌, ◌≡◌, refl, ap, ◌∙◌, Bool, false, ◌||◌, List, [], ◌∷◌, ◌++◌, arith,
  if◌then◌else◌, length, is_empty, length-append, All, All-append, Text, codes, text_eq,
}
use mathlib.Core.List.{reverse, reverse-cons, reverse-reverse, append-nil, append_assoc}
use cursedelete.Target.Lexical.{push_component, resolve_onto, resolve_dot_components}

abbrev pub is_skipped : Text → Bool
is_skipped w = is_empty w || text_eq w (codes ".")

abbrev pub is_up : Text → Bool
is_up w = text_eq w (codes "..")

-- How far below the root a walk along the components ends; a step up from the root stays there.
unfoldable pub depth : ℕ → List Text → ℕ
depth n [] = n
depth n (w ∷ ws) = depth (if is_skipped w then n else if is_up w then n - 1 else suc n) ws

-- A component that names something.
abbrev pub IsName : Text → Type 0
IsName w = (is_skipped w ≡ false) × (is_up w ≡ false)

abbrev pub dots : ℕ → List Text
dots zero = []
dots (suc n) = codes ".." ∷ dots n

length-reverse : (xs : List Text) → length (reverse xs) ≡ length xs
length-reverse [] = refl
length-reverse (x ∷ xs) =
    rw reverse-cons (omega (arith, length-append (reverse xs) (x ∷ []), length-reverse xs))

length-push_component :
    (s : List Text) (w : Text)
    → length (push_component s w)
      ≡ (if is_skipped w then length s else if is_up w then length s - 1 else suc (length s))
unfolding push_component
length-push_component [] w = ground arith
length-push_component (x ∷ s) w = ground arith

length-resolve_onto : (s parts : List Text) → length (resolve_onto s parts) ≡ depth (length s) parts
unfolding resolve_onto depth
length-resolve_onto s [] = refl
length-resolve_onto s (w ∷ ws) =
    length-resolve_onto (push_component s w) ws ∙ ap (λ n. depth n ws) (length-push_component s w)

-- The resolved path has as many components as the walk over the path is deep at its end.
pub length-resolve_dot_components :
    (parts : List Text) → length (resolve_dot_components parts) ≡ depth 0 parts
unfolding resolve_dot_components
length-resolve_dot_components parts =
    length-reverse (resolve_onto [] parts) ∙ length-resolve_onto [] parts

All-reverse : (P : Text → Type 0) (xs : List Text) → All P xs → All P (reverse xs)
All-reverse P [] h = tt
All-reverse P (x ∷ xs) h =
    rw reverse-cons (All-append P (reverse xs) (x ∷ []) (All-reverse P xs h.1) (h.0, tt))

push_component-names : (s : List Text) (w : Text) → All IsName s → All IsName (push_component s w)
unfolding push_component
push_component-names [] w h = ground arith
push_component-names (x ∷ s) w h = ground arith

resolve_onto-names : (s parts : List Text) → All IsName s → All IsName (resolve_onto s parts)
unfolding resolve_onto
resolve_onto-names s [] h = h
resolve_onto-names s (w ∷ ws) h =
    resolve_onto-names (push_component s w) ws (push_component-names s w h)

-- No `.`, no `..` and no empty component is left.
pub resolve_dot_components-names : (parts : List Text) → All IsName (resolve_dot_components parts)
unfolding resolve_dot_components
resolve_dot_components-names parts = All-reverse IsName _ (resolve_onto-names [] parts tt)

push_component_of_name : (s : List Text) (w : Text) → IsName w → push_component s w ≡ w ∷ s
unfolding push_component
push_component_of_name [] w h = ground arith
push_component_of_name (x ∷ s) w h = ground arith

resolve_onto_of_names : (s ws : List Text) → All IsName ws → resolve_onto s ws ≡ reverse ws ++ s
unfolding resolve_onto
resolve_onto_of_names s [] h = refl
resolve_onto_of_names s (w ∷ ws) h =
    rw (push_component_of_name s w h.0, resolve_onto_of_names (w ∷ s) ws h.1, reverse-cons)
      (simp append_assoc)

resolve_of_names : (ws : List Text) → All IsName ws → resolve_dot_components ws ≡ ws
unfolding resolve_dot_components
resolve_of_names ws h = rw (resolve_onto_of_names [] ws h, append-nil, reverse-reverse)

-- Resolving a resolved path changes nothing.
pub resolve_dot_components_idem :
    (parts : List Text)
    → resolve_dot_components (resolve_dot_components parts) ≡ resolve_dot_components parts
resolve_dot_components_idem parts = resolve_of_names _ (resolve_dot_components-names parts)

depth-append : (n : ℕ) (xs ys : List Text) → depth n (xs ++ ys) ≡ depth (depth n xs) ys
unfolding depth
depth-append n [] ys = refl
depth-append n (x ∷ xs) ys =
    depth-append (if is_skipped x then n else if is_up x then n - 1 else suc n) xs ys

depth-dots : (n k : ℕ) → depth n (dots k) ≡ n - k
unfolding depth text_eq
depth-dots n zero = omega arith
depth-dots n (suc k) = omega (arith, depth-dots (n - 1) k)

eq-nil_of_length : (xs : List Text) → length xs ≡ 0 → xs ≡ []
eq-nil_of_length [] h = refl
eq-nil_of_length (x ∷ xs) h = absurd (omega arith)

-- The `..` attack: a path with enough `..` behind it is the root, however deep it was, and any
-- further `..` leaves it there.
resolve_dot_components-dots :
    (parts : List Text) (k : ℕ)
    → length (resolve_dot_components parts) ≤ k
    → resolve_dot_components (parts ++ dots k) ≡ []
resolve_dot_components-dots parts k h = eq-nil_of_length _ (
    omega (
      arith,
      length-resolve_dot_components (parts ++ dots k),
      length-resolve_dot_components parts,
      depth-append 0 parts (dots k),
      depth-dots (depth 0 parts) k,
    ))
