-- ===== src/Paths.antt =====
-- What `std::path` does with POSIX paths, as far as the crate calls it. Two texts with the same
-- components are the same path, so a result is given in its shortest spelling.
pub mod Join
use cursedelete.Base.{
  ℕ, Bool, false, ◌||◌, Option, none, some, List, [], ◌∷◌, ◌++◌, ◌==◌, if◌then◌else◌, is_empty,
  Text, FilePath, codes, text_eq,
}
use mathlib.Core.List.{reverse}
use cursedelete.Base.{split, join_with}

abbrev pub is_slash : ℕ → Bool
is_slash c = c == b'/'

abbrev pub is_dropped : Text → Bool
is_dropped w = is_empty w || text_eq w (codes ".")

unfoldable pub normal_components : List Text → List Text
normal_components [] = []
normal_components (w ∷ ws) =
    let rest = normal_components ws in if is_dropped w then rest else w ∷ rest

-- `Path::components` without the root: empty components and `.` are dropped, but for a leading `.`.
abbrev pub relative_components : List Text → List Text
relative_components [] = []
relative_components (w ∷ ws) =
    let rest = normal_components (w ∷ ws) in if text_eq w (codes ".") then w ∷ rest else rest

unfoldable pub components : FilePath → List Text
unfolding normal_components split text_eq
components p = relative_components (split is_slash p)

abbrev pub last_name : List Text → Option Text
last_name [] = none
last_name (w ∷ ws) = if text_eq w (codes "..") || text_eq w (codes ".") then none else some w

-- `Path::file_name`: the last component, unless it is `..` or `.` or there is none.
unfoldable pub file_name : FilePath → Option Text
unfolding components
file_name p = last_name (reverse (components p))

abbrev pub starts_with_slash : FilePath → Bool
starts_with_slash [] = false
starts_with_slash (c ∷ p) = is_slash c

abbrev pub ends_with_slash : FilePath → Bool
ends_with_slash p = starts_with_slash (reverse p)

abbrev root_text : FilePath → Text
root_text p = if starts_with_slash p then codes "/" else []

abbrev parent_of : Text → List Text → Option FilePath
parent_of root [] = none
parent_of root (w ∷ ws) = some (root ++ join_with (codes "/") (reverse ws))

-- `Path::parent`: the path less its last component; a root and the empty path have none.
unfoldable pub parent : FilePath → Option FilePath
unfolding components join_with
parent p = parent_of (root_text p) (reverse (components p))

-- `Path::join`: an absolute name replaces the base.
unfoldable pub join : FilePath → FilePath → FilePath
join base name =
    if starts_with_slash name
    then name
    else if is_empty base || ends_with_slash base
    then base ++ name
    else base ++ (b'/' ∷ name)
