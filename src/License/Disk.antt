-- ===== src/License/Disk.antt =====
-- What the licence store takes from the operating system, as the parameter `Disk`, and computations
-- that change it and may fail.
use cursedelete.Base.{ℕ, Bool, Option, List, Text, FilePath, Result, ok, err}

-- `io::ErrorKind`, as far as it matters, and the error's text.
pub data IoKind : Type 0 where
  not_found invalid_data invalid_input permission_denied other : IoKind

pub record IoError : Type 0 where
  pub kind : IoKind
  pub message : Text

abbrev pub Io : Type 0 → Type 0 → Type 0
Io W A = W → W × Result A IoError

abbrev pub after : {W A B : Type 0} → W × Result A IoError → (A → Io W B) → W × Result B IoError
after (w, err e) k = (w, err e)
after (w, ok a) k = k a w

infixl 5 ◌>>=◌ ◌>>◌
abbrev pub ◌>>=◌ : {W A B : Type 0} → Io W A → (A → Io W B) → Io W B
(m >>= k) w = after (m w) k

abbrev pub ◌>>◌ : {W A B : Type 0} → Io W A → Io W B → Io W B
m >> k = m >>= λ _. k

-- A result that needs no change of the world.
abbrev pub lift : {W A : Type 0} → Result A IoError → Io W A
lift r w = (w, r)

-- A path is text; a file's contents, too. `open_file` creates or truncates a file, readable by its owner
-- only if so asked.
pub record Disk : Type 1 where
  pub World : Type 0
  pub process_id : ℕ
  pub read_to_string : World → FilePath → Result Text IoError
  pub exists : World → FilePath → Bool
  pub is_file : World → FilePath → Bool
  pub read_dir : World → FilePath → Option (List FilePath)
  pub create_dir_all : FilePath → Io World (Unit {0})
  pub open_file : FilePath → Bool → Io World (Unit {0})
  pub restrict_to_owner : FilePath → Io World (Unit {0})
  pub write_all : FilePath → Text → Io World (Unit {0})
  pub sync_all : FilePath → Io World (Unit {0})
  pub rename : FilePath → FilePath → Io World (Unit {0})
  pub remove_file : FilePath → Io World (Unit {0})
