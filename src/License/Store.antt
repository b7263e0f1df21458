-- ===== src/License/Store.antt =====
-- crates/cursdel-license/src/store.rs: where licences, certificates and revocations lie, as it is
-- built for Linux. The disk is the parameter `Disk`, JSON the parameter `StateFormat`.
pub mod Files
pub mod Atomic
pub mod Candidates
pub mod Reserved
use cursedelete.Base.{
  has_text, ℕ, Bool, true, false, not, ◌&&◌, ◌||◌, Option, none, some, List, [], ◌∷◌, ltb, ◌==◌,
  if◌then◌else◌, is_empty, Text, FilePath, codes, text_eq, Result, ok, err,
}
use cursedelete.Base.Decimal.{digits}
use cursedelete.Paths.{components, file_name, parent, join}
use cursedelete.License.Disk.{
  Disk, Io, IoError, IoKind, not_found, invalid_data, invalid_input, after, lift, ◌>>=◌, ◌>>◌,
}
use cursedelete.License.Resolve.{Candidate}

pub record StorageNames : Type 0 where
  pub vendor : Text
  pub app : Text
  pub unix_app : Text
  pub license_file_env : Text
  pub license_dir_env : Text

pub data Scope : Type 0 where
  user system : Scope

pub record LicenseLocations : Type 0 where
  pub override_file : Option FilePath
  pub user_dir : FilePath
  pub system_dir : Option FilePath

pub record ActivationCredentials : Type 0 where
  pub activation_id : Text
  pub client_secret : Text

pub record StoredActivation : Type 0 where
  pub scope : Scope
  pub certificate : Text

-- serde_json on the two state files; errors are their text. `Revocations` is the list of its ids.
pub record StateFormat : Type 0 where
  pub read_credentials : Text → Result ActivationCredentials Text
  pub credentials_text : ActivationCredentials → Result Text Text
  pub read_revocations : Text → Result (List Text) Text
  pub revocations_text : List Text → Result Text Text

abbrev pub license_name : Text
license_name = codes "license.json"

abbrev pub activation_name : Text
activation_name = codes "activation.json"

abbrev pub credentials_name : Text
credentials_name = codes "credentials.json"

abbrev pub revocations_name : Text
revocations_name = codes "revocations.json"

abbrev pub reserved_names : List Text
reserved_names = activation_name ∷ credentials_name ∷ revocations_name ∷ []

pub data Secrecy : Type 0 where
  public : Secrecy
  secret : Scope → Secrecy

abbrev pub is_secret : Secrecy → Bool
is_secret public = false
is_secret (secret s) = true

-- `var_os(name).filter(|v| !v.is_empty())`
abbrev pub non_empty_env : (Text → Option Text) → Text → Option Text
non_empty_env env name = elim (env name) [
  | none ↦ none
  | some v ↦ if is_empty v then none else some v
]

abbrev pub or_base : Option FilePath → FilePath → FilePath
or_base none d = d
or_base (some p) d = p

-- `directories::BaseDirs::config_dir`, where there is a home directory.
abbrev pub user_base : Option FilePath → StorageNames → FilePath
user_base none names = b'.' ∷ names.unix_app
user_base (some config_dir) names = join config_dir names.unix_app

abbrev pub system_base : StorageNames → FilePath
system_base names = join (codes "/etc") names.unix_app

-- `LicenseLocations::for_app`, given the environment and the configuration directory.
unfoldable pub for_app :
    (Text → Option Text) → Option FilePath → StorageNames → ℕ → LicenseLocations
unfolding join
for_app env config_dir names major_version =
    let version_dir = b'v' ∷ digits major_version in
    record {
      override_file = non_empty_env env names.license_file_env;
      user_dir = join (user_base config_dir names) version_dir;
      system_dir = some (
          or_base (non_empty_env env names.license_dir_env) (join (system_base names) version_dir));
    }

abbrev no_system_dir : IoError
no_system_dir = record {
  kind = not_found;
  message = codes "no system licence directory is available on this platform";
}

unfoldable pub dir : LicenseLocations → Scope → Result FilePath IoError
dir l user = ok l.user_dir
dir l system = elim l.system_dir [ none ↦ err no_system_dir | some d ↦ ok d ]

abbrev pub at_dir : Text → Result FilePath IoError → Result FilePath IoError
at_dir name (ok d) = ok (join d name)
at_dir name (err e) = err e

unfoldable pub file : LicenseLocations → Scope → Text → Result FilePath IoError
file l s name = at_dir name (dir l s)

abbrev pub license_file : LicenseLocations → Scope → Result FilePath IoError
license_file l s = file l s license_name

-- The extension of a file name: what follows its last dot, unless the dot comes first.
unfoldable pub after_last_dot : Text → Option Text
after_last_dot [] = none
after_last_dot (c ∷ s) =
    let rest = after_last_dot s in
    elim rest [ some e ↦ some e | none ↦ if c == b'.' then some s else none ]

abbrev pub extension : Text → Option Text
extension [] = none
extension (c ∷ s) = after_last_dot s

abbrev pub is_license_extension : Option Text → Bool
is_license_extension none = false
is_license_extension (some e) = text_eq e (codes "license") || text_eq e (codes "json")

abbrev pub starts_with_dot : Text → Bool
starts_with_dot [] = false
starts_with_dot (c ∷ s) = c == b'.'

abbrev pub name_of : FilePath → Text
name_of p = elim (file_name p) [ none ↦ [] | some n ↦ n ]

-- The name is that of a licence file in the system directory.
unfoldable pub is_candidate_name : Text → Bool
is_candidate_name name =
    not (has_text name reserved_names)
    && not (starts_with_dot name)
    && is_license_extension (extension name)

-- The order of paths: component by component.
unfoldable pub text_le : Text → Text → Bool
text_le [] t = true
text_le (x ∷ xs) [] = false
text_le (x ∷ xs) (y ∷ ys) = ltb x y || ((x == y) && text_le xs ys)

unfoldable pub names_le : List Text → List Text → Bool
names_le [] t = true
names_le (x ∷ xs) [] = false
names_le (x ∷ xs) (y ∷ ys) = if text_eq x y then names_le xs ys else text_le x y

abbrev pub path_le : FilePath → FilePath → Bool
path_le p q = names_le (components p) (components q)

unfoldable pub insert_path : FilePath → List FilePath → List FilePath
insert_path p [] = p ∷ []
insert_path p (q ∷ qs) = let rest = insert_path p qs in if path_le p q then p ∷ q ∷ qs else q ∷ rest

unfoldable pub sort_paths : List FilePath → List FilePath
sort_paths [] = []
sort_paths (p ∷ ps) = insert_path p (sort_paths ps)

unfoldable pub keep : (FilePath → Bool) → List FilePath → List FilePath
keep test [] = []
keep test (p ∷ ps) = let rest = keep test ps in if test p then p ∷ rest else rest

unfoldable pub without_id : Text → List Text → List Text
without_id id [] = []
without_id id (t ∷ ts) = let rest = without_id id ts in if text_eq t id then rest else t ∷ rest

abbrev pub invalid : Text → IoError
invalid e = record { kind = invalid_data; message = e }

abbrev pub is_not_found : IoKind → Bool
is_not_found not_found = true
is_not_found _ = false

-- An unreadable list counts as empty.
abbrev pub or_empty : Result (List Text) IoError → List Text
or_empty (ok ids) = ids
or_empty (err e) = []
