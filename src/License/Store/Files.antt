-- ===== src/License/Store/Files.antt =====
-- The operations of `LicenseLocations` in crates/cursdel-license/src/store.rs on the disk.
use cursedelete.Base.{
  has_text, Bool, true, false, ◌&&◌, Option, none, some, List, [], ◌∷◌, ◌++◌, ◌==◌, if◌then◌else◌,
  length, Text, FilePath, codes, Result, ok, err, map_err,
}
use cursedelete.Base.Decimal.{digits}
use cursedelete.Paths.{file_name, parent, join}
use cursedelete.License.Disk.{Disk, Io, IoError, invalid_input, lift, ◌>>=◌, ◌>>◌}
use cursedelete.License.Resolve.{Candidate}
use cursedelete.License.Store.{
  Scope, user, system, LicenseLocations, ActivationCredentials, StoredActivation, StateFormat,
  license_name, activation_name, credentials_name, revocations_name, Secrecy, public, secret,
  is_secret, dir, file, license_file, name_of, is_candidate_name, sort_paths, keep, without_id,
  invalid, or_empty, is_not_found,
}

module _ (D : Disk) where
  abbrev could_not_read : IoError → Text
  could_not_read e = codes "could not read file: " ++ e.message

  unfoldable pub read_candidate : D.World → FilePath → Candidate
  read_candidate w p = record {
    source = p;
    contents = map_err could_not_read (D.read_to_string w p);
  }

  abbrev optional : Result Text IoError → Result (Option Text) IoError
  optional (ok t) = ok (some t)
  optional (err e) = if is_not_found e.kind then ok none else err e

  unfoldable pub read_optional : D.World → FilePath → Result (Option Text) IoError
  read_optional w p = optional (D.read_to_string w p)

  abbrev absent_is_ok : D.World × Result (Unit {0}) IoError → D.World × Result (Unit {0}) IoError
  absent_is_ok (w, ok u) = (w, ok tt)
  absent_is_ok (w, err e) = if is_not_found e.kind then (w, ok tt) else (w, err e)

  unfoldable pub remove_if_exists : FilePath → Io D.World (Unit {0})
  remove_if_exists p w = absent_is_ok (D.remove_file p w)

  -- The temporary file beside the file that is written.
  unfoldable pub temporary : FilePath → FilePath → FilePath
  temporary folder p = join folder (
      codes "."
      ++ (elim (file_name p) [ none ↦ codes "file" | some n ↦ n ])
      ++ codes ".tmp-"
      ++ digits D.process_id)

  abbrev pub restrict_if : Bool → FilePath → Io D.World (Unit {0})
  restrict_if false p = lift (ok tt)
  restrict_if true p = D.restrict_to_owner p

  -- The closure that writes the temporary file and moves it into place.
  unfoldable pub write_and_rename : FilePath → FilePath → Text → Bool → Io D.World (Unit {0})
  write_and_rename tmp p text secrecy =
      D.open_file tmp secrecy
      >> restrict_if secrecy tmp
      >> D.write_all tmp text
      >> D.sync_all tmp
      >> D.rename tmp p

  -- On failure the temporary file is removed, as far as possible.
  abbrev pub clean_up :
      FilePath → D.World × Result (Unit {0}) IoError → D.World × Result (Unit {0}) IoError
  clean_up tmp (w, ok u) = (w, ok u)
  clean_up tmp (w, err e) = ((D.remove_file tmp w).0, err e)

  abbrev pub no_parent : IoError
  no_parent = record { kind = invalid_input; message = codes "path has no parent" }

  abbrev pub write_in : Option FilePath → FilePath → Text → Bool → Io D.World (Unit {0})
  write_in none p text secrecy = lift (err no_parent)
  write_in (some folder) p text secrecy = D.create_dir_all folder >> λ w.
      clean_up (temporary folder p) (write_and_rename (temporary folder p) p text secrecy w)

  unfoldable pub write_atomic : FilePath → Text → Secrecy → Io D.World (Unit {0})
  write_atomic p text secrecy = write_in (parent p) p text (is_secret secrecy)

  module _ (l : LicenseLocations) where
    -- The file is one of the licences of the system directory.
    abbrev pub is_license_file : D.World → FilePath → Bool
    is_license_file w p = D.is_file w p && is_candidate_name (name_of p)

    abbrev pub read_all : D.World → List FilePath → List Candidate
    read_all w [] = []
    read_all w (p ∷ ps) = read_candidate w p ∷ read_all w ps

    abbrev pub listed : D.World → Option (List FilePath) → List Candidate
    listed w none = []
    listed w (some entries) = read_all w (sort_paths (keep (is_license_file w) entries))

    abbrev in_user_dir : D.World → FilePath → List Candidate
    in_user_dir w p = if D.exists w p then read_candidate w p ∷ [] else []

    abbrev pub candidates_at : D.World → Scope → Result FilePath IoError → List Candidate
    candidates_at w s (err e) = []
    candidates_at w user (ok d) = in_user_dir w (join d license_name)
    candidates_at w system (ok d) = listed w (D.read_dir w d)

    unfoldable pub candidates_in : Scope → D.World → List Candidate
    candidates_in s w = candidates_at w s (dir l s)

    abbrev overriding : D.World → Option FilePath → List Candidate
    overriding w none = []
    overriding w (some p) = read_candidate w p ∷ []

    unfoldable pub candidates : D.World → List Candidate
    candidates w = overriding w l.override_file ++ candidates_in user w ++ candidates_in system w

    abbrev read_at : D.World → Result FilePath IoError → Result (Option Text) IoError
    read_at w (err e) = err e
    read_at w (ok p) = read_optional w p

    abbrev stored : Scope → Result (Option Text) IoError → List StoredActivation
    stored s (err e) = []
    stored s (ok none) = []
    stored s (ok (some t)) = record { scope = s; certificate = t } ∷ []

    unfoldable pub activation_certificates : D.World → List StoredActivation
    activation_certificates w =
        stored user (read_at w (file l user activation_name))
        ++ stored system (read_at w (file l system activation_name))

    unfoldable pub write_license : Scope → Text → Io D.World (Unit {0})
    write_license s text = lift (license_file l s) >>= λ p. write_atomic p text public

    abbrev remove_name : Scope → Text → Io D.World (Unit {0})
    remove_name s name = lift (file l s name) >>= remove_if_exists

    unfoldable pub remove_activation : Scope → Io D.World (Unit {0})
    remove_activation s = remove_name s activation_name >> remove_name s credentials_name

    module _ (J : StateFormat) where
      abbrev parsed_credentials :
          Result (Option Text) IoError → Result (Option ActivationCredentials) IoError
      parsed_credentials (err e) = err e
      parsed_credentials (ok none) = ok none
      parsed_credentials (ok (some text)) = elim (J.read_credentials text) [
        | ok c ↦ ok (some c)
        | err e ↦ err (invalid e)
      ]

      unfoldable pub read_credentials :
          Scope → D.World → Result (Option ActivationCredentials) IoError
      read_credentials s w = parsed_credentials (read_at w (file l s credentials_name))

      -- The credentials are written before the certificate.
      unfoldable pub write_activation : Scope → Text → ActivationCredentials → Io D.World (Unit {0})
      write_activation s certificate c = lift (map_err invalid (J.credentials_text c)) >>= λ text.
          lift (file l s credentials_name) >>= λ p. write_atomic p text (secret s) >>= λ u.
          lift (file l s activation_name) >>= λ q. write_atomic q certificate public

      abbrev parsed_revocations : Result (Option Text) IoError → Result (List Text) IoError
      parsed_revocations (err e) = err e
      parsed_revocations (ok none) = ok []
      parsed_revocations (ok (some text)) = map_err invalid (J.read_revocations text)

      unfoldable pub read_revocations : Scope → D.World → Result (List Text) IoError
      read_revocations s w = parsed_revocations (read_at w (file l s revocations_name))

      unfoldable pub write_revocations : Scope → List Text → Io D.World (Unit {0})
      write_revocations s ids = lift (map_err invalid (J.revocations_text ids)) >>= λ text.
          lift (file l s revocations_name) >>= λ p. write_atomic p text public

      unfoldable pub revoked_license_ids : D.World → List Text
      revoked_license_ids w =
          or_empty (read_revocations user w) ++ or_empty (read_revocations system w)

      unfoldable pub record_revocation : Scope → Text → Io D.World (Unit {0})
      record_revocation s id w =
          let ids = or_empty (read_revocations s w) in
          if has_text id ids then (w, ok tt) else write_revocations s (ids ++ (id ∷ [])) w

      abbrev clear_in : Scope → Text → Result (List Text) IoError → Io D.World (Unit {0})
      clear_in s id (err e) = lift (ok tt)
      clear_in s id (ok ids) =
          let kept = without_id id ids in
          if length kept == length ids then lift (ok tt) else write_revocations s kept

      unfoldable pub clear_revocation : Scope → Text → Io D.World (Unit {0})
      clear_revocation s id w = clear_in s id (read_revocations s w) w
