-- ===== src/Tests/Store.antt =====
-- The licence store, the licence commands, the server's addresses and the policy, at fixed inputs.
use cursedelete.Base.{
  has_text, strip_prefix, join_with, ◌≡◌, refl, sym, ap, ◌∙◌, subst, ◌≢◌, ◌↔◌, ◌⊎◌, true, false,
  none, some, List, [], ◌∷◌, arith, All, Text, FilePath, codes, text_eq, text_eq_iff, Result, ok,
  err, ok-injective,
}
use mathlib.Core.Option.{some-injective}
use cursedelete.Paths.{components, file_name, parent, join, normal_components}
use cursedelete.Base.{split, join_with}
use cursedelete.Base.Decimal
use cursedelete.License.Disk.{IoError}
use cursedelete.License.Editions.{community}
use cursedelete.License.Keys.{new_set, check_ids}
use cursedelete.License.Validate.{LicensePolicy}
use cursedelete.License.Resolve.{Candidate, resolve, edition}
use cursedelete.License.Store.{LicenseLocations, user, system, StateFormat, public, dir, file}
use cursedelete.License.Store.Files.{
  write_atomic, write_and_rename, temporary, read_optional, candidates_in, write_revocations,
  read_revocations, record_revocation, revoked_license_ids,
}
use cursedelete.License.Store.Atomic.{write_atomic_all_or_nothing}
use cursedelete.License.Store.Reserved.{IsForeign, candidates_in-IsForeign}
use cursedelete.License.Store.Candidates.{record_revocation-is_known}
use cursedelete.License.Service.{not_configured, unconfigured_service}
use cursedelete.License.Http.{is_acceptable_url}
use cursedelete.License.Http.Urls.{IsHttps, IsLoopback, is_acceptable_url_iff}
use cursedelete.License.Commands.{install_file, renew_license, Context, run}
use cursedelete.License.Commands.Changes.{Does}
use cursedelete.License.Commands.Honest.{run-Changes}
use cursedelete.License.Commands.Unreachable.{IsUnreachable, run-unreachable}
use cursedelete.Policy.{
  Feature, is_enabled, allowed_algorithms, license_policy, trusted_keys, read_keys,
}
use cursedelete.Policy.Gates.{license_policy-community}
use cursedelete.Tests.License.{toy, policy, local, business_file}
use cursedelete.Tests.Disks.{Files, set, toy_disk, toy_disk-IsDisk}

abbrev no_files : Files
no_files p = none

abbrev place : FilePath
place = codes "/l/x"

abbrev one_written : Files × Result (Unit {0}) IoError
one_written = write_atomic toy_disk place (codes "new") public no_files

place_beside :
    (folder : FilePath) → parent place ≡ some folder → place ≢ temporary toy_disk folder place
unfolding parent components normal_components split text_eq join_with temporary join file_name
    Decimal.digits Decimal.digits_on
place_beside folder e h =
    let here : folder ≡ codes "/l" = some-injective folder (codes "/l") (sym e) in
    let same : place ≡ temporary toy_disk (codes "/l") place =
      h ∙ ap (λ f. temporary toy_disk f place) here in
    absurd (ground (arith, (text_eq_iff place (temporary toy_disk (codes "/l") place)).1 same))

write_atomic_all_or_nothing_example :
    ((one_written.1 ≡ ok tt) × (toy_disk.read_to_string one_written.0 place ≡ ok (codes "new")))
    ⊎ ((e : IoError) × (one_written.1 ≡ err e)
        × ((s : Text)
            → toy_disk.read_to_string no_files place ≡ ok s
            → toy_disk.read_to_string one_written.0 place ≡ ok s))
write_atomic_all_or_nothing_example =
    write_atomic_all_or_nothing toy_disk toy_disk-IsDisk place (codes "new") public no_files
      one_written.0 one_written.1 place_beside refl

abbrev written_ids : List Text → Result Text Text
written_ids [] = ok []
written_ids (t ∷ []) = ok (1 ∷ t)
written_ids (t ∷ u ∷ ts) = err (codes "too many")

abbrev read_ids : Text → Result (List Text) Text
read_ids [] = ok []
read_ids (c ∷ t) = ok (t ∷ [])

abbrev toy_state : StateFormat
toy_state = record {
  read_credentials = λ t. err (codes "expected value");
  credentials_text = λ c. ok [];
  read_revocations = read_ids;
  revocations_text = written_ids;
}

ids_read_back :
    (ids : List Text) (t : Text)
    → toy_state.revocations_text ids ≡ ok t
    → toy_state.read_revocations t ≡ ok ids
ids_read_back [] t h = ground (arith, h)
ids_read_back (u ∷ []) t h = subst (λ s. read_ids s ≡ ok (u ∷ [])) (ok-injective h) refl
ids_read_back (u ∷ v ∷ ids) t h = cc

abbrev places : LicenseLocations
places = record { override_file = none; user_dir = codes "/u"; system_dir = some (codes "/etc/l") }

abbrev one_revoked : Files × Result (Unit {0}) IoError
one_revoked = record_revocation toy_disk places toy_state user (codes "lic") no_files

one_revoked-ok : one_revoked ≡ (one_revoked.0, ok tt)
unfolding record_revocation read_revocations read_optional write_revocations has_text dir file
    write_atomic write_and_rename parent components normal_components split text_eq join_with
    temporary join file_name Decimal.digits Decimal.digits_on set
one_revoked-ok = refl

record_revocation-is_known_example :
    has_text (codes "lic") (revoked_license_ids toy_disk places toy_state one_revoked.0) ≡ true
record_revocation-is_known_example =
    record_revocation-is_known toy_disk toy_disk-IsDisk places toy_state user (codes "lic") no_files
      one_revoked.0 ids_read_back one_revoked-ok

abbrev one_license : Files
one_license =
    set (codes "/etc/l/b.license") (some (codes "B"))
      (set (codes "/etc/l/activation.json") (some (codes "A")) no_files)

candidates_in-IsForeign_example :
    All
      (λ (c : Candidate). IsForeign toy_disk places c.source)
      (candidates_in toy_disk places system one_license)
candidates_in-IsForeign_example = candidates_in-IsForeign toy_disk places one_license

abbrev context : Context toy toy_disk toy_state
context = record {
  policy = policy;
  locations = places;
  device_id = codes "dev";
  now = 20;
  client_secret = codes "s";
}

run-Changes_example :
    Does toy toy_disk toy_state context unconfigured_service
      (install_file (codes "/etc/l/b.license") user)
      one_license
      (run toy toy_disk toy_state context
        (install_file (codes "/etc/l/b.license") user)
        (ok unconfigured_service)
        one_license).0
run-Changes_example =
    run-Changes toy toy_disk toy_state context unconfigured_service
      (install_file (codes "/etc/l/b.license") user) one_license

unconfigured-IsUnreachable : IsUnreachable unconfigured_service
unconfigured-IsUnreachable = record {
  activate_fails = λ q. (not_configured, refl);
  renew_fails = λ q. (not_configured, refl, tt);
  deactivate_fails = λ p a. (not_configured, refl, tt);
}

run-unreachable_example :
    (run toy toy_disk toy_state context
      (renew_license system)
      (ok unconfigured_service)
      one_license).0
    ≡ one_license
run-unreachable_example =
    run-unreachable toy toy_disk toy_state context unconfigured_service unconfigured-IsUnreachable
      (renew_license system) one_license tt

-- An address in which `localhost` is a user name is accepted.
user_name_accepted : is_acceptable_url (codes "http://localhost:x@example.com") ≡ true
unfolding is_acceptable_url strip_prefix
user_name_accepted = refl

is_acceptable_url_iff_example :
    (is_acceptable_url (codes "http://localhost:8080") ≡ true)
    ↔ (IsHttps (codes "http://localhost:8080") ⊎ IsLoopback (codes "http://localhost:8080"))
is_acceptable_url_iff_example = is_acceptable_url_iff (codes "http://localhost:8080")

abbrev pub this_policy : LicensePolicy toy
this_policy = record {
  product = record { product_id = codes "cursedelete"; major_version = 2 };
  trusted_keys = [];
  allowed_algorithms = allowed_algorithms;
  business_offline_limit = none;
}

pub this_policy_built : license_policy toy 2 ≡ ok this_policy
unfolding license_policy trusted_keys read_keys new_set check_ids
this_policy_built = refl

license_policy-community_example :
    ((resolve toy this_policy local 20 (business_file ∷ [])).active ≡ none)
    × (edition toy (resolve toy this_policy local 20 (business_file ∷ [])) ≡ community)
    × ((f : Feature)
        → is_enabled f (edition toy (resolve toy this_policy local 20 (business_file ∷ [])))
          ≡ false)
license_policy-community_example =
    license_policy-community toy 2 this_policy local 20 (business_file ∷ []) this_policy_built
