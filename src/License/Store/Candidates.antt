-- ===== src/License/Store/Candidates.antt =====
-- What the store holds after a revocation was recorded, and which files count as licences.
use cursedelete.Base.{
  has_text, ◌≡◌, refl, ap, ◌∙◌, subst, inl, inr, true, ◌||◌, List, [], ◌∷◌, ◌++◌, arith, Bool-cases,
  Text, text_eq_iff, Result, ok, map_err_iff, map_err,
}
use cursedelete.License.Disk.{Disk, IoError, lift}
use cursedelete.License.Store.{
  LicenseLocations, Scope, user, system, StateFormat, public, file, revocations_name, invalid,
  or_empty,
}
use cursedelete.License.Store.Files.{
  write_revocations, read_revocations, revoked_license_ids, record_revocation, read_optional,
}
use cursedelete.License.Store.Atomic.{IsDisk, after-elim, write_atomic-ok}

has_text-append :
    (s : Text) (xs ys : List Text) → has_text s (xs ++ ys) ≡ (has_text s xs || has_text s ys)
unfolding has_text
has_text-append s [] ys = refl
has_text-append s (x ∷ xs) ys = ground (arith, has_text-append s xs ys)

has_text-last : (s : Text) (xs : List Text) → has_text s (xs ++ (s ∷ [])) ≡ true
unfolding has_text
has_text-last s xs = ground (arith, has_text-append s xs (s ∷ []), (text_eq_iff s s).1 refl)

module _ (D : Disk) (x : IsDisk D) (l : LicenseLocations) (J : StateFormat) where
  write_revocations-ok :
      (s : Scope) (ids : List Text) (w v : D.World)
      → ((ids : List Text) (t : Text)
          → J.revocations_text ids ≡ ok t
          → J.read_revocations t ≡ ok ids)
      → write_revocations D l J s ids w ≡ (v, ok tt)
      → read_revocations D l J s v ≡ ok ids
  unfolding write_revocations read_revocations read_optional
  write_revocations-ok s ids w v back h =
      after-elim (lift (map_err invalid (J.revocations_text ids)) w) _ h λ w1 t e1 h1.
        after-elim (lift (file l s revocations_name) w1) _ h1 λ w2 p e2 h2.
          let holds = write_atomic-ok D x p t public w2 v h2 in
          let located : file l s revocations_name ≡ ok p = ap (λ o. o.1) e2 in
          let json = (map_err_iff invalid (J.revocations_text ids) t).0 (ap (λ o. o.1) e1) in
          ground (arith, located, holds, back ids t json)

  record_revocation-listed :
      (s : Scope) (id : Text) (w v : D.World)
      → ((ids : List Text) (t : Text)
          → J.revocations_text ids ≡ ok t
          → J.read_revocations t ≡ ok ids)
      → record_revocation D l J s id w ≡ (v, ok tt)
      → has_text id (or_empty (read_revocations D l J s v)) ≡ true
  unfolding record_revocation
  record_revocation-listed s id w v back h =
      elim (Bool-cases (has_text id (or_empty (read_revocations D l J s w)))) [
        | inl known ↦
            let same : ◌≡◌ {A = D.World × Result (Unit {0}) IoError} (w, ok tt) (v, ok tt) =
              rw known at h in
            subst (λ u. has_text id (or_empty (read_revocations D l J s u)) ≡ true)
              (ap (λ (o : D.World × Result (Unit {0}) IoError). o.0) same) known
        | inr new ↦
            let ids = or_empty (read_revocations D l J s w) in
            let written = write_revocations-ok s (ids ++ (id ∷ [])) w v back (rw new at h) in
            rw written (has_text-last id ids)
      ]

  -- Where the calls of the disk do what they document and a list of ids that is written reads back, a
  -- revocation that was recorded, in either scope, is among those known afterwards.
  pub record_revocation-is_known :
      (s : Scope) (id : Text) (w v : D.World)
      → ((ids : List Text) (t : Text)
          → J.revocations_text ids ≡ ok t
          → J.read_revocations t ≡ ok ids)
      → record_revocation D l J s id w ≡ (v, ok tt)
      → has_text id (revoked_license_ids D l J v) ≡ true
  unfolding revoked_license_ids
  record_revocation-is_known user id w v back h =
      has_text-append id (or_empty (read_revocations D l J user v))
        (or_empty (read_revocations D l J system v))
      ∙ ap (λ b. b || has_text id (or_empty (read_revocations D l J system v)))
          (record_revocation-listed user id w v back h)
  record_revocation-is_known system id w v back h =
      has_text-append id (or_empty (read_revocations D l J user v))
        (or_empty (read_revocations D l J system v))
      ∙ ground (arith, record_revocation-listed system id w v back h)
