-- ===== src/License/Commands/Found.antt =====
-- Which licence `renew` finds in a scope.
use cursedelete.Base.{
  ◌≡◌, refl, ◌∙◌, List, [], ◌∷◌, arith, inl, inr, Option, none, some, Text, Result, ok, err,
}
use cursedelete.License.Formats.{Formats}
use cursedelete.License.Validate.{VerifiedLicense, verify_license, verify_license_identity}
use cursedelete.License.Disk.{Disk}
use cursedelete.License.Store.{Scope, StateFormat}
use cursedelete.License.Store.Files.{candidates_in}
use cursedelete.License.Service.{LicenseService}
use cursedelete.License.Resolve.{Candidate}
use cursedelete.License.Commands.{find_map, readable, ok_of, or_else, Context, renewable}
use cursedelete.License.Commands.Changes.{Some, Installed}

find_map-some :
    {A : Type 0} (f : Text → Option A) (cs : List Candidate) (a : A)
    → find_map f (readable cs) ≡ some a
    → Some (λ (c : Candidate). (t : Text) × (c.contents ≡ ok t) × (f t ≡ some a)) cs
unfolding find_map
find_map-some f [] a h = cc
find_map-some {A} f (c ∷ cs) a h = by_contents c.contents refl h (find_map-some f cs a)
  where
    -- What is found in the first file, or else in the others.
    by_value :
        (t : Text) (o : Option A)
        → c.contents ≡ ok t
        → f t ≡ o
        → (elim o [ some b ↦ some b | none ↦ find_map f (readable cs) ]) ≡ some a
        → (find_map f (readable cs) ≡ some a
            → Some (λ (c : Candidate). (t : Text) × (c.contents ≡ ok t) × (f t ≡ some a)) cs)
        → Some (λ (c : Candidate). (t : Text) × (c.contents ≡ ok t) × (f t ≡ some a)) (c ∷ cs)
    by_value t none e k h others = inr (others h)
    by_value t (some b) e k h others = inl (t, e, k ∙ h)

    by_contents :
        (r : Result Text Text)
        → c.contents ≡ r
        → find_map f (elim r [ ok t ↦ t ∷ readable cs | err e ↦ readable cs ]) ≡ some a
        → (find_map f (readable cs) ≡ some a
            → Some (λ (c : Candidate). (t : Text) × (c.contents ≡ ok t) × (f t ≡ some a)) cs)
        → Some (λ (c : Candidate). (t : Text) × (c.contents ≡ ok t) × (f t ≡ some a)) (c ∷ cs)
    by_contents (ok t) e h others = by_value t (f t) e refl h others
    by_contents (err m) e h others = inr (others h)

Some-map :
    {A : Type 0} (P Q : A → Type 0) (xs : List A) → ((x : A) → P x → Q x) → Some P xs → Some Q xs
Some-map P Q [] h m = absurd m
Some-map P Q (x ∷ xs) h (inl p) = inl (h x p)
Some-map P Q (x ∷ xs) h (inr m) = inr (Some-map P Q xs h m)

ok_of-some : {A E : Type 0} (r : Result A E) (a : A) → ok_of r ≡ some a → r ≡ ok a
ok_of-some (ok b) a h = ground (arith, h)
ok_of-some (err e) a h = cc

module _ (F : Formats) (D : Disk) (J : StateFormat) (ctx : Context F D J) (service : LicenseService)
    (s : Scope) where
  pub renewable-Installed :
      (w : D.World) (v : VerifiedLicense F)
      → renewable F D J ctx s w ≡ some v
      → Installed F D J ctx service s v w
  unfolding renewable
  renewable-Installed w v h =
      let cs = candidates_in D ctx.locations s w in
      by_first (find_map (λ t. ok_of (verify_license F ctx.policy t ctx.now)) (readable cs)) refl h
    where
      by_first :
          (o : Option (VerifiedLicense F))
          → find_map
              (λ t. ok_of (verify_license F ctx.policy t ctx.now))
              (readable (candidates_in D ctx.locations s w))
            ≡ o
          → or_else F D J ctx o (
              find_map
                (λ t. ok_of (verify_license_identity F ctx.policy t))
                (readable (candidates_in D ctx.locations s w)))
            ≡ some v
          → Installed F D J ctx service s v w
      by_first (some u) e k =
          Some-map _ _ _ (λ c (t, r, q). (t, r, inl (ok_of-some _ v q)))
            (find_map-some _ (candidates_in D ctx.locations s w) v (e ∙ k))
      by_first none e k =
          Some-map _ _ _ (λ c (t, r, q). (t, r, inr (ok_of-some _ v q)))
            (find_map-some _ (candidates_in D ctx.locations s w) v k)
