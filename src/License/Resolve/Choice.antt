-- ===== src/License/Resolve/Choice.antt =====
-- How the best of the candidates is chosen.
use cursedelete.Base.{
  ◌≤◌, ◌<◌, ◌≡◌, refl, sym, ap, ◌∙◌, subst, ◌≢◌, ◌↔◌, ◌⊎◌, inl, inr, Bool, true, false, Option,
  none, some, List, [], ◌∷◌, ◌++◌, arith, if◌then◌else◌, if-elim, Bool-cases, All, ok, err,
  ok-injective, Result-cases,
}
use mathlib.Core.Option.{some-injective}
use cursedelete.License.Formats.{Formats}
use cursedelete.License.Editions.{rank}
use cursedelete.License.Claims.{ActivationClaims}
use cursedelete.License.Validate.{Rejection, VerifiedLicense, LicensePolicy}
use cursedelete.License.Resolve.{
  Candidate, LocalState, ActiveLicense, edition_of, judge, sort_candidates, beats, pick, resolve,
  sort_one,
}

module _ (F : Formats) (policy : LicensePolicy F) (local : LocalState) (now : F.Instant) where
  abbrev active_from : Candidate → VerifiedLicense F × Option (ActivationClaims F) → ActiveLicense F
  active_from c (l, x) = record { source = c.source; license = l; activation = x }

  -- The candidate is accepted, as this licence.
  abbrev pub Accepted : Candidate → ActiveLicense F → Type 0
  Accepted c a = (c.source ≡ a.source) × (judge F policy local now c ≡ ok (a.license, a.activation))

  -- If the candidate is accepted, its edition is below that of the licence, or no higher.
  abbrev pub Lower : ActiveLicense F → Candidate → Type 0
  Lower a c = (b : ActiveLicense F) → Accepted c b → rank (edition_of F b) < rank (edition_of F a)

  abbrev pub NoHigher : ActiveLicense F → Candidate → Type 0
  NoHigher a c =
      (b : ActiveLicense F) → Accepted c b → rank (edition_of F b) ≤ rank (edition_of F a)

  -- The licence is that of the first among the highest of the candidates.
  abbrev pub IsFirstBest : List Candidate → ActiveLicense F → Type 0
  IsFirstBest cs a =
      (before : List Candidate) × (c : Candidate) × (after : List Candidate) × (cs
        ≡ before ++ (c ∷ after))
      × Accepted c a
      × All (Lower a) before
      × All (NoHigher a) after

  abbrev pub valid : List Candidate → List (ActiveLicense F)
  valid cs = (sort_candidates F policy local now cs).0

  -- A licence beats the best one so far.
  abbrev Beaten : Option (ActiveLicense F) → ActiveLicense F → Type 0
  Beaten best a =
      (b : ActiveLicense F) → best ≡ some b → rank (edition_of F b) < rank (edition_of F a)

  valid-ok :
      (c : Candidate) (cs : List Candidate) (o : VerifiedLicense F × Option (ActivationClaims F))
      → judge F policy local now c ≡ ok o
      → valid (c ∷ cs) ≡ active_from c o ∷ valid cs
  unfolding sort_candidates
  valid-ok c cs o h = ap (λ r. (sort_one F c r (sort_candidates F policy local now cs)).0) h

  valid-err :
      (c : Candidate) (cs : List Candidate) (e : Rejection F)
      → judge F policy local now c ≡ err e
      → valid (c ∷ cs) ≡ valid cs
  unfolding sort_candidates
  valid-err c cs e h = ap (λ r. (sort_one F c r (sort_candidates F policy local now cs)).0) h

  -- A candidate is accepted as one licence only.
  Accepted-edition :
      (c : Candidate) (o : VerifiedLicense F × Option (ActivationClaims F)) (b : ActiveLicense F)
      → judge F policy local now c ≡ ok o
      → Accepted c b
      → edition_of F b ≡ edition_of F (active_from c o)
  Accepted-edition c o b h (s, j) =
      ap (λ (o : VerifiedLicense F × Option (ActivationClaims F)). o.0.claims.edition)
        (ok-injective (sym j ∙ h))

  rejected-Lower :
      (c : Candidate) (e : Rejection F) (a : ActiveLicense F)
      → judge F policy local now c ≡ err e
      → Lower a c
  rejected-Lower c e a h b (s, j) = cc

  beats-Beaten :
      (l : ActiveLicense F) (best : Option (ActiveLicense F))
      → beats F l best ≡ true
      → Beaten best l
  beats-Beaten l best h b e = ground arith

  loses-le :
      (l : ActiveLicense F) (best : Option (ActiveLicense F)) (a : ActiveLicense F)
      → beats F l best ≡ false
      → best ≡ some a
      → rank (edition_of F l) ≤ rank (edition_of F a)
  loses-le l none a h e = cc
  loses-le l (some b) a h e = let same = some-injective b a e in rw (sym same) (ground arith)

  loses-lt :
      (l : ActiveLicense F) (best : Option (ActiveLicense F)) (a : ActiveLicense F)
      → beats F l best ≡ false
      → Beaten best a
      → rank (edition_of F l) < rank (edition_of F a)
  loses-lt l none a h b = cc
  loses-lt l (some x) a h b = ground (arith, b x refl)

  -- A choice in progress: the best so far stays, or a later candidate beats it.
  abbrev Chosen : Option (ActiveLicense F) → List Candidate → ActiveLicense F → Type 0
  Chosen best cs a = ((best ≡ some a) × All (NoHigher a) cs) ⊎ (Beaten best a × IsFirstBest cs a)

  -- One more candidate in front, when the choice goes on with the best so far.
  Chosen-same :
      (best : Option (ActiveLicense F)) (c : Candidate) (cs : List Candidate) (a : ActiveLicense F)
      → (best ≡ some a → NoHigher a c)
      → (Beaten best a → Lower a c)
      → Chosen best cs a
      → Chosen best (c ∷ cs) a
  Chosen-same best c cs a same lower (inl (e, all)) = inl (e, (same e, all))
  Chosen-same best c cs a same lower (inr (beaten, (before, d, after, e, acc, lows, highs))) =
      inr (beaten, (c ∷ before, d, after, ap (λ xs. c ∷ xs) e, acc, (lower beaten, lows), highs))

  -- The same, when it goes on with the candidate.
  Chosen-new :
      (best : Option (ActiveLicense F)) (c : Candidate) (cs : List Candidate)
      (a l : ActiveLicense F)
      → Accepted c l
      → Beaten best l
      → (Beaten (some l) a → Lower a c)
      → Chosen (some l) cs a
      → Chosen best (c ∷ cs) a
  Chosen-new best c cs a l acc beaten lower (inl (e, all)) =
      let same = some-injective l a e in
      inr (subst (Beaten best) same beaten, ([], c, cs, refl, subst (Accepted c) same acc, tt, all))
  Chosen-new best c cs a l acc beaten lower (inr (b, (before, d, after, e, acc', lows, highs))) =
      inr (
        λ x q. omega (arith, beaten x q, b l refl),
        (c ∷ before, d, after, ap (λ xs. c ∷ xs) e, acc', (lower b, lows), highs),
      )

  pick-Chosen :
      (best : Option (ActiveLicense F)) (cs : List Candidate) (a : ActiveLicense F)
      → pick F best (valid cs) ≡ some a
      → Chosen best cs a
  unfolding pick sort_candidates
  pick-Chosen best [] a h = inl (h, tt)
  pick-Chosen best (c ∷ cs) a h = elim (Result-cases (judge F policy local now c)) [
    | inr (e, j) ↦
        Chosen-same best c cs a (λ s b acc. omega (arith, rejected-Lower c e a j b acc))
          (λ b. rejected-Lower c e a j)
          (pick-Chosen best cs a (subst (λ ls. pick F best ls ≡ some a) (valid-err c cs e j) h))
    | inl (o, j) ↦
        let l = active_from c o in
        let k : pick F best (l ∷ valid cs) ≡ some a =
          subst (λ ls. pick F best ls ≡ some a) (valid-ok c cs o j) h in
        elim (Bool-cases (beats F l best)) [
          | inl wins ↦
              Chosen-new best c cs a l (refl, j) (beats-Beaten l best wins)
                (λ b x acc. rw (Accepted-edition c o x j acc) (b l refl))
                (pick-Chosen (some l) cs a
                  (subst (λ t. pick F (if t then some l else best) (valid cs) ≡ some a) wins k))
          | inr loses ↦
              Chosen-same best c cs a
                (λ s x acc. rw (Accepted-edition c o x j acc) (loses-le l best a loses s))
                (λ b x acc. rw (Accepted-edition c o x j acc) (loses-lt l best a loses b))
                (pick-Chosen best cs a
                  (subst (λ t. pick F (if t then some l else best) (valid cs) ≡ some a) loses k))
        ]
  ]

  pick-cons :
      (best : Option (ActiveLicense F)) (l : ActiveLicense F) (ls : List (ActiveLicense F))
      (b : Bool)
      → beats F l best ≡ b
      → pick F best (l ∷ ls) ≡ pick F (if b then some l else best) ls
  unfolding pick
  pick-cons best l ls b h = ap (λ t. pick F (if t then some l else best) ls) h

  -- A licence stays the best as long as nothing is higher.
  pick-stays :
      (a : ActiveLicense F) (cs : List Candidate)
      → All (NoHigher a) cs
      → pick F (some a) (valid cs) ≡ some a
  unfolding pick sort_candidates
  pick-stays a [] h = refl
  pick-stays a (c ∷ cs) (here, rest) = elim (Result-cases (judge F policy local now c)) [
    | inr (e, j) ↦ rw (valid-err c cs e j) (pick-stays a cs rest)
    | inl (o, j) ↦
        let l = active_from c o in
        let no_higher = here l (refl, j) in
        let loses : beats F l (some a) ≡ false = ground arith in
        rw (valid-ok c cs o j) (pick-cons (some a) l (valid cs) false loses ∙ pick-stays a cs rest)
  ]

  Beaten-beats :
      (a : ActiveLicense F) (best : Option (ActiveLicense F))
      → Beaten best a
      → beats F a best ≡ true
  Beaten-beats a none b = refl
  Beaten-beats a (some x) b = ground (arith, b x refl)

  -- The first of the highest is found.
  pick-finds :
      (best : Option (ActiveLicense F)) (before : List Candidate) (c : Candidate)
      (after : List Candidate) (a : ActiveLicense F)
      → Accepted c a
      → Beaten best a
      → All (Lower a) before
      → All (NoHigher a) after
      → pick F best (valid (before ++ (c ∷ after))) ≡ some a
  unfolding pick
  pick-finds best [] c after a (s, j) b lows highs =
      let same : active_from c (a.license, a.activation) ≡ a =
        ap (λ p. record { source = p; license = a.license; activation = a.activation }) s in
      rw (valid-ok c after (a.license, a.activation) j) (
        rw same
          (pick-cons best a (valid after) true (Beaten-beats a best b) ∙ pick-stays a after highs))
  pick-finds best (d ∷ before) c after a acc b (low, lows) highs =
      elim (Result-cases (judge F policy local now d)) [
        | inr (e, j) ↦
            rw (valid-err d (before ++ (c ∷ after)) e j)
              (pick-finds best before c after a acc b lows highs)
        | inl (o, j) ↦
            let l = active_from d o in
            let below : Beaten (some l) a =
              λ x e. rw (sym (some-injective l x e)) (low l (refl, j)) in
            rw (valid-ok d (before ++ (c ∷ after)) o j) (
              pick-finds (if beats F l best then some l else best) before c after a acc
                (if-elim (λ o. Beaten o a) (beats F l best) (some l) best below b) lows highs)
      ]

  pick-some : (best : ActiveLicense F) (ls : List (ActiveLicense F)) → pick F (some best) ls ≢ none
  unfolding pick
  pick-some best [] = λ h. cc
  pick-some best (l ∷ ls) =
      if-elim (λ o. pick F o ls ≢ none) (beats F l (some best)) (some l) (some best)
        (pick-some l ls) (pick-some best ls)

  pick-none : (ls : List (ActiveLicense F)) → pick F none ls ≡ none → ls ≡ []
  unfolding pick
  pick-none [] h = refl
  pick-none (l ∷ ls) h = absurd (pick-some l ls h)

  abbrev pub Refused : Candidate → Type 0
  Refused c = (e : Rejection F) × (judge F policy local now c ≡ err e)

  valid-nil_iff : (cs : List Candidate) → (valid cs ≡ []) ↔ All Refused cs
  unfolding sort_candidates
  valid-nil_iff [] = (λ h. tt, λ h. refl)
  valid-nil_iff (c ∷ cs) = elim (Result-cases (judge F policy local now c)) [
    | inr (e, j) ↦
        let i = valid-nil_iff cs in
        (
          λ h. ((e, j), i.0 (sym (valid-err c cs e j) ∙ h)),
          λ (here, rest). valid-err c cs e j ∙ i.1 rest,
        )
    | inl (o, j) ↦ (
      λ h. absurd (ground (arith, sym (valid-ok c cs o j) ∙ h)),
      λ ((e, k), rest). absurd (ground (arith, k, j)),
    )
  ]

  -- The licence in effect is exactly the first of the candidates that are accepted whose edition none
  -- of the accepted ones exceeds.
  pub resolve_first_iff :
      (cs : List Candidate) (a : ActiveLicense F)
      → ((resolve F policy local now cs).active ≡ some a) ↔ IsFirstBest cs a
  unfolding resolve
  resolve_first_iff cs a = (
    λ h. elim (pick-Chosen none cs a h) [
      | inl (e, all) ↦ absurd (ground (arith, e))
      | inr (b, best) ↦ best
    ],
    λ (before, c, after, e, acc, lows, highs).
        rw e (pick-finds none before c after a acc (λ b q. cc) lows highs),
  )

  -- There is none exactly when every candidate is refused.
  pub resolve-none_iff :
      (cs : List Candidate) → ((resolve F policy local now cs).active ≡ none) ↔ All Refused cs
  unfolding resolve pick
  resolve-none_iff cs =
      (λ h. (valid-nil_iff cs).0 (pick-none (valid cs) h), λ h. rw ((valid-nil_iff cs).1 h) refl)
