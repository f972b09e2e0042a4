-- ===== src/Drift/Severity.antt =====
-- The severity of the reports of models/validation/drift.py, read off its results.
use ml_engineer_challenge_so.Prelude.{
  String, Bool, true, false, ◌&&◌, ◌||◌, ◌≡◌, ◌↔◌, ◌⊎◌, inl, inr, refl, arith, List, [], ◌∷◌, ◌++◌,
  any, all, any-append, if◌then◌else◌, Bool-cases, and_elim, or_elim, sym, ◌∙◌, if_elim,
}
use ml_engineer_challenge_so.Prelude.Float.{Float}
use ml_engineer_challenge_so.Drift.{
  DriftSeverity, no_drift, moderate, significant, insufficient_data, is_significant, is_moderate,
  is_insufficient, DriftResult, worst, Statistics,
}
use ml_engineer_challenge_so.Drift.Windows.{
  is_empty, column, compare_feature, compare_features, Row,
}

-- Some member has the property.
pub data Any {A : Type 0} (P : A → Type 0) : List A → Type 0 where
  here : {x : A} {xs : List A} → P x → Any P (x ∷ xs)
  there : {x : A} {xs : List A} → Any P xs → Any P (x ∷ xs)

all-append :
    {A : Type 0} (p : A → Bool) (xs : List A) (y : A)
    → all p xs ≡ true
    → p y ≡ true
    → all p (xs ++ (y ∷ [])) ≡ true
all-append p [] y h k = ground arith
all-append p (x ∷ xs) y h k =
    let (a, b) = and_elim (p x) (all p xs) h in rw a (all-append p xs y b k)

module _ (N : Float) where
  unfoldable pub is_bad : DriftResult N → Bool
  unfolding is_significant
  is_bad r = is_significant r.severity

  unfoldable pub is_idle : DriftResult N → Bool
  unfolding is_insufficient
  is_idle r = is_insufficient r.severity

  milder :
      (a b : Bool)
      → (if a then moderate else if b then insufficient_data else no_drift) ≡ significant
      → false ≡ true
  milder true b h = absurd (cc h)
  milder false true h = absurd (cc h)
  milder false false h = absurd (cc h)

  pub worst-significant_iff :
      (rs : List (DriftResult N)) → (worst N rs ≡ significant) ↔ (any (is_bad) rs ≡ true)
  unfolding worst is_bad
  worst-significant_iff [] = ground arith
  worst-significant_iff (r ∷ rs) =
      let xs = r ∷ rs in
      elim (Bool-cases (any is_bad xs))
        as (λ _. (worst N xs ≡ significant) ↔ (any is_bad xs ≡ true)) [
          | inl e ↦ rw e (λ h. refl, λ h. refl)
          | inr e ↦ rw e (λ h. milder _ _ h, λ h. absurd (cc h))
        ]

  idle-eq : (s : DriftSeverity) → is_insufficient s ≡ true → s ≡ insufficient_data
  unfolding is_insufficient
  idle-eq insufficient_data h = refl
  idle-eq no_drift h = absurd (cc)
  idle-eq moderate h = absurd (cc)
  idle-eq significant h = absurd (cc)

  all_idle :
      (rs : List (DriftResult N))
      → all is_idle rs ≡ true
      → (any (λ x. is_significant x.severity) rs ≡ false)
        × (any (λ x. is_moderate x.severity) rs ≡ false)
  unfolding is_idle is_significant is_moderate
  all_idle [] h = (refl, refl)
  all_idle (r ∷ rs) h =
      let (now, rest) = and_elim _ _ h in
      let (a, b) = all_idle rs rest in let e = idle-eq r.severity now in (rw e (a), rw e (b))

  pub worst-idle :
      (rs : List (DriftResult N)) → all is_idle rs ≡ true → worst N rs ≡ insufficient_data
  unfolding worst is_idle
  worst-idle [] h = refl
  worst-idle (r ∷ rs) h = let (a, b) = all_idle (r ∷ rs) h in rw (a, b, h) refl

  module _ (S : Statistics N) (detect : String → List S.V → List S.V → DriftResult N) where
    open S use {V}

    -- What the two columns of a feature show.
    abbrev pub seen : List (Row N S) → List (Row N S) → String → DriftResult N
    seen baseline current feature =
        detect feature (column N S feature baseline) (column N S feature current)

    compare_feature-bad :
        ((f : String) → is_bad (detect f [] []) ≡ false)
        → (f : String) (baseline current : List V) (rs : List (DriftResult N))
        → any is_bad (compare_feature N S detect f baseline current rs)
          ≡ (any is_bad rs || is_bad (detect f baseline current))
    unfolding compare_feature is_empty
    compare_feature-bad idle f [] [] rs = ground (arith, idle f)
    compare_feature-bad idle f (v ∷ vs) ws rs =
        ground (arith, any-append is_bad rs (detect f (v ∷ vs) ws ∷ []))
    compare_feature-bad idle f [] (w ∷ ws) rs =
        ground (arith, any-append is_bad rs (detect f [] (w ∷ ws) ∷ []))

    pub compare_features-bad :
        ((f : String) → is_bad (detect f [] []) ≡ false)
        → (baseline current : List (Row N S)) (features : List String) (rs : List (DriftResult N))
        → (any is_bad (compare_features N S detect baseline current features rs) ≡ true)
          ↔ ((any is_bad rs ≡ true) ⊎ Any (λ f. is_bad (seen baseline current f) ≡ true) features)
    unfolding compare_features
    compare_features-bad idle baseline current [] rs =
        (λ h. inl h, λ h. elim h [ inl e ↦ e | inr u ↦ elim u [ ] ])
    compare_features-bad idle baseline current (f ∷ features) rs =
        let here_now =
          compare_feature-bad idle f (column N S f baseline) (column N S f current) rs in
        let later =
          compare_features-bad idle baseline current features
            (compare_feature N S detect f (column N S f baseline) (column N S f current) rs) in
        (
          λ h. elim (later.0 h) [
            | inl e ↦ elim (or_elim _ _ (sym here_now ∙ e)) [
              | inl old ↦ inl old
              | inr new ↦ inr (here new)
            ]
            | inr u ↦ inr (there u)
          ],
          λ h. later.1 (elim h [
            | inl e ↦ inl (ground (arith, here_now))
            | inr (here new) ↦ inl (ground (arith, here_now))
            | inr (there u) ↦ inr u
          ]),
        )

    compare_feature-idle :
        (f : String) (baseline current : List V) (rs : List (DriftResult N))
        → is_idle (detect f baseline current) ≡ true
        → all is_idle rs ≡ true
        → all is_idle (compare_feature N S detect f baseline current rs) ≡ true
    unfolding compare_feature
    compare_feature-idle f baseline current rs now h =
        if_elim (λ (r : List (DriftResult N)). all is_idle r ≡ true)
          (is_empty N S baseline && is_empty N S current) (λ _. h)
          (λ _. all-append is_idle rs (detect f baseline current) h now)

    pub compare_features-idle :
        (baseline current : List (Row N S))
        → ((f : String) → is_idle (seen baseline current f) ≡ true)
        → (features : List String) (rs : List (DriftResult N)) → all is_idle rs ≡ true
        → all is_idle (compare_features N S detect baseline current features rs) ≡ true
    unfolding compare_features
    compare_features-idle baseline current idle [] rs h = h
    compare_features-idle baseline current idle (f ∷ features) rs h =
        compare_features-idle baseline current idle features _
          (compare_feature-idle f (column N S f baseline) (column N S f current) rs (idle f) h)
