-- ===== src/Drift/Shifts.antt =====
-- What the reports of models/validation/drift.py say of two windows.
use ml_engineer_challenge_so.Prelude.{
  String, true, false, ◌≡◌, ◌↔◌, ◌⊎◌, ◌≤◌, ◌<◌, inl, inr, refl, arith, List, [], ◌∷◌, length,
  Option, none, some, ◌+◌,
}
use ml_engineer_challenge_so.Prelude.Dict.{lookup}
use ml_engineer_challenge_so.Prelude.Float.{Float}
use ml_engineer_challenge_so.Drift.{
  significant, insufficient_data, Statistics, is_significant, is_insufficient, psi_moderate_shift,
  ks_material_statistic, overall_severity, psi_severity, ks_severity,
}
use ml_engineer_challenge_so.Drift.Windows.{
  Row, scarce, column, noted, categorical, continuous, population_stability_index,
  detect_categorical_drift, detect_continuous_drift, compare_windows, compare_features,
  insufficient,
}
use ml_engineer_challenge_so.Drift.Severity.{
  Any, here, there, is_bad, is_idle, worst-significant_iff, worst-idle, compare_features-bad,
  compare_features-idle,
}

module _ (N : Float) (S : Statistics N) where
  open S use {V}

  -- A column with at least 100 values in each window whose PSI reaches 0.25.
  abbrev pub HasShiftedShares : List (Row N S) → List (Row N S) → String → Type 0
  HasShiftedShares baseline current feature =
      (100 ≤ length (column N S feature baseline))
      × (100 ≤ length (column N S feature current))
      × (N.le (psi_moderate_shift N)
            (population_stability_index N S (column N S feature baseline)
              (column N S feature current) (N.decimal 1 6)).0
          ≡ true)

  -- The same with a KS statistic of twice 0.15 or more.
  abbrev pub HasShiftedValues : List (Row N S) → List (Row N S) → String → Type 0
  HasShiftedValues baseline current feature =
      (100 ≤ length (column N S feature baseline))
      × (100 ≤ length (column N S feature current))
      × (N.le (N.mul (ks_material_statistic N) (N.decimal 2 0))
            (S.ks_2samp (column N S feature baseline) (column N S feature current)).0
          ≡ true)

  detect_categorical_drift_iff :
      (f : String) (b c : List V)
      → (is_bad N (detect_categorical_drift N S f b c) ≡ true) ↔ (
          (100 ≤ length b)
          × (100 ≤ length c)
          × (N.le (psi_moderate_shift N) (population_stability_index N S b c (N.decimal 1 6)).0
              ≡ true))
  unfolding is_bad detect_categorical_drift scarce insufficient psi_severity is_significant
  detect_categorical_drift_iff f b c = ground arith

  detect_continuous_drift_iff :
      (f : String) (b c : List V)
      → (is_bad N (detect_continuous_drift N S f b c) ≡ true) ↔ (
          (100 ≤ length b)
          × (100 ≤ length c)
          × (N.le (N.mul (ks_material_statistic N) (N.decimal 2 0)) (S.ks_2samp b c).0 ≡ true))
  unfolding is_bad detect_continuous_drift scarce insufficient ks_severity is_significant
  detect_continuous_drift_iff f b c = ground arith

  detectors_idle :
      (f : String) (b c : List V)
      → (length b < 100) ⊎ (length c < 100)
      → (is_idle N (detect_categorical_drift N S f b c) ≡ true)
        × (is_idle N (detect_continuous_drift N S f b c) ≡ true)
  unfolding is_idle detect_continuous_drift detect_categorical_drift scarce insufficient
      is_insufficient
  detectors_idle f b c h = ground arith

  unshifted :
      (f : String)
      → (is_bad N (detect_categorical_drift N S f [] []) ≡ false)
        × (is_bad N (detect_continuous_drift N S f [] []) ≡ false)
  unfolding is_bad detect_categorical_drift detect_continuous_drift scarce insufficient
      is_significant
  unshifted f = (refl, refl)

  Any-imp :
      (P Q : String → Type 0)
      → ((f : String) → P f → Q f)
      → (fs : List String) → Any P fs
      → Any Q fs
  Any-imp P Q imp [] h = elim h [ ]
  Any-imp P Q imp (f ∷ fs) (here p) = here (imp f p)
  Any-imp P Q imp (f ∷ fs) (there h) = there (Any-imp P Q imp fs h)

  length-noted : (o : Option (Option V)) (vs : List V) → length (noted N S o vs) ≤ 1 + length vs
  unfolding noted
  length-noted none vs = omega arith
  length-noted (some none) vs = omega arith
  length-noted (some (some v)) vs = omega arith

  length-column : (f : String) (rows : List (Row N S)) → length (column N S f rows) ≤ length rows
  unfolding column
  length-column f [] = omega arith
  length-column f (r ∷ rows) =
      omega (arith, length-column f rows, length-noted (lookup f r) (column N S f rows))

  -- Two windows are reported as significantly drifted exactly when the predicted class or the
  -- image format has at least 100 values in each and a PSI of 0.25 or more, or a dimension, the
  -- size or the latency has at least 100 values in each and a KS statistic of 0.3 or more.
  pub compare_windows-significant_iff :
      (baseline current : List (Row N S)) (model_name model_version : String)
      → (overall_severity N (compare_windows N S baseline current model_name model_version)
          ≡ significant)
        ↔ (Any (HasShiftedShares baseline current) (categorical N S)
            ⊎ Any (HasShiftedValues baseline current) (continuous N S))
  unfolding compare_windows overall_severity
  compare_windows-significant_iff baseline current model_name model_version =
      let labels =
        compare_features-bad N S (detect_categorical_drift N S) (λ f. (unshifted f).0) baseline
          current (categorical N S) [] in
      let values =
        compare_features-bad N S (detect_continuous_drift N S) (λ f. (unshifted f).1) baseline
          current (continuous N S)
          (compare_features N S (detect_categorical_drift N S) baseline current (categorical N S)
            []) in
      let report =
        worst-significant_iff N
          (compare_windows N S baseline current model_name model_version).results in
      (
        λ h. elim (values.0 (report.0 h)) [
          | inl e ↦ elim (labels.0 e) [
            | inl none_yet ↦ absurd (cc none_yet)
            | inr u ↦ inl (Any-imp _ _ (λ f. (detect_categorical_drift_iff f _ _).0) _ u)
          ]
          | inr u ↦ inr (Any-imp _ _ (λ f. (detect_continuous_drift_iff f _ _).0) _ u)
        ],
        λ h. report.1 (
            values.1 (elim h [
              | inl u ↦
                  inl
                    (labels.1 (inr (Any-imp _ _ (λ f. (detect_categorical_drift_iff f _ _).1) _ u)))
              | inr u ↦ inr (Any-imp _ _ (λ f. (detect_continuous_drift_iff f _ _).1) _ u)
            ])),
      )

  -- Windows of which one has fewer than 100 rows are reported as too small to judge.
  pub compare_windows-scarce :
      (baseline current : List (Row N S)) (model_name model_version : String)
      → (length baseline < 100) ⊎ (length current < 100)
      → overall_severity N (compare_windows N S baseline current model_name model_version)
        ≡ insufficient_data
  unfolding compare_windows overall_severity
  compare_windows-scarce baseline current model_name model_version h =
      let shorter : (f : String)
          → (length (column N S f baseline) < 100) ⊎ (length (column N S f current) < 100) =
        λ f. elim h [
          | inl e ↦ inl (omega (arith, e, length-column f baseline))
          | inr e ↦ inr (omega (arith, e, length-column f current))
        ] in
      let few = λ (f : String).
        detectors_idle f (column N S f baseline) (column N S f current) (shorter f) in
      worst-idle N _ (
        compare_features-idle N S (detect_continuous_drift N S) baseline current (λ f. (few f).1)
          (continuous N S) _
          (compare_features-idle N S (detect_categorical_drift N S) baseline current
            (λ f. (few f).0) (categorical N S) [] refl))
