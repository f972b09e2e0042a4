-- ===== src/Drift.antt =====
-- models/validation/drift.py: the thresholds, the results and the severity of a report; its
-- detectors are in `Drift.Windows`. The prose of a result and the printed form of a report are left
-- out.
pub mod Windows
pub mod Severity
pub mod Shifts
pub mod Tests
use ml_engineer_challenge_so.Prelude.{
  ℕ, String, Bool, true, false, ◌||◌, ◌&&◌, not, if◌then◌else◌, ltb, max, List, [], ◌∷◌, ◌++◌,
  length, any, all, keep, Option, none, some,
}
use ml_engineer_challenge_so.Prelude.Dict.{Dict, lookup, insert}
use ml_engineer_challenge_so.Prelude.Float.{Float}

-- `DriftSeverity.NONE` is `no_drift`.
pub data DriftSeverity : Type 0 where
  no_drift moderate significant insufficient_data : DriftSeverity

-- `severity is DriftSeverity.SIGNIFICANT`, and the same test for the others.
unfoldable pub is_significant : DriftSeverity → Bool
is_significant significant = true
is_significant no_drift = false
is_significant moderate = false
is_significant insufficient_data = false

unfoldable pub is_moderate : DriftSeverity → Bool
is_moderate moderate = true
is_moderate no_drift = false
is_moderate significant = false
is_moderate insufficient_data = false

unfoldable pub is_insufficient : DriftSeverity → Bool
is_insufficient insufficient_data = true
is_insufficient no_drift = false
is_insufficient moderate = false
is_insufficient significant = false

-- What the module takes from Python, numpy and scipy: the values of a column with their equality
-- and text, the order in which a set is walked, the logarithm, and the test's statistic and p-value.
pub record Statistics (N : Float) : Type 1 where
  pub V : Type 0
  pub same : V → V → Bool
  pub text : V → String
  pub walked : List V → List V
  pub log : N.F → N.F
  pub ks_2samp : List V → List V → N.F × N.F

abbrev pub min_samples : ℕ
min_samples = 100

module _ (N : Float) where
  open N use {F}

  abbrev pub psi_no_shift : F
  psi_no_shift = N.decimal 10 2

  abbrev pub psi_moderate_shift : F
  psi_moderate_shift = N.decimal 25 2

  abbrev pub ks_material_statistic : F
  ks_material_statistic = N.decimal 15 2

  pub record DriftResult : Type 0 where
    pub feature : String
    pub statistic : F
    pub method : String
    pub severity : DriftSeverity
    pub p_value : Option F
    pub baseline_size : ℕ
    pub current_size : ℕ

  -- `DriftResult.drifted`
  unfoldable pub drifted : DriftResult → Bool
  unfolding is_moderate is_significant
  drifted r = is_moderate r.severity || is_significant r.severity

  pub record DriftReport : Type 0 where
    pub results : List DriftResult
    pub model_name : String
    pub model_version : String

  unfoldable pub drifted_features : DriftReport → List DriftResult
  unfolding drifted
  drifted_features report = keep drifted report.results

  unfoldable pub worst : List DriftResult → DriftSeverity
  unfolding is_significant is_moderate is_insufficient
  worst [] = insufficient_data
  worst (r ∷ rs) =
      if any (λ x. is_significant x.severity) (r ∷ rs)
      then significant
      else if any (λ x. is_moderate x.severity) (r ∷ rs)
      then moderate
      else if all (λ x. is_insufficient x.severity) (r ∷ rs)
      then insufficient_data
      else no_drift

  unfoldable pub overall_severity : DriftReport → DriftSeverity
  unfolding worst
  overall_severity report = worst report.results

  -- `max` of two floats: the first unless the second is greater.
  float_max : F → F → F
  float_max a b = if N.lt a b then b else a

  psi_severity : F → DriftSeverity
  psi_severity psi =
      if N.le psi_moderate_shift psi
      then significant
      else if N.le psi_no_shift psi
      then moderate
      else no_drift

  ks_severity : F → DriftSeverity
  ks_severity statistic =
      if N.le (N.mul ks_material_statistic (N.decimal 2 0)) statistic
      then significant
      else if N.le ks_material_statistic statistic
      then moderate
      else no_drift
