-- ===== src/Experiments/Reports.antt =====
-- `analyse_experiment` and `_recommend` of models/validation/ab_testing.py.
use ml_engineer_challenge_so.Prelude.{
  String, Bool, ◌&&◌, ltb, if◌then◌else◌, List, [], ◌∷◌, map, keep, length, Option, none, some,
  or_else,
}
use ml_engineer_challenge_so.Prelude.Dict.{Dict, lookup}
use ml_engineer_challenge_so.Prelude.Float.{Float}
use ml_engineer_challenge_so.Experiments.{Variant, Experiment}
use ml_engineer_challenge_so.Experiments.Analysis.{
  min_arm_samples, Numerics, latency_ms, success_rate, Recommendation, few_in_control,
  few_in_challengers, safe_to_promote, no_difference, do_not_promote, Observation, ArmMetrics,
  Comparison, ExperimentReport, zero_float, success_count, latencies, summarise_arm, compare_means,
  compare_proportions,
}

module _ (N : Float) where
  -- The difference goes the wrong way for its metric.
  wrong_way : Comparison N → Bool
  wrong_way c = elim c.metric.quantity [
    | latency_ms ↦ N.lt (zero_float N) c.absolute_difference
    | success_rate ↦ N.lt c.absolute_difference (zero_float N)
  ]

  unfoldable pub is_improvement : Comparison N → Bool
  is_improvement c = c.significant && c.material

  unfoldable pub is_regression : Comparison N → Bool
  unfolding wrong_way
  is_regression c = c.significant && c.material && wrong_way c

  -- `_recommend`, after the check for comparisons, on the regressions and the improvements.
  unfoldable pub verdict : List (Comparison N) → List (Comparison N) → Recommendation
  verdict (r ∷ regressions) improvements = do_not_promote (map (λ c. c.metric) (r ∷ regressions))
  verdict [] (c ∷ improvements) = safe_to_promote
  verdict [] [] = no_difference

  unfoldable pub recommend : List (Comparison N) → Recommendation
  unfolding verdict is_regression is_improvement
  recommend [] = few_in_challengers
  recommend (c ∷ comparisons) =
      verdict (keep is_regression (c ∷ comparisons)) (keep is_improvement (c ∷ comparisons))

  -- records_by_variant.get(variant.name, [])
  abbrev pub records_of : Dict (List (Observation N)) → Variant N → List (Observation N)
  records_of records_by_variant v = or_else (lookup v.name records_by_variant) []

  abbrev pub is_scarce : List (Observation N) → Bool
  is_scarce records = ltb (length records) min_arm_samples

  module _ (M : Numerics N) where
    unfoldable pub latency_comparison :
        Variant N → List (Observation N) → List (Observation N) → Comparison N
    latency_comparison v control treatment =
        compare_means N M (record { variant = v.name; quantity = latency_ms }) (latencies N control)
          (latencies N treatment)

    unfoldable pub success_comparison :
        Variant N → List (Observation N) → List (Observation N) → Comparison N
    success_comparison v control treatment =
        compare_proportions N M (record { variant = v.name; quantity = success_rate })
          (success_count N control) (length control) (success_count N treatment) (length treatment)

    unfoldable pub arms_of : Dict (List (Observation N)) → List (Variant N) → List (ArmMetrics N)
    arms_of records_by_variant [] = []
    arms_of records_by_variant (v ∷ vs) =
        let rest = arms_of records_by_variant vs in
        elim (records_of records_by_variant v) [
          | [] ↦ rest
          | r ∷ rs ↦ summarise_arm N M v.name v.model_version (r ∷ rs) ∷ rest
        ]

    -- The loop over the challengers.
    unfoldable pub comparisons_of :
        List (Observation N) → Dict (List (Observation N)) → List (Variant N) → List (Comparison N)
    unfolding latency_comparison success_comparison
    comparisons_of control records_by_variant [] = []
    comparisons_of control records_by_variant (v ∷ vs) =
        let treatment = records_of records_by_variant v in
        let rest = comparisons_of control records_by_variant vs in
        if is_scarce treatment
        then rest
        else latency_comparison v control treatment ∷ success_comparison v control treatment ∷ rest

    unfoldable pub analyse_control :
        String
        → List (ArmMetrics N)
        → List (Observation N)
        → List (Comparison N)
        → ExperimentReport N
    analyse_control name arms control comparisons =
        if is_scarce control
        then record {
          experiment = name;
          arms = arms;
          comparisons = [];
          recommendation = few_in_control (length control);
        }
        else record {
          experiment = name;
          arms = arms;
          comparisons = comparisons;
          recommendation = recommend comparisons;
        }

    -- `none` is the `IndexError` of an experiment with no variant, which has no control.
    unfoldable pub analyse_experiment :
        Experiment N → Dict (List (Observation N)) → Option (ExperimentReport N)
    unfolding analyse_control
    analyse_experiment e records_by_variant = elim e.variants [
      | [] ↦ none
      | c ∷ challengers ↦
          let control = records_of records_by_variant c in
          some (
            analyse_control e.name (arms_of records_by_variant (c ∷ challengers)) control
              (comparisons_of control records_by_variant challengers))
    ]
