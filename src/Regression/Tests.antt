-- ===== src/Regression/Tests.antt =====
-- Runs of models/validation/regression.py on fixed-point numbers.
use ml_engineer_challenge_so.Prelude.{refl, List, [], ◌∷◌, All, none, some}
use ml_engineer_challenge_so.Prelude.Dict.{lookup}
use ml_engineer_challenge_so.Prelude.Micro.{micro}
use ml_engineer_challenge_so.Regression.{
  MetricSpec, Measurements, higher_is_better, lower_is_better, compare_to_baseline, passed,
  regressed,
}
use ml_engineer_challenge_so.Regression.Gate.{IsKept, compare_to_baseline_iff}

abbrev two_specs : List (MetricSpec micro)
two_specs =
    record {
      name = "acc_top1";
      direction = higher_is_better;
      tolerance = 20_000;
      absolute_floor = some 800_000;
    }
    ∷ record {
      name = "latency_p50_ms";
      direction = lower_is_better;
      tolerance = 200_000;
      absolute_floor = none;
    }
    ∷ []

abbrev old_metrics : Measurements micro
old_metrics = record {
  model_name = none;
  version = none;
  metrics = none;
  own = ("acc_top1", 900_000) ∷ ("latency_p50_ms", 10_000_000) ∷ [];
}

abbrev faster : Measurements micro
faster = record {
  model_name = none;
  version = none;
  metrics = none;
  own = ("acc_top1", 890_000) ∷ ("latency_p50_ms", 8_000_000) ∷ [];
}

compare_to_baseline_iff_example : All (IsKept micro old_metrics.own faster.own) two_specs
unfolding compare_to_baseline passed regressed lookup
compare_to_baseline_iff_example =
    (compare_to_baseline_iff micro old_metrics faster two_specs "").0 refl
