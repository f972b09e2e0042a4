-- ===== src/Experiments/Tests.antt =====
-- Runs of api/services/experiment_service.py and models/validation/ab_testing.py.
use ml_engineer_challenge_so.Prelude.{
  ℕ, zero, suc, ◌/◌, length, ◌≡◌, ◌⊎◌, refl, String, true, false, List, [], ◌∷◌, none, some, ok,
}
use ml_engineer_challenge_so.Prelude.Dict.{Dict, Entries, lookup, insert}
use ml_engineer_challenge_so.Prelude.Micro.{micro, total}
use ml_engineer_challenge_so.Experiments.{
  Variant, Experiment, Registry, RawEntry, fields, entries, load, assign, read_variants,
  make_variant, has_member, all_distinct, position_of, zero_weight,
}
use ml_engineer_challenge_so.Experiments.Analysis.{
  Numerics, Observation, ExperimentReport, do_not_promote, latency_ms, compare_means, quotient,
  latencies, compare_proportions, rate, success_count,
}
use ml_engineer_challenge_so.Experiments.Reports.{
  records_of, recommend, comparisons_of, analyse_experiment,
}
use ml_engineer_challenge_so.Experiments.Recommended.{
  IsRecommended, analyse_experiment-IsRecommended,
}
use ml_engineer_challenge_so.Experiments.Assignment.{IsSegment, FirstIs, assign-IsSegment}
use ml_engineer_challenge_so.Experiments.Registry.{IsServed, load-IsServed}

-- The digest of the tests puts every user at one half.
abbrev pub middle : String → ℕ
middle text = 9_223_372_036_854_775_808

abbrev control : Variant micro
control = record { name = "control"; model_version = "v1"; weight = 400_000 }

abbrev challenger : Variant micro
challenger = record { name = "challenger"; model_version = "v2"; weight = 600_000 }

abbrev pub canary : Experiment micro
canary = record { name = "canary"; variants = control ∷ challenger ∷ []; enabled = true }

assign-IsSegment_example :
    ((canary.enabled ≡ true)
      × IsSegment micro
          (position_of micro middle "canary" "ann")
          (zero_weight micro)
          canary.variants
          challenger)
    ⊎ ((canary.enabled ≡ false) × FirstIs micro challenger canary.variants)
unfolding assign
assign-IsSegment_example = assign-IsSegment micro middle canary "ann" challenger refl

abbrev raw_canary : RawEntry ℕ
raw_canary =
    fields (some "classifier") (some "canary")
      (some (
        record { name = some "control"; model_version = some "v1"; weight = some (some 400_000) }
        ∷ record {
          name = some "challenger";
          model_version = some "v2";
          weight = some (some 600_000);
        }
        ∷ []))
      none false

abbrev loaded : Dict (List String)
loaded = ("classifier", "v1" ∷ "v2" ∷ []) ∷ []

abbrev registry : Registry micro
registry = ("classifier", canary) ∷ []

loads : load micro (entries (raw_canary ∷ [])) loaded ≡ ok registry
unfolding load read_variants make_variant has_member all_distinct lookup insert
loads = refl

load-IsServed_example : Entries (IsServed micro loaded) registry
load-IsServed_example = load-IsServed micro (entries (raw_canary ∷ [])) loaded registry loads

abbrev numerics : Numerics micro
numerics = record {
  mean = λ xs. total xs / length xs;
  var = λ xs. 10;
  percentile_95 = λ xs. 30_000;
  welch_p = λ treatment control. 10_000;
  normal_cdf = λ z. 990_000;
  sqrt = λ x. x;
  abs = λ x. x;
}

-- So many successful requests that took the same time.
abbrev rows : ℕ → ℕ → List (Observation micro)
rows latency zero = []
rows latency (suc n) =
    record { latency = latency; status = some "success"; top_probability = none } ∷ rows latency n

-- The challenger takes half as long again as the control.
abbrev observed : Dict (List (Observation micro))
observed = ("control", rows 20_000 120) ∷ ("challenger", rows 30_000 150) ∷ []

analyse_experiment-IsRecommended_example :
    (report : ExperimentReport micro) × (analyse_experiment micro numerics canary observed
      ≡ some report)
    × IsRecommended micro numerics
        (records_of micro observed control)
        observed
        (challenger ∷ [])
        report.recommendation
analyse_experiment-IsRecommended_example =
    analyse_experiment-IsRecommended micro numerics canary observed control (challenger ∷ []) refl

slower :
    recommend micro (comparisons_of micro numerics (rows 20_000 120) observed (challenger ∷ []))
    ≡ do_not_promote (record { variant = "challenger"; quantity = latency_ms } ∷ [])
unfolding recommend comparisons_of lookup compare_means quotient latencies compare_proportions rate
    success_count
slower = refl
