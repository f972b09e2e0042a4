-- ===== src/Regression.antt =====
-- models/validation/regression.py: a candidate's metrics against the recorded baseline. The prose
-- of a result is left out, and reading and writing the file is JSON.
pub mod Gate
pub mod Tests
use ml_engineer_challenge_so.Prelude.{
  String, Bool, true, false, ◌&&◌, ◌||◌, not, str_eq, if◌then◌else◌, List, [], ◌∷◌, ◌++◌, any, keep,
  Option, none, some, or_else,
}
use ml_engineer_challenge_so.Prelude.Dict.{Dict, lookup}
use ml_engineer_challenge_so.Prelude.Float.{Float}

pub data Direction : Type 0 where
  higher_is_better lower_is_better : Direction

module _ (N : Float) where
  open N use {F}

  pub record MetricSpec : Type 0 where
    pub name : String
    pub direction : Direction
    pub tolerance : F
    pub absolute_floor : Option F

  pub record RegressionResult : Type 0 where
    pub metric : String
    pub baseline : F
    pub candidate : F
    pub regressed : Bool
    pub improved : Bool

  pub record RegressionReport : Type 0 where
    pub model_name : String
    pub baseline_version : String
    pub candidate_version : String
    pub results : List RegressionResult
    pub missing_metrics : List String

  -- A JSON object of metrics: the keys of its heading, the table `metrics` where it has one, and
  -- its own entries, which stand for the table where it has none.
  pub record Measurements : Type 0 where
    pub model_name : Option String
    pub version : Option String
    pub metrics : Option (Dict F)
    pub own : Dict F

  abbrev one : F
  one = N.decimal 1 0

  below_floor : Option F → F → Bool
  below_floor none candidate = false
  below_floor (some floor) candidate = N.lt candidate floor

  above_ceiling : Option F → F → Bool
  above_ceiling none candidate = false
  above_ceiling (some ceiling) candidate = N.lt ceiling candidate

  regressed_by : Direction → MetricSpec → F → F → Bool
  unfolding below_floor above_ceiling
  regressed_by higher_is_better spec baseline candidate =
      below_floor spec.absolute_floor candidate
      || N.lt candidate (N.mul baseline (N.sub one spec.tolerance))
  regressed_by lower_is_better spec baseline candidate =
      above_ceiling spec.absolute_floor candidate
      || N.lt (N.mul baseline (N.add one spec.tolerance)) candidate

  -- `MetricSpec.regressed`
  unfoldable pub regressed : MetricSpec → F → F → Bool
  unfolding regressed_by
  regressed spec = regressed_by spec.direction spec

  improved_by : Direction → F → F → Bool
  improved_by higher_is_better baseline candidate = N.lt baseline candidate
  improved_by lower_is_better baseline candidate = N.lt candidate baseline

  abbrev pub default_specs : List MetricSpec
  default_specs =
      record {
        name = "acc_top1";
        direction = higher_is_better;
        tolerance = N.decimal 2 2;
        absolute_floor = some (N.decimal 80 2);
      }
      ∷ record {
        name = "acc_top5";
        direction = higher_is_better;
        tolerance = N.decimal 2 2;
        absolute_floor = some (N.decimal 93 2);
      }
      ∷ record {
        name = "latency_p50_ms";
        direction = lower_is_better;
        tolerance = N.decimal 20 2;
        absolute_floor = none;
      }
      ∷ record {
        name = "latency_p95_ms";
        direction = lower_is_better;
        tolerance = N.decimal 25 2;
        absolute_floor = none;
      }
      ∷ record {
        name = "artifact_size_mb";
        direction = lower_is_better;
        tolerance = N.decimal 10 2;
        absolute_floor = none;
      }
      ∷ []

  is_empty : List String → Bool
  is_empty [] = true
  is_empty (m ∷ metrics) = false

  -- The properties `passed` and `regressions` of a report.
  unfoldable pub passed : RegressionReport → Bool
  unfolding is_empty
  passed r = is_empty r.missing_metrics && not (any (λ x. x.regressed) r.results)

  unfoldable pub regressions : RegressionReport → List RegressionResult
  regressions r = keep (λ x. x.regressed) r.results

  -- The result of one metric that both sides have.
  compared : MetricSpec → F → F → RegressionResult
  unfolding regressed improved_by
  compared spec baseline candidate = record {
    metric = spec.name;
    baseline = baseline;
    candidate = candidate;
    regressed = regressed spec baseline candidate;
    improved =
        improved_by spec.direction baseline candidate && not (regressed spec baseline candidate);
  }

  -- What one round of the loop does to the report.
  add_spec : MetricSpec → Option F → Option F → RegressionReport → RegressionReport
  unfolding compared
  add_spec spec none candidate r = r
  add_spec spec (some b) none r = record r {
    missing_metrics = r.missing_metrics ++ (spec.name ∷ []);
  }
  add_spec spec (some b) (some c) r = record r { results = r.results ++ (compared spec b c ∷ []) }

  add_specs : Dict F → Dict F → List MetricSpec → RegressionReport → RegressionReport
  unfolding add_spec
  add_specs baseline candidate [] r = r
  add_specs baseline candidate (spec ∷ specs) r =
      add_specs baseline candidate specs
        (add_spec spec (lookup spec.name baseline) (lookup spec.name candidate) r)

  abbrev pub table : Measurements → Dict F
  table m = or_else m.metrics m.own

  unfoldable pub compare_to_baseline :
      Measurements → Measurements → List MetricSpec → String → RegressionReport
  unfolding add_specs
  compare_to_baseline baseline candidate specs model_name =
      add_specs (table baseline) (table candidate) specs (record {
        model_name = if str_eq model_name "" then or_else baseline.model_name "" else model_name;
        baseline_version = or_else baseline.version "unknown";
        candidate_version = or_else candidate.version "candidate";
        results = [];
        missing_metrics = [];
      })
