-- ===== src/Experiments/Analysis.antt =====
-- The analysis of models/validation/ab_testing.py: the arms, the two comparisons, and what they
-- recommend. The printed forms and the log are left out.
use ml_engineer_challenge_so.Prelude.{
  ℕ, ◌+◌, max, String, Bool, false, ltb, str_eq, if◌then◌else◌, List, [], ◌∷◌, map, keep, length,
  Option, none, some,
}
use ml_engineer_challenge_so.Prelude.Float.{Float}

abbrev pub min_arm_samples : ℕ
min_arm_samples = 100

-- numpy and scipy on a list of floats: the mean, the variance with `ddof=1`, the 95th percentile,
-- Welch's p-value of a treatment and a control, the normal distribution, the root and `abs`.
pub record Numerics (N : Float) : Type 0 where
  pub mean : List N.F → N.F
  pub var : List N.F → N.F
  pub percentile_95 : List N.F → N.F
  pub welch_p : List N.F → List N.F → N.F
  pub normal_cdf : N.F → N.F
  pub sqrt : N.F → N.F
  pub abs : N.F → N.F

-- The metric of a comparison: its name is the variant's with `.latency_ms` or `.success_rate`, and
-- `endswith` tells the two apart.
pub data Quantity : Type 0 where
  latency_ms success_rate : Quantity

pub record Metric : Type 0 where
  pub variant : String
  pub quantity : Quantity

-- The texts that `_recommend` and the check of the control arm return.
pub data Recommendation : Type 0 where
  few_in_control : ℕ → Recommendation
  few_in_challengers safe_to_promote no_difference : Recommendation
  do_not_promote : List Metric → Recommendation

module _ (N : Float) where
  open N use {F}

  -- A row of the audit trail; a key that is missing or null is `none`.
  pub record Observation : Type 0 where
    pub latency : F
    pub status : Option String
    pub top_probability : Option F

  pub record ArmMetrics : Type 0 where
    pub variant : String
    pub model_version : String
    pub count : ℕ
    pub success_rate : F
    pub mean_latency_ms : F
    pub p95_latency_ms : F
    pub mean_confidence : Option F

  pub record Comparison : Type 0 where
    pub metric : Metric
    pub control_value : F
    pub treatment_value : F
    pub absolute_difference : F
    pub relative_difference : F
    pub confidence_interval : F × F
    pub p_value : F
    pub significant : Bool
    pub material : Bool

  pub record ExperimentReport : Type 0 where
    pub experiment : String
    pub arms : List ArmMetrics
    pub comparisons : List Comparison
    pub recommendation : Recommendation

  abbrev pub zero_float : F
  zero_float = N.decimal 0 0

  abbrev as_float : ℕ → F
  as_float n = N.ratio n 1

  is_success : Observation → Bool
  is_success r = elim r.status [ none ↦ false | some s ↦ str_eq s "success" ]

  -- The number of records whose status is "success".
  unfoldable pub success_count : List Observation → ℕ
  unfolding is_success
  success_count records = length (keep is_success records)

  unfoldable pub latencies : List Observation → List F
  latencies records = map (λ r. r.latency) records

  confidences : List Observation → List F
  confidences [] = []
  confidences (r ∷ records) = elim r.top_probability [
    | none ↦ confidences records
    | some p ↦ p ∷ confidences records
  ]

  -- `f(values) if values else …`
  abbrev of_some : {A : Type 0} → (List F → A) → A → List F → A
  of_some f default [] = default
  of_some f default (x ∷ xs) = f (x ∷ xs)

  -- `n / total if total else 0.0`
  unfoldable pub rate : ℕ → ℕ → F
  rate n total = if ltb 0 total then N.ratio n total else zero_float

  -- `a / b if b else 0.0`
  unfoldable pub quotient : F → F → F
  quotient a b = if N.is_zero b then zero_float else N.div a b

  module _ (M : Numerics N) where
    unfoldable pub summarise_arm : String → String → List Observation → ArmMetrics
    unfolding confidences
    summarise_arm variant model_version records = record {
      variant = variant;
      model_version = model_version;
      count = length records;
      success_rate = rate (success_count records) (length records);
      mean_latency_ms = of_some M.mean zero_float (latencies records);
      p95_latency_ms = of_some M.percentile_95 zero_float (latencies records);
      mean_confidence = of_some (λ xs. some (M.mean xs)) none (confidences records);
    }

    -- `x.var(ddof=1) / x.size`
    variance_of_mean : List F → F
    variance_of_mean xs = N.div (M.var xs) (as_float (length xs))

    -- (absolute - margin, absolute + margin) with 1.96 standard errors
    interval : F → F → F × F
    interval absolute standard_error =
        let margin = N.mul (N.decimal 196 2) standard_error in
        (N.sub absolute margin, N.add absolute margin)

    unfoldable pub compare_means : Metric → List F → List F → Comparison
    unfolding variance_of_mean interval
    compare_means metric control treatment =
        let absolute = N.sub (M.mean treatment) (M.mean control) in
        let relative = quotient absolute (M.mean control) in
        let standard_error =
          M.sqrt (N.add (variance_of_mean control) (variance_of_mean treatment)) in
        let p_value = M.welch_p treatment control in
        record {
          metric = metric;
          control_value = M.mean control;
          treatment_value = M.mean treatment;
          absolute_difference = absolute;
          relative_difference = relative;
          confidence_interval = interval absolute standard_error;
          p_value = p_value;
          significant = N.lt p_value (N.decimal 5 2);
          material = N.le (N.decimal 5 2) (M.abs relative);
        }

    -- `p * (1 - p)`
    spread : F → F
    spread p = N.mul p (N.sub (N.decimal 1 0) p)

    pooled_error : ℕ → ℕ → ℕ → ℕ → F
    pooled_error control_successes control_total treatment_successes treatment_total =
        let pooled =
          N.ratio (control_successes + treatment_successes)
            (max (control_total + treatment_total) 1) in
        M.sqrt (
          N.mul (spread pooled)
            (N.add (N.ratio 1 (max control_total 1)) (N.ratio 1 (max treatment_total 1))))

    unpooled_error : F → ℕ → F → ℕ → F
    unpooled_error control_rate control_total treatment_rate treatment_total = M.sqrt (
        N.add (N.div (spread control_rate) (as_float (max control_total 1)))
          (N.div (spread treatment_rate) (as_float (max treatment_total 1))))

    -- `2 * (1 - stats.norm.cdf(abs(z)))`
    two_sided : F → F
    two_sided z = N.mul (N.decimal 2 0) (N.sub (N.decimal 1 0) (M.normal_cdf (M.abs z)))

    unfoldable pub compare_proportions : Metric → ℕ → ℕ → ℕ → ℕ → Comparison
    unfolding pooled_error unpooled_error two_sided interval spread
    compare_proportions metric control_successes control_total treatment_successes treatment_total =
        let control_rate = rate control_successes control_total in
        let treatment_rate = rate treatment_successes treatment_total in
        let absolute = N.sub treatment_rate control_rate in
        let pooled_se =
          pooled_error control_successes control_total treatment_successes treatment_total in
        let p_value = two_sided (quotient absolute pooled_se) in
        record {
          metric = metric;
          control_value = control_rate;
          treatment_value = treatment_rate;
          absolute_difference = absolute;
          relative_difference = quotient absolute control_rate;
          confidence_interval =
              interval absolute
                (unpooled_error control_rate control_total treatment_rate treatment_total);
          p_value = p_value;
          significant = N.lt p_value (N.decimal 5 2);
          material = N.le (N.decimal 1 2) (M.abs absolute);
        }
