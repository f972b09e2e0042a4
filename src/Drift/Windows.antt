-- ===== src/Drift/Windows.antt =====
-- The detectors of models/validation/drift.py, and `compare_windows`.
use ml_engineer_challenge_so.Prelude.{
  ℕ, String, Bool, true, false, ◌||◌, ◌&&◌, not, if◌then◌else◌, ltb, max, List, [], ◌∷◌, ◌++◌,
  length, keep, Option, none, some,
}
use ml_engineer_challenge_so.Prelude.Dict.{Dict, lookup, insert}
use ml_engineer_challenge_so.Prelude.Float.{Float}
use ml_engineer_challenge_so.Drift.{
  insufficient_data, Statistics, min_samples, DriftResult, DriftReport, float_max, psi_severity,
  ks_severity,
}

module _ (N : Float) (S : Statistics N) where
  open N use {F}
  open S use {V}

  -- `Counter(values).get(v, 0)`
  occurrences : V → List V → ℕ
  occurrences v values = length (keep (λ w. S.same w v) values)

  distinct : List V → List V
  distinct [] = []
  distinct (v ∷ vs) = v ∷ keep (λ w. not (S.same w v)) (distinct vs)

  -- The share of a category in a window, no less than `epsilon`.
  share : V → List V → F → F
  unfolding occurrences float_max
  share v values epsilon =
      float_max N (N.ratio (occurrences v values) (max (length values) 1)) epsilon

  contribution : F → F → F
  contribution baseline_share current_share =
      N.mul (N.sub current_share baseline_share) (S.log (N.div current_share baseline_share))

  add_categories : List V → List V → F → List V → F × Dict F → F × Dict F
  unfolding share contribution
  add_categories baseline current epsilon [] psi = psi
  add_categories baseline current epsilon (v ∷ categories) (psi, contributions) =
      let moved = contribution (share v baseline epsilon) (share v current epsilon) in
      add_categories baseline current epsilon categories
        (N.add psi moved, insert (S.text v) moved contributions)

  unfoldable pub population_stability_index : List V → List V → F → F × Dict F
  unfolding add_categories distinct
  population_stability_index baseline current epsilon =
      add_categories baseline current epsilon (S.walked (distinct (baseline ++ current)))
        (N.decimal 0 0, [])

  -- The early return of both detectors.
  unfoldable pub scarce : List V → List V → Bool
  scarce baseline current = ltb (length baseline) min_samples || ltb (length current) min_samples

  unfoldable pub insufficient : String → String → List V → List V → DriftResult N
  insufficient method feature baseline current = record {
    feature = feature;
    statistic = N.decimal 0 0;
    method = method;
    severity = insufficient_data;
    p_value = none;
    baseline_size = length baseline;
    current_size = length current;
  }

  unfoldable pub detect_categorical_drift : String → List V → List V → DriftResult N
  unfolding scarce insufficient population_stability_index psi_severity
  detect_categorical_drift feature baseline current =
      if scarce baseline current
      then insufficient "psi" feature baseline current
      else let psi = (population_stability_index baseline current (N.decimal 1 6)).0 in
        record {
          feature = feature;
          statistic = psi;
          method = "psi";
          severity = psi_severity N psi;
          p_value = none;
          baseline_size = length baseline;
          current_size = length current;
        }

  unfoldable pub detect_continuous_drift : String → List V → List V → DriftResult N
  unfolding scarce insufficient ks_severity
  detect_continuous_drift feature baseline current =
      if scarce baseline current
      then insufficient "ks" feature baseline current
      else let ks = S.ks_2samp baseline current in
        record {
          feature = feature;
          statistic = ks.0;
          method = "ks";
          severity = ks_severity N ks.0;
          p_value = some ks.1;
          baseline_size = length baseline;
          current_size = length current;
        }

  -- A row of `inference_logs`: a key may be missing or hold `None`.
  abbrev pub Row : Type 0
  Row = Dict (Option V)

  unfoldable pub noted : Option (Option V) → List V → List V
  noted none values = values
  noted (some none) values = values
  noted (some (some v)) values = v ∷ values

  -- `[r[feature] for r in rows if r.get(feature) is not None]`
  unfoldable pub column : String → List Row → List V
  unfolding noted
  column feature [] = []
  column feature (r ∷ rows) = noted (lookup feature r) (column feature rows)

  unfoldable pub is_empty : List V → Bool
  is_empty [] = true
  is_empty (v ∷ values) = false

  -- The body of both loops, and the loop, over a detector.
  unfoldable pub compare_feature :
      (String → List V → List V → DriftResult N)
      → String
      → List V
      → List V
      → List (DriftResult N)
      → List (DriftResult N)
  unfolding is_empty
  compare_feature detect feature baseline current results =
      if is_empty baseline && is_empty current
      then results
      else results ++ (detect feature baseline current ∷ [])

  unfoldable pub compare_features :
      (String → List V → List V → DriftResult N)
      → List Row
      → List Row
      → List String
      → List (DriftResult N)
      → List (DriftResult N)
  unfolding compare_feature column
  compare_features detect baseline current [] results = results
  compare_features detect baseline current (feature ∷ features) results =
      compare_features detect baseline current features
        (compare_feature detect feature (column feature baseline) (column feature current) results)

  abbrev pub categorical : List String
  categorical = "top_label" ∷ "image_format" ∷ []

  abbrev pub continuous : List String
  continuous = "image_width" ∷ "image_height" ∷ "image_bytes" ∷ "latency_ms" ∷ []

  unfoldable pub compare_windows : List Row → List Row → String → String → DriftReport N
  unfolding compare_features detect_categorical_drift detect_continuous_drift
  compare_windows baseline current model_name model_version = record {
    results =
        compare_features detect_continuous_drift baseline current continuous
          (compare_features detect_categorical_drift baseline current categorical []);
    model_name = model_name;
    model_version = model_version;
  }
