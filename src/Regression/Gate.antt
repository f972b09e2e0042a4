-- ===== src/Regression/Gate.antt =====
-- Which candidates models/validation/regression.py lets pass.
use ml_engineer_challenge_so.Prelude.{
  String, true, false, ◌≡◌, ◌↔◌, refl, subst, arith, List, [], ◌∷◌, ◌++◌, any-append, Option, none,
  some, All,
}
use ml_engineer_challenge_so.Prelude.Dict.{Dict, lookup}
use ml_engineer_challenge_so.Prelude.Float.{Float}
use ml_engineer_challenge_so.Regression.{
  MetricSpec, RegressionReport, Measurements, regressed, passed, is_empty, compared, add_spec,
  add_specs, compare_to_baseline, table,
}

module _ (N : Float) where
  open N use {F}

  -- A metric that the baseline lacks, or that both have and that has not regressed.
  pub data IsKept (baseline candidate : Dict F) (spec : MetricSpec N) : Type 0 where
    untracked : lookup spec.name baseline ≡ none → IsKept baseline candidate spec
    within :
        (b c : F)
        → lookup spec.name baseline ≡ some b
        → lookup spec.name candidate ≡ some c
        → regressed N spec b c ≡ false
        → IsKept baseline candidate spec

  not_empty_append : (xs : List String) (m : String) → is_empty N (xs ++ (m ∷ [])) ≡ false
  unfolding is_empty
  not_empty_append [] m = refl
  not_empty_append (x ∷ xs) m = refl

  measured :
      (baseline candidate : Dict F) (spec : MetricSpec N) (b : F)
      → lookup spec.name baseline ≡ some b
      → IsKept baseline candidate spec
      → (c : F) × (lookup spec.name candidate ≡ some c) × (regressed N spec b c ≡ false)
  measured baseline candidate spec b e (untracked gone) = absurd (cc)
  measured baseline candidate spec b e (within b' c eb ec fine) =
      let same : b' ≡ b = cc in (c, ec, subst (λ x. regressed N spec x c ≡ false) same fine)

  -- A round keeps the report passing exactly where its metric is kept.
  add_spec-passed :
      (baseline candidate : Dict F) (spec : MetricSpec N) (b c : Option F) (r : RegressionReport N)
      → lookup spec.name baseline ≡ b
      → lookup spec.name candidate ≡ c
      → (passed N (add_spec N spec b c r) ≡ true)
        ↔ ((passed N r ≡ true) × IsKept baseline candidate spec)
  unfolding add_spec passed compared
  add_spec-passed baseline candidate spec none c r eb ec = (λ h. (h, untracked eb), λ h. h.0)
  add_spec-passed baseline candidate spec (some b) none r eb ec = (
    λ h. absurd (cc (rw (not_empty_append r.missing_metrics spec.name) at h)),
    λ h. (let (c, ec', fine) = measured baseline candidate spec b eb h.1 in absurd (cc)),
  )
  add_spec-passed baseline candidate spec (some b) (some c) r eb ec = (
    λ h.
        let joined = any-append (λ x. x.regressed) r.results (compared N spec b c ∷ []) in
        let old : passed N r ≡ true = ground (arith, joined) in
        let fine : regressed N spec b c ≡ false = ground (arith, joined) in
        (old, within b c eb ec fine),
    λ h.
        let (c', ec', fine') = measured baseline candidate spec b eb h.1 in
        let same : c' ≡ c = cc in
        let fine : regressed N spec b c ≡ false =
          subst (λ x. regressed N spec b x ≡ false) same fine' in
        ground (arith, any-append (λ x. x.regressed) r.results (compared N spec b c ∷ [])),
  )

  add_specs-passed :
      (baseline candidate : Dict F) (specs : List (MetricSpec N)) (r : RegressionReport N)
      → (passed N (add_specs N baseline candidate specs r) ≡ true)
        ↔ ((passed N r ≡ true) × All (IsKept baseline candidate) specs)
  unfolding add_specs
  add_specs-passed baseline candidate [] r = (λ h. (h, tt), λ h. h.0)
  add_specs-passed baseline candidate (spec ∷ specs) r =
      let b = lookup spec.name baseline in
      let c = lookup spec.name candidate in
      let here = add_spec-passed baseline candidate spec b c r refl refl in
      let later = add_specs-passed baseline candidate specs (add_spec N spec b c r) in
      (
        λ h.
            let (before, rest) = later.0 h in
            let (old, kept) = here.0 before in (old, (kept, rest)),
        λ h. later.1 (here.1 (h.0, h.1.0), h.1.1),
      )

  -- A candidate passes exactly when, of the metrics that are gated, each one that the baseline has
  -- is also measured for the candidate and has not regressed; a metric that the baseline lacks
  -- does not matter, and one that only the candidate lacks fails it.
  pub compare_to_baseline_iff :
      (baseline candidate : Measurements N) (specs : List (MetricSpec N)) (model_name : String)
      → (passed N (compare_to_baseline N baseline candidate specs model_name) ≡ true)
        ↔ All (IsKept (table N baseline) (table N candidate)) specs
  unfolding compare_to_baseline passed is_empty
  compare_to_baseline_iff baseline candidate specs model_name =
      let all = add_specs-passed (table N baseline) (table N candidate) specs _ in
      (λ h. (all.0 h).1, λ h. all.1 (refl, h))
