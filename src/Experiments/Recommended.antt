-- ===== src/Experiments/Recommended.antt =====
-- What the analysis of models/validation/ab_testing.py recommends, read off the variants.
use ml_engineer_challenge_so.Prelude.{
  String, Bool, true, false, ◌&&◌, ◌||◌, not, List, [], ◌∷◌, keep, any, is_filled, filled-keep, ltb,
  length, some, ◌≡◌, refl, ap, ◌∙◌, Bool-cases, inl, inr, arith,
}
use ml_engineer_challenge_so.Prelude.Dict.{Dict}
use ml_engineer_challenge_so.Prelude.Float.{Float}
use ml_engineer_challenge_so.Experiments.{Variant, Experiment}
use ml_engineer_challenge_so.Experiments.Analysis.{
  Numerics, Recommendation, few_in_control, few_in_challengers, safe_to_promote, do_not_promote,
  Observation, Comparison, ArmMetrics, ExperimentReport, latencies, quotient, rate, compare_means,
  compare_proportions,
}
use ml_engineer_challenge_so.Experiments.Reports.{
  is_improvement, is_regression, verdict, recommend, records_of, is_scarce, latency_comparison,
  success_comparison, arms_of, comparisons_of, analyse_control, analyse_experiment,
}
use ml_engineer_challenge_so.Experiments.Criteria.{success_count-successes, is_worse, is_different}

abbrev pub is_blocked : Recommendation → Bool
is_blocked (do_not_promote metrics) = true
is_blocked _ = false

abbrev pub is_safe : Recommendation → Bool
is_safe safe_to_promote = true
is_safe _ = false

abbrev pub is_undecided : Recommendation → Bool
is_undecided (few_in_control n) = true
is_undecided few_in_challengers = true
is_undecided _ = false

or_assoc : (a b c : Bool) → (a || (b || c)) ≡ ((a || b) || c)
or_assoc a b c = ground arith

any-same : {A : Type 0} (p q : A → Bool) (xs : List A) → ((x : A) → p x ≡ q x) → any p xs ≡ any q xs
any-same p q [] h = refl
any-same p q (x ∷ xs) h = rw (h x, any-same p q xs h) refl

module _ (N : Float) where
  verdict-is_blocked : (rs xs : List (Comparison N)) → is_blocked (verdict N rs xs) ≡ is_filled rs
  unfolding verdict
  verdict-is_blocked [] [] = refl
  verdict-is_blocked [] (x ∷ xs) = refl
  verdict-is_blocked (r ∷ rs) xs = refl

  verdict-is_safe :
      (rs xs : List (Comparison N))
      → is_safe (verdict N rs xs) ≡ (not (is_filled rs) && is_filled xs)
  unfolding verdict
  verdict-is_safe [] [] = refl
  verdict-is_safe [] (x ∷ xs) = refl
  verdict-is_safe (r ∷ rs) xs = refl

  verdict-decided : (rs xs : List (Comparison N)) → is_undecided (verdict N rs xs) ≡ false
  unfolding verdict
  verdict-decided [] [] = refl
  verdict-decided [] (x ∷ xs) = refl
  verdict-decided (r ∷ rs) xs = refl

  recommend-is_blocked :
      (cs : List (Comparison N)) → is_blocked (recommend N cs) ≡ any (is_regression N) cs
  unfolding recommend
  recommend-is_blocked [] = refl
  recommend-is_blocked (c ∷ cs) =
      verdict-is_blocked (keep (is_regression N) (c ∷ cs)) (keep (is_improvement N) (c ∷ cs))
      ∙ filled-keep (is_regression N) (c ∷ cs)

  recommend-is_safe :
      (cs : List (Comparison N))
      → is_safe (recommend N cs) ≡ (not (any (is_regression N) cs) && any (is_improvement N) cs)
  unfolding recommend
  recommend-is_safe [] = refl
  recommend-is_safe (c ∷ cs) =
      verdict-is_safe (keep (is_regression N) (c ∷ cs)) (keep (is_improvement N) (c ∷ cs))
      ∙ rw (filled-keep (is_regression N) (c ∷ cs), filled-keep (is_improvement N) (c ∷ cs)) refl

  recommend-is_undecided :
      (cs : List (Comparison N)) → is_undecided (recommend N cs) ≡ not (is_filled cs)
  unfolding recommend
  recommend-is_undecided [] = refl
  recommend-is_undecided (c ∷ cs) =
      verdict-decided (keep (is_regression N) (c ∷ cs)) (keep (is_improvement N) (c ∷ cs))

  module _ (M : Numerics N) (control : List (Observation N))
      (records : Dict (List (Observation N))) where
    -- A challenger has enough observations, and one of its two comparisons has a property.
    abbrev is_judged : (Comparison N → Bool) → Variant N → Bool
    is_judged p v =
        let treatment = records_of N records v in
        not (is_scarce N treatment)
        && (p (latency_comparison N M v control treatment)
            || p (success_comparison N M v control treatment))

    any-comparisons :
        (p : Comparison N → Bool) (vs : List (Variant N))
        → any p (comparisons_of N M control records vs) ≡ any (is_judged p) vs
    unfolding comparisons_of
    any-comparisons p [] = refl
    any-comparisons p (v ∷ vs) = elim (Bool-cases (is_scarce N (records_of N records v))) [
      | inl e ↦ rw e (any-comparisons p vs)
      | inr e ↦
          rw (e, any-comparisons p vs)
            (or_assoc (p (latency_comparison N M v control (records_of N records v))) _ _)
    ]

    filled-comparisons :
        (vs : List (Variant N))
        → is_filled (comparisons_of N M control records vs)
          ≡ any (λ v. not (is_scarce N (records_of N records v))) vs
    unfolding comparisons_of
    filled-comparisons [] = refl
    filled-comparisons (v ∷ vs) = elim (Bool-cases (is_scarce N (records_of N records v))) [
      | inl e ↦ rw e (filled-comparisons vs)
      | inr e ↦ rw e refl
    ]

    judged_as_worse :
        (v : Variant N)
        → is_judged (is_regression N) v ≡ is_worse N M control (records_of N records v)
    unfolding is_regression latency_comparison success_comparison compare_means compare_proportions
        latencies quotient rate
    judged_as_worse v =
        rw (success_count-successes N control, success_count-successes N (records_of N records v))
          refl

    judged_as_different :
        (v : Variant N)
        → is_judged (is_improvement N) v ≡ is_different N M control (records_of N records v)
    unfolding is_improvement latency_comparison success_comparison compare_means compare_proportions
        latencies quotient rate
    judged_as_different v =
        rw (success_count-successes N control, success_count-successes N (records_of N records v))
          refl

    -- A recommendation that agrees with the observations.
    pub record IsRecommended (challengers : List (Variant N)) (r : Recommendation) : Type 0 where
      pub blocked : is_blocked r ≡ (
          not (ltb (length control) 100)
          && any (λ v. is_worse N M control (records_of N records v)) challengers)
      pub safe : is_safe r ≡ (
          not (ltb (length control) 100)
          && (not (any (λ v. is_worse N M control (records_of N records v)) challengers)
              && any (λ v. is_different N M control (records_of N records v)) challengers))
      pub undecided : is_undecided r ≡ (
          ltb (length control) 100
          || not (any (λ v. not (ltb (length (records_of N records v)) 100)) challengers))

    analyse_control-IsRecommended :
        (name : String) (arms : List (ArmMetrics N)) (challengers : List (Variant N))
        → IsRecommended challengers
            (analyse_control N M name arms control
              (comparisons_of N M control records challengers)).recommendation
    unfolding analyse_control
    analyse_control-IsRecommended name arms challengers =
        let cs = comparisons_of N M control records challengers in
        let worse =
          any-comparisons (is_regression N) challengers
          ∙ any-same (is_judged (is_regression N)) _ challengers judged_as_worse in
        let different =
          any-comparisons (is_improvement N) challengers
          ∙ any-same (is_judged (is_improvement N)) _ challengers judged_as_different in
        elim (Bool-cases (is_scarce N control)) [
          | inl e ↦ rw e (record { blocked = rw e refl; safe = rw e refl; undecided = rw e refl })
          | inr e ↦ rw e (record {
            blocked = rw e (recommend-is_blocked cs ∙ worse);
            safe = rw e (recommend-is_safe cs ∙ rw (worse, different) refl);
            undecided = rw e (recommend-is_undecided cs ∙ ap not (filled-comparisons challengers));
          })
        ]

  -- The analysis of an experiment with a control recommends against promotion exactly where the
  -- control and some challenger have at least 100 observations each, and that challenger is slower:
  -- its mean latency is above the control's, by at least 5% of it, with a p-value of Welch's test
  -- below 0.05; or less reliable: its share of successes is below the control's, by at least 0.01,
  -- with a two-sided p-value of the pooled z-test below 0.05. It calls a promotion safe exactly
  -- where no such challenger is worse and some one differs, either way, by these margins and
  -- p-values; and it finds the data insufficient exactly where the control has fewer than 100
  -- observations or every challenger has.
  pub analyse_experiment-IsRecommended :
      (M : Numerics N) (e : Experiment N) (records : Dict (List (Observation N))) (c : Variant N)
      (challengers : List (Variant N))
      → e.variants ≡ c ∷ challengers
      → (report : ExperimentReport N) × (analyse_experiment N M e records ≡ some report)
        × IsRecommended M (records_of N records c) records challengers report.recommendation
  unfolding analyse_experiment
  analyse_experiment-IsRecommended M e records c challengers h =
      let control = records_of N records c in
      let arms = arms_of N M records (c ∷ challengers) in
      (
        analyse_control N M e.name arms control (comparisons_of N M control records challengers),
        rw h refl,
        analyse_control-IsRecommended M control records e.name arms challengers,
      )
