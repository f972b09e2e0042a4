-- ===== src/Experiments/Criteria.antt =====
-- When the observations of models/validation/ab_testing.py count as worse than the control's, or as
-- different, said of the observations themselves.
use ml_engineer_challenge_so.Prelude.{
  map, Bool, ◌&&◌, ◌||◌, not, List, [], ◌∷◌, ℕ, suc, ◌+◌, max, ltb, str_eq, if◌then◌else◌, length,
  none, some, ◌≡◌, refl, arith,
}
use ml_engineer_challenge_so.Prelude.Float.{Float}
use ml_engineer_challenge_so.Experiments.Analysis.{Numerics, Observation, success_count}

module _ (N : Float) where
  -- The number of observations with the status "success".
  abbrev pub successes : List (Observation N) → ℕ
  successes [] = 0
  successes (r ∷ rs) =
      let others = successes rs in
      elim r.status [ none ↦ others | some s ↦ if str_eq s "success" then suc others else others ]

  pub success_count-successes : (rs : List (Observation N)) → success_count N rs ≡ successes rs
  unfolding success_count
  success_count-successes [] = refl
  success_count-successes (r ∷ rs) = ground (arith, success_count-successes rs)

  -- The latencies, in order.
  abbrev times : List (Observation N) → List N.F
  times = map (λ r. r.latency)

  abbrev pub success_share : List (Observation N) → N.F
  success_share rs = if ltb 0 (length rs) then N.ratio (successes rs) (length rs) else N.decimal 0 0

  abbrev ratio_or_zero : N.F → N.F → N.F
  ratio_or_zero a b = if N.is_zero b then N.decimal 0 0 else N.div a b

  module _ (M : Numerics N) where
    abbrev mean_latency : List (Observation N) → N.F
    mean_latency rs = M.mean (times rs)

    -- The mean latencies differ by at least 5% of the control's, with a p-value below 0.05.
    abbrev pub latency_differs : List (Observation N) → List (Observation N) → Bool
    latency_differs control treatment =
        N.lt (M.welch_p (times treatment) (times control)) (N.decimal 5 2)
        && N.le (N.decimal 5 2) (
            M.abs (
              ratio_or_zero (N.sub (mean_latency treatment) (mean_latency control))
                (mean_latency control)))

    -- The standard error of the difference where both groups have one rate of success.
    abbrev common_error : List (Observation N) → List (Observation N) → N.F
    common_error control treatment =
        let pooled =
          N.ratio (successes control + successes treatment)
            (max (length control + length treatment) 1) in
        M.sqrt (
          N.mul (N.mul pooled (N.sub (N.decimal 1 0) pooled))
            (N.add (N.ratio 1 (max (length control) 1)) (N.ratio 1 (max (length treatment) 1))))

    -- The shares of success differ by at least 0.01, with a p-value below 0.05.
    abbrev pub success_differs : List (Observation N) → List (Observation N) → Bool
    success_differs control treatment =
        let difference = N.sub (success_share treatment) (success_share control) in
        let z = ratio_or_zero difference (common_error control treatment) in
        N.lt (N.mul (N.decimal 2 0) (N.sub (N.decimal 1 0) (M.normal_cdf (M.abs z))))
          (N.decimal 5 2)
        && N.le (N.decimal 1 2) (M.abs difference)

    -- A group of 100 observations or more that differs from the control for the worse, or at all.
    abbrev pub is_worse : List (Observation N) → List (Observation N) → Bool
    is_worse control treatment =
        not (ltb (length treatment) 100)
        && ((latency_differs control treatment
              && N.lt (N.decimal 0 0) (N.sub (mean_latency treatment) (mean_latency control)))
            || (success_differs control treatment
                && N.lt (N.sub (success_share treatment) (success_share control)) (N.decimal 0 0)))

    abbrev pub is_different : List (Observation N) → List (Observation N) → Bool
    is_different control treatment =
        not (ltb (length treatment) 100)
        && (latency_differs control treatment || success_differs control treatment)
