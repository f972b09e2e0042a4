-- ===== src/Drift/Tests.antt =====
-- Runs of models/validation/drift.py on fixed-point numbers.
use ml_engineer_challenge_so.Prelude.{
  ℕ, zero, suc, ◌≡◌, inr, refl, arith, ◌==◌, if◌then◌else◌, List, [], ◌∷◌, some,
}
use ml_engineer_challenge_so.Prelude.Dict.{lookup}
use ml_engineer_challenge_so.Prelude.Micro.{micro, total}
use ml_engineer_challenge_so.Drift.{Statistics, significant, overall_severity}
use ml_engineer_challenge_so.Drift.Windows.{Row, compare_windows, column}
use ml_engineer_challenge_so.Drift.Severity.{here}
use ml_engineer_challenge_so.Drift.Shifts.{compare_windows-significant_iff}

-- Two samples are as far apart as can be unless their sums agree.
abbrev sums : Statistics micro
sums = record {
  V = ℕ;
  same = ◌==◌;
  text = λ v. "";
  walked = λ vs. vs;
  log = λ x. x;
  ks_2samp = λ b c. (if total b == total c then 0 else 1_000_000, 0);
}

abbrev window : ℕ → ℕ → List (Row micro sums)
window zero width = []
window (suc n) width = (("image_width", some width) ∷ []) ∷ window n width

compare_windows-significant_iff_example :
    overall_severity micro
      (compare_windows micro sums (window 120 640) (window 100 320) "classifier" "1")
    ≡ significant
unfolding column lookup
compare_windows-significant_iff_example =
    (compare_windows-significant_iff micro sums (window 120 640) (window 100 320) "classifier"
        "1").1
      (inr (here (omega arith, omega arith, refl)))
