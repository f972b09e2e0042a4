-- ===== src/Prelude/Micro.antt =====
-- Fixed-point numbers in units of a millionth, which stand for the floats where a test runs.
use Prim.Native.Nat.{ℕ, ◌+◌, ◌-◌, ◌*◌, ◌/◌, ◌^◌}
use mathlib.Core.List.{List, [], ◌∷◌}
use ml_engineer_challenge_so.Prelude.Tests.{ltb, leb, ◌==◌}
use ml_engineer_challenge_so.Prelude.Float.{Float}

abbrev pub total : List ℕ → ℕ
total [] = 0
total (x ∷ xs) = x + total xs

abbrev pub micro : Float
micro = record {
  F = ℕ;
  lt = ltb;
  le = leb;
  add = λ a b. a + b;
  sub = λ a b. a - b;
  mul = λ a b. a * b / 1_000_000;
  div = λ a b. a * 1_000_000 / b;
  is_zero = λ a. a == 0;
  decimal = λ m k. m * 1_000_000 / 10 ^ k;
  ratio = λ m n. m * 1_000_000 / n;
  sum = total;
  isclose = λ a b t. leb (a - b + (b - a)) t;
}
