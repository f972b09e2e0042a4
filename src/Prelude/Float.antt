-- ===== src/Prelude/Float.antt =====
-- Python's `float`, and numpy's, as a parameter: the operations that the program calls. What a
-- theorem needs of them beside that is a hypothesis of the theorem.
use Prim.Native.Nat.{ℕ}
use mathlib.Core.Bool.{Bool}
use mathlib.Core.List.{List}

pub record Float : Type 1 where
  pub F : Type 0
  pub lt : F → F → Bool
  pub le : F → F → Bool
  pub add : F → F → F
  pub sub : F → F → F
  pub mul : F → F → F
  pub div : F → F → F
  pub is_zero : F → Bool
  -- `decimal m k` is the literal m / 10 ^ k
  pub decimal : ℕ → ℕ → F
  -- `m / n` on two `int`s
  pub ratio : ℕ → ℕ → F
  -- `sum` of a list
  pub sum : List F → F
  -- `math.isclose(a, b, abs_tol=t)`, as `isclose a b t`
  pub isclose : F → F → F → Bool
