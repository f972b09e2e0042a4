-- ===== src/Training/Interval.antt =====
-- `parse_eval_interval` of models/training/pipeline.py, on the characters of the text.
use ml_engineer_challenge_so.Prelude.{
  ℕ, ◌+◌, ◌*◌, ◌&&◌, ◌==◌, if◌then◌else◌, List, [], ◌∷◌, Option, none, some, or_else, Result, ok,
  err,
}
use ml_engineer_challenge_so.Errors.{Raised, builtin}

pub data EvalUnit : Type 0 where
  epochs batches : EvalUnit

-- An integer, or a text by its characters.
pub data EvalInterval : Type 0 where
  number : ℕ → EvalInterval
  interval_text : List ℕ → EvalInterval

-- What stands after the digits: "ep" or "ba", and `$` accepts a last newline.
unit_of : List ℕ → Option EvalUnit
unit_of (a ∷ b ∷ []) =
    if a == 101 && b == 112 then some epochs else if a == 98 && b == 97 then some batches else none
unit_of (a ∷ b ∷ c ∷ []) =
    if a == 101 && b == 112 && c == 10
    then some epochs
    else if a == 98 && b == 97 && c == 10
    then some batches
    else none
unit_of cs = none

with_value : ℕ → Option EvalUnit → Result Raised (EvalUnit × ℕ)
with_value n none = err (builtin "ValueError")
with_value n (some unit) = ok (unit, n)

-- `digit c` is the decimal value of a character that `\d` matches.
module _ (digit : ℕ → Option ℕ) where
  -- The number so far, where a digit was met.
  read_interval : Option ℕ → List ℕ → Result Raised (EvalUnit × ℕ)
  unfolding unit_of with_value
  read_interval current [] = err (builtin "ValueError")
  read_interval current (c ∷ cs) = elim (digit c) [
    | some d ↦ read_interval (some (or_else current 0 * 10 + d)) cs
    | none ↦ elim current [
      | none ↦ err (builtin "ValueError")
      | some n ↦ with_value n (unit_of (c ∷ cs))
    ]
  ]

  unfoldable pub parse_eval_interval : EvalInterval → Result Raised (EvalUnit × ℕ)
  unfolding read_interval
  parse_eval_interval (number n) = ok (batches, n)
  parse_eval_interval (interval_text text) = read_interval none text
