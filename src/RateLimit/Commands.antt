-- ===== src/RateLimit/Commands.antt =====
-- The sorted-set commands of Redis that the script of api/middleware/rate_limit.py issues. Redis
-- is no part of the repository: its commands are a parameter, and their documented effect is the
-- record `IsSortedSet`, over the members with their scores in the order of `ZRANGE`.
use ml_engineer_challenge_so.Prelude.{
  ℕ, ◌≤◌, ◌≡◌, String, Bool, false, ◌&&◌, not, leb, any, keep, str_eq, List, [], ◌∷◌, ◌++◌, Option,
  none, some, length, All,
}
use ml_engineer_challenge_so.Prelude.Int.{ℤ, pos, leb_ℤ}

pub record SortedSet : Type 1 where
  pub Z : Type 0
  -- a missing key
  pub empty : Z
  -- ZADD key score member
  pub zadd : ℕ → String → Z → Z
  -- ZREMRANGEBYSCORE key min max
  pub zremrangebyscore : ℕ → ℤ → Z → Z
  -- ZCARD key
  pub zcard : Z → ℕ
  -- the score of `ZRANGE key 0 0 WITHSCORES`
  pub lowest : Z → Option ℕ

pub record Entry : Type 0 where
  pub score : ℕ
  pub member : String

abbrev pub in_range : ℕ → ℤ → Entry → Bool
in_range lowest highest e = leb lowest e.score && leb_ℤ (pos e.score) highest

abbrev pub holds_member : String → List Entry → Bool
holds_member m = any (λ e. str_eq e.member m)

abbrev pub lowest_score : List Entry → Option ℕ
lowest_score [] = none
lowest_score (e ∷ es) = some e.score

abbrev pub IsSorted : List Entry → Type 0
IsSorted [] = Unit
IsSorted (e ∷ es) = All (λ f. e.score ≤ f.score) es × IsSorted es

pub record IsSortedSet (R : SortedSet) : Type 0 where
  pub entries : R.Z → List Entry
  pub entries-empty : entries R.empty ≡ []
  pub entries_sorted : (z : R.Z) → IsSorted (entries z)
  pub zcard_lem : (z : R.Z) → R.zcard z ≡ length (entries z)
  pub lowest_lem : (z : R.Z) → R.lowest z ≡ lowest_score (entries z)
  pub zremrangebyscore_lem :
      (lo : ℕ) (hi : ℤ) (z : R.Z)
      → entries (R.zremrangebyscore lo hi z) ≡ keep (λ e. not (in_range lo hi e)) (entries z)
  -- a new member is put in at some place, and the others keep their order
  pub zadd_lem :
      (score : ℕ) (member : String) (z : R.Z)
      → holds_member member (entries z) ≡ false
      → (front : List Entry) × (back : List Entry) × (entries z ≡ front ++ back)
        × (entries (R.zadd score member z)
            ≡ front ++ (record { score = score; member = member } ∷ back))
