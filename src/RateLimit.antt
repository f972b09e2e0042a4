-- ===== src/RateLimit.antt =====
-- api/middleware/rate_limit.py: the sliding-window limiter. Times are in milliseconds of one clock
-- that Redis and the API share.
pub mod Commands
pub mod Window
pub mod Retry
pub mod Decisions
pub mod Tests
use Prim.Native.String.{◌++◌}
use Commands.{SortedSet}
use ml_engineer_challenge_so.Prelude.{
  ℕ, ◌+◌, ◌*◌, ◌/◌, ◌-◌, max, String, Bool, true, false, ltb, ◌==◌, str_eq, if◌then◌else◌, List, [],
  ◌∷◌, Option, none, some, or_else, Result, ok, err,
}
use ml_engineer_challenge_so.Prelude.Dict.{Dict}
use ml_engineer_challenge_so.Prelude.Int.{ℤ, pos, negsuc, sub_ℕ}
use ml_engineer_challenge_so.Config.{Settings, UserTier, free, pro, enterprise, rate_limit_for}
use ml_engineer_challenge_so.Errors.{ApiError, rate_limit_error}

abbrev pub window_seconds : ℕ
window_seconds = 60

-- `tier.value`
unfoldable pub tier_value : UserTier → String
tier_value free = "free"
tier_value pro = "pro"
tier_value enterprise = "enterprise"

unfoldable pub window_key : String → UserTier → String
unfolding tier_value
window_key user_id tier = "ratelimit:" ++ (tier_value tier ++ (":" ++ user_id))

-- What the script returns: {allowed, current_count, oldest_timestamp_ms}.
pub record Reply : Type 0 where
  pub allowed : ℕ
  pub count : ℕ
  pub oldest : ℕ

pub record RateLimitDecision : Type 0 where
  pub allowed : Bool
  pub limit : ℕ
  pub remaining : ℕ
  pub retry_after_seconds : ℕ

-- The header values are kept as numbers.
unfoldable pub headers : RateLimitDecision → Dict ℕ
headers d =
    ("X-RateLimit-Limit", d.limit)
    ∷ ("X-RateLimit-Remaining", max 0 d.remaining)
    ∷ (if d.allowed then [] else ("Retry-After", d.retry_after_seconds) ∷ [])

-- int((oldest + window - now) / 1000) + 1, and at least 1: a negative quotient gives 1.
unfoldable pub retry_after : ℕ → ℕ → ℕ → ℕ
retry_after oldest window now = elim (sub_ℕ (oldest + window) now) [
  | pos n ↦ max 1 (n / 1000 + 1)
  | negsuc n ↦ 1
]

-- A key of Redis: the set, and the time at which the key expires.
pub record Key (R : SortedSet) : Type 0 where
  pub set : R.Z
  pub expires_at : Option ℕ

-- What the limiter meets: no Redis configured, one whose calls raise `RedisError`, one that answers.
pub data Redis : Type 0 where
  absent failing answering : Redis

module _ (R : SortedSet) where
  abbrev pub empty_key : Key R
  empty_key = record { set = R.empty; expires_at = none }

  -- The Lua script, which Redis runs without interruption.
  unfoldable pub sliding_window : ℕ → ℕ → ℕ → String → Key R → Reply × Key R
  sliding_window now window limit member key =
      let trimmed = R.zremrangebyscore 0 (sub_ℕ now window) key.set in
      let count = R.zcard trimmed in
      if ltb count limit
      then (
        record { allowed = 1; count = count + 1; oldest = 0 },
        record { set = R.zadd now member trimmed; expires_at = some (now + window + 1000) },
      )
      else (
        record { allowed = 0; count = count; oldest = or_else (R.lowest trimmed) 0 },
        record { set = trimmed; expires_at = key.expires_at },
      )

  -- The keys of Redis.
  abbrev pub Store : Type 0
  Store = String → Key R

  abbrev pub write : Store → String → Key R → Store
  write s k v j = if str_eq k j then v else s j

  -- `check`, after the script has returned.
  unfoldable pub decide : ℕ → ℕ → ℕ → Reply → RateLimitDecision
  unfolding retry_after
  decide now window limit reply =
      if reply.allowed == 1
      then record {
        allowed = true;
        limit = limit;
        remaining = limit - reply.count;
        retry_after_seconds = 0;
      }
      else record {
        allowed = false;
        limit = limit;
        remaining = 0;
        retry_after_seconds = retry_after reply.oldest window now;
      }

  abbrev pub fail_open : ℕ → RateLimitDecision
  fail_open limit = record {
    allowed = true;
    limit = limit;
    remaining = limit;
    retry_after_seconds = 0;
  }

  -- `now` and `member` are the values of this call's `now_ms` and `member`.
  unfoldable pub check :
      Redis → Settings → ℕ → String → String → UserTier → Store → RateLimitDecision × Store
  unfolding sliding_window decide rate_limit_for
  check absent settings now member user_id tier s = (fail_open (rate_limit_for settings tier), s)
  check failing settings now member user_id tier s = (fail_open (rate_limit_for settings tier), s)
  check answering settings now member user_id tier s =
      let limit = rate_limit_for settings tier in
      let window = window_seconds * 1000 in
      let key = window_key user_id tier in
      let (reply, key') = sliding_window now window limit member (s key) in
      (decide now window limit reply, write s key key')

  abbrev enforced : RateLimitDecision → Result ApiError RateLimitDecision
  enforced d = if d.allowed then ok d else err (rate_limit_error d.retry_after_seconds d.limit)

  unfoldable pub enforce :
      Redis
      → Settings
      → ℕ
      → String
      → String
      → UserTier
      → Store
      → Result ApiError RateLimitDecision × Store
  enforce redis settings now member user_id tier s =
      let (decision, s') = check redis settings now member user_id tier s in (enforced decision, s')

  -- `reset`
  unfoldable pub reset : Redis → String → UserTier → Store → Store
  reset answering user_id tier s = write s (window_key user_id tier) empty_key
  reset _ user_id tier s = s
