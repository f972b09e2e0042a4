-- ===== src/Cache.antt =====
-- api/services/cache_service.py: the result cache over Redis. `A` is the payload.
pub mod Outcomes
pub mod Stored
pub mod Tests
use Prim.Native.String.{◌++◌ as concat}
use ml_engineer_challenge_so.Prelude.{
  ℕ, ◌+◌, String, Bool, true, false, ◌==◌, if◌then◌else◌, Option, none, some, Result, ok, err,
}

abbrev pub cache_schema_version : String
cache_schema_version = "v1"

-- The commands of Redis. Each takes the server's state and gives the next one; `err` and `false`
-- are a `RedisError`, and `ping` gives its text.
pub record RedisServer : Type 1 where
  pub State : Type 0
  pub get_text : String → State → Result (Unit {0}) (Option String) × State
  pub set_text : String → String → ℕ → State → Bool × State
  pub delete_key : String → State → Bool × State
  pub ping_server : State → Option String

-- `json.dumps`, where `none` is its TypeError or ValueError, and `json.loads`.
pub record Codec (A : Type 0) : Type 0 where
  pub dumps : A → Option String
  pub loads : String → Option A

-- f"infer:{version}:{model_name}:{model_version}:{backend}:{digest}:{option_digest}", on the two
-- digests that SHA-256 gives.
unfoldable pub build_key : String → String → String → String → String → String
build_key model_name model_version backend digest option_digest =
    let colon = λ (s t : String). concat s (concat ":" t) in
    colon "infer" (
      colon cache_schema_version
        (colon model_name (colon model_version (colon backend (colon digest option_digest)))))

-- `configured` is `redis is not None`, which also is `_available`.
pub record CacheService (R : RedisServer) : Type 0 where
  pub configured : Bool
  pub ttl_seconds : ℕ
  pub hits : ℕ
  pub misses : ℕ
  pub errors : ℕ
  pub server : R.State

pub record CacheStats : Type 0 where
  pub enabled : Bool
  pub hits : ℕ
  pub misses : ℕ
  pub errors : ℕ

-- `ttl_seconds or self.ttl_seconds`
abbrev pub time_to_live : Option ℕ → ℕ → ℕ
time_to_live none default = default
time_to_live (some ttl) default = if ttl == 0 then default else ttl

-- Whether the cache answers, and the text of the error.
reached : Option String → Bool × Option String
reached none = (true, none)
reached (some reason) = (false, some reason)

module _ {R : RedisServer} where
  abbrev pub enabled : CacheService R → Bool
  enabled c = c.configured

  abbrev pub count_error : CacheService R → CacheService R
  count_error c = record c { errors = c.errors + 1 }

  deleted : CacheService R → Bool × R.State → CacheService R
  deleted c (true, server) = record c { server = server }
  deleted c (false, server) = count_error (record c { server = server })

  unfoldable pub delete : String → CacheService R → CacheService R
  unfolding deleted
  delete key c = if enabled c then deleted c (R.delete_key key c.server) else c

  module _ {A : Type 0} (J : Codec A) where
    -- The payload, or a corrupt entry that is dropped.
    decoded : String → CacheService R → Option A → Option A × CacheService R
    decoded key c (some payload) = (some payload, record c { hits = c.hits + 1 })
    decoded key c none = (none, delete key (count_error c))

    answered :
        String
        → CacheService R
        → Result (Unit {0}) (Option String) × R.State
        → Option A × CacheService R
    unfolding decoded
    answered key c (err e, server) = (none, count_error (record c { server = server }))
    answered key c (ok none, server) = (none, record c { server = server; misses = c.misses + 1 })
    answered key c (ok (some raw), server) =
        decoded key (record c { server = server }) (J.loads raw)

    unfoldable pub get : String → CacheService R → Option A × CacheService R
    unfolding answered
    get key c = if enabled c then answered key c (R.get_text key c.server) else (none, c)

    written : CacheService R → Bool × R.State → Bool × CacheService R
    written c (true, server) = (true, record c { server = server })
    written c (false, server) = (false, count_error (record c { server = server }))

    store_text : String → Option String → Option ℕ → CacheService R → Bool × CacheService R
    unfolding written
    store_text key none ttl c = (false, count_error c)
    store_text key (some raw) ttl c =
        written c (R.set_text key raw (time_to_live ttl c.ttl_seconds) c.server)

    unfoldable pub set : String → A → Option ℕ → CacheService R → Bool × CacheService R
    unfolding store_text
    set key value ttl c = if enabled c then store_text key (J.dumps value) ttl c else (false, c)

  unfoldable pub ping : CacheService R → Bool × Option String
  unfolding reached
  ping c =
      if c.configured
      then reached (R.ping_server c.server)
      else (false, some "cache not configured")

  -- `stats`, less the rounded rate.
  unfoldable pub stats : CacheService R → CacheStats
  stats c = record { enabled = enabled c; hits = c.hits; misses = c.misses; errors = c.errors }
