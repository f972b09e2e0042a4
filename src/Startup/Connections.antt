-- ===== src/Startup/Connections.antt =====
-- api/main.py: `_create_redis` and `_create_database`; api/db/session.py: `check_connection`.
use ml_engineer_challenge_so.Prelude.{
  String, Bool, true, false, if◌then◌else◌, Option, none, some, Result, ok, err, is_ok, ◌≡◌, refl,
  ◌>>=◌, ◌>>◌,
}
use ml_engineer_challenge_so.Config.{Settings, is_production}
use ml_engineer_challenge_so.Errors.{Raised, builtin}

-- What the client of Redis raises, by the handler that it meets.
pub data RedisFailure : Type 0 where
  redis_error os_error : RedisFailure
  other : Raised → RedisFailure

-- redis-py and SQLAlchemy: a client and its `ping`, an engine, the query `SELECT 1`, and the
-- creation of the tables. `describe` is the text f"{type(exc).__name__}: {exc}".
pub record Drivers : Type 1 where
  pub Client : Type 0
  pub Engine : Type 0
  pub from_url : Result RedisFailure Client
  pub ping_client : Client → Result RedisFailure (Unit {0})
  pub create_engine : Result Raised Engine
  pub select_one : Engine → Result Raised (Unit {0})
  pub create_tables : Engine → Result Raised (Unit {0})
  pub describe : Raised → String

module _ (D : Drivers) where
  open D use {Client, Engine}

  redis_client : Result RedisFailure Client
  redis_client = do client ← D.from_url; D.ping_client client; ok client

  -- `except (RedisError, OSError)`
  or_no_redis : Result RedisFailure Client → Result Raised (Option Client)
  or_no_redis (ok client) = ok (some client)
  or_no_redis (err redis_error) = ok none
  or_no_redis (err os_error) = ok none
  or_no_redis (err (other e)) = err e

  unfoldable pub create_redis : Result Raised (Option Client)
  unfolding redis_client or_no_redis
  create_redis = or_no_redis redis_client

  probed : Result Raised (Unit {0}) → Bool × Option String
  probed (ok _) = (true, none)
  probed (err e) = (false, some (D.describe e))

  unfoldable pub check_connection : Engine → Bool × Option String
  unfolding probed
  check_connection engine = probed (D.select_one engine)

  probed-is_ok : (r : Result Raised (Unit {0})) → (probed r).0 ≡ is_ok r
  unfolding probed
  probed-is_ok (ok x) = refl
  probed-is_ok (err e) = refl

  -- The probe finds the database healthy exactly where the query raises nothing.
  pub check_connection-is_ok :
      (engine : Engine) → (check_connection engine).0 ≡ is_ok (D.select_one engine)
  unfolding check_connection
  check_connection-is_ok engine = probed-is_ok (D.select_one engine)

  tables : Settings → Engine → Result Raised (Unit {0})
  tables settings engine = if is_production settings then ok tt else D.create_tables engine

  -- The body of the `try`.
  connected : Settings → Result Raised Engine
  unfolding tables
  connected settings = do
    engine ← D.create_engine
    if (check_connection engine).0 then ok tt else err (builtin "RuntimeError")
    tables settings engine
    ok engine

  or_no_database : Result Raised Engine → Option Engine
  or_no_database (ok engine) = some engine
  or_no_database (err e) = none

  -- The engine of the pair that it returns; the session factory is there where the engine is.
  unfoldable pub create_database : Settings → Option Engine
  unfolding connected or_no_database
  create_database settings = or_no_database (connected settings)
