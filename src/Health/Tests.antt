-- ===== src/Health/Tests.antt =====
-- The health of a service in api/routers/health.py that started without Redis and a database.
use ml_engineer_challenge_so.Prelude.{false, some, ◌≡◌}
use ml_engineer_challenge_so.Cache.Tests.{fresh}
use ml_engineer_challenge_so.Startup.Tests.{surroundings, settings, app, started, drivers}
use ml_engineer_challenge_so.Health.{health, readiness}
use ml_engineer_challenge_so.Health.Aggregate.{
  IsAggregate, is_unhealthy, health-IsAggregate, lifespan-readiness,
}

health-IsAggregate_example :
    IsAggregate app.models fresh drivers (some tt) (health app.models fresh drivers (some tt))
health-IsAggregate_example = health-IsAggregate app.models fresh drivers (some tt)

lifespan-readiness_example :
    ((readiness app.models).status_code ≡ 200)
    × (is_unhealthy (health app.models fresh drivers (some tt)).status ≡ false)
lifespan-readiness_example = lifespan-readiness surroundings settings app fresh (some tt) started
