-- ===== src/Health.antt =====
-- api/routers/health.py: the health report, the probes and the list of models. The prose of a
-- component, the latencies and the uptime are left out, and so is the page of Prometheus.
pub mod Aggregate
pub mod Tests
use ml_engineer_challenge_so.Prelude.{
  ℕ, String, Bool, true, false, not, ◌&&◌, ◌||◌, if◌then◌else◌, List, [], ◌∷◌, ◌++◌, map, keep,
  length, Option, none, some, is_some, or_else, is_filled,
}
use ml_engineer_challenge_so.Prelude.Dict.{Dict}
use ml_engineer_challenge_so.Config.{Settings, InferenceBackend, backend_value}
use ml_engineer_challenge_so.Cache.{RedisServer, CacheService, ping}
use ml_engineer_challenge_so.Models.{
  Host, LoadedModel, ModelService, TaskType, list_models, is_ready, is_active,
}
use ml_engineer_challenge_so.Startup.Connections.{Drivers, check_connection}

-- `detail or "connected"` for the cache and the database, and `none` for the other components.
pub record ComponentHealth : Type 0 where
  pub name : String
  pub healthy : Bool
  pub detail : Option String

pub data HealthStatus : Type 0 where
  healthy degraded unhealthy : HealthStatus

pub record HealthResponse : Type 0 where
  pub status : HealthStatus
  pub components : List ComponentHealth

connection : String → Bool × Option String → ComponentHealth
connection name (healthy_now, detail) = record {
  name = name;
  healthy = healthy_now;
  detail = some (or_else detail "connected");
}

-- The check of the database, where an engine is configured.
database_components : Option (Bool × Option String) → List ComponentHealth
unfolding connection
database_components none = []
database_components (some checked) = connection "database" checked ∷ []

backend_components : {H : Host} → List (LoadedModel H) → List ComponentHealth
backend_components [] = []
backend_components (m ∷ ms) =
    record { name = "inference_backend"; healthy = true; detail = none } ∷ []

abbrev database_healthy : Option (Bool × Option String) → Bool
database_healthy none = true
database_healthy (some checked) = checked.0

status_of : Bool → Bool → Bool → Bool → HealthStatus
status_of loaded cache_healthy falling_back database =
    if not loaded
    then unhealthy
    else if not cache_healthy || falling_back || not database
    then degraded
    else healthy

pub record Readiness : Type 0 where
  pub status_code : ℕ
  pub ready : Bool
  pub models_loaded : ℕ

pub record ModelInfo (N : Type 0) (T : Type 0) : Type 0 where
  pub name : String
  pub version : String
  pub task : TaskType
  pub backend : String
  pub loaded : Bool
  pub is_active : Bool
  pub num_classes : ℕ
  pub input_size : ℕ
  pub metrics : Dict N
  pub loaded_at : T

module _ {H : Host} (s : ModelService H) where
  -- The models on a backend other than the one that was asked for.
  unfoldable pub degraded_models : List (LoadedModel H)
  degraded_models = keep (λ m. is_some m.degraded_from) (list_models s)

  -- The route, where `database` is the check of the connection, if an engine is configured.
  unfoldable pub report : Bool × Option String → Option (Bool × Option String) → HealthResponse
  unfolding connection database_components backend_components status_of
  report cache database = record {
    status =
        status_of (is_filled (list_models s)) (cache.0) (is_filled degraded_models)
          (database_healthy database);
    components =
        record { name = "models"; healthy = is_filled (list_models s); detail = none }
        ∷ connection "cache" cache
        ∷ (database_components database ++ backend_components degraded_models);
  }

  unfoldable pub health :
      {R : RedisServer} → CacheService R → (D : Drivers) → Option (D.Engine) → HealthResponse
  health cache D none = report (ping cache) none
  health cache D (some engine) = report (ping cache) (some (check_connection D engine))

  unfoldable pub readiness : Readiness
  readiness =
      let ready = is_ready s in
      record {
        status_code = if ready then 200 else 503;
        ready = ready;
        models_loaded = length (list_models s);
      }

  -- The size of the artefact is left out.
  unfoldable pub model_infos : List (ModelInfo H.Number H.Time)
  model_infos =
      map
        (λ m. record {
          name = m.name;
          version = m.version;
          task = m.task;
          backend = backend_value m.backend;
          loaded = true;
          is_active = is_active s m;
          num_classes = length m.class_names;
          input_size = m.image_size;
          metrics = m.metrics;
          loaded_at = m.loaded_at;
        })
        (list_models s)
