-- ===== src/Health/Aggregate.antt =====
-- How the reports of api/routers/health.py agree with each other and with the services.
use ml_engineer_challenge_so.Prelude.{
  String, Bool, true, false, not, ◌&&◌, if◌then◌else◌, List, [], ◌∷◌, ◌++◌, any, all, is_filled,
  filled-keep, Option, none, some, is_some, ok, is_ok, ◌≡◌, refl, sym, ap, ◌∙◌, Bool-cases, inl,
  inr,
}
use ml_engineer_challenge_so.Prelude.Dict.{Dict, lookup, values, Entries-lookup}
use ml_engineer_challenge_so.Prelude.Float.{Float}
use ml_engineer_challenge_so.Config.{Settings}
use ml_engineer_challenge_so.Cache.{RedisServer, CacheService, ping}
use ml_engineer_challenge_so.Models.{
  Host, LoadedModel, ModelService, list_models, is_ready, model_key,
}
use ml_engineer_challenge_so.Models.Registry.{Reach, Reach-Inv, IsLoaded}
use ml_engineer_challenge_so.Inference.{Vision}
use ml_engineer_challenge_so.Similarity.{Faiss}
use ml_engineer_challenge_so.Startup.{Surroundings, Started, lifespan}
use ml_engineer_challenge_so.Startup.Connections.{Drivers, check_connection, check_connection-is_ok}
use ml_engineer_challenge_so.Startup.Ready.{lifespan-Kept}
use ml_engineer_challenge_so.Health.{
  HealthStatus, healthy, unhealthy, HealthResponse, connection, database_components,
  backend_components, database_healthy, status_of, degraded_models, report, health, readiness,
}

abbrev pub is_unhealthy : HealthStatus → Bool
is_unhealthy unhealthy = true
is_unhealthy _ = false

abbrev pub is_healthy : HealthStatus → Bool
is_healthy healthy = true
is_healthy _ = false

-- Whether the database answers, where there is an engine.
abbrev pub database_answers : (D : Drivers) → Option (D.Engine) → Bool
database_answers D none = true
database_answers D (some engine) = is_ok (D.select_one engine)

-- Whether some model runs on another backend than the one asked for.
abbrev pub falls_back : {H : Host} → ModelService H → Bool
falls_back s = any (λ m. is_some m.degraded_from) (list_models s)

-- A report that agrees with the services and with the readiness probe.
pub record IsAggregate {H : Host} {R : RedisServer} (s : ModelService H) (cache : CacheService R)
    (D : Drivers) (engine : Option (D.Engine)) (r : HealthResponse) : Type 0 where
  pub down : is_unhealthy r.status ≡ not (is_ready s)
  pub well :
      is_healthy r.status
      ≡ (is_ready s && ((ping cache).0 && (not (falls_back s) && database_answers D engine)))
  pub probe : (readiness s).status_code ≡ (if is_unhealthy r.status then 503 else 200)
  pub parts :
      all (λ c. c.healthy) r.components
      ≡ (is_ready s && ((ping cache).0 && database_answers D engine))

filled-values :
    {V : Type 0} (d : Dict V) → (elim d [ [] ↦ false | _ ∷ _ ↦ true ]) ≡ is_filled (values d)
unfolding values
filled-values [] = refl
filled-values (e ∷ d) = refl

lookup-filled :
    {V : Type 0} (k : String) (v : V) (d : Dict V)
    → lookup k d ≡ some v
    → (elim d [ [] ↦ false | _ ∷ _ ↦ true ]) ≡ true
unfolding lookup
lookup-filled k v [] h = absurd (cc h)
lookup-filled k v (e ∷ d) h = refl

status_of-unhealthy :
    (loaded cache falling_back database : Bool)
    → is_unhealthy (status_of loaded cache falling_back database) ≡ not loaded
unfolding status_of
status_of-unhealthy true true true database = refl
status_of-unhealthy true true false true = refl
status_of-unhealthy true true false false = refl
status_of-unhealthy true false falling_back database = refl
status_of-unhealthy false cache falling_back database = refl

status_of-healthy :
    (loaded cache falling_back database : Bool)
    → is_healthy (status_of loaded cache falling_back database)
      ≡ (loaded && (cache && (not falling_back && database)))
unfolding status_of
status_of-healthy true true true database = refl
status_of-healthy true true false true = refl
status_of-healthy true true false false = refl
status_of-healthy true false falling_back database = refl
status_of-healthy false cache falling_back database = refl

all_components :
    {H : Host} (database : Option (Bool × Option String)) (ms : List (LoadedModel H))
    → all (λ c. c.healthy) (database_components database ++ backend_components ms)
      ≡ database_healthy database
unfolding database_components connection backend_components
all_components none [] = refl
all_components none (m ∷ ms) = refl
all_components (some (true, detail)) [] = refl
all_components (some (true, detail)) (m ∷ ms) = refl
all_components (some (false, detail)) ms = refl

module _ {H : Host} {R : RedisServer} (s : ModelService H) (cache : CacheService R) where
  report-IsAggregate :
      (D : Drivers) (engine : Option (D.Engine)) (database : Option (Bool × Option String))
      → database_healthy database ≡ database_answers D engine
      → IsAggregate s cache D engine (report s (ping cache) database)
  unfolding report connection degraded_models readiness is_ready list_models
  report-IsAggregate D engine database h =
      let filled = filled-values s.models in
      let falling = filled-keep (λ m. is_some m.degraded_from) (values s.models) in
      let loaded = is_filled (values s.models) in
      let falling_back = is_filled (degraded_models s) in
      record {
        down =
            status_of-unhealthy loaded ((ping cache).0) falling_back (database_healthy database)
            ∙ ap not (sym filled);
        well =
            status_of-healthy loaded ((ping cache).0) falling_back (database_healthy database)
            ∙ rw (sym filled, falling, h) refl;
        probe =
            rw
              (
                status_of-unhealthy loaded ((ping cache).0) falling_back
                    (database_healthy database),
                filled,
              )
              (elim (Bool-cases loaded) [ inl e ↦ rw e refl | inr e ↦ rw e refl ]);
        parts =
            rw (filled, sym h)
              (ap (λ b. loaded && ((ping cache).0 && b))
                (all_components database (degraded_models s)));
      }

  -- The report of /health agrees with its parts and with the probe of /health/ready: it is
  -- unhealthy exactly where no model is loaded, which is where the probe answers 503 and not 200;
  -- it is healthy exactly where a model is loaded, the cache and the database answer and no model
  -- runs on a fallback; and its components are all healthy exactly where this holds but for the
  -- fallback.
  pub health-IsAggregate :
      (D : Drivers) (engine : Option (D.Engine))
      → IsAggregate s cache D engine (health s cache D engine)
  unfolding health check_connection
  health-IsAggregate D none = report-IsAggregate D none none refl
  health-IsAggregate D (some engine) =
      report-IsAggregate D (some engine) (some (check_connection D engine))
        (check_connection-is_ok D engine)

active-ready :
    {H : Host} (s : ModelService H) (name version : String)
    → Reach s
    → lookup name s.active ≡ some version
    → is_ready s ≡ true
unfolding is_ready
active-ready s name version r h =
    let (m, found) =
      Entries-lookup (IsLoaded s.models) name version s.active ((Reach-Inv s r).active_loaded) h in
    lookup-filled (model_key name version) m s.models found

-- After a start that succeeds the service takes traffic: the probe of /health/ready answers 200 and
-- the report of /health is not unhealthy, whatever the cache and the database answer.
pub lifespan-readiness :
    {H : Host} {N : Vision H} {W : Float} {I : Faiss N} {A : Type 0} {R : RedisServer}
    (S : Surroundings W I) (settings : Settings) (app : Started S A) (cache : CacheService R)
    (engine : Option (S.drivers.Engine))
    → lifespan S (ok settings) ≡ ok app
    → ((readiness app.models).status_code ≡ 200)
      × (is_unhealthy (health app.models cache S.drivers engine).status ≡ false)
lifespan-readiness S settings app cache engine h =
    let kept = lifespan-Kept S settings app h in
    let ready = active-ready app.models "tiny-imagenet-classifier" "v1" kept.reached kept.active in
    let aggregate = health-IsAggregate app.models cache S.drivers engine in
    let up : is_unhealthy (health app.models cache S.drivers engine).status ≡ false =
      aggregate.down ∙ ap not ready in
    (aggregate.probe ∙ rw up refl, up)
