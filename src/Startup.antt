-- ===== src/Startup.antt =====
-- api/main.py: what `lifespan` builds before the first request, and api/db/session.py's
-- `check_connection`. The log, Pillow's limit and the gauge of the loaded models are left out.
pub mod Connections
pub mod Registered
pub mod Available
pub mod Ready
pub mod Tests
use Prim.Native.String.{◌++◌ as concat}
use ml_engineer_challenge_so.Prelude.{
  ℕ, String, Bool, true, false, str_eq, if◌then◌else◌, List, [], ◌∷◌, any, Option, none, some,
  is_some, or_else, Result, ok, err, ◌>>=◌,
}
use ml_engineer_challenge_so.Prelude.Dict.{Dict, lookup, insert}
use ml_engineer_challenge_so.Prelude.Float.{Float}
use ml_engineer_challenge_so.Config.{Settings, is_production, UserTier, free, pro, enterprise}
use ml_engineer_challenge_so.Errors.{Raised, builtin}
use ml_engineer_challenge_so.RateLimit.{tier_value}
use ml_engineer_challenge_so.Auth.{ApiKeyStore, add}
use ml_engineer_challenge_so.Audit.{AuditService, init, default_queue_size, default_batch_size}
use ml_engineer_challenge_so.Models.{
  Host, LoadedModel, ModelService, init as no_models, default_version, list_models,
}
use ml_engineer_challenge_so.Models.Versions.{Directory, discover_versions}
use ml_engineer_challenge_so.Loading.{Reader}
use ml_engineer_challenge_so.Loading.Tasks.{Request, load_classifier, load_embedder, load_detector}
use ml_engineer_challenge_so.Experiments.{
  Exn, key_error, type_error, value_error, attribute_error, ConfigFile, Registry,
  load as load_experiments,
}
use ml_engineer_challenge_so.Inference.{Vision}
use ml_engineer_challenge_so.Similarity.{Faiss, SimilarityIndex, load as load_index}
use Connections.{Drivers, create_redis, create_database}

-- `_seed_api_keys`: a key for each tier, in the order of the enumeration, and none in production.
module _ (sha256 : String → String) where
  seed_tiers : List UserTier → ApiKeyStore → ApiKeyStore
  seed_tiers [] store = store
  seed_tiers (t ∷ tiers) store =
      seed_tiers tiers
        (add sha256 (concat "dev-key-" (tier_value t)) (concat "dev-" (tier_value t)) t store)

  unfoldable pub seed_api_keys : Settings → ApiKeyStore
  unfolding seed_tiers
  seed_api_keys s = if is_production s then [] else seed_tiers (free ∷ pro ∷ enterprise ∷ []) []

-- `available_versions.setdefault(loaded.name, set()).add(loaded.version)`
add_available : String → String → Dict (List String) → Dict (List String)
add_available name version d =
    let versions = or_else (lookup name d) [] in
    insert name (if any (λ t. str_eq t version) versions then versions else version ∷ versions) d

module _ {H : Host} where
  unfoldable pub available_from : List (LoadedModel H) → Dict (List String) → Dict (List String)
  unfolding add_available
  available_from [] d = d
  available_from (m ∷ ms) d = available_from ms (add_available m.name m.version d)

  abbrev pub available_versions : ModelService H → Dict (List String)
  available_versions s = available_from (list_models s) []

-- An exception of the experiments' loader, by its class.
abbrev pub as_raised : {A : Type 0} → Result Exn A → Result Raised A
as_raised (ok a) = ok a
as_raised (err key_error) = err (builtin "KeyError")
as_raised (err type_error) = err (builtin "TypeError")
as_raised (err value_error) = err (builtin "ValueError")
as_raised (err attribute_error) = err (builtin "AttributeError")

-- The outside of a start: the files and their readers, the time of each load, the drivers of Redis
-- and of the database, and the configuration of the experiments.
pub record Surroundings {H : Host} {N : Vision H} (W : Float) (I : Faiss N) : Type 1 where
  pub artifacts_dir : H.files.FilePath
  pub reader : Reader H
  pub directory : Directory H
  pub clock : String → String → H.Time
  pub drivers : Drivers
  pub sha256 : String → String
  pub experiments : ConfigFile W.F

-- `app.state`: the services that stand on a connection are here by that connection.
pub record Started {H : Host} {N : Vision H} {W : Float} {I : Faiss N} (S : Surroundings W I)
    (A : Type 0) : Type 0 where
  pub settings : Settings
  pub redis : Option (S.drivers.Client)
  pub db_engine : Option (S.drivers.Engine)
  pub audit_service : AuditService A
  pub models : ModelService H
  pub has_detection : Bool
  pub similarity : Option (SimilarityIndex I × List String)
  pub experiment_registry : Registry W
  pub api_key_store : ApiKeyStore

module _ {H : Host} {N : Vision H} {W : Float} {I : Faiss N} (S : Surroundings W I) where
  -- A call of a loader with its defaults, but for the version and whether it becomes active.
  abbrev pub load_request : String → String → Bool → Request H
  load_request name version make_active = record {
    artifacts = S.artifacts_dir;
    name = name;
    version = version;
    make_active = make_active;
    now = S.clock name version;
  }

  -- The registry after a load whose exceptions are logged: a load that raises registers nothing.
  abbrev pub or_unchanged :
      Result Raised (LoadedModel H × ModelService H) → ModelService H → ModelService H
  or_unchanged (ok (m, t)) s = t
  or_unchanged (err e) s = s

  load_extra : Settings → String → ModelService H → ModelService H
  load_extra settings extra s =
      or_unchanged
        (load_classifier S.reader settings (load_request "tiny-imagenet-classifier" extra false) s)
        s

  -- The loop over the versions on disk.
  unfoldable pub load_extras : Settings → String → List String → ModelService H → ModelService H
  unfolding load_extra
  load_extras settings loaded [] s = s
  load_extras settings loaded (extra ∷ extras) s =
      load_extras settings loaded extras
        (if str_eq extra loaded then s else load_extra settings extra s)

  with_detector :
      ModelService H → Result Raised (LoadedModel H × ModelService H) → Bool × ModelService H
  with_detector s (ok (m, t)) = (true, t)
  with_detector s (err e) = (false, s)

  -- The detector, where it can be loaded.
  unfoldable pub start_detection : Settings → ModelService H → Bool × ModelService H
  unfolding with_detector
  start_detection settings s =
      with_detector s (
        load_detector S.reader settings (load_request "rtdetr-coco-detector" default_version true)
          s)

  with_index :
      LoadedModel H
      → ModelService H
      → Result Raised (SimilarityIndex I)
      → Option (SimilarityIndex I × List String) × ModelService H
  with_index m t (ok index) = (some (index, m.class_names), t)
  with_index m t (err e) = (none, t)

  with_embedder :
      ModelService H
      → Result Raised (LoadedModel H × ModelService H)
      → Option (SimilarityIndex I × List String) × ModelService H
  unfolding with_index
  with_embedder s (ok (m, t)) = with_index m t (load_index I S.artifacts_dir)
  with_embedder s (err e) = (none, s)

  -- The embedder and its index: where the index is missing, the embedder stays registered.
  unfoldable pub start_similarity :
      Settings → ModelService H → Option (SimilarityIndex I × List String) × ModelService H
  unfolding with_embedder
  start_similarity settings s = with_embedder s (
      load_embedder S.reader settings (load_request "tiny-imagenet-embedder" default_version true)
        s)

  -- The registry with every model that could be loaded, after the classifier `m`.
  abbrev pub after_classifier : Settings → LoadedModel H → ModelService H → ModelService H
  after_classifier settings m s =
      load_extras settings m.version
        (discover_versions S.directory (H.files.slash S.artifacts_dir "onnx")) s

  -- The registry at the end of a start.
  abbrev pub all_models : Settings → LoadedModel H → ModelService H → ModelService H
  all_models settings m s =
      (start_similarity settings ((start_detection settings (after_classifier settings m s)).1)).1

  -- The assignments to `app.state`, after the classifier `m`.
  unfoldable pub app_state :
      {A : Type 0}
      → Settings
      → Option (S.drivers.Client)
      → LoadedModel H
      → ModelService H
      → Registry W
      → Started S A
  app_state settings redis m s registry =
      let database = create_database S.drivers settings in
      let detection = start_detection settings (after_classifier settings m s) in
      record {
        settings = settings;
        redis = redis;
        db_engine = database;
        audit_service = init (is_some database) default_queue_size default_batch_size;
        models = all_models settings m s;
        has_detection = detection.0;
        similarity = (start_similarity settings (detection.1)).0;
        experiment_registry = registry;
        api_key_store = seed_api_keys S.sha256 settings;
      }

  -- The registry of experiments, resolved against the loaded models.
  abbrev pub load_registry : Settings → LoadedModel H → ModelService H → Result Raised (Registry W)
  load_registry settings m s =
      as_raised (load_experiments W S.experiments (available_versions (all_models settings m s)))

  -- `lifespan` up to its `yield`, on what `get_settings` gives or raises.
  unfoldable pub lifespan : {A : Type 0} → Result Raised Settings → Result Raised (Started S A)
  unfolding app_state
  lifespan get_settings = do
    settings ← get_settings
    redis ← create_redis S.drivers
    (m, s) ←
        load_classifier S.reader settings
          (load_request "tiny-imagenet-classifier" default_version true) (no_models H)
    registry ← load_registry settings m s
    ok (app_state settings redis m s registry)
