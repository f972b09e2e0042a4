-- ===== src/Startup/Tests.antt =====
-- A start of api/main.py with two versions of the classifier on disk, without Redis and without a
-- database.
use ml_engineer_challenge_so.Prelude.{
  ℕ, String, true, false, ◌&&◌, ◌≡◌, refl, [], ◌∷◌, Option, none, some, is_some, ok, err,
  if◌then◌else◌, ltb, ◌-◌,
}
use ml_engineer_challenge_so.Prelude.Dict.{lookup, insert, values}
use ml_engineer_challenge_so.Prelude.Micro.{micro}
use ml_engineer_challenge_so.Config.{Settings, default_settings, production, is_production}
use ml_engineer_challenge_so.Errors.{builtin}
use ml_engineer_challenge_so.Auth.{resolve}
use ml_engineer_challenge_so.Models.{
  LoadedModel, key, model_key, default_version, get_classifier, get, register, init, list_models,
  resolve_versioned_metadata, resolve_versioned_artifact,
}
use ml_engineer_challenge_so.Models.Registry.{Reach}
use ml_engineer_challenge_so.Models.Tests.{test_host, version_model}
use ml_engineer_challenge_so.Models.Versions.{
  Directory, discover_versions, has_flat, is_version_dir, numbers_in,
}
use ml_engineer_challenge_so.Models.Discovery.{IsDiscovered, discover_versions-IsDiscovered}
use ml_engineer_challenge_so.Loading.Tests.{test_reader}
use ml_engineer_challenge_so.Loading.{
  read_classifier_metadata, try_backends, try_backend, chain_for, artifact_for, chain_without_int8,
  precision_artifact,
}
use ml_engineer_challenge_so.Loading.Tasks.{
  load_classifier, load_embedder, load_detector, open_and_register,
}
use ml_engineer_challenge_so.Runtime.{create_session, usable_providers}
use ml_engineer_challenge_so.Experiments.{
  RawEntry, fields, entries, load, all_distinct, load_entries, read_variants, make_variant,
  has_member, resolve_version,
}
use ml_engineer_challenge_so.Experiments.Tests.{middle, canary}
use ml_engineer_challenge_so.Similarity.{load as load_index}
use ml_engineer_challenge_so.Similarity.Tests.{faiss}
use ml_engineer_challenge_so.Startup.{
  Surroundings, Started, lifespan, app_state, available_from, load_extras, start_detection,
  start_similarity,
}
use ml_engineer_challenge_so.Startup.Connections.{Drivers, os_error, create_redis}
use ml_engineer_challenge_so.Startup.Ready.{lifespan-IsReady, lifespan-routes}

abbrev pub ascii_digit : ℕ → Option ℕ
ascii_digit c = if ltb 47 c && ltb c 58 then some (c - 48) else none

abbrev directory : Directory test_host
directory = record {
  glob = λ path.
      record { name = "v10"; is_dir = true }
      ∷ record { name = "classifier_fp32.onnx"; is_dir = false }
      ∷ record { name = "trt_cache"; is_dir = true }
      ∷ record { name = "v2"; is_dir = true }
      ∷ [];
  digit = ascii_digit;
}

listing : discover_versions directory "a/onnx" ≡ "v1" ∷ "v2" ∷ "v10" ∷ []
unfolding discover_versions has_flat is_version_dir numbers_in
listing = refl

discover_versions-IsDiscovered_example :
    IsDiscovered directory "a/onnx" (discover_versions directory "a/onnx")
discover_versions-IsDiscovered_example = discover_versions-IsDiscovered directory "a/onnx"

abbrev pub drivers : Drivers
drivers = record {
  Client = Unit {0};
  Engine = Unit {0};
  from_url = ok tt;
  ping_client = λ c. err os_error;
  create_engine = ok tt;
  select_one = λ e. err (builtin "OSError");
  create_tables = λ e. ok tt;
  describe = λ e. "OSError";
}

abbrev raw_canary : RawEntry ℕ
raw_canary =
    fields (some "tiny-imagenet-classifier") (some "canary")
      (some (
        record { name = some "control"; model_version = some "v1"; weight = some (some 400_000) }
        ∷ record {
          name = some "challenger";
          model_version = some "v2";
          weight = some (some 600_000);
        }
        ∷ []))
      none false

abbrev pub surroundings : Surroundings micro faiss
surroundings = record {
  artifacts_dir = "a";
  reader = test_reader;
  directory = directory;
  clock = λ name version. 0;
  drivers = drivers;
  sha256 = λ s. s;
  experiments = entries (raw_canary ∷ []);
}

abbrev pub settings : Settings
settings = record default_settings { app_env = production }

abbrev classifier : LoadedModel test_host
classifier = version_model "v1"

abbrev pub app : Started surroundings ℕ
app =
    app_state surroundings settings none classifier (register classifier true (init test_host))
      (("tiny-imagenet-classifier", canary) ∷ [])

pub started : lifespan surroundings (ok settings) ≡ ok app
unfolding lifespan create_redis load_classifier read_classifier_metadata resolve_versioned_metadata
    open_and_register try_backends chain_for artifact_for resolve_versioned_artifact try_backend
    create_session load all_distinct lookup available_from list_models values load_entries
    read_variants make_variant has_member load_detector load_embedder chain_without_int8
    precision_artifact discover_versions has_flat is_version_dir numbers_in register insert
    usable_providers load_extras start_detection start_similarity load_index
started = refl

lifespan-IsReady_example :
    Reach app.models
    × ((m : LoadedModel test_host) × (get_classifier app.models none ≡ ok m)
        × (key m ≡ model_key "tiny-imagenet-classifier" default_version))
    × ((api_key : String)
        → (is_production settings && is_some (resolve (λ s. s) api_key app.api_key_store)) ≡ false)
lifespan-IsReady_example = lifespan-IsReady surroundings settings app started

lifespan-routes_example :
    (m : LoadedModel test_host) × (get app.models "tiny-imagenet-classifier" (some "v2") ≡ ok m)
    × (key m ≡ model_key "tiny-imagenet-classifier" "v2")
unfolding resolve_version lookup app_state
lifespan-routes_example =
    lifespan-routes surroundings settings app middle "tiny-imagenet-classifier" "ann" "v2"
      "challenger" started refl refl
