-- ===== src/Routes/Tests.antt =====
-- A run of api/routers/classification.py without Redis, where an experiment chooses the version.
use ml_engineer_challenge_so.Prelude.{ℕ, true, [], ◌∷◌, none}
use ml_engineer_challenge_so.Prelude.Micro.{micro}
use ml_engineer_challenge_so.Config.{default_settings, free}
use ml_engineer_challenge_so.RateLimit.{absent, empty_key}
use ml_engineer_challenge_so.RateLimit.Tests.{list_set}
use ml_engineer_challenge_so.Experiments.Tests.{middle, canary}
use ml_engineer_challenge_so.Models.Tests.{test_host, two_versions}
use ml_engineer_challenge_so.Cache.Tests.{table}
use ml_engineer_challenge_so.Inference.Tests.{test_vision, services}
use ml_engineer_challenge_so.Routes.{Call, App, Deployment, classifier_name}

abbrev deployment : Deployment test_host micro
deployment = record {
  settings = default_settings;
  redis = absent;
  models = two_versions;
  experiments = (classifier_name, canary) ∷ [];
  hash = middle;
}

abbrev call : Call ℕ
call = record {
  principal = record { user_id = "user"; tier = free };
  correlation_id = "request";
  chunks = (1 ∷ []) ∷ (2 ∷ 3 ∷ []) ∷ [];
  top_k = 1;
  model_version = none;
  backend = none;
  include_probabilities = true;
  use_cache = true;
  elapsed_ms = 5;
  now = 1_000;
  member = "member";
}

abbrev app : App test_vision table list_set
app = record { limiter = λ key. empty_key list_set; services = services; inferences = [] }
