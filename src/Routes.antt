-- ===== src/Routes.antt =====
-- The route of api/routers/classification.py, which composes the rate limiter, the experiments, the
-- upload and the inference service, and `record_inference` of api/middleware/monitoring.py. FastAPI
-- has resolved the dependencies and checked the bounds of the query's values.
pub mod Handled
pub mod Tests
use ml_engineer_challenge_so.Prelude.{
  ℕ, String, Bool, true, false, if◌then◌else◌, List, [], ◌∷◌, ◌++◌, Option, none, some, Result, ok,
  err,
}
use ml_engineer_challenge_so.Prelude.Dict.{Dict}
use ml_engineer_challenge_so.Prelude.Float.{Float}
use ml_engineer_challenge_so.Config.{Settings, InferenceBackend, backend_value}
use ml_engineer_challenge_so.Errors.{ApiError, Raised, application}
use ml_engineer_challenge_so.Uploads.{Bytes, read_upload}
use ml_engineer_challenge_so.RateLimit.{
  Redis, RateLimitDecision, Store, enforce, headers, tier_value,
}
use ml_engineer_challenge_so.RateLimit.Commands.{SortedSet}
use ml_engineer_challenge_so.Experiments.{Registry, resolve_version}
use ml_engineer_challenge_so.Models.{Host, LoadedModel, ModelService, get_classifier}
use ml_engineer_challenge_so.Cache.{RedisServer, Codec}
use ml_engineer_challenge_so.Auth.{Principal}
use ml_engineer_challenge_so.Inference.{
  Vision, Prediction, Payload, ModelProvenance, ClassificationResponse, provenance_of,
}
use ml_engineer_challenge_so.Inference.Classify.{Request, Services, Outcome, classify}

abbrev pub classifier_name : String
classifier_name = "tiny-imagenet-classifier"

-- The labels of one `record_inference`; the duration is left out.
pub record InferenceRecord : Type 0 where
  pub model : String
  pub version : String
  pub backend : String
  pub success : Bool

unfoldable pub inference_record : ModelProvenance → Bool → InferenceRecord
inference_record p success = record {
  model = p.model_name;
  version = p.model_version;
  backend = p.backend;
  success = success;
}

-- What a request brings: its query, the chunks of its file, the caller, and the clock's values.
pub record Call (F : Type 0) : Type 0 where
  pub principal : Principal
  pub correlation_id : String
  pub chunks : List Bytes
  pub top_k : ℕ
  pub model_version : Option String
  pub backend : Option InferenceBackend
  pub include_probabilities : Bool
  pub use_cache : Bool
  pub elapsed_ms : F
  pub now : ℕ
  pub member : String

-- The version and the variant: a pinned version wins over an experiment.
unfoldable pub chosen : Option String → Option (String × String) → Option String × Option String
chosen (some version) assigned = (some version, none)
chosen none none = (none, none)
chosen none (some (version, variant)) = (some version, some variant)

-- The services that do not change, and their settings.
pub record Deployment (H : Host) (W : Float) : Type 0 where
  pub settings : Settings
  pub redis : Redis
  pub models : ModelService H
  pub experiments : Registry W
  pub hash : String → ℕ

-- What the requests change.
pub record App {H : Host} (N : Vision H) (R : RedisServer) (Z : SortedSet) : Type 0 where
  pub limiter : Store Z
  pub services : Services N R
  pub inferences : List InferenceRecord

-- What the caller gets: the headers with the response, or an exception.
abbrev pub Answer : Type 0 → Type 0
Answer F = Result Raised (Dict ℕ × ClassificationResponse F)

module _ {H : Host} {W : Float} (D : Deployment H W) {F : Type 0} where
  abbrev pub choice : Call F → Option String × Option String
  choice c =
      chosen c.model_version
        (resolve_version W D.hash D.experiments classifier_name c.principal.user_id)

  -- The arguments of `inference.classify`.
  unfoldable pub request_of : Call F → Bytes → Request F
  request_of c image_bytes = record {
    image_bytes = image_bytes;
    correlation_id = c.correlation_id;
    top_k = c.top_k;
    model_version = (choice c).0;
    backend = if D.settings.allow_backend_override then c.backend else none;
    include_probabilities = c.include_probabilities;
    use_cache = c.use_cache;
    user_id = some c.principal.user_id;
    user_tier = some (tier_value c.principal.tier);
    variant = (choice c).1;
    elapsed_ms = c.elapsed_ms;
  }

abbrev pub recorded :
    {H : Host} {N : Vision H} {R : RedisServer} {Z : SortedSet}
    → ModelProvenance
    → Bool
    → App N R Z
    → App N R Z
recorded p success app = record app {
  inferences = app.inferences ++ (inference_record p success ∷ []);
}

module _ {H : Host} {W : Float} (N : Vision H) {R : RedisServer} (J : Codec (Payload N.F))
    {Z : SortedSet} (D : Deployment H W) where
  open N use {F}

  -- The `except` clause, on what `get_classifier` gives: its own exception takes the place of the one
  -- that is handled.
  unfoldable pub after_failure :
      Raised → Result Raised (LoadedModel H) → App N R Z → Answer F × App N R Z
  after_failure e (err e') app = (err e', app)
  after_failure e (ok m) app = (err e, recorded (provenance_of m) false app)

  -- What follows the call of `classify`.
  unfoldable pub after_classify :
      RateLimitDecision → Call F → App N R Z → Outcome N R → Answer F × App N R Z
  unfolding after_failure
  after_classify decision c app (err e, s) =
      after_failure e (get_classifier D.models (choice D c).0) (record app { services = s })
  after_classify decision c app (ok r, s) =
      (ok (headers decision, r), recorded r.provenance true (record app { services = s }))

  -- What follows the reading of the upload.
  unfoldable pub after_read :
      RateLimitDecision → Call F → App N R Z → Result ApiError Bytes → Answer F × App N R Z
  unfolding after_classify
  after_read decision c app (err e) = (err (application e), app)
  after_read decision c app (ok image_bytes) =
      after_classify decision c app
        (classify N J D.settings D.models (request_of D c image_bytes) app.services)

  -- What follows the limiter.
  unfoldable pub after_limiter :
      Call F → App N R Z → Result ApiError RateLimitDecision → Answer F × App N R Z
  unfolding after_read
  after_limiter c app (err e) = (err (application e), app)
  after_limiter c app (ok decision) =
      after_read decision c app (read_upload c.chunks D.settings.max_upload_bytes)

  unfoldable pub classify_image : Call F → App N R Z → Answer F × App N R Z
  unfolding after_limiter
  classify_image c app =
      let (decision, limiter) =
        enforce Z D.redis D.settings c.now c.member c.principal.user_id c.principal.tier
          app.limiter in
      after_limiter c (record app { limiter = limiter }) decision
