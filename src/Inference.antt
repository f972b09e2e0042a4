-- ===== src/Inference.antt =====
-- api/services/inference_service.py: the path of a prediction. A request runs without another one
-- between its awaits here; what others do to the cache and the queue is in the state it starts from.
pub mod Classify
pub mod Outcomes
pub mod Many
pub mod Tests
use ml_engineer_challenge_so.Prelude.{
  ℕ, String, Bool, true, false, not, ◌&&◌, ltb, if◌then◌else◌, List, [], ◌∷◌, map, length,
  get_elem?, Option, none, some, Result, ok, err, ◌>>=◌, ◌>>◌, raise_if, or_raise,
}
use ml_engineer_challenge_so.Config.{Settings, InferenceBackend, backend_value}
use ml_engineer_challenge_so.Errors.{
  ApiError, Raised, application, builtin, error, number, batch_too_large,
}
use ml_engineer_challenge_so.Uploads.{Bytes, Pillow, ImageMetadata, validate_image_upload}
use ml_engineer_challenge_so.Models.{Host, LoadedModel, ModelService, TaskType, run, get_classifier}
use ml_engineer_challenge_so.Cache.{RedisServer, Codec, CacheService}
use ml_engineer_challenge_so.Audit.{AuditService}

-- `F` is float, here and below.
pub record Prediction (F : Type 0) : Type 0 where
  pub label : String
  pub class_id : ℕ
  pub wnid : Option String
  pub probability : Option F

pub record ModelProvenance : Type 0 where
  pub model_name : String
  pub model_version : String
  pub backend : String

pub record ClassificationResponse (F : Type 0) : Type 0 where
  pub predictions : List (Prediction F)
  pub inference_time_ms : F
  pub correlation_id : String
  pub provenance : ModelProvenance
  pub cached : Bool

-- What a cached entry gives as `[Prediction(**p) for p in cached["predictions"]]`: the predictions,
-- or the exception of an entry that has another shape.
abbrev pub Payload : Type 0 → Type 0
Payload F = Result Raised (List (Prediction F))

-- The fields that `_audit` gives to `record`.
pub record AuditFields (F : Type 0) : Type 0 where
  pub correlation_id : String
  pub user_id : Option String
  pub user_tier : Option String
  pub model_name : String
  pub model_version : String
  pub backend : String
  pub task : TaskType
  pub status : String
  pub error_code : Option String
  pub latency_ms : F
  pub cached : Bool
  pub batch_size : ℕ
  pub image_sha256 : Option String
  pub variant : Option String
  pub image : ImageMetadata
  pub top_label : Option String
  pub top_class_id : Option ℕ
  pub top_probability : Option F

-- What the service calls: Pillow, SHA-256 of the upload and the digest of the options, the
-- preprocessing of one image and `np.stack` on a list that is not empty, the rows of a tensor, the
-- ranking of `top_k` over `softmax` as scores with their class ids, `round(float(x), 6)`, and
-- pydantic's test of the bounds of a probability, from 0 to 1.
pub record Vision (H : Host) : Type 1 where
  pub F : Type 0
  pub Array : Type 0
  pub Row : Type 0
  pub pillow : Pillow
  pub sha256 : Bytes → String
  pub option_digest : ℕ → Bool → String
  pub preprocess_image : Bytes → ℕ → Result Raised Array
  pub stack : List Array → Result Raised H.Tensor
  pub rows : H.Tensor → List Row
  pub ranked : Row → ℕ → List (F × ℕ)
  pub round6 : F → F
  pub is_probability : F → Bool

unfoldable pub provenance_of : {H : Host} → LoadedModel H → ModelProvenance
provenance_of m = record {
  model_name = m.name;
  model_version = m.version;
  backend = backend_value m.backend;
}

module _ {H : Host} (N : Vision H) where
  open N use {F, Array, Row}

  abbrev prediction : LoadedModel H → Bool → F → ℕ → String → Prediction F
  prediction m include_probabilities score class_id label = record {
    label = label;
    class_id = class_id;
    wnid = get_elem? m.wnids class_id;
    probability = if include_probabilities then some (N.round6 score) else none;
  }

  decode_ranked : LoadedModel H → Bool → List (F × ℕ) → Result Raised (List (Prediction F))
  decode_ranked m include_probabilities [] = ok []
  decode_ranked m include_probabilities ((score, class_id) ∷ rest) = do
    label ← or_raise (get_elem? m.class_names class_id) (builtin "IndexError")
    raise_if (include_probabilities && not (N.is_probability (N.round6 score)))
        (builtin "ValidationError")
    predictions ← decode_ranked m include_probabilities rest
    ok (prediction m include_probabilities score class_id label ∷ predictions)

  unfoldable pub decode_classification :
      Row → LoadedModel H → ℕ → Bool → Result Raised (List (Prediction F))
  unfolding decode_ranked
  decode_classification logits m top_k include_probabilities =
      decode_ranked m include_probabilities (N.ranked logits top_k)

  -- The comprehension over the images.
  preprocess_all : List Bytes → ℕ → Result Raised (List Array)
  preprocess_all [] size = ok []
  preprocess_all (image ∷ images) size = do
    array ← N.preprocess_image image size
    arrays ← preprocess_all images size
    ok (array ∷ arrays)

  unfoldable pub stack_batch : List Array → Result Raised H.Tensor
  stack_batch [] = err (builtin "ValueError")
  stack_batch (a ∷ others) = N.stack (a ∷ others)

  unfoldable pub run_batch : LoadedModel H → List Bytes → Result Raised (List Row)
  unfolding preprocess_all stack_batch
  run_batch m images = do
    arrays ← preprocess_all images m.image_size
    batch ← stack_batch arrays
    outputs ← run m batch
    ok (N.rows outputs)

-- An application error on its way to the caller.
abbrev pub lifted : {A : Type 0} → Result ApiError A → Result Raised A
lifted (ok a) = ok a
lifted (err e) = err (application e)
