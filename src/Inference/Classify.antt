-- ===== src/Inference/Classify.antt =====
-- `classify` and `_audit` of api/services/inference_service.py.
use ml_engineer_challenge_so.Prelude.{
  ℕ, String, Bool, true, false, if◌then◌else◌, List, [], ◌∷◌, Option, none, some, Result, ok, err,
}
use ml_engineer_challenge_so.Config.{Settings, InferenceBackend, backend_value}
use ml_engineer_challenge_so.Errors.{ApiError, Raised, application, builtin}
use ml_engineer_challenge_so.Uploads.{Bytes, ImageMetadata, validate_image_upload}
use ml_engineer_challenge_so.Models.{Host, LoadedModel, ModelService, get_for_backend}
use ml_engineer_challenge_so.Cache.{RedisServer, Codec, CacheService, build_key, get, set}
use ml_engineer_challenge_so.Audit.{AuditService, record_fields}
use ml_engineer_challenge_so.Inference.{
  Vision, Prediction, Payload, ClassificationResponse, AuditFields, provenance_of,
  decode_classification, run_batch,
}

-- The arguments of a call, and the time that it measures where it answers.
pub record Request (F : Type 0) : Type 0 where
  pub image_bytes : Bytes
  pub correlation_id : String
  pub top_k : ℕ
  pub model_version : Option String
  pub backend : Option InferenceBackend
  pub include_probabilities : Bool
  pub use_cache : Bool
  pub user_id : Option String
  pub user_tier : Option String
  pub variant : Option String
  pub elapsed_ms : F

-- `getattr(exc, "code", type(exc).__name__)`
abbrev pub error_code : Raised → String
error_code (application e) = e.code
error_code (builtin name) = name

module _ {H : Host} (N : Vision H) where
  open N use {F, Row}

  -- The services that a call changes.
  pub record Services (R : RedisServer) : Type 0 where
    pub cache : CacheService R
    pub audit : AuditService (AuditFields F)

  abbrev first_prediction : List (Prediction F) → Option (Prediction F)
  first_prediction [] = none
  first_prediction (p ∷ ps) = some p

  unfoldable pub audit_fields :
      Request F
      → LoadedModel H
      → List (Prediction F)
      → ImageMetadata
      → Bool
      → String
      → Option String
      → AuditFields F
  audit_fields q m predictions metadata cached status code =
      let top = first_prediction predictions in
      record {
        correlation_id = q.correlation_id;
        user_id = q.user_id;
        user_tier = q.user_tier;
        model_name = m.name;
        model_version = m.version;
        backend = backend_value m.backend;
        task = m.task;
        status = status;
        error_code = code;
        latency_ms = q.elapsed_ms;
        cached = cached;
        batch_size = 1;
        image_sha256 = some (N.sha256 q.image_bytes);
        variant = q.variant;
        image = metadata;
        top_label = elim top [ none ↦ none | some p ↦ some p.label ];
        top_class_id = elim top [ none ↦ none | some p ↦ some p.class_id ];
        top_probability = elim top [ none ↦ none | some p ↦ p.probability ];
      }

  unfoldable pub response :
      Request F → LoadedModel H → List (Prediction F) → Bool → ClassificationResponse F
  response q m predictions cached = record {
    predictions = predictions;
    inference_time_ms = q.elapsed_ms;
    correlation_id = q.correlation_id;
    provenance = provenance_of m;
    cached = cached;
  }

  unfoldable pub cache_key : Request F → LoadedModel H → String
  cache_key q m =
      build_key m.name m.version (backend_value m.backend) (N.sha256 q.image_bytes)
        (N.option_digest q.top_k q.include_probabilities)

  -- What a call gives, and the services after it.
  abbrev pub Outcome : RedisServer → Type 0
  Outcome R = Result Raised (ClassificationResponse F) × Services R

  module _ {R : RedisServer} (J : Codec (Payload N.F)) where
    abbrev audited : AuditFields F → Services R → Services R
    audited fields s = record s { audit = record_fields fields s.audit }

    -- `if use_cache: await self.cache.set(...)`; what `set` returns is not used.
    unfoldable pub stored :
        Request F → LoadedModel H → List (Prediction F) → Services R → Services R
    stored q m predictions s =
        if q.use_cache
        then record s { cache = (set J (cache_key q m) (ok predictions) none s.cache).1 }
        else s

    -- The end of the call: an exception of the decoder leaves it as it is.
    unfoldable pub finished :
        Request F
        → ImageMetadata
        → LoadedModel H
        → Services R
        → Result Raised (List (Prediction F))
        → Outcome R
    unfolding stored
    finished q metadata m s (err e) = (err e, s)
    finished q metadata m s (ok predictions) = (
      ok (response q m predictions false),
      audited (audit_fields q m predictions metadata false "success" none)
          (stored q m predictions s),
    )

    -- What follows `_run_batch`: a failure is audited and raised again.
    unfoldable pub after_run :
        Request F
        → ImageMetadata
        → LoadedModel H
        → Services R
        → Result Raised (List Row)
        → Outcome R
    unfolding finished
    after_run q metadata m s (err e) =
        (err e, audited (audit_fields q m [] metadata false "failure" (some (error_code e))) s)
    after_run q metadata m s (ok []) = (err (builtin "IndexError"), s)
    after_run q metadata m s (ok (logits ∷ rest)) =
        finished q metadata m s (decode_classification N logits m q.top_k q.include_probabilities)

    -- What follows the lookup: the exception of a malformed entry leaves the call.
    unfoldable pub after_lookup :
        Request F → ImageMetadata → LoadedModel H → Services R → Option (Payload F) → Outcome R
    unfolding after_run
    after_lookup q metadata m s (some (err e)) = (err e, s)
    after_lookup q metadata m s (some (ok predictions)) = (
      ok (response q m predictions true),
      audited (audit_fields q m predictions metadata true "success" none) s,
    )
    after_lookup q metadata m s none = after_run q metadata m s (run_batch N m (q.image_bytes ∷ []))

    -- What follows the resolution of the model.
    unfoldable pub with_model : Request F → ImageMetadata → LoadedModel H → Services R → Outcome R
    unfolding after_lookup
    with_model q metadata m s =
        if q.use_cache
        then (let found = get J (cache_key q m) s.cache in
            after_lookup q metadata m (record s { cache = found.1 }) found.0)
        else after_lookup q metadata m s none

    unfoldable pub on_model :
        Request F → ImageMetadata → Services R → Result Raised (LoadedModel H) → Outcome R
    unfolding with_model
    on_model q metadata s (err e) = (err e, s)
    on_model q metadata s (ok m) = with_model q metadata m s

    unfoldable pub on_upload :
        ModelService H → Request F → Services R → Result ApiError ImageMetadata → Outcome R
    unfolding on_model
    on_upload models q s (err e) = (err (application e), s)
    on_upload models q s (ok metadata) =
        on_model q metadata s
          (get_for_backend models "tiny-imagenet-classifier" q.model_version q.backend)

    unfoldable pub classify : Settings → ModelService H → Request F → Services R → Outcome R
    unfolding on_upload
    classify settings models q s = on_upload models q s (
        validate_image_upload N.pillow q.image_bytes settings.max_upload_bytes
          settings.max_image_pixels)
