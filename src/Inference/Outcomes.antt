-- ===== src/Inference/Outcomes.antt =====
-- What a call of `classify` of api/services/inference_service.py leaves in the audit queue.
use ml_engineer_challenge_so.Prelude.{
  String, true, false, List, [], ◌∷◌, Option, none, some, Result, ok, err, is_ok, ◌≡◌,
}
use ml_engineer_challenge_so.Config.{Settings, backend_value}
use ml_engineer_challenge_so.Errors.{ApiError, Raised, application, builtin}
use ml_engineer_challenge_so.Uploads.{Pillow, ImageMetadata, validate_image_upload}
use ml_engineer_challenge_so.Models.{Host, LoadedModel, ModelService, get_for_backend}
use ml_engineer_challenge_so.Cache.{RedisServer, Codec, get}
use ml_engineer_challenge_so.Audit.{record_fields}
use ml_engineer_challenge_so.Inference.{
  Vision, Prediction, Payload, AuditFields, ClassificationResponse, provenance_of, run_batch,
}
use ml_engineer_challenge_so.Inference.Classify.{Request, Services, Outcome, cache_key, error_code}

-- The model and the upload's facts that a call works with.
abbrev pub resolved :
    {H : Host} {F : Type 0} → ModelService H → Request F → Result Raised (LoadedModel H)
resolved models q = get_for_backend models "tiny-imagenet-classifier" q.model_version q.backend

abbrev pub uploaded : {F : Type 0} → Pillow → Settings → Request F → Result ApiError ImageMetadata
uploaded pillow settings q =
    validate_image_upload pillow q.image_bytes settings.max_upload_bytes settings.max_image_pixels

-- The first prediction, as the record shows it.
abbrev pub IsTop : {F : Type 0} → List (Prediction F) → AuditFields F → Type 0
IsTop [] f = (f.top_label ≡ none) × (f.top_class_id ≡ none) × (f.top_probability ≡ none)
IsTop (p ∷ ps) f =
    (f.top_label ≡ some p.label)
    × (f.top_class_id ≡ some p.class_id)
    × (f.top_probability ≡ p.probability)

-- An application error is recorded by its code, and any other by the name of its class.
abbrev pub IsCoded : Raised → Option String → Type 0
IsCoded (application e) code = code ≡ some e.code
IsCoded (builtin name) code = code ≡ some name

-- A record that is true of the request, of the model that was asked, and of the upload.
pub record IsTrue {H : Host} (N : Vision H) (q : Request N.F) (m : LoadedModel H)
    (metadata : ImageMetadata) (f : AuditFields N.F) : Type 0 where
  pub call : f.correlation_id ≡ q.correlation_id
  pub caller : (f.user_id ≡ q.user_id) × (f.user_tier ≡ q.user_tier) × (f.variant ≡ q.variant)
  pub model : (f.model_name ≡ m.name) × (f.model_version ≡ m.version)
  pub backend : f.backend ≡ backend_value m.backend
  pub task : f.task ≡ m.task
  pub upload : (f.image_sha256 ≡ some (N.sha256 q.image_bytes)) × (f.image ≡ metadata)
  pub size : f.batch_size ≡ 1
  pub latency : f.latency_ms ≡ q.elapsed_ms

module _ {H : Host} (N : Vision H) {R : RedisServer} (J : Codec (Payload N.F)) (settings : Settings)
    (models : ModelService H) (q : Request N.F) where
  -- An answer and a failed run queue one record each, which says what happened; a cached entry of
  -- another shape, and another exception, queue none.
  pub data IsAudited (s : Services N R) : Outcome N R → Type 0 where
    answered :
        {r : ClassificationResponse N.F} {t : Services N R} (m : LoadedModel H)
        (metadata : ImageMetadata)
        → resolved models q ≡ ok m
        → uploaded N.pillow settings q ≡ ok metadata
        → r.provenance ≡ provenance_of m
        → (f : AuditFields N.F) → IsTrue N q m metadata f
        → (f.status ≡ "success") × (f.error_code ≡ none) × (f.cached ≡ r.cached)
        → IsTop r.predictions f
        → t.audit ≡ record_fields f s.audit
        → IsAudited s (ok r, t)
    failed :
        {e : Raised} {t : Services N R} (m : LoadedModel H) (metadata : ImageMetadata)
        → resolved models q ≡ ok m
        → uploaded N.pillow settings q ≡ ok metadata
        → run_batch N m (q.image_bytes ∷ []) ≡ err e
        → (f : AuditFields N.F) → IsTrue N q m metadata f
        → (f.status ≡ "failure") × IsCoded e f.error_code × (f.cached ≡ false)
        → IsTop [] f
        → t.audit ≡ record_fields f s.audit
        → IsAudited s (err e, t)
    malformed :
        {e : Raised} {t : Services N R} (m : LoadedModel H)
        → resolved models q ≡ ok m
        → q.use_cache ≡ true
        → (get J (cache_key N q m) s.cache).0 ≡ some (err e)
        → t.audit ≡ s.audit
        → IsAudited s (err e, t)
    raised :
        {e : Raised} {t : Services N R}
        → ((m : LoadedModel H)
            → resolved models q ≡ ok m
            → (metadata : ImageMetadata) → uploaded N.pillow settings q ≡ ok metadata
            → is_ok (run_batch N m (q.image_bytes ∷ [])) ≡ true)
        → t.audit ≡ s.audit
        → IsAudited s (err e, t)
