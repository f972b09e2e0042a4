-- ===== src/Loading/Tasks.antt =====
-- `load_classifier`, `load_embedder` and `load_detector` of
-- api/services/model_service.py.
use ml_engineer_challenge_so.Prelude.{
  ℕ, String, Bool, List, [], ◌∷◌, Option, Result, ok, ◌>>=◌, or_raise,
}
use ml_engineer_challenge_so.Config.{Settings, InferenceBackend}
use ml_engineer_challenge_so.Errors.{Raised, application, error, model_unavailable, texts}
use ml_engineer_challenge_so.Models.{
  Host, LoadedModel, ModelService, TaskType, classification, detection, embedding, register,
  resolve_versioned_metadata,
}
use ml_engineer_challenge_so.Loading.{
  Reader, Metadata, Opened, try_backends, or_unavailable, degraded, chain_for, chain_without_int8,
  read_classifier_metadata, artifact_for, precision_artifact, class_names_from,
}

-- The keyword arguments of a call, the artefact directory and the time.
pub record Request (H : Host) : Type 0 where
  pub artifacts : H.files.FilePath
  pub name : String
  pub version : String
  pub make_active : Bool
  pub now : H.Time

module _ {H : Host} (R : Reader H) where
  -- The construction of `LoadedModel` that the three functions share.
  unfoldable pub loaded_model :
      Settings → Request H → TaskType → Metadata H.Number → Opened R → LoadedModel H
  loaded_model settings q task metadata opened = record {
    name = q.name;
    version = q.version;
    task = task;
    backend = opened.backend;
    session = opened.session;
    input_name = opened.input_name;
    class_names = metadata.class_names;
    wnids = metadata.wnids;
    image_size = metadata.image_size;
    artifact_path = opened.artifact;
    loaded_at = q.now;
    metrics = metadata.metrics;
    degraded_from = degraded settings.inference_backend opened.backend;
  }

  -- The loop, the construction and `register`.
  unfoldable pub open_and_register :
      Settings
      → Request H
      → TaskType
      → Metadata H.Number
      → (InferenceBackend → Option H.files.FilePath)
      → ℕ
      → List InferenceBackend
      → ModelService H
      → Result Raised (LoadedModel H × ModelService H)
  unfolding loaded_model
  open_and_register settings q task metadata artifact output_ndim chain s = do
    opened ← or_unavailable (try_backends R artifact metadata.image_size output_ndim chain [])
    let model = loaded_model settings q task metadata opened
    ok (model, register model q.make_active s)

  unfoldable pub load_classifier :
      Settings → Request H → ModelService H → Result Raised (LoadedModel H × ModelService H)
  load_classifier settings q s = do
    metadata ← read_classifier_metadata R q.artifacts q.version
    open_and_register settings q classification metadata
        (λ c. artifact_for R q.artifacts c q.version) 2 (chain_for settings) s

  unfoldable pub load_embedder :
      Settings → Request H → ModelService H → Result Raised (LoadedModel H × ModelService H)
  load_embedder settings q s = do
    metadata ← read_classifier_metadata R q.artifacts q.version
    open_and_register settings q embedding (record metadata { metrics = [] })
        (λ c. precision_artifact R "embedder" q.artifacts c q.version) 2
        (chain_without_int8 settings) s

  missing_detector : Request H → Raised
  missing_detector q =
      let dir = H.files.slash (H.files.slash q.artifacts "onnx") q.version in
      application (
        error model_unavailable (
          (
            "expected",
            texts (
                R.path_text (H.files.slash dir "detector_fp32.onnx")
                ∷ R.path_text (H.files.slash dir "detection_labels.json")
                ∷ []),
          )
          ∷ []))

  pub read_detector_metadata : Request H → Result Raised (Metadata H.Number)
  unfolding missing_detector
  read_detector_metadata q = do
    path ←
        or_raise (resolve_versioned_metadata H.files q.artifacts "detection_labels.json" q.version)
          (missing_detector q)
    labels ← R.detection path
    ok (record {
      class_names = class_names_from R.int_text labels.id2label 0 labels.num_classes;
      wnids = [];
      image_size = labels.image_size;
      metrics = [];
    })

  unfoldable pub load_detector :
      Settings → Request H → ModelService H → Result Raised (LoadedModel H × ModelService H)
  unfolding read_detector_metadata
  load_detector settings q s = do
    metadata ← read_detector_metadata q
    open_and_register settings q detection metadata
        (λ c. precision_artifact R "detector" q.artifacts c q.version) 3
        (chain_without_int8 settings) s
