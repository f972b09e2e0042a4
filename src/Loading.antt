-- ===== src/Loading.antt =====
-- api/services/model_service.py: the backend chains, the metadata of a version, and the loading of
-- the three models. `now` is `datetime.now(UTC)`.
pub mod Chains
pub mod Attempts
pub mod Tasks
pub mod Loaded
pub mod Tests
use Prim.Native.String.{◌++◌ as concat}
use ml_engineer_challenge_so.Prelude.{
  String, Bool, true, false, not, ◌||◌, ◌==◌, str_eq, if◌then◌else◌, List, [], ◌∷◌, ◌++◌, map, keep,
  ℕ, zero, suc, Option, none, some, is_some, or_else, Result, ok, err, ◌>>=◌, or_raise,
}
use ml_engineer_challenge_so.Prelude.Dict.{Dict}
use ml_engineer_challenge_so.Config.{
  Settings, InferenceBackend, torch, onnx, onnx_int8, tensorrt, same_backend, backend_value,
}
use ml_engineer_challenge_so.Errors.{
  Raised, application, builtin, error, model_unavailable, text, texts,
}
use ml_engineer_challenge_so.Runtime.{cpu_provider, create_session}
use ml_engineer_challenge_so.Models.{
  Host, Files, LoadedModel, ModelService, TaskType, classification, detection, embedding, register,
  resolve_versioned_artifact, resolve_versioned_metadata, default_version,
}

-- `_FALLBACK_CHAINS`
unfoldable pub fallback_chain : InferenceBackend → List InferenceBackend
fallback_chain tensorrt = tensorrt ∷ onnx ∷ onnx_int8 ∷ []
fallback_chain onnx = onnx ∷ onnx_int8 ∷ []
fallback_chain onnx_int8 = onnx_int8 ∷ onnx ∷ []
fallback_chain torch = torch ∷ onnx ∷ []

-- `_PROVIDER_FOR_BACKEND`, with the default of its `get`
abbrev pub provider_for_backend : InferenceBackend → List String
provider_for_backend tensorrt = "TensorrtExecutionProvider" ∷ cpu_provider ∷ []
provider_for_backend onnx = "CUDAExecutionProvider" ∷ cpu_provider ∷ []
provider_for_backend onnx_int8 = cpu_provider ∷ []
provider_for_backend torch = cpu_provider ∷ []

-- `_SATISFYING_PROVIDERS`, with the default of its `get`
abbrev pub satisfying_providers : InferenceBackend → List String
satisfying_providers tensorrt = "TensorrtExecutionProvider" ∷ []
satisfying_providers onnx = "CUDAExecutionProvider" ∷ cpu_provider ∷ []
satisfying_providers onnx_int8 = cpu_provider ∷ []
satisfying_providers torch = cpu_provider ∷ []

unfoldable pub chain_for : Settings → List InferenceBackend
unfolding fallback_chain
chain_for s =
    if s.enable_graceful_degradation
    then fallback_chain s.inference_backend
    else s.inference_backend ∷ []

-- The chain of the embedder and of the detector.
unfoldable pub chain_without_int8 : Settings → List InferenceBackend
unfolding chain_for
chain_without_int8 s =
    if same_backend s.inference_backend onnx_int8
    then chain_for s
    else keep (λ c. not (same_backend c onnx_int8)) (chain_for s)

-- The JSON files of a version: a missing key is `none`.
pub record Labels : Type 0 where
  pub class_names : Option (List String)
  pub wnids : Option (List String)
  pub image_size : Option ℕ

pub record Metadata (N : Type 0) : Type 0 where
  pub class_names : List String
  pub wnids : List String
  pub image_size : ℕ
  pub metrics : Dict N

-- A `detection_labels.json` that has all three keys, `id2label` with its keys read by `int`; the
-- reader raises on any other.
pub record DetectionLabels : Type 0 where
  pub id2label : List (ℕ × String)
  pub num_classes : ℕ
  pub image_size : ℕ

-- The files' contents, read as JSON; a metric is `none` where it is no number, and the keys of
-- `id2label` are read by `int`. `zeros n` and `ndim` are numpy's, `cpus` is `available_cpus()`,
-- `int_text` and `path_text` are `str`, and `describe` is the text
-- f"{type(exc).__name__}: {exc}".
pub record Reader (H : Host) : Type 0 where
  pub labels : H.files.FilePath → Result Raised Labels
  pub metrics : H.files.FilePath → Result Raised (Dict (Option H.Number))
  pub detection : H.files.FilePath → Result Raised DetectionLabels
  pub zeros : ℕ → H.Tensor
  pub ndim : H.Tensor → ℕ
  pub cpus : ℕ
  pub int_text : ℕ → String
  pub path_text : H.files.FilePath → String
  pub describe : Raised → String

-- The comprehension that keeps the numbers of `metrics.json`.
numbers : {N : Type 0} → Dict (Option N) → Dict N
numbers [] = []
numbers ((k, none) ∷ d) = numbers d
numbers ((k, some v) ∷ d) = (k, v) ∷ numbers d

-- `id2label.get(i)`, where a later entry for the same number wins.
abbrev pub label_of : ℕ → List (ℕ × String) → Option String
label_of i [] = none
label_of i ((j, label) ∷ d) = elim (label_of i d) [
  | none ↦ if i == j then some label else none
  | some later ↦ some later
]

-- [id2label.get(i, str(i)) for i in range(first, first + count)]
abbrev pub class_names_from : (ℕ → String) → List (ℕ × String) → ℕ → ℕ → List String
class_names_from int_text id2label first zero = []
class_names_from int_text id2label first (suc count) =
    or_else (label_of first id2label) (int_text first)
    ∷ class_names_from int_text id2label (suc first) count

-- A candidate that could not be used, as `details["attempts"]` lists it.
abbrev pub attempt_text : InferenceBackend → String → String
attempt_text c reason = concat (backend_value c) (concat ": " reason)

abbrev pub or_unavailable : {A : Type 0} → Result (List String) A → Result Raised A
or_unavailable (ok a) = ok a
or_unavailable (err failures) =
    err (application (error model_unavailable (("attempts", texts failures) ∷ [])))

-- `preferred if candidate is not preferred else None`
abbrev pub degraded : InferenceBackend → InferenceBackend → Option InferenceBackend
degraded preferred candidate = if same_backend candidate preferred then none else some preferred

module _ {H : Host} (R : Reader H) where
  open H use {Tensor, Time, ort, files}
  open files use {FilePath, slash, exists}

  read_metrics : Option FilePath → Result Raised (Dict H.Number)
  unfolding numbers
  read_metrics none = ok []
  read_metrics (some path) = do raw ← R.metrics path; ok (numbers raw)

  expected_labels : FilePath → String → Raised
  expected_labels artifacts version =
      let expected =
        if str_eq version default_version
        then slash artifacts "labels.json"
        else slash (slash (slash artifacts "onnx") version) "labels.json" in
      application (
        error model_unavailable
          (("expected_path", text (R.path_text expected)) ∷ ("version", text version) ∷ []))

  unfoldable pub read_classifier_metadata : FilePath → String → Result Raised (Metadata H.Number)
  unfolding expected_labels read_metrics
  read_classifier_metadata artifacts version = do
    path ←
        or_raise (resolve_versioned_metadata files artifacts "labels.json" version)
          (expected_labels artifacts version)
    labels ← R.labels path
    class_names ← or_raise labels.class_names (builtin "KeyError")
    metrics ← read_metrics (resolve_versioned_metadata files artifacts "metrics.json" version)
    ok (record {
      class_names = class_names;
      wnids = or_else labels.wnids [];
      image_size = or_else labels.image_size 224;
      metrics = metrics;
    })

  unfoldable pub artifact_for : FilePath → InferenceBackend → String → Option FilePath
  artifact_for artifacts tensorrt version =
      some
        (resolve_versioned_artifact files (slash artifacts "onnx") "classifier_fp32.onnx" version)
  artifact_for artifacts onnx version =
      some
        (resolve_versioned_artifact files (slash artifacts "onnx") "classifier_fp32.onnx" version)
  artifact_for artifacts onnx_int8 version =
      some
        (resolve_versioned_artifact files (slash artifacts "onnx") "classifier_int8.onnx" version)
  artifact_for artifacts torch version = none

  -- The artefact of `load_embedder` and `load_detector`: `prefix` is "embedder" or "detector".
  unfoldable pub precision_artifact :
      String → FilePath → InferenceBackend → String → Option FilePath
  precision_artifact prefix artifacts candidate version = some (
      resolve_versioned_artifact files (slash artifacts "onnx")
        (concat prefix (if same_backend candidate onnx_int8 then "_int8.onnx" else "_fp32.onnx"))
        version)

  accepts_output : ℕ → List Tensor → Bool
  accepts_output output_ndim [] = false
  accepts_output output_ndim (t ∷ ts) = R.ndim t == output_ndim

  unfoldable pub warmup : ort.Session → String → ℕ → ℕ → Result Raised (Unit {0})
  unfolding accepts_output
  warmup session input_name image_size output_ndim = do
    outputs ← H.run_session session input_name (R.zeros image_size)
    if accepts_output output_ndim outputs then ok tt else err (builtin "RuntimeError")

  -- The `try` of one candidate.
  unfoldable pub try_backend :
      FilePath → InferenceBackend → ℕ → ℕ → Result Raised (ort.Session × String)
  unfolding warmup
  try_backend artifact candidate image_size output_ndim = do
    pair ←
        create_session ort artifact (provider_for_backend candidate)
          (satisfying_providers candidate) R.cpus
    warm ← warmup (pair.0) (pair.1) image_size output_ndim
    ok pair

  -- A backend that works.
  pub record Opened : Type 0 where
    pub backend : InferenceBackend
    pub artifact : FilePath
    pub session : ort.Session
    pub input_name : String

  -- The artefact, where there is one and its file exists.
  abbrev pub present : Option FilePath → Option FilePath
  present none = none
  present (some path) = if exists path then some path else none

  -- What became of the session of a candidate: an open backend, or the reason why not.
  attempt_session :
      InferenceBackend → FilePath → Result Raised (ort.Session × String) → Result String Opened
  attempt_session c path (ok (session, input_name)) =
      ok (record { backend = c; artifact = path; session = session; input_name = input_name })
  attempt_session c path (err e) = err (R.describe e)

  -- One turn of the loop.
  attempt : InferenceBackend → Option FilePath → ℕ → ℕ → Result String Opened
  unfolding attempt_session
  attempt c none image_size output_ndim = err "artefact not found"
  attempt c (some path) image_size output_ndim =
      attempt_session c path (try_backend path c image_size output_ndim)

  -- `continue` after a failure, which the list keeps; the loop ends at the first success.
  or_continue :
      InferenceBackend
      → Result String Opened
      → (List String → Result (List String) Opened)
      → List String
      → Result (List String) Opened
  or_continue c (ok opened) rest failures = ok opened
  or_continue c (err reason) rest failures = rest (failures ++ (attempt_text c reason ∷ []))

  -- The loop over the candidates; `failures` are those met so far.
  unfoldable pub try_backends :
      (InferenceBackend → Option FilePath)
      → ℕ
      → ℕ
      → List InferenceBackend
      → List String
      → Result (List String) Opened
  unfolding attempt or_continue
  try_backends artifact image_size output_ndim [] failures = err failures
  try_backends artifact image_size output_ndim (c ∷ chain) failures =
      or_continue c (attempt c (present (artifact c)) image_size output_ndim)
        (λ fs. try_backends artifact image_size output_ndim chain fs) failures
