-- ===== src/Models.antt =====
-- api/services/model_service.py: the files of a version, and the registry of the loaded models.
-- One thread at a time changes the registry (its lock), so an operation is a function.
pub mod Versions
pub mod Discovery
pub mod Registry
pub mod Tests
use Prim.Native.String.{◌++◌ as concat}
use ml_engineer_challenge_so.Prelude.{
  String, Bool, true, false, not, ◌||◌, str_eq, if◌then◌else◌, List, [], ◌∷◌, map, keep, ℕ, Option,
  none, some, is_some, sorted, Result, ok, err, ◌>>=◌, or_raise,
}
use ml_engineer_challenge_so.Prelude.Dict.{Dict, lookup, insert, keys, values}
use ml_engineer_challenge_so.Config.{InferenceBackend, same_backend, backend_value}
use ml_engineer_challenge_so.Errors.{
  ApiError, Raised, application, error, builtin, model_unavailable, model_not_found, text, texts,
}
use ml_engineer_challenge_so.Runtime.{Ort}

abbrev pub default_version : String
default_version = "v1"

pub data TaskType : Type 0 where
  classification detection embedding : TaskType

-- The paths of the file system: `/` of pathlib, and whether a file exists.
pub record Files : Type 1 where
  pub FilePath : Type 0
  pub slash : FilePath → String → FilePath
  pub exists : FilePath → Bool

module _ (D : Files) where
  open D use {FilePath}

  unfoldable pub resolve_versioned_artifact : FilePath → String → String → FilePath
  resolve_versioned_artifact onnx_dir filename version =
      let versioned = D.slash (D.slash onnx_dir version) filename in
      if D.exists versioned || not (str_eq version default_version)
      then versioned
      else D.slash onnx_dir filename

  unfoldable pub resolve_versioned_metadata : FilePath → String → String → Option FilePath
  resolve_versioned_metadata artifacts_dir filename version =
      let versioned = D.slash (D.slash (D.slash artifacts_dir "onnx") version) filename in
      let flat = D.slash artifacts_dir filename in
      if D.exists versioned
      then some versioned
      else if str_eq version default_version
      then (if D.exists flat then some flat else none)
      else none

-- What the registry is built on: the files, ONNX Runtime with the tensors it runs on, the clock
-- and the numbers of the metrics.
pub record Host : Type 1 where
  pub files : Files
  pub ort : Ort (files.FilePath)
  pub Tensor : Type 0
  pub Time : Type 0
  pub Number : Type 0
  -- `session.run(None, {input_name: batch})`
  pub run_session : ort.Session → String → Tensor → Result Raised (List Tensor)

module _ (H : Host) where
  pub record LoadedModel : Type 0 where
    pub name : String
    pub version : String
    pub task : TaskType
    pub backend : InferenceBackend
    pub session : H.ort.Session
    pub input_name : String
    pub class_names : List String
    pub wnids : List String
    pub image_size : ℕ
    pub artifact_path : H.files.FilePath
    pub loaded_at : H.Time
    pub metrics : Dict H.Number
    pub degraded_from : Option InferenceBackend

  pub record ModelService : Type 0 where
    pub models : Dict LoadedModel
    pub active : Dict String

  abbrev pub init : ModelService
  init = record { models = []; active = [] }

-- f"{name}:{version}"
abbrev pub model_key : String → String → String
model_key name version = concat name (concat ":" version)

-- `version or self._active.get(name)`: an empty version is none.
abbrev pub resolved_version : Option String → Option String → Option String
resolved_version none active = active
resolved_version (some version) active = if str_eq version "" then active else some version

-- `outputs[0]`
first_output : {T : Type 0} → List T → Result Raised T
first_output [] = err (builtin "IndexError")
first_output (t ∷ ts) = ok t

module _ {H : Host} where
  abbrev pub key : LoadedModel H → String
  key m = model_key m.name m.version

  unfoldable pub register : LoadedModel H → Bool → ModelService H → ModelService H
  register m make_active s = record {
    models = insert (key m) m s.models;
    active =
        if make_active || not (is_some (lookup m.name s.active))
        then insert m.name m.version s.active
        else s.active;
  }

  versions_of : String → ModelService H → List String
  versions_of name s =
      sorted (map (λ m. m.version) (keep (λ m. str_eq m.name name) (values s.models)))

  find_version : ModelService H → String → Option String → Result Raised (LoadedModel H)
  unfolding versions_of
  find_version s name none =
      err (application (error model_not_found (("available", texts (sorted (keys s.active))) ∷ [])))
  find_version s name (some version) = or_raise (lookup (model_key name version) s.models) (
      application (
        error model_not_found (
          ("requested_version", text version)
          ∷ ("available_versions", texts (versions_of name s))
          ∷ [])))

  unfoldable pub get : ModelService H → String → Option String → Result Raised (LoadedModel H)
  unfolding find_version
  get s name version = find_version s name (resolved_version version (lookup name s.active))

  unfoldable pub get_classifier : ModelService H → Option String → Result Raised (LoadedModel H)
  get_classifier s = get s "tiny-imagenet-classifier"

  unfoldable pub get_detector : ModelService H → Option String → Result Raised (LoadedModel H)
  get_detector s = get s "rtdetr-coco-detector"

  unfoldable pub get_embedder : ModelService H → Option String → Result Raised (LoadedModel H)
  get_embedder s = get s "tiny-imagenet-embedder"

  require_backend : LoadedModel H → Option InferenceBackend → Result Raised (LoadedModel H)
  require_backend m none = ok m
  require_backend m (some backend) =
      if same_backend m.backend backend
      then ok m
      else err (
          application (
            error model_not_found (
              ("requested_backend", text (backend_value backend))
              ∷ ("loaded_backend", text (backend_value m.backend))
              ∷ [])))

  unfoldable pub get_for_backend :
      ModelService H
      → String
      → Option String
      → Option InferenceBackend
      → Result Raised (LoadedModel H)
  unfolding require_backend
  get_for_backend s name version backend = do m ← get s name version; require_backend m backend

  unfoldable pub list_models : ModelService H → List (LoadedModel H)
  list_models s = values s.models

  unfoldable pub is_active : ModelService H → LoadedModel H → Bool
  is_active s m = elim (lookup m.name s.active) [ none ↦ false | some v ↦ str_eq v m.version ]

  unfoldable pub set_active : String → String → ModelService H → Result Raised (ModelService H)
  set_active name version s = do
    loaded ←
        or_raise (lookup (model_key name version) s.models) (application (error model_not_found []))
    ok (record s { active = insert name version s.active })

  unfoldable pub is_ready : ModelService H → Bool
  is_ready s = elim s.models [ [] ↦ false | _ ∷ _ ↦ true ]

  -- `except Exception`: any exception of the session becomes one of the service.
  unfoldable pub run_multi : LoadedModel H → H.Tensor → Result Raised (List H.Tensor)
  run_multi m batch = elim (H.run_session m.session m.input_name batch) [
    | ok outputs ↦ ok outputs
    | err _ ↦ err (application (error model_unavailable []))
  ]

  unfoldable pub run : LoadedModel H → H.Tensor → Result Raised H.Tensor
  unfolding run_multi first_output
  run m batch = run_multi m batch >>= first_output
