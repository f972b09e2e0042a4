-- ===== src/Loading/Tests.antt =====
-- Loads of api/services/model_service.py on a host without CUDA.
use ml_engineer_challenge_so.Prelude.{String, false, ◌≡◌, refl, [], ◌∷◌, Option, none, some, ok}
use ml_engineer_challenge_so.Prelude.Dict.{insert, lookup}
use ml_engineer_challenge_so.Config.{
  Settings, default_settings, InferenceBackend, same_backend, torch, onnx, tensorrt,
}
use ml_engineer_challenge_so.Models.{
  LoadedModel, ModelService, embedding, init, register, resolve_versioned_artifact,
  resolve_versioned_metadata,
}
use ml_engineer_challenge_so.Models.Tests.{test_host, version_model}
use ml_engineer_challenge_so.Runtime.{create_session, usable_providers}
use ml_engineer_challenge_so.Loading.{
  Reader, precision_artifact, read_classifier_metadata, try_backends, try_backend, chain_for,
  chain_without_int8, artifact_for,
}
use ml_engineer_challenge_so.Loading.Attempts.{FirstWorking, try_backends-FirstWorking}
use ml_engineer_challenge_so.Loading.Tasks.{
  Request, open_and_register, load_classifier, load_embedder,
}
use ml_engineer_challenge_so.Loading.Loaded.{IsAttributed, load-IsAttributed}

abbrev pub test_reader : Reader test_host
test_reader = record {
  labels = λ path.
      ok (record { class_names = some ("cat" ∷ "dog" ∷ []); wnids = none; image_size = some 64 });
  metrics = λ path. ok [];
  detection =
      λ path. ok (record { id2label = (0, "person") ∷ []; num_classes = 2; image_size = 640 });
  zeros = λ n. 2;
  ndim = λ t. t;
  cpus = 4;
  int_text = λ n. "1";
  path_text = λ p. p;
  describe = λ e. "RuntimeError";
}

-- The settings of a deployment that asks for TensorRT.
abbrev gpu_settings : Settings
gpu_settings = record default_settings { inference_backend = tensorrt }

abbrev v2_request : Request test_host
v2_request = record {
  artifacts = "a";
  name = "tiny-imagenet-classifier";
  version = "v2";
  make_active = false;
  now = 0;
}

-- TensorRT is not available, so the model is served by ONNX Runtime and marked as degraded.
abbrev v2_loaded : LoadedModel test_host
v2_loaded = record (version_model "v2") {
  artifact_path = "a/onnx/v2/classifier_fp32.onnx";
  degraded_from = some tensorrt;
}

abbrev after_load : ModelService test_host
after_load = record {
  models = ("tiny-imagenet-classifier:v2", v2_loaded) ∷ [];
  active = ("tiny-imagenet-classifier", "v2") ∷ [];
}

load_run :
    load_classifier test_reader gpu_settings v2_request (init test_host)
    ≡ ok (v2_loaded, after_load)
unfolding load_classifier read_classifier_metadata resolve_versioned_metadata open_and_register
    try_backends chain_for artifact_for resolve_versioned_artifact try_backend create_session
    register insert lookup usable_providers
load_run = refl

load-IsAttributed_example :
    IsAttributed test_reader gpu_settings v2_request v2_loaded after_load
    × (same_backend v2_loaded.backend torch ≡ false)
load-IsAttributed_example =
    (load-IsAttributed test_reader gpu_settings v2_request (init test_host) v2_loaded after_load
        refl).0
      load_run

-- The embedder under the setting `torch`: an ONNX session whose record says `torch`, and no
-- fallback.
abbrev torch_settings : Settings
torch_settings = record default_settings { inference_backend = torch }

abbrev v1_request : Request test_host
v1_request = record v2_request { name = "tiny-imagenet-embedder"; version = "v1" }

abbrev torch_embedder : LoadedModel test_host
torch_embedder = record (version_model "v1") {
  name = "tiny-imagenet-embedder";
  task = embedding;
  backend = torch;
  artifact_path = "a/onnx/embedder_fp32.onnx";
}

abbrev after_embedder : ModelService test_host
after_embedder = record {
  models = ("tiny-imagenet-embedder:v1", torch_embedder) ∷ [];
  active = ("tiny-imagenet-embedder", "v1") ∷ [];
}

embedder_run :
    load_embedder test_reader torch_settings v1_request (init test_host)
    ≡ ok (torch_embedder, after_embedder)
unfolding load_embedder read_classifier_metadata resolve_versioned_metadata open_and_register
    try_backends chain_for chain_without_int8 precision_artifact resolve_versioned_artifact
    try_backend create_session register insert lookup usable_providers
embedder_run = refl

abbrev candidates : InferenceBackend → Option String
candidates c = artifact_for test_reader "a" c "v2"

try_backends-FirstWorking_example :
    FirstWorking test_reader candidates 64 2
      (tensorrt ∷ onnx ∷ [])
      (try_backends test_reader candidates 64 2 (tensorrt ∷ onnx ∷ []) [])
try_backends-FirstWorking_example =
    try_backends-FirstWorking test_reader candidates 64 2 (tensorrt ∷ onnx ∷ []) []
