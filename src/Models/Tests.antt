-- ===== src/Models/Tests.antt =====
-- A registry of api/services/model_service.py with two versions of the classifier.
use ml_engineer_challenge_so.Prelude.{
  ℕ, String, true, false, ◌≡◌, refl, List, [], ◌∷◌, Option, none, some, ok, str_eq,
}
use Prim.Native.String.{◌++◌ as concat}
use ml_engineer_challenge_so.Prelude.Dict.{lookup, insert}
use ml_engineer_challenge_so.Config.{onnx}
use ml_engineer_challenge_so.Runtime.{cpu_provider, is_member}
use ml_engineer_challenge_so.Runtime.Tests.{cpu_only}
use ml_engineer_challenge_so.Models.{
  Host, Files, LoadedModel, ModelService, classification, init, register, set_active, get,
}
use ml_engineer_challenge_so.Models.Registry.{Reach, start, registered, get-set_active}

abbrev pub disk : List String
disk =
    "a/onnx/classifier_fp32.onnx" ∷ "a/onnx/embedder_fp32.onnx" ∷ "a/onnx/v2/classifier_fp32.onnx"
    ∷ "a/onnx/v2/labels.json" ∷ "a/labels.json" ∷ "a/onnx/detector_fp32.onnx"
    ∷ "a/detection_labels.json" ∷ "a/similarity.index" ∷ "a/similarity_manifest.json"
    ∷ "a/similarity_metadata.json" ∷ []

abbrev pub test_files : Files
test_files = record {
  FilePath = String;
  slash = λ p s. concat p (concat "/" s);
  exists = λ p. is_member disk p;
}

abbrev pub test_host : Host
test_host = record {
  files = test_files;
  ort = cpu_only;
  Tensor = ℕ;
  Time = ℕ;
  Number = ℕ;
  run_session = λ session input_name batch. ok (batch ∷ []);
}

abbrev pub version_model : String → LoadedModel test_host
version_model version = record {
  name = "tiny-imagenet-classifier";
  version = version;
  task = classification;
  backend = onnx;
  session = cpu_provider ∷ [];
  input_name = "pixel_values";
  class_names = "cat" ∷ "dog" ∷ [];
  wnids = [];
  image_size = 64;
  artifact_path = "a/onnx/classifier_fp32.onnx";
  loaded_at = 0;
  metrics = [];
  degraded_from = none;
}

abbrev pub one_version : ModelService test_host
one_version = register (version_model "v1") true (init test_host)

abbrev pub two_versions : ModelService test_host
two_versions = register (version_model "v2") false one_version

abbrev pub two_versions_reached : Reach two_versions
two_versions_reached =
    registered (version_model "v2") false (registered (version_model "v1") true start)

abbrev promoted : ModelService test_host
promoted = record two_versions { active = ("tiny-imagenet-classifier", "v2") ∷ [] }

get-set_active_example :
    ((m : LoadedModel test_host) × (get two_versions "tiny-imagenet-classifier" (some "v2") ≡ ok m)
      × (get promoted "tiny-imagenet-classifier" none ≡ ok m))
    × ((other : String) (pin : Option String) (m : LoadedModel test_host)
        → str_eq "tiny-imagenet-classifier" other ≡ false
        → get two_versions other pin ≡ ok m
        → get promoted other pin ≡ ok m)
unfolding register set_active lookup insert
get-set_active_example =
    get-set_active "tiny-imagenet-classifier" "v2" two_versions promoted refl refl
