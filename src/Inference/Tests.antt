-- ===== src/Inference/Tests.antt =====
-- Runs of api/services/inference_service.py, with the test registry and an empty cache.
use ml_engineer_challenge_so.Prelude.{
  ℕ, ◌≤◌, leb, true, ◌≡◌, refl, List, [], ◌∷◌, All, length, none, some, ok,
}
use ml_engineer_challenge_so.Prelude.Dict.{lookup, insert}
use ml_engineer_challenge_so.Config.{default_settings}
use ml_engineer_challenge_so.Uploads.{
  Bytes, ImageMetadata, header, validate_image_upload, validate_upload_size, inspect_image,
  is_supported, validate_format, validate_dimensions,
}
use ml_engineer_challenge_so.Models.{LoadedModel, get_classifier, get as find_model, register, run}
use ml_engineer_challenge_so.Models.Tests.{test_host, one_version}
use ml_engineer_challenge_so.Cache.{Codec}
use ml_engineer_challenge_so.Cache.Tests.{table, fresh}
use ml_engineer_challenge_so.Audit.{init}
use ml_engineer_challenge_so.Inference.{
  Vision, Prediction, Payload, run_batch, decode_classification,
}
use ml_engineer_challenge_so.Inference.Classify.{Request, Services}
use ml_engineer_challenge_so.Inference.Many.{classify_many, classify_many-ok}

abbrev pub test_vision : Vision test_host
test_vision = record {
  F = ℕ;
  Array = ℕ;
  Row = ℕ;
  pillow = record { open_image = λ b. header (some "PNG") 32 32 "RGB"; upper = λ s. s };
  sha256 = λ b. "digest";
  option_digest = λ k p. "options";
  preprocess_image = λ b n. ok n;
  stack = λ xs. ok (length xs);
  rows = λ t. t ∷ t ∷ [];
  ranked = λ row k. (900_000, 1) ∷ [];
  round6 = λ x. x;
  is_probability = λ x. leb x 1_000_000;
}

-- A codec that refuses every payload: nothing is ever stored.
abbrev pub refusing : Codec (Payload ℕ)
refusing = record { dumps = λ ps. none; loads = λ raw. none }

abbrev picture_request : Request ℕ
picture_request = record {
  image_bytes = 1 ∷ 2 ∷ [];
  correlation_id = "request";
  top_k = 1;
  model_version = none;
  backend = none;
  include_probabilities = true;
  use_cache = true;
  user_id = none;
  user_tier = none;
  variant = none;
  elapsed_ms = 5;
}

abbrev pub services : Services test_vision table
services = record { cache = fresh; audit = init true 10 5 }

abbrev dog : Prediction ℕ
dog = record { label = "dog"; class_id = 1; wnid = none; probability = some 900_000 }

abbrev two_pictures : List Bytes
two_pictures = (1 ∷ []) ∷ (2 ∷ []) ∷ []

two_pictures_run :
    classify_many test_vision default_settings one_version two_pictures 1 none true
    ≡ ok ((dog ∷ []) ∷ (dog ∷ []) ∷ [])
unfolding classify_many validate_image_upload validate_upload_size inspect_image validate_format
    is_supported validate_dimensions get_classifier find_model lookup register insert run_batch run
    decode_classification
two_pictures_run = refl

classify_many-ok_example :
    (length two_pictures ≤ 64)
    × All
        (λ b.
          (metadata : ImageMetadata) × (validate_image_upload test_vision.pillow b 10_485_760
              89_478_485
            ≡ ok metadata))
        two_pictures
    × ((m : LoadedModel test_host) × (rows : List ℕ) × (get_classifier one_version none ≡ ok m)
        × (run_batch test_vision m two_pictures ≡ ok rows)
        × (2 ≡ length rows))
classify_many-ok_example =
    classify_many-ok test_vision default_settings one_version (1 ∷ []) ((2 ∷ []) ∷ []) 1 none true
      ((dog ∷ []) ∷ (dog ∷ []) ∷ []) two_pictures_run
