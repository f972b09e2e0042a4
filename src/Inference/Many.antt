-- ===== src/Inference/Many.antt =====
-- `classify_many` of api/services/inference_service.py, the entry of the batch worker.
use ml_engineer_challenge_so.Prelude.{
  ℕ, ◌≤◌, String, Bool, ltb, List, [], ◌∷◌, length, Option, Result, ok, err, ◌>>=◌, ◌>>◌, raise_if,
  suc, ap, sym, ◌∙◌, ◌≡◌, arith, All, >>=-eq-ok, >>-eq-ok, raise_if-eq-ok,
}
use ml_engineer_challenge_so.Config.{Settings}
use ml_engineer_challenge_so.Errors.{ApiError, Raised, application, error, number, batch_too_large}
use ml_engineer_challenge_so.Uploads.{Bytes, ImageMetadata, validate_image_upload}
use ml_engineer_challenge_so.Models.{Host, LoadedModel, ModelService, get_classifier}
use ml_engineer_challenge_so.Inference.{
  Vision, Prediction, decode_classification, run_batch, lifted,
}

lifted-eq-ok : {A : Type 0} (r : Result ApiError A) (a : A) → lifted r ≡ ok a → r ≡ ok a
lifted-eq-ok (err e) a h = absurd (cc h)
lifted-eq-ok (ok b) a h = cc

module _ {H : Host} (N : Vision H) where
  open N use {F, Row}

  validate_all : Settings → List Bytes → Result Raised (Unit {0})
  validate_all settings [] = ok tt
  validate_all settings (image ∷ images) = do
    metadata ←
        lifted
          (validate_image_upload N.pillow image settings.max_upload_bytes settings.max_image_pixels)
    validate_all settings images

  decode_rows : LoadedModel H → ℕ → Bool → List Row → Result Raised (List (List (Prediction F)))
  decode_rows m top_k include_probabilities [] = ok []
  decode_rows m top_k include_probabilities (row ∷ rows) = do
    predictions ← decode_classification N row m top_k include_probabilities
    others ← decode_rows m top_k include_probabilities rows
    ok (predictions ∷ others)

  unfoldable pub classify_many :
      Settings
      → ModelService H
      → List Bytes
      → ℕ
      → Option String
      → Bool
      → Result Raised (List (List (Prediction F)))
  unfolding validate_all decode_rows
  classify_many settings models [] top_k version include_probabilities = ok []
  classify_many settings models (i ∷ is) top_k version include_probabilities = do
    raise_if (ltb settings.max_batch_size (length (i ∷ is))) (
        application (
          error batch_too_large (
            ("submitted", number (length (i ∷ is)))
            ∷ ("max", number settings.max_batch_size)
            ∷ [])))
    validate_all settings (i ∷ is)
    m ← get_classifier models version
    rows ← run_batch N m (i ∷ is)
    decode_rows m top_k include_probabilities rows

  validate_all-All :
      (settings : Settings) (images : List Bytes)
      → validate_all settings images ≡ ok tt
      → All
          (λ i.
            (metadata : ImageMetadata) × (validate_image_upload N.pillow i settings.max_upload_bytes
                settings.max_image_pixels
              ≡ ok metadata))
          images
  unfolding validate_all
  validate_all-All settings [] h = tt
  validate_all-All settings (i ∷ is) h =
      let (metadata, valid, rest) =
        >>=-eq-ok
          (lifted
            (validate_image_upload N.pillow i settings.max_upload_bytes settings.max_image_pixels))
          _ h in
      ((metadata, lifted-eq-ok _ metadata valid), validate_all-All settings is rest)

  decode_rows-length :
      (m : LoadedModel H) (top_k : ℕ) (probabilities : Bool) (rows : List Row)
      (out : List (List (Prediction F)))
      → decode_rows m top_k probabilities rows ≡ ok out
      → length out ≡ length rows
  unfolding decode_rows
  decode_rows-length m top_k probabilities [] out h = let same : out ≡ [] = cc in ap length same
  decode_rows-length m top_k probabilities (row ∷ rows) out h =
      let (ps, decoded, rest) = >>=-eq-ok (decode_classification N row m top_k probabilities) _ h in
      let (others, more, last) = >>=-eq-ok (decode_rows m top_k probabilities rows) _ rest in
      let same : ps ∷ others ≡ out = cc last in
      ap length (sym same) ∙ ap suc (decode_rows-length m top_k probabilities rows others more)

  -- Where `classify_many` returns for a list that is not empty, the list is within the batch
  -- limit, each of its images passes the validation, and there is one list of predictions for
  -- each row that the one run of the classifier gave.
  pub classify_many-ok :
      (settings : Settings) (models : ModelService H) (i : Bytes) (is : List Bytes) (top_k : ℕ)
      (version : Option String) (probabilities : Bool) (out : List (List (Prediction F)))
      → classify_many settings models (i ∷ is) top_k version probabilities ≡ ok out
      → (length (i ∷ is) ≤ settings.max_batch_size)
        × All
            (λ b.
              (metadata : ImageMetadata) × (validate_image_upload N.pillow b
                  settings.max_upload_bytes settings.max_image_pixels
                ≡ ok metadata))
            (i ∷ is)
        × ((m : LoadedModel H) × (rows : List Row) × (get_classifier models version ≡ ok m)
            × (run_batch N m (i ∷ is) ≡ ok rows)
            × (length out ≡ length rows))
  unfolding classify_many
  classify_many-ok settings models i is top_k version probabilities out h =
      let (within, rest) =
        >>-eq-ok (raise_if (ltb settings.max_batch_size (length (i ∷ is))) _) _ h in
      let (valid, rest2) = >>-eq-ok (validate_all settings (i ∷ is)) _ rest in
      let small = raise_if-eq-ok (ltb settings.max_batch_size (length (i ∷ is))) _ within in
      let (m, found, rest3) = >>=-eq-ok (get_classifier models version) _ rest2 in
      let (rows, ran, last) = >>=-eq-ok (run_batch N m (i ∷ is)) _ rest3 in
      (
        ground arith,
        validate_all-All settings (i ∷ is) valid,
        (m, rows, found, ran, decode_rows-length m top_k probabilities rows out last),
      )
