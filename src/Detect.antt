-- ===== src/Detect.antt =====
-- api/services/detection_service.py, with `boxes_to_absolute` of api/utils/image_processing.py.
pub mod Places
pub mod Confident
pub mod Tests
use ml_engineer_challenge_so.Prelude.{
  ℕ, zero, suc, String, Bool, true, false, if◌then◌else◌, List, [], ◌∷◌, map, take, get_elem?,
  Option, none, some, or_else, Result, ok, err, ◌>>=◌, ◌>>◌, or_raise, raise_if, not, ◌&&◌,
}
use ml_engineer_challenge_so.Config.{Settings}
use ml_engineer_challenge_so.Errors.{Raised, builtin}
use ml_engineer_challenge_so.Uploads.{Bytes, validate_image_upload}
use ml_engineer_challenge_so.Models.{Host, LoadedModel, ModelService, get_detector, run_multi}
use ml_engineer_challenge_so.Inference.{Vision, ModelProvenance, provenance_of, lifted}

-- A box as four coordinates: centre, width and height, or two corners.
abbrev pub Corners : Type 0 → Type 0
Corners F = F × F × F × F

-- What numpy and Pillow do here: `preprocess_for_detection`, `array[None, ...]`, `scores[0]` and
-- `boxes[0]` as rows, the argmax and the maximum of each row, `np.argsort(-x)`, `np.clip(x, 0, n)`,
-- and the arithmetic and rounding of floats; `str` of a number; pydantic's tests of the bounds of a
-- confidence, from 0 to 1, and of a coordinate, from 0.
pub record Arrays {H : Host} (N : Vision H) : Type 0 where
  pub preprocess_for_detection : Bytes → ℕ → Result Raised (N.Array × ℕ × ℕ)
  pub expand : N.Array → H.Tensor
  pub score_rows : H.Tensor → Result Raised (List (List N.F))
  pub box_rows : H.Tensor → Result Raised (List (Corners N.F))
  pub argmax : List (List N.F) → Result Raised (List ℕ)
  pub amax : List (List N.F) → Result Raised (List N.F)
  pub argsort_descending : List N.F → List ℕ
  pub le : N.F → N.F → Bool
  pub add : N.F → N.F → N.F
  pub sub : N.F → N.F → N.F
  pub half : N.F → N.F
  pub scale : N.F → ℕ → N.F
  pub clip : N.F → ℕ → N.F
  pub round2 : N.F → N.F
  pub number_text : ℕ → String
  pub is_confidence : N.F → Bool
  pub is_coordinate : N.F → Bool

pub record BoundingBox (F : Type 0) : Type 0 where
  pub x_min : F
  pub y_min : F
  pub x_max : F
  pub y_max : F

pub record Detection (F : Type 0) : Type 0 where
  pub label : String
  pub class_id : ℕ
  pub confidence : F
  pub box : BoundingBox F

pub record DetectionResponse (F : Type 0) : Type 0 where
  pub detections : List (Detection F)
  pub image_width : ℕ
  pub image_height : ℕ
  pub inference_time_ms : F
  pub correlation_id : String
  pub provenance : ModelProvenance
  pub cached : Bool

-- `x[indices]` of numpy.
unfoldable pub gather : {A : Type 0} → List A → List ℕ → Result Raised (List A)
gather xs [] = ok []
gather xs (i ∷ is) = do
  x ← or_raise (get_elem? xs i) (builtin "IndexError")
  rest ← gather xs is
  ok (x ∷ rest)

-- Two results of a call, as `scores, boxes = ...` takes them apart.
two_outputs : {A : Type 0} → List A → Result Raised (A × A)
two_outputs (a ∷ b ∷ []) = ok (a, b)
two_outputs _ = err (builtin "ValueError")

module _ {H : Host} {N : Vision H} (A : Arrays N) where
  open N use {F}

  -- `np.where(best_score >= threshold)[0]`, counted from `i`.
  unfoldable pub above : F → ℕ → List F → List ℕ
  above threshold i [] = []
  above threshold i (score ∷ scores) =
      let rest = above threshold (suc i) scores in if A.le threshold score then i ∷ rest else rest

  -- `boxes_to_absolute`, on one box.
  unfoldable pub box_to_absolute : Corners F → ℕ → ℕ → Corners F
  box_to_absolute (centre_x, centre_y, width, height) original_width original_height = (
    A.clip (A.scale (A.sub centre_x (A.half width)) original_width) original_width,
    A.clip (A.scale (A.sub centre_y (A.half height)) original_height) original_height,
    A.clip (A.scale (A.add centre_x (A.half width)) original_width) original_width,
    A.clip (A.scale (A.add centre_y (A.half height)) original_height) original_height,
  )

  bounding_box : Corners F → BoundingBox F
  bounding_box (x_min, y_min, x_max, y_max) = record {
    x_min = A.round2 x_min;
    y_min = A.round2 y_min;
    x_max = A.round2 x_max;
    y_max = A.round2 y_max;
  }

  in_bounds : BoundingBox F → Bool
  in_bounds b =
      A.is_coordinate b.x_min
      && A.is_coordinate b.y_min
      && A.is_coordinate b.x_max
      && A.is_coordinate b.y_max

  -- One round of the loop over the kept queries: a box or a score out of its bounds raises.
  detection_of : LoadedModel H → List ℕ → List F → ℕ → Corners F → Result Raised (Detection F)
  unfolding bounding_box in_bounds
  detection_of m best_class best_score index box = do
    class_id ← or_raise (get_elem? best_class index) (builtin "IndexError")
    score ← or_raise (get_elem? best_score index) (builtin "IndexError")
    raise_if (not (in_bounds (bounding_box box) && A.is_confidence (N.round6 score)))
        (builtin "ValidationError")
    ok (record {
      label = or_else (get_elem? m.class_names class_id) (A.number_text class_id);
      class_id = class_id;
      confidence = N.round6 score;
      box = bounding_box box;
    })

  -- The loop; two lists of different lengths raise, by `strict=True`.
  detections_of :
      LoadedModel H
      → List ℕ
      → List F
      → List ℕ
      → List (Corners F)
      → Result Raised (List (Detection F))
  unfolding detection_of
  detections_of m best_class best_score [] [] = ok []
  detections_of m best_class best_score (index ∷ kept) (box ∷ boxes) = do
    detection ← detection_of m best_class best_score index box
    others ← detections_of m best_class best_score kept boxes
    ok (detection ∷ others)
  detections_of m best_class best_score _ _ = err (builtin "ValueError")

  -- The kept queries by falling score, up to the cap; without any the code returns early.
  ordered : List F → ℕ → List ℕ → Result Raised (List ℕ)
  ordered best_score max_detections [] = ok []
  ordered best_score max_detections (k ∷ kept) = do
    scores ← gather best_score (k ∷ kept)
    by_score ← gather (k ∷ kept) (A.argsort_descending scores)
    ok (take max_detections by_score)

  -- `_decode`
  unfoldable pub decode :
      List (List F)
      → List (Corners F)
      → LoadedModel H
      → ℕ
      → ℕ
      → F
      → ℕ
      → Result Raised (List (Detection F))
  unfolding above ordered detections_of
  decode scores boxes m width height threshold max_detections = do
    best_class ← A.argmax scores
    best_score ← A.amax scores
    kept ← ordered best_score max_detections (above threshold 0 best_score)
    chosen ← gather boxes kept
    detections_of m best_class best_score kept (map (λ b. box_to_absolute b width height) chosen)

  unfoldable pub detect :
      Settings
      → ModelService H
      → Bytes
      → String
      → F
      → ℕ
      → Option String
      → F
      → Result Raised (DetectionResponse F)
  unfolding two_outputs decode
  detect settings models image_bytes correlation_id threshold max_detections version elapsed_ms = do
    metadata ← lifted (
        validate_image_upload N.pillow image_bytes settings.max_upload_bytes
          settings.max_image_pixels)
    m ← get_detector models version
    (array, width, height) ← A.preprocess_for_detection image_bytes m.image_size
    outputs ← run_multi m (A.expand array)
    (scores, boxes) ← two_outputs outputs
    score_rows ← A.score_rows scores
    box_rows ← A.box_rows boxes
    detections ← decode score_rows box_rows m width height threshold max_detections
    ok (record {
      detections = detections;
      image_width = width;
      image_height = height;
      inference_time_ms = elapsed_ms;
      correlation_id = correlation_id;
      provenance = provenance_of m;
      cached = false;
    })
