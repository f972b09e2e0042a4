-- ===== src/Batch/Worker.antt =====
-- `process_batch` of worker/tasks.py.
use ml_engineer_challenge_so.Prelude.{
  ℕ, suc, ◌+◌, String, Bool, true, List, [], ◌∷◌, ◌++◌, map, length, Option, none, some, or_else,
  Result, ok, err, ◌>>=◌,
}
use ml_engineer_challenge_so.Config.{Settings}
use ml_engineer_challenge_so.Errors.{Raised, builtin}
use ml_engineer_challenge_so.Models.{Host, ModelService, TaskType}
use ml_engineer_challenge_so.Inference.{Vision, Prediction}
use ml_engineer_challenge_so.Inference.Many.{classify_many}
use ml_engineer_challenge_so.Batch.{
  ItemFailure, raised, Response, ErrorObject, fetch_image, describe_error,
}

-- An item of the task's list, a `BatchItem` after `model_dump`.
pub record BatchItem : Type 0 where
  pub image_url : String
  pub item_id : Option String

-- The keyword `options`: the two of its keys that the task reads.
pub record BatchOptions : Type 0 where
  pub top_k : Option ℕ
  pub model_version : Option String

pub record Summary (F : Type 0) : Type 0 where
  pub label : String
  pub class_id : ℕ
  pub probability : Option F

pub record ItemResult (F : Type 0) : Type 0 where
  pub item_id : Option String
  pub image_url : String
  pub status : String
  pub result : Option (List (Summary F))
  pub error : Option ErrorObject

-- The `meta` of `update_state`.
pub record Progress : Type 0 where
  pub total_items : ℕ
  pub completed_items : ℕ
  pub failed_items : ℕ
  pub current_index : ℕ

pub record BatchSummary (F : Type 0) : Type 0 where
  pub task : TaskType
  pub total_items : ℕ
  pub completed_items : ℕ
  pub failed_items : ℕ
  pub results : List (ItemResult F)

-- The variables of the loop, with the states published so far.
pub record Loop (F : Type 0) : Type 0 where
  pub results : List (ItemResult F)
  pub completed : ℕ
  pub failed : ℕ
  pub published : List Progress

-- `summarise_predictions`
unfoldable pub summarise_predictions : {F : Type 0} → List (Prediction F) → List (Summary F)
summarise_predictions =
    map (λ p. record { label = p.label; class_id = p.class_id; probability = p.probability })

-- `predictions[0]`
first_list : {A : Type 0} → List A → Result ItemFailure A
first_list [] = err (raised (builtin "IndexError"))
first_list (a ∷ others) = ok a

as_failure : {A : Type 0} → Result Raised A → Result ItemFailure A
as_failure (err e) = err (raised e)
as_failure (ok a) = ok a

-- What a round adds to `completed` and to `failed`.
abbrev pub succeeded : {A : Type 0} → Result ItemFailure A → ℕ
succeeded (ok a) = 1
succeeded (err e) = 0

abbrev pub failed_one : {A : Type 0} → Result ItemFailure A → ℕ
failed_one (ok a) = 0
failed_one (err e) = 1

module _ {H : Host} (N : Vision H) (settings : Settings) (models : ModelService H)
    (is_value_error : String → Bool) (options : BatchOptions) where
  open N use {F}

  -- The `try` of a round, on the response for the item's URL.
  unfoldable pub process_item : Response → Result ItemFailure (List (Summary F))
  unfolding first_list as_failure
  process_item response = do
    image_bytes ← fetch_image response settings.max_upload_bytes
    predictions ← as_failure (
        classify_many N settings models (image_bytes ∷ []) (or_else options.top_k 5)
          options.model_version true)
    first ← first_list predictions
    ok (summarise_predictions first)

  -- The two records that a round can append.
  unfoldable pub item_result : BatchItem → Result ItemFailure (List (Summary F)) → ItemResult F
  item_result item (ok summary) = record {
    item_id = item.item_id;
    image_url = item.image_url;
    status = "succeeded";
    result = some summary;
    error = none;
  }
  item_result item (err e) = record {
    item_id = item.item_id;
    image_url = item.image_url;
    status = "failed";
    result = none;
    error = some (describe_error is_value_error e);
  }

  -- One round: `index` counts from 0, `total` is `len(items)`.
  unfoldable pub round : ℕ → ℕ → BatchItem → Result ItemFailure (List (Summary F)) → Loop F → Loop F
  round total index item outcome s =
      let completed = s.completed + succeeded outcome in
      let failed = s.failed + failed_one outcome in
      record {
        results = s.results ++ (item_result item outcome ∷ []);
        completed = completed;
        failed = failed;
        published =
            s.published
            ++ (record {
              total_items = total;
              completed_items = completed;
              failed_items = failed;
              current_index = index + 1;
            }
                ∷ []);
      }

  module _ (respond : ℕ → String → Response) where
    -- The loop; `respond index url` is what the network answers in that round.
    unfoldable pub process_items : ℕ → ℕ → List BatchItem → Loop F → Loop F
    process_items total index [] s = s
    process_items total index (item ∷ items) s =
        process_items total (suc index) items
          (round total index item (process_item (respond index item.image_url)) s)

    -- `process_batch` from its first round on
    unfoldable pub run_items : TaskType → List BatchItem → BatchSummary F × List Progress
    run_items task items =
        let start : Loop F = record { results = []; completed = 0; failed = 0; published = [] } in
        let s = process_items (length items) 0 items start in
        (
          record {
            task = task;
            total_items = length items;
            completed_items = s.completed;
            failed_items = s.failed;
            results = s.results;
          },
          s.published,
        )

-- `process_batch`. The first use of `_get_services` in a worker loads the models, and
-- `get_settings` reads the environment: each can raise, before the first round.
unfoldable pub process_batch :
    {H : Host} (N : Vision H)
    → (String → Bool)
    → BatchOptions
    → (ℕ → String → Response)
    → Result Raised (ModelService H)
    → Result Raised Settings
    → TaskType
    → List BatchItem
    → Result Raised (BatchSummary (N.F) × List Progress)
unfolding run_items
process_batch N is_value_error options respond get_services get_settings task items = do
  models ← get_services
  settings ← get_settings
  ok (run_items N settings models is_value_error options respond task items)
