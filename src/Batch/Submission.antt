-- ===== src/Batch/Submission.antt =====
-- `submit_batch` of api/routers/batch.py, with the checks of the request body in
-- api/models/schemas.py.
use text.Mathlib.Text.{starts_with}
use ml_engineer_challenge_so.Prelude.{
  ℕ, ◌*◌, String, Bool, true, false, ◌||◌, not, ltb, if◌then◌else◌, List, [], ◌∷◌, ◌++◌, length,
  all, Option, none, some, Result, ok, err, ◌>>=◌, ◌>>◌, raise_if,
}
use ml_engineer_challenge_so.Config.{Settings}
use ml_engineer_challenge_so.Errors.{ApiError, error, number, batch_too_large, validation_error}
use ml_engineer_challenge_so.Models.{TaskType}
use ml_engineer_challenge_so.RateLimit.{RateLimitDecision}
use ml_engineer_challenge_so.Batch.Worker.{BatchItem, BatchOptions}

-- The fields of the body that the route reads. `top_k` has its default where the options give
-- none; the bounds of `top_k` are the schema's too.
pub record ClassificationOptions : Type 0 where
  pub top_k : ℕ
  pub model_version : Option String
  pub include_probabilities : Bool

pub record BatchRequest : Type 0 where
  pub task : TaskType
  pub items : List BatchItem
  pub classification_options : Option ClassificationOptions
  pub callback_url : Option String

-- `_require_http_scheme`
unfoldable pub has_http_scheme : String → Bool
has_http_scheme url = starts_with url "http://" || starts_with url "https://"

unfoldable pub callback_ok : Option String → Bool
callback_ok none = true
callback_ok (some url) = has_http_scheme url

unfoldable pub is_empty : List BatchItem → Bool
is_empty [] = true
is_empty (item ∷ items) = false

unfoldable pub options_ok : Option ClassificationOptions → Bool
options_ok none = true
options_ok (some o) = not (ltb o.top_k 1 || ltb 100 o.top_k)

-- The validation of the body, which answers 422 before the route runs.
unfoldable pub parse_request : BatchRequest → Result ApiError (Unit {0})
unfolding callback_ok is_empty options_ok
parse_request payload =
    raise_if
      (is_empty payload.items
        || not (all (λ item. has_http_scheme item.image_url) payload.items)
        || not (callback_ok payload.callback_url)
        || not (options_ok payload.classification_options))
      (error validation_error [])

-- A message in the queue of Celery. The options are `model_dump(exclude_none=True)`; the task
-- reads two of them.
pub record QueuedBatch : Type 0 where
  pub items : List BatchItem
  pub task : TaskType
  pub options : BatchOptions

forwarded : Option ClassificationOptions → BatchOptions
forwarded none = record { top_k = none; model_version = none }
forwarded (some o) = record { top_k = some o.top_k; model_version = o.model_version }

-- The message that `process_batch.delay` sends.
unfoldable pub queued_job : BatchRequest → QueuedBatch
unfolding forwarded
queued_job payload = record {
  items = payload.items;
  task = payload.task;
  options = forwarded payload.classification_options;
}

-- The route after the rate limiter: the queue of Celery before and after.
unfoldable pub enqueue :
    Settings → BatchRequest → List QueuedBatch → Result ApiError (List QueuedBatch)
enqueue settings payload queue =
    let max_items = settings.max_batch_size * 10 in
    if ltb max_items (length payload.items)
    then err (
        error batch_too_large
          (("submitted", number (length payload.items)) ∷ ("max_items", number max_items) ∷ []))
    else ok (queue ++ (queued_job payload ∷ []))

-- `submit_batch`, on the decision of `limiter.enforce`.
unfoldable pub submit_batch :
    Settings
    → Result ApiError RateLimitDecision
    → BatchRequest
    → List QueuedBatch
    → Result ApiError (List QueuedBatch)
unfolding parse_request enqueue
submit_batch settings decision payload queue = do
  parse_request payload
  admitted ← decision
  enqueue settings payload queue
