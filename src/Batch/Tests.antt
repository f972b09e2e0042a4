-- ===== src/Batch/Tests.antt =====
-- Runs of worker/tasks.py and api/routers/batch.py: of two items the second cannot be reached.
use ml_engineer_challenge_so.Prelude.{
  ℕ, zero, suc, arith, ◌+◌, ◌≡◌, refl, String, true, List, [], ◌∷◌, ◌++◌, length, All, is_ok, none,
  some, Result, ok,
}
use ml_engineer_challenge_so.Config.{default_settings}
use ml_engineer_challenge_so.Errors.{ApiError}
use ml_engineer_challenge_so.Models.{classification}
use ml_engineer_challenge_so.Models.Tests.{one_version}
use ml_engineer_challenge_so.RateLimit.{RateLimitDecision}
use ml_engineer_challenge_so.Inference.Tests.{test_vision}
use ml_engineer_challenge_so.Batch.{
  Response, unreachable, streamed, declared, chunk, finished, fetch_image,
}
use ml_engineer_challenge_so.Batch.Fetching.{delivered, fetch_image_iff}
use ml_engineer_challenge_so.Batch.Worker.{
  BatchItem, BatchOptions, BatchSummary, Progress, run_items, process_batch,
}
use ml_engineer_challenge_so.Batch.Results.{
  IsMeasured, AllReport, number_with_status, process_batch-each,
}
use ml_engineer_challenge_so.Batch.Submission.{
  BatchRequest, submit_batch, parse_request, has_http_scheme, enqueue, queued_job,
}
use ml_engineer_challenge_so.Batch.Queued.{IsAdmitted, submit_batch-IsAdmitted}

abbrev two_items : List BatchItem
two_items =
    record { image_url = "https://a/1.png"; item_id = some "one" }
    ∷ record { image_url = "http://b/2.png"; item_id = none }
    ∷ []

abbrev network : ℕ → String → Response
network index url = elim index [
  | zero ↦ streamed (declared 2) (chunk (1 ∷ []) (chunk (2 ∷ []) finished))
  | suc n ↦ unreachable
]

abbrev no_options : BatchOptions
no_options = record { top_k = none; model_version = none }

abbrev ran : BatchSummary ℕ × List Progress
ran =
    run_items test_vision default_settings one_version (λ name. true) no_options network
      classification two_items

fetch_image_iff_example :
    fetch_image (streamed (declared 2) (chunk (1 ∷ []) (chunk (2 ∷ []) finished))) 10
    ≡ ok (1 ∷ 2 ∷ [])
fetch_image_iff_example =
    (fetch_image_iff (streamed (declared 2) (chunk (1 ∷ []) (chunk (2 ∷ []) finished))) 10
        (1 ∷ 2 ∷ [])).1
      (delivered (declared 2) (chunk (1 ∷ []) (chunk (2 ∷ []) finished)) (omega arith) refl
        (omega arith))

process_batch-each_example :
    (process_batch test_vision
        (λ name. true)
        no_options
        network
        (ok one_version)
        (ok default_settings)
        classification
        two_items
      ≡ ok ran)
    × AllReport test_vision default_settings one_version
        (λ name. true)
        no_options
        network
        0
        two_items
        ran.0.results
    × (ran.0.completed_items ≡ number_with_status "succeeded" ran.0.results)
    × (ran.0.failed_items ≡ number_with_status "failed" ran.0.results)
    × (ran.0.completed_items + ran.0.failed_items ≡ 2)
    × (ran.0.total_items ≡ 2)
    × All (IsMeasured 2) ran.1
    × (length ran.1 ≡ 2)
process_batch-each_example =
    process_batch-each test_vision default_settings one_version (λ name. true) no_options network
      classification two_items

abbrev request : BatchRequest
request = record {
  task = classification;
  items = two_items;
  classification_options = none;
  callback_url = none;
}

abbrev admitted : Result ApiError RateLimitDecision
admitted = ok (record { allowed = true; limit = 10; remaining = 9; retry_after_seconds = 0 })

submit_batch-IsAdmitted_example :
    All (IsAdmitted default_settings) (queued_job request ∷ [])
    × (queued_job request ∷ [] ≡ [] ++ (queued_job request ∷ []))
    × ((queued_job request).items ≡ two_items)
    × (is_ok admitted ≡ true)
unfolding submit_batch enqueue parse_request has_http_scheme
submit_batch-IsAdmitted_example =
    submit_batch-IsAdmitted default_settings admitted request [] (queued_job request ∷ []) tt refl
