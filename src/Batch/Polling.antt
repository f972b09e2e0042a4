-- ===== src/Batch/Polling.antt =====
-- What polls of api/routers/batch.py see of a run of `process_batch` of worker/tasks.py.
use ml_engineer_challenge_so.Prelude.{
  true, ℕ, suc, ◌+◌, ◌≡◌, String, Bool, List, [], ◌∷◌, map, some, Result, ok, err,
}
use ml_engineer_challenge_so.Config.{Settings}
use ml_engineer_challenge_so.Errors.{Raised}
use ml_engineer_challenge_so.Models.{Host, ModelService}
use ml_engineer_challenge_so.Inference.{Vision}
use ml_engineer_challenge_so.Batch.{ItemFailure, Response}
use ml_engineer_challenge_so.Batch.Worker.{
  BatchItem, BatchOptions, Progress, Loop, Summary, succeeded, failed_one, process_items,
  BatchSummary,
}
use ml_engineer_challenge_so.Batch.Status.{pending, running, get_batch_status, BatchJobStatus}
use ml_engineer_challenge_so.Batch.Results.{outcome_at}
use ml_engineer_challenge_so.Batch.Lifecycle.{
  JobView, job, Run, started, published, returned, raising, Shows, AllShow, view,
}

-- The view that a published state shows.
abbrev pub progress_view : Progress → JobView
progress_view p = job running p.completed_items p.failed_items

module _ {H : Host} (N : Vision H) (settings : Settings) (models : ModelService H)
    (is_value_error : String → Bool) (options : BatchOptions)
    (respond : ℕ → String → Response) where
  open N use {F}

  abbrev outcome : ℕ → BatchItem → Result ItemFailure (List (Summary F))
  outcome = outcome_at N settings models is_value_error options respond

  abbrev loop : ℕ → ℕ → List BatchItem → Loop F → Loop F
  loop = process_items N settings models is_value_error options respond

  -- The states that the rounds publish.
  abbrev states : ℕ → ℕ → ℕ → ℕ → List BatchItem → List Progress
  states total index c f [] = []
  states total index c f (item ∷ items) =
      let c' = c + succeeded (outcome index item) in
      let f' = f + failed_one (outcome index item) in
      record {
        total_items = total;
        completed_items = c';
        failed_items = f';
        current_index = index + 1;
      }
      ∷ states total (suc index) c' f' items

-- What the polls of a job answer after it was started, where its task ends in this way.
abbrev pub IsPolled :
    (F : Type 0) → String → Result Raised (BatchSummary F × List Progress) → Type 0
IsPolled F job_id (err e) =
    Shows F job_id (started F) (job running 0 0)
    × ((b : BatchJobStatus F) × (get_batch_status job_id (raising F) ≡ ok b)
        × (b.has_error ≡ true)
        × Run (job pending 0 0) (job running 0 0 ∷ []) (view F b))
IsPolled F job_id (ok (summary, states)) =
    AllShow F job_id (started F ∷ map (published F) states)
      (job running 0 0 ∷ map progress_view states)
    × ((b : BatchJobStatus F) × (get_batch_status job_id (returned F summary) ≡ ok b)
        × (b.results ≡ some summary.results)
        × Run (job pending 0 0) (job running 0 0 ∷ map progress_view states) (view F b))
