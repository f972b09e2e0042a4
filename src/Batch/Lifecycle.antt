-- ===== src/Batch/Lifecycle.antt =====
-- The job that a client of api/routers/batch.py polls, against the run of worker/tasks.py.
use ml_engineer_challenge_so.Prelude.{ℕ, ◌+◌, ◌≡◌, refl, String, List, [], ◌∷◌, map, none, some, ok}
use ml_engineer_challenge_so.Batch.Worker.{Progress, BatchSummary}
use ml_engineer_challenge_so.Batch.Status.{
  JobStatus, pending, running, completed, failed, AsyncResult, BatchJobStatus, get_batch_status,
  status_response, job_status,
}

-- What a client is promised: a job waits, runs, and completes; while it runs, each change adds one
-- item to those that succeeded or to those that failed, and completion changes neither number. A job
-- that cannot start its items fails.
pub record JobView : Type 0 where
  pub status : JobStatus
  pub completed_items : ℕ
  pub failed_items : ℕ

abbrev pub job : JobStatus → ℕ → ℕ → JobView
job status c f = record { status = status; completed_items = c; failed_items = f }

pub data Advance : JobView → JobView → Type 0 where
  begins : Advance (job pending 0 0) (job running 0 0)
  item_succeeds : (c f : ℕ) → Advance (job running c f) (job running (c + 1) f)
  item_fails : (c f : ℕ) → Advance (job running c f) (job running c (f + 1))
  aborts : Advance (job running 0 0) (job failed 0 0)
  ends : (c f : ℕ) → Advance (job running c f) (job completed c f)

-- A run from `v` through `vs` to `w`.
abbrev pub Run : JobView → List JobView → JobView → Type 0
Run v [] w = Advance v w
Run v (u ∷ vs) w = Advance v u × Run u vs w

-- What Celery's backend holds for a task that waits, has started, has published a state, has
-- returned, or has raised.
module _ (F : Type 0) where
  abbrev pub waiting : AsyncResult F
  waiting = record { state = "PENDING"; meta_status = some "PENDING"; info = none; result = none }

  abbrev pub started : AsyncResult F
  started = record {
    state = "STARTED";
    meta_status = some "STARTED";
    info = some (record { total_items = none; completed_items = none; failed_items = none });
    result = none;
  }

  abbrev pub published : Progress → AsyncResult F
  published p = record {
    state = "PROGRESS";
    meta_status = some "PROGRESS";
    info = some (record {
      total_items = some p.total_items;
      completed_items = some p.completed_items;
      failed_items = some p.failed_items;
    });
    result = none;
  }

  abbrev pub returned : BatchSummary F → AsyncResult F
  returned s = record {
    state = "SUCCESS";
    meta_status = some "SUCCESS";
    info = none;
    result = some s;
  }

  -- A task that has raised: `info` is the exception.
  abbrev pub raising : AsyncResult F
  raising = record { state = "FAILURE"; meta_status = some "FAILURE"; info = none; result = none }

  -- What a poll answers.
  abbrev pub view : BatchJobStatus F → JobView
  view r = job r.status r.completed_items r.failed_items

  -- The poll answers, and shows this view.
  abbrev pub Shows : String → AsyncResult F → JobView → Type 0
  Shows job_id r v = (b : BatchJobStatus F) × (get_batch_status job_id r ≡ ok b) × (view b ≡ v)

  -- Each of the backend's records shows the view at its place.
  abbrev pub AllShow : String → List (AsyncResult F) → List JobView → Type 0
  AllShow job_id [] [] = Unit
  AllShow job_id [] (v ∷ vs) = ⊥
  AllShow job_id (r ∷ rs) [] = ⊥
  AllShow job_id (r ∷ rs) (v ∷ vs) = Shows job_id r v × AllShow job_id rs vs

  published-Shows :
      (job_id : String) (p : Progress)
      → Shows job_id (published p) (job running p.completed_items p.failed_items)
  unfolding get_batch_status status_response job_status
  published-Shows job_id p = (_, refl, refl)

  pub progress-AllShow :
      (job_id : String) (ps : List Progress)
      → AllShow job_id
          (map published ps)
          (map (λ p. job running p.completed_items p.failed_items) ps)
  progress-AllShow job_id [] = tt
  progress-AllShow job_id (p ∷ ps) = (published-Shows job_id p, progress-AllShow job_id ps)
