-- ===== src/Batch/Status.antt =====
-- `get_batch_status` of api/routers/batch.py. The times of the response are left out.
use ml_engineer_challenge_so.Prelude.{
  ℕ, String, Bool, true, false, ◌&&◌, str_eq, if◌then◌else◌, List, [], ◌∷◌, Option, none, some,
  or_else, Result, ok, err,
}
use ml_engineer_challenge_so.Errors.{ApiError, error, text, job_not_found}
use ml_engineer_challenge_so.Models.{TaskType, classification}
use ml_engineer_challenge_so.Batch.Worker.{ItemResult, BatchSummary}

pub data JobStatus : Type 0 where
  pending running completed failed cancelled : JobStatus

-- `_STATE_MAP.get(state, JobStatus.PENDING)`
unfoldable pub job_status : String → JobStatus
job_status state =
    if str_eq state "PENDING"
    then pending
    else if str_eq state "RECEIVED"
    then pending
    else if str_eq state "STARTED"
    then running
    else if str_eq state "PROGRESS"
    then running
    else if str_eq state "RETRY"
    then running
    else if str_eq state "SUCCESS"
    then completed
    else if str_eq state "FAILURE"
    then failed
    else if str_eq state "REVOKED"
    then cancelled
    else pending

-- The counters of `result.info`, where that is a dict; a missing key is `none`.
pub record Info : Type 0 where
  pub total_items : Option ℕ
  pub completed_items : Option ℕ
  pub failed_items : Option ℕ

-- Celery's `AsyncResult`: the state, the `status` of the backend's record, `info` where it is a
-- dict, and `result` where the task has returned.
pub record AsyncResult (F : Type 0) : Type 0 where
  pub state : String
  pub meta_status : Option String
  pub info : Option Info
  pub result : Option (BatchSummary F)

pub record BatchJobStatus (F : Type 0) : Type 0 where
  pub job_id : String
  pub status : JobStatus
  pub task : TaskType
  pub total_items : ℕ
  pub completed_items : ℕ
  pub failed_items : ℕ
  pub results : Option (List (ItemResult F))
  pub has_error : Bool

no_info : Info
no_info = record { total_items = none; completed_items = none; failed_items = none }

no_batch : {F : Type 0} → BatchSummary F
no_batch = record {
  task = classification;
  total_items = 0;
  completed_items = 0;
  failed_items = 0;
  results = [];
}

-- `not meta.get("status")`: absent or empty
is_unknown : Option String → Bool
is_unknown none = true
is_unknown (some s) = str_eq s ""

module _ {F : Type 0} where
  counted : String → JobStatus → Bool → Info → BatchJobStatus F
  counted job_id status has_error info = record {
    job_id = job_id;
    status = status;
    task = classification;
    total_items = or_else info.total_items 0;
    completed_items = or_else info.completed_items 0;
    failed_items = or_else info.failed_items 0;
    results = none;
    has_error = has_error;
  }

  finished : String → BatchSummary F → BatchJobStatus F
  finished job_id payload = record {
    job_id = job_id;
    status = completed;
    task = payload.task;
    total_items = payload.total_items;
    completed_items = payload.completed_items;
    failed_items = payload.failed_items;
    results = some payload.results;
    has_error = false;
  }

  -- The response, by the status.
  unfoldable pub status_response : String → AsyncResult F → JobStatus → BatchJobStatus F
  unfolding no_info no_batch counted finished
  status_response job_id r completed = finished job_id (or_else r.result no_batch)
  status_response job_id r failed = counted job_id failed true (or_else r.info no_info)
  status_response job_id r pending = counted job_id pending false (or_else r.info no_info)
  status_response job_id r running = counted job_id running false (or_else r.info no_info)
  status_response job_id r cancelled = counted job_id cancelled false (or_else r.info no_info)

  unfoldable pub get_batch_status : String → AsyncResult F → Result ApiError (BatchJobStatus F)
  unfolding is_unknown
  get_batch_status job_id r =
      if str_eq r.state "PENDING" && is_unknown r.meta_status
      then err (error job_not_found (("job_id", text job_id) ∷ []))
      else ok (status_response job_id r (job_status r.state))
