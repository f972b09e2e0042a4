-- ===== src/Batch.antt =====
-- worker/tasks.py: fetching an image, and the error object of an item. `Batch.Worker` has the task,
-- `Batch.Submission` and `Batch.Status` the two routes of api/routers/batch.py.
pub mod Fetching
pub mod Worker
pub mod Results
pub mod Submission
pub mod Queued
pub mod Status
pub mod Lifecycle
pub mod Polling
pub mod Tests
use ml_engineer_challenge_so.Prelude.{
  ℕ, String, Bool, true, false, ltb, if◌then◌else◌, List, [], ◌++◌, length, Option, none, some,
  Result, ok, err, ◌>>=◌, ◌>>◌, raise_if,
}
use ml_engineer_challenge_so.Errors.{ApiError, Raised, application, builtin}
use ml_engineer_challenge_so.Uploads.{Bytes}

-- The exceptions that a round of the worker's loop meets: the service's, and those of httpx.
pub data ItemFailure : Type 0 where
  raised : Raised → ItemFailure
  http_status : ℕ → ItemFailure
  request_error : ItemFailure

-- The rest of a response: its end, a connection that breaks, or a chunk and the rest.
pub data Body : Type 0 where
  finished broken : Body
  chunk : Bytes → Body → Body

-- What `client.stream` gives for a URL. The declared length is absent, no number for `int`, or a
-- number; a negative one is below every limit and stands as 0.
pub data Declared : Type 0 where
  absent malformed : Declared
  declared : ℕ → Declared

pub data Response : Type 0 where
  unreachable : Response
  -- a status for which `raise_for_status` raises; redirects are not followed and are such
  refused : ℕ → Response
  streamed : Declared → Body → Response

abbrev value_error : ItemFailure
value_error = raised (builtin "ValueError")

check_declared : Declared → ℕ → Result ItemFailure (Unit {0})
check_declared absent max_bytes = ok tt
check_declared malformed max_bytes = err value_error
check_declared (declared n) max_bytes = raise_if (ltb max_bytes n) value_error

-- The loop over `iter_bytes`.
unfoldable pub receive : ℕ → Bytes → Body → Result ItemFailure Bytes
receive max_bytes buffer finished = ok buffer
receive max_bytes buffer broken = err request_error
receive max_bytes buffer (chunk bytes rest) =
    let buffer' = buffer ++ bytes in
    let received = receive max_bytes buffer' rest in
    if ltb max_bytes (length buffer') then err value_error else received

-- `_fetch_image`, on the response for its URL.
unfoldable pub fetch_image : Response → ℕ → Result ItemFailure Bytes
unfolding check_declared
fetch_image unreachable max_bytes = err request_error
fetch_image (refused status) max_bytes = err (http_status status)
fetch_image (streamed length body) max_bytes = do
  check_declared length max_bytes
  receive max_bytes [] body

-- The text of the error object, by what it is made from.
pub data Message : Type 0 where
  curated : ApiError → Message
  returned_http : ℕ → Message
  not_reached not_processed : Message
  exception_text : Raised → Message

pub record ErrorObject : Type 0 where
  pub code : String
  pub message : Message

-- `isinstance(exc, ValueError)`, by the class's name.
describe_raised : (String → Bool) → Raised → ErrorObject
describe_raised is_value_error (application e) = record { code = e.code; message = curated e }
describe_raised is_value_error (builtin name) =
    if is_value_error name
    then record { code = "invalid_image"; message = exception_text (builtin name) }
    else record { code = "internal_error"; message = not_processed }

-- `_describe_error`
unfoldable pub describe_error : (String → Bool) → ItemFailure → ErrorObject
unfolding describe_raised
describe_error is_value_error (raised e) = describe_raised is_value_error e
describe_error is_value_error (http_status status) = record {
  code = "fetch_failed";
  message = returned_http status;
}
describe_error is_value_error request_error = record {
  code = "fetch_failed";
  message = not_reached;
}
