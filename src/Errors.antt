-- ===== src/Errors.antt =====
-- api/exceptions.py: the application errors. The prose of a message is left out: clients branch
-- on the code, and the details carry the numbers that the prose repeats.
pub mod Tests
use ml_engineer_challenge_so.Prelude.{ℕ, String, List, [], ◌∷◌, ◌++◌, Option, none, some, or_else}
use ml_engineer_challenge_so.Prelude.Dict.{Dict, insert}

-- One constructor for each class of the hierarchy.
pub data ErrorKind : Type 0 where
  api_error validation_error invalid_image unsupported_format payload_too_large : ErrorKind
  batch_too_large authentication authorization rate_limit_exceeded model_not_found : ErrorKind
  job_not_found inference_error model_unavailable service_unavailable : ErrorKind

-- The class attribute `status_code`, inherited where a class does not set it.
unfoldable pub class_status : ErrorKind → ℕ
class_status api_error = 500
class_status validation_error = 422
class_status invalid_image = 422
class_status unsupported_format = 422
class_status payload_too_large = 413
class_status batch_too_large = 422
class_status authentication = 401
class_status authorization = 403
class_status rate_limit_exceeded = 429
class_status model_not_found = 404
class_status job_not_found = 404
class_status inference_error = 500
class_status model_unavailable = 503
class_status service_unavailable = 503

-- The class attribute `code`.
unfoldable pub class_code : ErrorKind → String
class_code api_error = "internal_error"
class_code validation_error = "validation_error"
class_code invalid_image = "invalid_image"
class_code unsupported_format = "unsupported_format"
class_code payload_too_large = "payload_too_large"
class_code batch_too_large = "batch_too_large"
class_code authentication = "authentication_required"
class_code authorization = "forbidden"
class_code rate_limit_exceeded = "rate_limit_exceeded"
class_code model_not_found = "model_not_found"
class_code job_not_found = "job_not_found"
class_code inference_error = "inference_failed"
class_code model_unavailable = "model_unavailable"
class_code service_unavailable = "service_unavailable"

-- A value in the `details` of an error.
pub data Detail : Type 0 where
  number : ℕ → Detail
  text : String → Detail
  texts : List String → Detail
  null : Detail

pub record ApiError : Type 0 where
  pub kind : ErrorKind
  pub status_code : ℕ
  pub code : String
  pub details : Dict Detail

-- `APIError.__init__`: the keyword arguments override the class attributes.
unfoldable pub init : ErrorKind → Dict Detail → Option String → Option ℕ → ApiError
unfolding class_status class_code
init kind details code status_code = record {
  kind = kind;
  status_code = or_else status_code (class_status kind);
  code = or_else code (class_code kind);
  details = details;
}

-- An exception of any class: one of the above, or another by its class name.
pub data Raised : Type 0 where
  application : ApiError → Raised
  builtin : String → Raised

-- A call that gives no override.
unfoldable pub error : ErrorKind → Dict Detail → ApiError
unfolding init
error kind details = init kind details none none

-- `RateLimitExceededError.__init__`, called with no further details.
unfoldable pub rate_limit_error : ℕ → ℕ → ApiError
unfolding error
rate_limit_error retry_after_seconds limit =
    error rate_limit_exceeded (
      ("limit_per_minute", number limit) ∷ ("retry_after_seconds", number retry_after_seconds) ∷ [])

-- The body of the response.
pub record ErrorBody : Type 0 where
  pub code : String
  pub details : Option (Dict Detail)
  pub correlation_id : Option String

abbrev non_empty : Dict Detail → Option (Dict Detail)
non_empty [] = none
non_empty (d ∷ ds) = some (d ∷ ds)

-- `to_dict`: empty details and a missing correlation id are left out.
unfoldable pub to_dict : ApiError → Option String → ErrorBody
to_dict e correlation_id = record {
  code = e.code;
  details = non_empty e.details;
  correlation_id = correlation_id;
}
