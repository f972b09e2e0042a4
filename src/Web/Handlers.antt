-- ===== src/Web/Handlers.antt =====
-- The exception handlers and `_summarise_validation` of api/main.py. `shown` is `str` of a number.
use Prim.Native.String.{◌++◌ as concat}
use ml_engineer_challenge_so.Prelude.{
  ℕ, String, Bool, true, not, str_eq, if◌then◌else◌, List, [], ◌∷◌, map, keep, Option, some,
  or_else,
}
use ml_engineer_challenge_so.Prelude.Dict.{Dict, lookup}
use ml_engineer_challenge_so.Errors.{ApiError, rate_limit_exceeded, ErrorBody, number, to_dict}

-- One of Pydantic's errors: a part of `loc` is a name or an index.
pub data Part : Type 0 where
  field_name : String → Part
  index : ℕ → Part

pub record FieldError : Type 0 where
  pub loc : List Part
  pub msg : Option String

-- What the router raises, by the handler that FastAPI picks for it: `unexpected` carries the text
-- of the exception, for the log.
pub data Failure : Type 0 where
  api_failure : ApiError → Failure
  invalid : List FieldError → Failure
  http_exception : ℕ → String → Failure
  unexpected : String → Failure

-- The body of a response: the one of the route, or an error in the envelope.
pub data WebBody (B : Type 0) : Type 0 where
  payload : B → WebBody B
  api_body : ErrorBody → WebBody B
  validation_body : List (String × String) → Option String → WebBody B
  http_body : String → String → Option String → WebBody B
  internal_body : Option String → WebBody B

pub record WebResponse (B : Type 0) : Type 0 where
  pub status : ℕ
  pub body : WebBody B
  pub headers : Dict String

-- What a route returns.
pub record Returned (B : Type 0) : Type 0 where
  pub status : ℕ
  pub content : B
  pub headers : Dict String

abbrev is_field : Part → Bool
is_field (field_name s) = not (str_eq s "body")
is_field (index i) = true

module _ (shown : ℕ → String) where
  abbrev part_text : Part → String
  part_text (field_name s) = s
  part_text (index i) = shown i

  -- ".".join(...)
  joined : List Part → String
  joined [] = ""
  joined (p ∷ []) = part_text p
  joined (p ∷ q ∷ ps) = concat (part_text p) (concat "." (joined (q ∷ ps)))

  abbrev or_body : String → String
  or_body location = if str_eq location "" then "body" else location

  unfoldable pub summarise_validation : List FieldError → List (String × String)
  unfolding joined
  summarise_validation errors =
      map (λ e. (or_body (joined (keep is_field e.loc)), or_else e.msg "invalid")) errors

  -- `exc.retry_after_seconds`, which the class keeps among its details as well.
  retry_headers : ApiError → Dict String
  retry_headers e = elim e.kind [
    | rate_limit_exceeded ↦ elim (lookup "retry_after_seconds" e.details) [
      | some (number n) ↦ ("Retry-After", shown n) ∷ []
      | _ ↦ []
    ]
    | _ ↦ []
  ]

  module _ {B : Type 0} where
    unfoldable pub handle_api_error : ApiError → Option String → WebResponse B
    unfolding retry_headers
    handle_api_error e correlation_id = record {
      status = e.status_code;
      body = api_body (to_dict e correlation_id);
      headers = retry_headers e;
    }

    unfoldable pub handle_validation_error : List FieldError → Option String → WebResponse B
    handle_validation_error errors correlation_id = record {
      status = 422;
      body = validation_body (summarise_validation errors) correlation_id;
      headers = [];
    }

    unfoldable pub handle_http_exception : ℕ → String → Option String → WebResponse B
    handle_http_exception status_code detail correlation_id = record {
      status = status_code;
      body = http_body (concat "http_" (shown status_code)) detail correlation_id;
      headers = [];
    }

-- The text of the exception does not reach the body.
unfoldable pub handle_unexpected : {B : Type 0} → String → Option String → WebResponse B
handle_unexpected text correlation_id = record {
  status = 500;
  body = internal_body correlation_id;
  headers = [];
}
