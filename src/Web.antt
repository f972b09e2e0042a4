-- ===== src/Web.antt =====
-- A request through the middleware of api/middleware/monitoring.py and the handlers of api/main.py.
-- Starlette runs the handler of `Exception` outside all middleware, the other handlers inside, and
-- the middleware in the reverse order of its registration; CORS is left out.
pub mod Series
pub mod Monitoring
pub mod Handlers
pub mod Balanced
pub mod Answered
pub mod Tests
use ml_engineer_challenge_so.Prelude.{
  ℕ, ◌==◌, leb, String, Bool, true, false, not, ◌&&◌, ◌||◌, if◌then◌else◌, List, [], ◌∷◌, any, take,
  Option, none, some, Result, ok, err,
}
use ml_engineer_challenge_so.Prelude.Dict.{Dict, insert}
use Monitoring.{WebRequest, Route, Monitor, route_template, is_excluded, enter, leave}
use Handlers.{
  WebResponse, Returned, payload, Failure, api_failure, invalid, http_exception, unexpected,
  handle_api_error, handle_validation_error, handle_http_exception, handle_unexpected,
}

-- The whitespace that `str.strip` removes, among the characters that a header can hold.
abbrev is_space : ℕ → Bool
is_space c = (leb 9 c && leb c 13) || (leb 28 c && leb c 32) || c == 133 || c == 160

-- `incoming[:64] if incoming and incoming.strip() else new_correlation_id()`
unfoldable pub adopted : Option (List ℕ) → List ℕ → List ℕ
adopted none fresh = fresh
adopted (some incoming) fresh =
    if any (λ c. not (is_space c)) incoming then take 64 incoming else fresh

-- The router, as FastAPI runs it: the route that it matches, and the response of the route or what
-- the route raises. `shown` is `str` of a number and `text_of` the text of its characters.
pub record Router (B : Type 0) : Type 0 where
  pub route : WebRequest → Option Route
  pub respond : WebRequest → Result Failure (Returned B)
  pub shown : ℕ → String
  pub text_of : List ℕ → String
  pub prefix : String

module _ {B : Type 0} (A : Router B) where
  -- The handlers inside the middleware.
  handled : Option String → Result Failure (Returned B) → Result String (WebResponse B)
  handled correlation_id (ok r) =
      ok (record { status = r.status; body = payload r.content; headers = r.headers })
  handled correlation_id (err (api_failure e)) = ok (handle_api_error A.shown e correlation_id)
  handled correlation_id (err (invalid errors)) =
      ok (handle_validation_error A.shown errors correlation_id)
  handled correlation_id (err (http_exception status detail)) =
      ok (handle_http_exception A.shown status detail correlation_id)
  handled correlation_id (err (unexpected text)) = err text

  -- `status_code` at the `finally`.
  abbrev pub final_status : Result String (WebResponse B) → ℕ
  final_status (ok response) = response.status
  final_status (err text) = 500

  -- `MetricsMiddleware.dispatch`
  unfoldable pub with_metrics :
      WebRequest → Result String (WebResponse B) → Monitor → Result String (WebResponse B) × Monitor
  with_metrics r outcome m =
      let endpoint = route_template (A.route r) in
      let counted = leave r endpoint (A.shown (final_status outcome)) (enter r m) in
      (outcome, if is_excluded A.prefix r then m else counted)

  -- `CorrelationMiddleware.dispatch`: the header is set on a response, and an exception passes.
  stamped : List ℕ → Result String (WebResponse B) → Result String (WebResponse B)
  stamped correlation_id (ok response) = ok (record response {
    headers = insert "X-Correlation-ID" (A.text_of correlation_id) response.headers;
  })
  stamped correlation_id (err text) = err text

  rescued : Option String → Result String (WebResponse B) → WebResponse B
  rescued correlation_id (ok response) = response
  rescued correlation_id (err text) = handle_unexpected text correlation_id

  -- A request, with `fresh` for `new_correlation_id()`.
  unfoldable pub serve : WebRequest → List ℕ → Monitor → WebResponse B × Monitor
  unfolding handled stamped rescued
  serve r fresh m =
      let correlation_id = adopted r.incoming fresh in
      let bound = some (A.text_of correlation_id) in
      let through = with_metrics r (handled bound (A.respond r)) m in
      (rescued bound (stamped correlation_id (through.0)), through.1)
