-- ===== src/Web/Monitoring.antt =====
-- `MetricsMiddleware` and `_route_template` of api/middleware/monitoring.py. The durations and the
-- log line are left out: the histogram is its number of observations.
use Prim.Native.String.{◌++◌ as concat}
use ml_engineer_challenge_so.Prelude.{
  ℕ, String, Bool, str_eq, if◌then◌else◌, List, [], ◌∷◌, any, Option, none, some, or_else,
}
use ml_engineer_challenge_so.Web.Series.{Series, inc, dec, change}

pub record WebRequest : Type 0 where
  pub method : String
  pub path : String
  -- the header X-Correlation-ID, by its characters
  pub incoming : Option (List ℕ)

-- The matched route, with its attributes `path_format` and `path`.
pub record Route : Type 0 where
  pub path_format : Option String
  pub path : Option String

-- The instruments of the middleware.
pub record Monitor : Type 0 where
  pub in_progress : List Series
  pub latency : List Series
  pub requests : List Series

abbrev pub no_requests : Monitor
no_requests = record { in_progress = []; latency = []; requests = [] }

-- `a or b` on texts that may be missing
text_or : Option String → Option String → Option String
text_or none other = other
text_or (some s) other = if str_eq s "" then other else some s

attributes_of : Option Route → Option String
unfolding text_or
attributes_of none = none
attributes_of (some route) = text_or route.path_format route.path

-- `_route_template`
unfoldable pub route_template : Option Route → String
unfolding attributes_of text_or
route_template route = or_else (text_or (attributes_of route) none) "unmatched"

-- `exclude_paths`
unfoldable pub is_excluded : String → WebRequest → Bool
is_excluded prefix r = any (λ p. str_eq r.path p) (concat prefix "/metrics" ∷ "/health/live" ∷ [])

-- What runs before the request is handled.
unfoldable pub enter : WebRequest → Monitor → Monitor
enter r m = record m { in_progress = change inc (r.method ∷ r.path ∷ []) m.in_progress }

-- The `finally`, where `endpoint` is the template and `status_code` the text of the status.
unfoldable pub leave : WebRequest → String → String → Monitor → Monitor
leave r endpoint status_code m = record {
  in_progress = change dec (r.method ∷ r.path ∷ []) m.in_progress;
  latency = change inc (r.method ∷ endpoint ∷ []) m.latency;
  requests = change inc (r.method ∷ endpoint ∷ status_code ∷ []) m.requests;
}
