-- ===== src/Web/Tests.antt =====
-- Requests through the middleware of api/middleware/monitoring.py.
use ml_engineer_challenge_so.Prelude.{ℕ, ◌≤◌, String, [], ◌∷◌, length, none, some, err, arith}
use ml_engineer_challenge_so.Web.{Router, adopted, serve}
use ml_engineer_challenge_so.Web.Monitoring.{
  WebRequest, Monitor, no_requests, is_excluded, enter, leave, route_template,
}
use ml_engineer_challenge_so.Web.Handlers.{unexpected}
use ml_engineer_challenge_so.Web.Balanced.{
  Finished, Run, idle, begun, ended, IsBalanced, Run-IsBalanced,
}
use ml_engineer_challenge_so.Web.Answered.{IsAnswer, IsCounted, serve-IsAnswer}

abbrev job : String → WebRequest
job path = record { method = "GET"; path = path; incoming = some (32 ∷ 65 ∷ []) }

abbrev finished_job : String → Finished
finished_job path = record {
  request = job path;
  endpoint = "/api/v1/jobs/{job_id}";
  status_code = "200";
}

-- Two jobs are asked for, and the first one is answered last.
abbrev after_two : Monitor
after_two = leave (job "/api/v1/jobs/1") "/api/v1/jobs/{job_id}" "200" (
    leave (job "/api/v1/jobs/2") "/api/v1/jobs/{job_id}" "200"
      (enter (job "/api/v1/jobs/2") (enter (job "/api/v1/jobs/1") no_requests)))

abbrev both : Run after_two [] (finished_job "/api/v1/jobs/1" ∷ finished_job "/api/v1/jobs/2" ∷ [])
both = ended [] [] (job "/api/v1/jobs/1") "/api/v1/jobs/{job_id}" "200" (
    ended [] (job "/api/v1/jobs/1" ∷ []) (job "/api/v1/jobs/2") "/api/v1/jobs/{job_id}" "200"
      (begun (job "/api/v1/jobs/2") (begun (job "/api/v1/jobs/1") idle)))

Run-IsBalanced_example :
    IsBalanced after_two [] (finished_job "/api/v1/jobs/1" ∷ finished_job "/api/v1/jobs/2" ∷ [])
Run-IsBalanced_example = Run-IsBalanced both

-- A service whose routes always raise.
abbrev broken : Router ℕ
broken = record {
  route = λ r. none;
  respond = λ r. err (unexpected "division by zero");
  shown = λ n. "500";
  text_of = λ cs. "A";
  prefix = "/api/v1";
}

serve-IsAnswer_example :
    (length (adopted (some (32 ∷ 65 ∷ [])) []) ≤ 64)
    × IsAnswer "A"
        (err (unexpected "division by zero"))
        ((serve broken (job "/api/v1/detect") [] no_requests).0)
    × IsCounted
        (is_excluded "/api/v1" (job "/api/v1/detect"))
        ("GET" ∷ "/api/v1/detect" ∷ [])
        ("GET" ∷ route_template none ∷ [])
        ("GET" ∷ route_template none ∷ "500" ∷ [])
        no_requests
        ((serve broken (job "/api/v1/detect") [] no_requests).1)
serve-IsAnswer_example = serve-IsAnswer broken (job "/api/v1/detect") [] no_requests (omega arith)
