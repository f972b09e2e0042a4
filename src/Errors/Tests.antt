-- ===== src/Errors/Tests.antt =====
-- Runs of api/exceptions.py.
use ml_engineer_challenge_so.Prelude.{◌≡◌, refl, [], ◌∷◌, some}
use ml_engineer_challenge_so.Errors.{number, error, rate_limit_error, model_not_found, to_dict}

rate_limit_body : to_dict (rate_limit_error 7 10) (some "id") ≡ record {
  code = "rate_limit_exceeded";
  details = some (("limit_per_minute", number 10) ∷ ("retry_after_seconds", number 7) ∷ []);
  correlation_id = some "id";
}
unfolding rate_limit_error to_dict
rate_limit_body = refl

not_found_status : (error model_not_found []).status_code ≡ 404
unfolding error
not_found_status = refl
