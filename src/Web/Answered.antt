-- ===== src/Web/Answered.antt =====
-- What a caller of the service in api/main.py receives, whatever its route does.
use ml_engineer_challenge_so.Prelude.{
  ℕ, zero, suc, ◌≤◌, String, Bool, true, false, not, ◌&&◌, if◌then◌else◌, List, [], ◌∷◌, any,
  length, length-take-le, Option, none, some, Result, ok, err, ◌≡◌, refl, ◌⊎◌, inl, inr, Bool-cases,
}
use ml_engineer_challenge_so.Prelude.Dict.{lookup, lookup-insert_self}
use ml_engineer_challenge_so.Errors.{to_dict}
use ml_engineer_challenge_so.Prelude.Int.{ℤ, pos, negsuc}
use ml_engineer_challenge_so.Web.Series.{
  LabelValues, Series, same_labels, inc, dec, change, value_of, value_of-change,
}
use ml_engineer_challenge_so.Web.Monitoring.{
  WebRequest, Monitor, route_template, is_excluded, enter, leave,
}
use ml_engineer_challenge_so.Web.Handlers.{
  WebResponse, Returned, WebBody, payload, api_body, validation_body, http_body, internal_body,
  Failure, api_failure, invalid, http_exception, unexpected, handle_api_error,
  handle_validation_error, handle_http_exception, handle_unexpected,
}
use ml_engineer_challenge_so.Web.{
  Router, adopted, is_space, handled, stamped, rescued, final_status, with_metrics, serve,
}

pub adopted-le :
    (incoming : Option (List ℕ)) (fresh : List ℕ)
    → length fresh ≤ 64
    → length (adopted incoming fresh) ≤ 64
unfolding adopted
adopted-le none fresh h = h
adopted-le (some incoming) fresh h = elim (Bool-cases (any (λ c. not (is_space c)) incoming)) [
  | inl e ↦ rw e (length-take-le 64 incoming)
  | inr e ↦ rw e h
]

module _ {B : Type 0} where
  -- The status that a caller is meant to see.
  abbrev pub status_for : Result Failure (Returned B) → ℕ
  status_for (ok r) = r.status
  status_for (err (api_failure e)) = e.status_code
  status_for (err (invalid errors)) = 422
  status_for (err (http_exception status detail)) = status
  status_for (err (unexpected text)) = 500

  abbrev pub is_unexpected : Result Failure (Returned B) → Bool
  is_unexpected (err (unexpected text)) = true
  is_unexpected _ = false

  -- The correlation id in the body of an error.
  abbrev pub quoted_id : WebBody B → Option (Option String)
  quoted_id (payload b) = none
  quoted_id (api_body e) = some e.correlation_id
  quoted_id (validation_body fields correlation_id) = some correlation_id
  quoted_id (http_body code message correlation_id) = some correlation_id
  quoted_id (internal_body correlation_id) = some correlation_id

  abbrev pub is_internal : WebBody B → Bool
  is_internal (internal_body correlation_id) = true
  is_internal _ = false

  -- The answer to an unexpected exception is one and the same whatever its text was.
  abbrev pub IsMasked : String → Result Failure (Returned B) → WebResponse B → Type 0
  IsMasked correlation_id (err (unexpected text)) response =
      response ≡ record { status = 500; body = internal_body (some correlation_id); headers = [] }
  IsMasked correlation_id _ response = is_internal response.body ≡ false

  -- The response to what a route did, for a request with this correlation id.
  pub record IsAnswer (correlation_id : String) (outcome : Result Failure (Returned B))
      (response : WebResponse B) : Type 0 where
    pub status : response.status ≡ status_for outcome
    pub header :
        lookup "X-Correlation-ID" response.headers
        ≡ (if is_unexpected outcome then none else some correlation_id)
    pub quoted :
        (quoted_id response.body ≡ none) ⊎ (quoted_id response.body ≡ some (some correlation_id))
    pub internal : IsMasked correlation_id outcome response

-- How the instruments have changed where a request with these labels is counted once.
pub record IsCounted (excluded : Bool) (path_labels latency_labels status_labels : LabelValues)
    (before after : Monitor) : Type 0 where
  pub gauge : (ls : LabelValues) → value_of ls after.in_progress ≡ value_of ls before.in_progress
  pub counted :
      (ls : LabelValues)
      → value_of ls after.requests ≡ (
          if not excluded && same_labels status_labels ls
          then inc (value_of ls before.requests)
          else value_of ls before.requests)
  pub observed :
      (ls : LabelValues)
      → value_of ls after.latency ≡ (
          if not excluded && same_labels latency_labels ls
          then inc (value_of ls before.latency)
          else value_of ls before.latency)

dec-inc : (n : ℤ) → dec (inc n) ≡ n
dec-inc (pos n) = refl
dec-inc (negsuc zero) = refl
dec-inc (negsuc (suc n)) = refl

value_of-dec-inc :
    (ls ms : LabelValues) (series : List Series)
    → value_of ms (change dec ls (change inc ls series)) ≡ value_of ms series
value_of-dec-inc ls ms series = elim (Bool-cases (same_labels ls ms)) [
  | inl e ↦
      rw (value_of-change dec ls ms (change inc ls series), value_of-change inc ls ms series, e)
        (dec-inc (value_of ms series))
  | inr e ↦
      rw (value_of-change dec ls ms (change inc ls series), value_of-change inc ls ms series, e)
        refl
]

leave-enter-IsCounted :
    (r : WebRequest) (endpoint status_code : String) (excluded : Bool) (m : Monitor)
    → IsCounted excluded
        (r.method ∷ r.path ∷ [])
        (r.method ∷ endpoint ∷ [])
        (r.method ∷ endpoint ∷ status_code ∷ [])
        m
        (if excluded then m else leave r endpoint status_code (enter r m))
unfolding leave enter
leave-enter-IsCounted r endpoint status_code true m = record {
  gauge = λ ls. refl;
  counted = λ ls. refl;
  observed = λ ls. refl;
}
leave-enter-IsCounted r endpoint status_code false m = record {
  gauge = λ ls. value_of-dec-inc (r.method ∷ r.path ∷ []) ls m.in_progress;
  counted = λ ls. value_of-change inc (r.method ∷ endpoint ∷ status_code ∷ []) ls m.requests;
  observed = λ ls. value_of-change inc (r.method ∷ endpoint ∷ []) ls m.latency;
}

module _ {B : Type 0} (A : Router B) where
  answer_of : List ℕ → Result Failure (Returned B) → WebResponse B
  unfolding rescued stamped handled
  answer_of correlation_id outcome =
      let bound = some (A.text_of correlation_id) in
      rescued A bound (stamped A correlation_id (handled A bound outcome))

  answer_of-IsAnswer :
      (correlation_id : List ℕ) (outcome : Result Failure (Returned B))
      → IsAnswer (A.text_of correlation_id) outcome (answer_of correlation_id outcome)
  unfolding answer_of rescued stamped handled handle_api_error handle_validation_error
      handle_http_exception handle_unexpected to_dict lookup
  answer_of-IsAnswer c (ok r) = record {
    status = refl;
    header = lookup-insert_self "X-Correlation-ID" (A.text_of c) r.headers;
    quoted = inl refl;
    internal = refl;
  }
  answer_of-IsAnswer c (err (api_failure e)) = record {
    status = refl;
    header = lookup-insert_self "X-Correlation-ID" (A.text_of c) _;
    quoted = inr refl;
    internal = refl;
  }
  answer_of-IsAnswer c (err (invalid errors)) = record {
    status = refl;
    header = lookup-insert_self "X-Correlation-ID" (A.text_of c) [];
    quoted = inr refl;
    internal = refl;
  }
  answer_of-IsAnswer c (err (http_exception status detail)) = record {
    status = refl;
    header = lookup-insert_self "X-Correlation-ID" (A.text_of c) [];
    quoted = inr refl;
    internal = refl;
  }
  answer_of-IsAnswer c (err (unexpected text)) = record {
    status = refl;
    header = refl;
    quoted = inr refl;
    internal = refl;
  }

  final_status-eq :
      (c : Option String) (outcome : Result Failure (Returned B))
      → final_status A (handled A c outcome) ≡ status_for outcome
  unfolding handled handle_api_error handle_validation_error handle_http_exception
  final_status-eq c (ok r) = refl
  final_status-eq c (err (api_failure e)) = refl
  final_status-eq c (err (invalid errors)) = refl
  final_status-eq c (err (http_exception status detail)) = refl
  final_status-eq c (err (unexpected text)) = refl

  -- Whatever its route does, a request is answered with the status that belongs to the outcome; the
  -- correlation id is at most 64 characters long where a fresh one is, stands in the body of every
  -- error, and in the header of every response but that to an unexpected exception; an unexpected
  -- exception, and nothing else, gives the internal error, whose status, body and headers are the
  -- same whatever its text is; unless the path is excluded, the counter of the method, the template
  -- and the status that was sent, and the histogram of the method and the template, count one more;
  -- no other series of theirs changes, and the gauge is as before the request.
  pub serve-IsAnswer :
      (r : WebRequest) (fresh : List ℕ) (m : Monitor)
      → length fresh ≤ 64
      → (length (adopted r.incoming fresh) ≤ 64)
        × IsAnswer (A.text_of (adopted r.incoming fresh)) (A.respond r) ((serve A r fresh m).0)
        × IsCounted
            (is_excluded A.prefix r)
            (r.method ∷ r.path ∷ [])
            (r.method ∷ route_template (A.route r) ∷ [])
            (r.method ∷ route_template (A.route r) ∷ A.shown (status_for (A.respond r)) ∷ [])
            m
            ((serve A r fresh m).1)
  unfolding serve with_metrics answer_of
  serve-IsAnswer r fresh m h =
      let c = adopted r.incoming fresh in
      let answer = answer_of-IsAnswer c (A.respond r) in
      (
        adopted-le r.incoming fresh h,
        answer,
        rw (final_status-eq (some (A.text_of c)) (A.respond r))
            (leave-enter-IsCounted r (route_template (A.route r)) _ (is_excluded A.prefix r) m),
      )
