-- ===== src/Batch/Queued.antt =====
-- What api/routers/batch.py lets into the queue of the worker.
use ml_engineer_challenge_so.Prelude.{
  ◌*◌, ◌≤◌, ◌≡◌, refl, arith, Bool, true, false, ◌||◌, not, ltb, List, [], ◌∷◌, ◌++◌, length, all,
  All, All-append, Result, ok, >>-eq-ok, >>=-eq-ok, raise_if-eq-ok, Bool-cases, inl, inr, subst,
  sym, is_ok,
}
use ml_engineer_challenge_so.Config.{Settings}
use ml_engineer_challenge_so.Errors.{ApiError}
use ml_engineer_challenge_so.RateLimit.{RateLimitDecision}
use ml_engineer_challenge_so.Batch.Worker.{BatchItem}
use ml_engineer_challenge_so.Batch.Submission.{
  BatchRequest, QueuedBatch, queued_job, has_http_scheme, parse_request, enqueue, submit_batch,
  is_empty, callback_ok, options_ok,
}

-- A job that a worker may run: it fetches by HTTP only, and its size is within the limit.
pub record IsAdmitted (settings : Settings) (job : QueuedBatch) : Type 0 where
  pub some_item : 1 ≤ length job.items
  pub bounded : length job.items ≤ settings.max_batch_size * 10
  pub http_only : All (λ item. has_http_scheme item.image_url ≡ true) job.items

all-All : {A : Type 0} (p : A → Bool) (xs : List A) → all p xs ≡ true → All (λ a. p a ≡ true) xs
all-All p [] h = tt
all-All p (x ∷ xs) h = (ground arith, all-All p xs (ground arith))

not_empty : (items : List BatchItem) → is_empty items ≡ false → 1 ≤ length items
unfolding is_empty
not_empty [] h = absurd (cc h)
not_empty (item ∷ items) h = omega arith

-- The last tests of the body's validation.
parse_request-ok :
    (payload : BatchRequest)
    → parse_request payload ≡ ok tt
    → (1 ≤ length payload.items) × All (λ item. has_http_scheme item.image_url ≡ true) payload.items
unfolding parse_request
parse_request-ok payload h =
    let empty = is_empty payload.items in
    let http = all (λ item. has_http_scheme item.image_url) payload.items in
    let passed =
      raise_if-eq-ok
        (empty
          || not http
          || not (callback_ok payload.callback_url)
          || not (options_ok payload.classification_options))
        _ h in
    let filled : empty ≡ false = ground arith in
    let schemes : http ≡ true = ground arith in
    (
      not_empty payload.items filled,
      all-All (λ item. has_http_scheme item.image_url) payload.items schemes,
    )

enqueue-ok :
    (settings : Settings) (payload : BatchRequest) (queue queue' : List QueuedBatch)
    → enqueue settings payload queue ≡ ok queue'
    → (length payload.items ≤ settings.max_batch_size * 10)
      × (queue ++ (queued_job payload ∷ []) ≡ queue')
unfolding enqueue
enqueue-ok settings payload queue queue' h =
    elim (Bool-cases (ltb (settings.max_batch_size * 10) (length payload.items))) [
      | inl over ↦ absurd (cc (rw over at h))
      | inr fits ↦ (ground arith, cc (rw fits at h))
    ]

-- An accepted submission passed the rate limiter and appends one job, with its own items, to a
-- queue that it leaves as it is otherwise; if every job in the queue fetches by HTTP or HTTPS
-- only, is not empty and has at most ten times the batch size, that still holds of every job. A
-- submission that the limiter refuses is not accepted.
pub submit_batch-IsAdmitted :
    (settings : Settings) (decision : Result ApiError RateLimitDecision) (payload : BatchRequest)
    (queue queue' : List QueuedBatch)
    → All (IsAdmitted settings) queue
    → submit_batch settings decision payload queue ≡ ok queue'
    → All (IsAdmitted settings) queue'
      × (queue' ≡ queue ++ (queued_job payload ∷ []))
      × ((queued_job payload).items ≡ payload.items)
      × (is_ok decision ≡ true)
unfolding submit_batch queued_job
submit_batch-IsAdmitted settings decision payload queue queue' old h =
    let (parsed, rest) = >>-eq-ok (parse_request payload) _ h in
    let (filled, http) = parse_request-ok payload parsed in
    let (admitted, allowed, sent) = >>=-eq-ok decision _ rest in
    let (bounded, same) = enqueue-ok settings payload queue queue' sent in
    let job : IsAdmitted settings (queued_job payload) = record {
      some_item = filled;
      bounded = bounded;
      http_only = http;
    } in
    (
      subst (All (IsAdmitted settings)) same
          (All-append (IsAdmitted settings) queue (queued_job payload ∷ []) old (job, tt)),
      sym same,
      refl,
      rw allowed refl,
    )
