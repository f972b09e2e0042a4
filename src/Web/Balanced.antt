-- ===== src/Web/Balanced.antt =====
-- The instruments of api/middleware/monitoring.py under requests that overlap.
use ml_engineer_challenge_so.Prelude.{
  ℕ, suc, String, true, ◌||◌, if◌then◌else◌, List, [], ◌∷◌, ◌++◌, All, All-imp, ◌≡◌, refl, ap, ◌∙◌,
  Bool-cases, inl, inr, arith,
}
use ml_engineer_challenge_so.Prelude.Int.{ℤ, pos}
use ml_engineer_challenge_so.Web.Series.{
  LabelValues, Series, same_labels, same_labels_refl, inc, dec, change, value_of, has_series,
  value_of-change, has_series-change,
}
use ml_engineer_challenge_so.Web.Monitoring.{WebRequest, Monitor, no_requests, enter, leave}

-- A request that was answered, with the texts that its counter is labelled by.
pub record Finished : Type 0 where
  pub request : WebRequest
  pub endpoint : String
  pub status_code : String

-- Requests that are measured begin and end in any order: those in flight, and those answered.
pub data Run : Monitor → List WebRequest → List Finished → Type 0 where
  idle : Run no_requests [] []
  begun :
      {m : Monitor} {flying : List WebRequest} {answered : List Finished} (r : WebRequest)
      → Run m flying answered
      → Run (enter r m) (r ∷ flying) answered
  ended :
      {m : Monitor} {answered : List Finished} (before after : List WebRequest) (r : WebRequest)
      (endpoint status_code : String)
      → Run m (before ++ r ∷ after) answered
      → Run
          (leave r endpoint status_code m)
          (before ++ after)
          (record { request = r; endpoint = endpoint; status_code = status_code } ∷ answered)

abbrev pub path_labels : WebRequest → LabelValues
path_labels r = r.method ∷ r.path ∷ []

abbrev pub latency_labels : Finished → LabelValues
latency_labels a = a.request.method ∷ a.endpoint ∷ []

abbrev pub status_labels : Finished → LabelValues
status_labels a = a.request.method ∷ a.endpoint ∷ a.status_code ∷ []

module _ {A : Type 0} (f : A → LabelValues) (ls : LabelValues) where
  -- How many have these labels.
  abbrev pub number_with : List A → ℕ
  number_with [] = 0
  number_with (a ∷ xs) =
      let rest = number_with xs in if same_labels (f a) ls then suc rest else rest

  number_with-append :
      (before after : List A) (a : A)
      → number_with (before ++ a ∷ after) ≡ (
          if same_labels (f a) ls
          then suc (number_with (before ++ after))
          else number_with (before ++ after))
  number_with-append [] after a = refl
  number_with-append (b ∷ before) after a = ground (arith, number_with-append before after a)

-- The gauge counts the requests in flight and each counter the requests answered, under all labels;
-- and the path of each request that was answered keeps its series in the gauge.
pub record IsBalanced (m : Monitor) (flying : List WebRequest) (answered : List Finished)
    : Type 0 where
  pub gauge :
      (ls : LabelValues) → value_of ls m.in_progress ≡ pos (number_with path_labels ls flying)
  pub counted :
      (ls : LabelValues) → value_of ls m.requests ≡ pos (number_with status_labels ls answered)
  pub observed :
      (ls : LabelValues) → value_of ls m.latency ≡ pos (number_with latency_labels ls answered)
  pub kept : All (λ a. has_series (path_labels a.request) m.in_progress ≡ true) answered

-- A series that is increased counts one more.
inc-counts :
    {A : Type 0} (f : A → LabelValues) (a : A) (xs : List A) (series : List Series)
    → ((ls : LabelValues) → value_of ls series ≡ pos (number_with f ls xs))
    → (ls : LabelValues) → value_of ls (change inc (f a) series) ≡ pos (number_with f ls (a ∷ xs))
inc-counts f a xs series h ls = elim (Bool-cases (same_labels (f a) ls)) [
  | inl e ↦ rw (value_of-change, e, h ls) refl
  | inr e ↦ rw (value_of-change, e, h ls) refl
]

dec-counts :
    {A : Type 0} (f : A → LabelValues) (a : A) (before after : List A) (series : List Series)
    → ((ls : LabelValues) → value_of ls series ≡ pos (number_with f ls (before ++ a ∷ after)))
    → (ls : LabelValues)
    → value_of ls (change dec (f a) series) ≡ pos (number_with f ls (before ++ after))
dec-counts f a before after series h ls = elim (Bool-cases (same_labels (f a) ls)) [
  | inl e ↦ rw (value_of-change, e, h ls, number_with-append f ls before after a) (rw e refl)
  | inr e ↦ rw (value_of-change, e, h ls, number_with-append f ls before after a) (rw e refl)
]

kept-change :
    (f : ℤ → ℤ) (ls : LabelValues) (series : List Series) (answered : List Finished)
    → All (λ a. has_series (path_labels a.request) series ≡ true) answered
    → All (λ a. has_series (path_labels a.request) (change f ls series) ≡ true) answered
kept-change f ls series answered h =
    All-imp (λ (a : Finished). has_series (path_labels a.request) series ≡ true)
      (λ (a : Finished). has_series (path_labels a.request) (change f ls series) ≡ true)
      (λ a e. has_series-change f ls (path_labels a.request) series ∙ ground arith) answered h

-- However requests overlap: the gauge shows under all labels how many requests are in flight, so it
-- returns to zero when none is; each answered request is counted once with its status and observed
-- once; and the path of every answered request still has its series in the gauge.
pub Run-IsBalanced :
    {m : Monitor} {flying : List WebRequest} {answered : List Finished}
    → Run m flying answered
    → IsBalanced m flying answered
unfolding enter leave
Run-IsBalanced idle = record {
  gauge = λ ls. unfold value_of in refl;
  counted = λ ls. unfold value_of in refl;
  observed = λ ls. unfold value_of in refl;
  kept = tt;
}
Run-IsBalanced (begun {m = m} {flying = flying} {answered = answered} r run) =
    let i = Run-IsBalanced run in
    record {
      gauge = inc-counts path_labels r flying m.in_progress i.gauge;
      counted = i.counted;
      observed = i.observed;
      kept = kept-change inc (path_labels r) m.in_progress answered i.kept;
    }
Run-IsBalanced (ended {m = m} {answered = answered} before after r endpoint status_code run) =
    let i = Run-IsBalanced run in
    let a : Finished = record { request = r; endpoint = endpoint; status_code = status_code } in
    record {
      gauge = dec-counts path_labels r before after m.in_progress i.gauge;
      counted = inc-counts status_labels a answered m.requests i.counted;
      observed = inc-counts latency_labels a answered m.latency i.observed;
      kept = (
        has_series-change dec (path_labels r) (path_labels r) m.in_progress
            ∙ ap (λ b. b || has_series (path_labels r) m.in_progress)
                (same_labels_refl (path_labels r)),
        kept-change dec (path_labels r) m.in_progress answered i.kept,
      );
    }
