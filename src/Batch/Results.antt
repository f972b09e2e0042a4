-- ===== src/Batch/Results.antt =====
-- The results and the counters of `process_batch` of worker/tasks.py.
use mathlib.Core.List.{append_assoc, append-nil}
use ml_engineer_challenge_so.Prelude.{
  ℕ, suc, ◌+◌, ◌≤◌, ◌≡◌, refl, sym, ◌∙◌, String, Bool, List, [], ◌∷◌, ◌++◌, length, length-append,
  All, All-append, Result, ok, err, arith, subst, some, none, str_eq, if◌then◌else◌,
}
use ml_engineer_challenge_so.Config.{Settings}
use ml_engineer_challenge_so.Models.{Host, ModelService, TaskType}
use ml_engineer_challenge_so.Inference.{Vision}
use ml_engineer_challenge_so.Batch.{ItemFailure, Response, describe_error}
use ml_engineer_challenge_so.Batch.Worker.{
  BatchItem, BatchOptions, ItemResult, Progress, Loop, Summary, succeeded, failed_one, process_item,
  item_result, round, process_items, run_items, process_batch,
}

-- A published state: what it counts adds up to its index, which is within the batch.
abbrev pub IsMeasured : ℕ → Progress → Type 0
IsMeasured total p =
    (p.completed_items + p.failed_items ≡ p.current_index)
    × (1 ≤ p.current_index)
    × (p.current_index ≤ total)
    × (p.total_items ≡ total)

-- How many of the results have this status.
abbrev pub number_with_status : {F : Type 0} → String → List (ItemResult F) → ℕ
number_with_status status [] = 0
number_with_status status (r ∷ rs) =
    let rest = number_with_status status rs in if str_eq r.status status then suc rest else rest

module _ {H : Host} (N : Vision H) (settings : Settings) (models : ModelService H)
    (is_value_error : String → Bool) (options : BatchOptions)
    (respond : ℕ → String → Response) where
  open N use {F}

  -- What the item at `index` gives by itself.
  abbrev pub outcome_at : ℕ → BatchItem → Result ItemFailure (List (Summary F))
  outcome_at index item =
      process_item N settings models is_value_error options (respond index item.image_url)

  -- Each item handled by itself, in order.
  abbrev each : ℕ → List BatchItem → List (ItemResult F)
  each index [] = []
  each index (item ∷ items) =
      item_result N settings models is_value_error options item (outcome_at index item)
      ∷ each (suc index) items

  -- How many of the items succeed by themselves.
  abbrev successes : ℕ → List BatchItem → ℕ
  successes index [] = 0
  successes index (item ∷ items) = succeeded (outcome_at index item) + successes (suc index) items

  process_items-results :
      (total index : ℕ) (items : List BatchItem) (s : Loop F)
      → ((process_items N settings models is_value_error options respond total index items
            s).results
          ≡ s.results ++ each index items)
        × ((process_items N settings models is_value_error options respond total index items
              s).completed
            ≡ s.completed + successes index items)
  unfolding process_items round
  process_items-results total index [] s = (sym (append-nil s.results), omega arith)
  process_items-results total index (item ∷ items) s =
      let s' =
        round N settings models is_value_error options total index item (outcome_at index item) s in
      let (rs, c) = process_items-results total (suc index) items s' in
      (rs ∙ append_assoc s.results _ _, omega (arith, c))

  one_outcome : {A : Type 0} (r : Result ItemFailure A) → succeeded r + failed_one r ≡ 1
  one_outcome (ok a) = omega arith
  one_outcome (err e) = omega arith

  process_items-counts :
      (total index : ℕ) (items : List BatchItem) (s : Loop F)
      → s.completed + s.failed ≡ index
      → index + length items ≡ total
      → All (IsMeasured total) s.published
      → ((process_items N settings models is_value_error options respond total index items
              s).completed
            + (process_items N settings models is_value_error options respond total index items
                s).failed
          ≡ total)
        × All
            (IsMeasured total)
            (process_items N settings models is_value_error options respond total index items
              s).published
        × (length
              (process_items N settings models is_value_error options respond total index items
                s).published
            ≡ length s.published + length items)
  unfolding process_items round
  process_items-counts total index [] s here ends measured = (omega arith, measured, omega arith)
  process_items-counts total index (item ∷ items) s here ends measured =
      let outcome = outcome_at index item in
      let s' = round N settings models is_value_error options total index item outcome s in
      let counted = one_outcome outcome in
      let p : Progress = record {
        total_items = total;
        completed_items = s.completed + succeeded outcome;
        failed_items = s.failed + failed_one outcome;
        current_index = index + 1;
      } in
      let more : All (IsMeasured total) (s.published ++ (p ∷ [])) =
        All-append (IsMeasured total) s.published (p ∷ []) measured
          ((omega arith, omega arith, omega arith, refl), tt) in
      let (sum, all, count) =
        process_items-counts total (suc index) items s' (omega arith) (omega arith) more in
      (sum, all, omega (arith, count, length-append s.published (p ∷ [])))

  -- What a result says of its item, from what that item gives by itself.
  abbrev pub Reports : BatchItem → Result ItemFailure (List (Summary F)) → ItemResult F → Type 0
  Reports item (ok summary) r =
      (r.item_id ≡ item.item_id)
      × (r.image_url ≡ item.image_url)
      × (r.status ≡ "succeeded")
      × (r.result ≡ some summary)
      × (r.error ≡ none)
  Reports item (err e) r =
      (r.item_id ≡ item.item_id)
      × (r.image_url ≡ item.image_url)
      × (r.status ≡ "failed")
      × (r.result ≡ none)
      × (r.error ≡ some (describe_error is_value_error e))

  -- One result for each item, in order.
  abbrev pub AllReport : ℕ → List BatchItem → List (ItemResult F) → Type 0
  AllReport index [] [] = Unit
  AllReport index [] (r ∷ rs) = ⊥
  AllReport index (item ∷ items) [] = ⊥
  AllReport index (item ∷ items) (r ∷ rs) =
      Reports item (outcome_at index item) r × AllReport (suc index) items rs

  item_result-Reports :
      (item : BatchItem) (o : Result ItemFailure (List (Summary F)))
      → Reports item o (item_result N settings models is_value_error options item o)
  unfolding item_result
  item_result-Reports item (ok summary) = (refl, refl, refl, refl, refl)
  item_result-Reports item (err e) = (refl, refl, refl, refl, refl)

  each-AllReport : (index : ℕ) (items : List BatchItem) → AllReport index items (each index items)
  each-AllReport index [] = tt
  each-AllReport index (item ∷ items) =
      (item_result-Reports item (outcome_at index item), each-AllReport (suc index) items)

  number_with_status-result :
      (item : BatchItem) (o : Result ItemFailure (List (Summary F))) (rs : List (ItemResult F))
      → let all = item_result N settings models is_value_error options item o ∷ rs in
        (number_with_status "succeeded" all ≡ succeeded o + number_with_status "succeeded" rs)
        × (number_with_status "failed" all ≡ failed_one o + number_with_status "failed" rs)
  unfolding item_result
  number_with_status-result item (ok summary) rs = ground arith
  number_with_status-result item (err e) rs = ground arith

  each-counts :
      (index : ℕ) (items : List BatchItem)
      → (number_with_status "succeeded" (each index items) ≡ successes index items)
        × (number_with_status "failed" (each index items) + successes index items ≡ length items)
  each-counts index [] = (refl, refl)
  each-counts index (item ∷ items) =
      let outcome = outcome_at index item in
      let (wins, losses) = number_with_status-result item outcome (each (suc index) items) in
      let (won, lost) = each-counts (suc index) items in
      (omega (arith, wins, won), omega (arith, losses, lost, one_outcome outcome))

  -- Once its services and settings are there, a batch reports one result for each item, in the
  -- order of the items, made from that item alone: where the item succeeds by itself, the status
  -- "succeeded" with its summary and no error, and else the status "failed" with no summary and
  -- the description of its error. `completed_items` is the number of results with the status
  -- "succeeded" and `failed_items` that of those with the status "failed"; together they are
  -- `total_items`, the number of items. One state is published for each item, and its counters add
  -- up to its index, which is within the total.
  pub process_batch-each :
      (task : TaskType) (items : List BatchItem)
      → let (summary, states) =
          run_items N settings models is_value_error options respond task items in
        (process_batch N is_value_error options respond (ok models) (ok settings) task items
          ≡ ok (summary, states))
        × AllReport 0 items summary.results
        × (summary.completed_items ≡ number_with_status "succeeded" summary.results)
        × (summary.failed_items ≡ number_with_status "failed" summary.results)
        × (summary.completed_items + summary.failed_items ≡ length items)
        × (summary.total_items ≡ length items)
        × All (IsMeasured (length items)) states
        × (length states ≡ length items)
  unfolding process_batch run_items
  process_batch-each task items =
      let start : Loop F = record { results = []; completed = 0; failed = 0; published = [] } in
      let (rs, c) = process_items-results (length items) 0 items start in
      let (sum, all, count) =
        process_items-counts (length items) 0 items start (omega arith) (omega arith) tt in
      let (won, lost) = each-counts 0 items in
      (
        refl,
        subst (AllReport 0 items) (sym rs) (each-AllReport 0 items),
        rw rs (omega (arith, c, won)),
        rw rs (omega (arith, c, sum, lost)),
        sum,
        refl,
        all,
        omega (arith, count),
      )
