-- ===== src/Training/Bounded.antt =====
-- The counters of the loop over the batches of models/training/pipeline.py.
use ml_engineer_challenge_so.Prelude.{
  ℕ, ◌+◌, Bool, true, false, ◌&&◌, ltb, leb, if◌then◌else◌, List, [], ◌∷◌, Result, ok, err, ◌>>=◌,
  Ensures, raises, returns, bind-Ensures, if-Ensures, Ensures-eq-ok, ◌≡◌, refl, sym, ap, ◌∙◌,
  Bool-cases, inl, inr, arith,
}
use ml_engineer_challenge_so.Errors.{Raised}
use ml_engineer_challenge_so.Training.{
  TrainBatch, LoopConfig, LoopState, max_consecutive_nan, evaluate, step_schedulers, is_due,
  counts_batches, stepped, synced, skip_batch, signalled, accumulated, train_batch, subset_done,
  ends_loop, train_batches, start_epoch,
}

module _ (c : LoopConfig) (first : ℕ) where
  -- The counters within an epoch that began at the step `first`: the steps are counted alike, they
  -- are no more than the subset where one is set, and the run of losses that are not finite is
  -- shorter than the limit.
  pub record IsWithin (s : LoopState) : Type 0 where
    pub steps : s.epoch_batch_idx ≡ s.num_steps
    pub total : s.global_batch_idx ≡ first + s.num_steps
    pub subset : (ltb 0 c.train_subset && ltb c.train_subset s.num_steps) ≡ false
    pub run : ltb s.consecutive_nan_count max_consecutive_nan ≡ true

  -- The counters of a state with one step more.
  Steps : LoopState → LoopState → Type 0
  Steps s t =
      (t.num_steps ≡ s.num_steps + 1)
      × (t.epoch_batch_idx ≡ s.epoch_batch_idx + 1)
      × (t.global_batch_idx ≡ s.global_batch_idx + 1)
      × (t.consecutive_nan_count ≡ s.consecutive_nan_count)

  stepped-Steps : (s : LoopState) → Steps s (stepped c s)
  unfolding Steps stepped step_schedulers
  stepped-Steps s = elim (Bool-cases c.step_every_batch) [
    | inl e ↦ rw e (refl, refl, refl, refl)
    | inr e ↦ rw e (refl, refl, refl, refl)
  ]

  Steps-IsWithin : (s t : LoopState) → subset_done c s ≡ false → IsWithin s → Steps s t → IsWithin t
  unfolding Steps
  Steps-IsWithin s t h w (a, b, d, e) = record {
    steps = b ∙ ap (λ n. n + 1) w.steps ∙ sym a;
    total = omega (arith, w.total, a, d);
    subset = ground (arith, w.steps, w.subset, a, h);
    run = rw e w.run;
  }

  branch-IsWithin :
      (t : LoopState) (r : Result Raised Bool)
      → IsWithin t
      → Ensures IsWithin (do due ← r; ok (if due then evaluate t else t))
  unfolding evaluate
  branch-IsWithin t (err e) w = raises
  branch-IsWithin t (ok true) w =
      returns (record { steps = w.steps; total = w.total; subset = w.subset; run = w.run })
  branch-IsWithin t (ok false) w = returns w

  synced-IsWithin :
      (s : LoopState) → subset_done c s ≡ false → IsWithin s → Ensures IsWithin (synced c s)
  unfolding synced evaluate Steps
  synced-IsWithin s h w =
      let t = Steps-IsWithin s (stepped c s) h w (stepped-Steps s) in
      branch-IsWithin (stepped c s) (is_due c (counts_batches c) (stepped c s).global_batch_idx) t

  skip_batch-IsWithin : (s : LoopState) → IsWithin s → Ensures IsWithin (skip_batch c s)
  unfolding skip_batch
  skip_batch-IsWithin s w =
      elim (Bool-cases (leb max_consecutive_nan (s.consecutive_nan_count + 1))) [
        | inl e ↦ rw e raises
        | inr e ↦ rw e (
            returns (record {
              steps = w.steps;
              total = w.total;
              subset = w.subset;
              run = ground (arith, e);
            }))
      ]

  -- Reading a signal and accumulating a loss change no counter but the run, which they end.
  accumulated-IsWithin :
      (b : TrainBatch) (s : LoopState) → IsWithin s → IsWithin (accumulated c (signalled c b s))
  unfolding accumulated
  accumulated-IsWithin b s w = record {
    steps = w.steps;
    total = w.total;
    subset = w.subset;
    run = refl;
  }

  train_batch-IsWithin :
      (b : TrainBatch) (s : LoopState)
      → subset_done c s ≡ false
      → IsWithin s
      → Ensures IsWithin (train_batch c b s)
  unfolding train_batch
  train_batch-IsWithin b s h w = elim (Bool-cases b.finite) [
    | inl e ↦ elim (Bool-cases b.sync_gradients) [
      | inl y ↦
          rw (e, y)
            (synced-IsWithin (accumulated c (signalled c b s)) (unfold accumulated in h)
              (accumulated-IsWithin b s w))
      | inr y ↦ rw (e, y) (returns (accumulated-IsWithin b s w))
    ]
    | inr e ↦ rw e (
        skip_batch-IsWithin (signalled c b s)
          (record { steps = w.steps; total = w.total; subset = w.subset; run = w.run }))
  ]

  loop-IsWithin :
      (bs : List TrainBatch) (s : LoopState) → IsWithin s → Ensures IsWithin (train_batches c bs s)
  unfolding train_batches
  loop-IsWithin [] s w = returns w
  loop-IsWithin (b ∷ bs) s w =
      if-Ensures IsWithin (subset_done c s) (ok s) _ (λ e. returns w)
        (λ e.
          bind-Ensures IsWithin IsWithin (train_batch c b s) _ (train_batch-IsWithin b s e w)
            (λ t v.
              if-Ensures IsWithin (ends_loop c b t) (ok t) (train_batches c bs t) (λ x. returns v)
                (λ x. loop-IsWithin bs t v)))

-- Whatever batches an epoch offers, where its loop raises nothing: the optimizer steps of the epoch
-- are what the batch index counts and what the global index has grown by, they do not exceed the
-- subset where one is configured, and fewer than 10 losses in a row were not finite, if that held
-- before the epoch.
pub train_batches-IsWithin :
    (c : LoopConfig) (bs : List TrainBatch) (s t : LoopState)
    → ltb s.consecutive_nan_count max_consecutive_nan ≡ true
    → train_batches c bs (start_epoch c s) ≡ ok t
    → IsWithin c s.global_batch_idx t
unfolding start_epoch
train_batches-IsWithin c bs s t h e =
    Ensures-eq-ok (train_batches c bs (start_epoch c s)) t
      (loop-IsWithin c s.global_batch_idx bs (start_epoch c s)
        (record { steps = refl; total = omega arith; subset = ground arith; run = h }))
      e
