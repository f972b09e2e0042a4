-- ===== src/Training/Checkpoints.antt =====
-- The steps of the loop of models/training/pipeline.py that write no checkpoint.
use ml_engineer_challenge_so.Prelude.{
  ◌+◌, Bool, true, false, leb, if◌then◌else◌, List, [], ◌∷◌, Result, ok, err, ◌>>=◌, Ensures,
  raises, returns, bind-Ensures, imp-Ensures, ◌≡◌, refl, ◌∙◌, Bool-cases, inl, inr,
}
use ml_engineer_challenge_so.Errors.{Raised}
use ml_engineer_challenge_so.Training.{
  TrainBatch, LoopConfig, LoopState, max_consecutive_nan, evaluate, step_schedulers, is_due,
  counts_batches, stepped, synced, skip_batch, signalled, accumulated, train_batch, subset_done,
  ends_loop, train_batches,
}

module _ (c : LoopConfig) where
  -- No checkpoint was written.
  abbrev pub Unsaved : LoopState → LoopState → Type 0
  Unsaved s t = (t.saved ≡ s.saved) × (t.last_saved_epoch ≡ s.last_saved_epoch)

  pub after-Unsaved : (s t u : LoopState) → Unsaved s t → Unsaved t u → Unsaved s u
  after-Unsaved s t u (a, b) (x, y) = (x ∙ a, y ∙ b)

  -- A test that may raise, after which either branch writes no checkpoint.
  pub branch-Unsaved :
      (s a b : LoopState) (r : Result Raised Bool)
      → Unsaved s a
      → Unsaved s b
      → Ensures (Unsaved s) (do due ← r; ok (if due then a else b))
  branch-Unsaved s a b (err e) p q = raises
  branch-Unsaved s a b (ok true) p q = returns p
  branch-Unsaved s a b (ok false) p q = returns q

  stepped-Unsaved : (s : LoopState) → Unsaved s (stepped c s)
  unfolding stepped step_schedulers
  stepped-Unsaved s = elim (Bool-cases c.step_every_batch) [
    | inl e ↦ rw e (refl, refl)
    | inr e ↦ rw e (refl, refl)
  ]

  synced-Unsaved : (s : LoopState) → Ensures (Unsaved s) (synced c s)
  unfolding synced evaluate
  synced-Unsaved s =
      branch-Unsaved s (evaluate (stepped c s)) (stepped c s)
        (is_due c (counts_batches c) (stepped c s).global_batch_idx) (stepped-Unsaved s)
        (stepped-Unsaved s)

  skip_batch-Unsaved : (s : LoopState) → Ensures (Unsaved s) (skip_batch c s)
  unfolding skip_batch
  skip_batch-Unsaved s = elim (Bool-cases (leb max_consecutive_nan (s.consecutive_nan_count + 1))) [
    | inl e ↦ rw e raises
    | inr e ↦ rw e (returns (refl, refl))
  ]

  train_batch-Unsaved : (b : TrainBatch) (s : LoopState) → Ensures (Unsaved s) (train_batch c b s)
  unfolding train_batch accumulated
  train_batch-Unsaved b s = elim (Bool-cases b.finite) [
    | inl e ↦ elim (Bool-cases b.sync_gradients) [
      | inl y ↦ rw (e, y) (synced-Unsaved (accumulated c (signalled c b s)))
      | inr y ↦ rw (e, y) (returns (refl, refl))
    ]
    | inr e ↦ rw e (skip_batch-Unsaved (signalled c b s))
  ]

  pub train_batches-Unsaved :
      (bs : List TrainBatch) (s : LoopState) → Ensures (Unsaved s) (train_batches c bs s)
  unfolding train_batches
  train_batches-Unsaved [] s = returns (refl, refl)
  train_batches-Unsaved (b ∷ bs) s = elim (Bool-cases (subset_done c s)) [
    | inl e ↦ rw e (returns (refl, refl))
    | inr e ↦ rw e (
        bind-Ensures (Unsaved s) (Unsaved s) (train_batch c b s) _ (train_batch-Unsaved b s) (λ t p.
          elim (Bool-cases (ends_loop c b t)) [
            | inl x ↦ rw x (returns p)
            | inr x ↦ rw x (
                imp-Ensures (Unsaved t) (Unsaved s) (train_batches c bs t)
                  (λ u q. after-Unsaved s t u p q) (train_batches-Unsaved bs t))
          ]))
  ]
