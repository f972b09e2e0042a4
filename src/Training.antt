-- ===== src/Training.antt =====
-- models/training/pipeline.py: the control of the loop `run`, with `parse_eval_interval`. What a
-- batch is to the loop is whether its loss is finite, whether its gradients are synchronised, and
-- whether SIGTERM arrived by then. The model, the losses, the trackers and the files are left out.
pub mod Interval
pub mod Checkpoints
pub mod Saved
pub mod Bounded
pub mod Tests
use ml_engineer_challenge_so.Prelude.{
  ℕ, zero, suc, ◌+◌, ◌%◌, String, Bool, true, false, not, ◌&&◌, ◌||◌, ◌==◌, ltb, leb, if◌then◌else◌,
  List, [], ◌∷◌, ◌++◌, Option, none, some, Result, ok, err, ◌>>=◌, ◌>>◌, raise_if,
}
use ml_engineer_challenge_so.Errors.{Raised, builtin}
use Interval.{EvalUnit, epochs, batches}

abbrev pub max_consecutive_nan : ℕ
max_consecutive_nan = 10

pub record TrainBatch : Type 0 where
  pub finite : Bool
  pub sync_gradients : Bool
  pub sigterm : Bool

-- What an epoch meets: its batches, and whether SIGTERM arrives after them.
pub record Epoch : Type 0 where
  pub offered : List TrainBatch
  pub late_sigterm : Bool

-- The configuration that the loop reads, with the parsed interval.
pub record LoopConfig : Type 0 where
  pub eval_unit : EvalUnit
  pub eval_value : ℕ
  pub save_interval : ℕ
  pub train_subset : ℕ
  pub step_every_batch : Bool

-- The variables of the loop; `saved` are the epochs of the checkpoints, `evaluations` the steps at
-- which an evaluation ran, `scheduler_steps` how often the schedulers were stepped.
pub record LoopState : Type 0 where
  pub global_batch_idx : ℕ
  pub epoch_batch_idx : ℕ
  pub num_steps : ℕ
  pub accum_count : ℕ
  pub consecutive_nan_count : ℕ
  pub sigterm_received : Bool
  pub last_saved_epoch : Option ℕ
  pub saved : List ℕ
  pub evaluations : List ℕ
  pub scheduler_steps : ℕ

abbrev pub initial : LoopState
initial = record {
  global_batch_idx = 0;
  epoch_batch_idx = 0;
  num_steps = 0;
  accum_count = 0;
  consecutive_nan_count = 0;
  sigterm_received = false;
  last_saved_epoch = none;
  saved = [];
  evaluations = [];
  scheduler_steps = 0;
}

-- `n % interval == 0`, which raises where the interval is zero.
unfoldable pub is_multiple : ℕ → ℕ → Result Raised Bool
is_multiple n interval =
    if interval == 0 then err (builtin "ZeroDivisionError") else ok (n % interval == 0)

evaluate : LoopState → LoopState
evaluate s = record s { evaluations = s.evaluations ++ (s.global_batch_idx ∷ []) }

step_schedulers : LoopState → LoopState
step_schedulers s = record s { scheduler_steps = s.scheduler_steps + 1 }

save_checkpoint : ℕ → LoopState → LoopState
save_checkpoint epoch s = record s { saved = s.saved ++ (epoch ∷ []) }

module _ (c : LoopConfig) where
  -- Whether an evaluation is due: `unit` is the one that is asked about, `n` its count.
  is_due : Bool → ℕ → Result Raised Bool
  is_due is_unit n = if is_unit then is_multiple n c.eval_value else ok false

  counts_batches : Bool
  counts_batches = elim c.eval_unit [ batches ↦ true | epochs ↦ false ]

  counts_epochs : Bool
  counts_epochs = elim c.eval_unit [ batches ↦ false | epochs ↦ true ]

  -- The indices after an optimizer step, and the schedulers that follow a batch.
  stepped : LoopState → LoopState
  unfolding step_schedulers
  stepped s =
      let t : LoopState = record s {
        accum_count = 0;
        num_steps = s.num_steps + 1;
        global_batch_idx = s.global_batch_idx + 1;
        epoch_batch_idx = s.epoch_batch_idx + 1;
      } in
      if c.step_every_batch then step_schedulers t else t

  -- The block under `sync_gradients`, up to its `break`.
  synced : LoopState → Result Raised LoopState
  unfolding stepped evaluate is_due counts_batches
  synced s = do
    due ← is_due counts_batches (stepped s).global_batch_idx
    ok (if due then evaluate (stepped s) else stepped s)

  -- A batch whose loss is not finite is skipped, up to the limit.
  skip_batch : LoopState → Result Raised LoopState
  skip_batch s =
      if leb max_consecutive_nan (s.consecutive_nan_count + 1)
      then err (builtin "RuntimeError")
      else ok (record s { consecutive_nan_count = s.consecutive_nan_count + 1 })

  -- The handler of SIGTERM.
  abbrev pub signalled : TrainBatch → LoopState → LoopState
  signalled b s = record s { sigterm_received = s.sigterm_received || b.sigterm }

  accumulated : LoopState → LoopState
  accumulated s = record s { consecutive_nan_count = 0; accum_count = s.accum_count + 1 }

  unfoldable pub train_batch : TrainBatch → LoopState → Result Raised LoopState
  unfolding skip_batch synced accumulated
  train_batch b s =
      if not b.finite
      then skip_batch (signalled b s)
      else if b.sync_gradients
      then synced (accumulated (signalled b s))
      else ok (accumulated (signalled b s))

  -- 0 < train_subset <= epoch_batch_idx
  abbrev pub subset_done : LoopState → Bool
  subset_done s = ltb 0 c.train_subset && leb c.train_subset s.epoch_batch_idx

  -- Whether the batch ends the loop, at the end of the block under `sync_gradients`.
  abbrev pub ends_loop : TrainBatch → LoopState → Bool
  ends_loop b s = b.finite && b.sync_gradients && s.sigterm_received

  unfoldable pub train_batches : List TrainBatch → LoopState → Result Raised LoopState
  train_batches [] s = ok s
  train_batches (b ∷ bs) s =
      let go = λ (t : LoopState). if ends_loop b t then ok t else train_batches bs t in
      if subset_done s then ok s else train_batch b s >>= go

  unfoldable pub start_epoch : LoopState → LoopState
  start_epoch s = record s { num_steps = 0; epoch_batch_idx = 0; accum_count = 0 }

  after_batches : LoopState → LoopState
  unfolding step_schedulers
  after_batches s = if c.step_every_batch then s else step_schedulers s

  evaluate_epoch : ℕ → LoopState → Result Raised LoopState
  unfolding evaluate is_due counts_epochs
  evaluate_epoch epoch s = do
    due ← is_due counts_epochs (epoch + 1)
    ok (if due then evaluate s else s)

  save_epoch : ℕ → LoopState → Result Raised LoopState
  unfolding save_checkpoint
  save_epoch epoch s = do
    due ← is_multiple (epoch + 1) c.save_interval
    ok (if due then record (save_checkpoint epoch s) { last_saved_epoch = some epoch } else s)

  is_last_saved : ℕ → Option ℕ → Bool
  is_last_saved epoch none = false
  is_last_saved epoch (some e) = e == epoch

  -- The checkpoint of an epoch that SIGTERM cuts short.
  save_interrupted : ℕ → LoopState → LoopState
  unfolding save_checkpoint is_last_saved
  save_interrupted epoch s =
      if s.sigterm_received && not (is_last_saved epoch s.last_saved_epoch)
      then save_checkpoint epoch s
      else s

  -- The body of the loop over the epochs; the loop ends where `sigterm_received` is set.
  unfoldable pub train_epoch : ℕ → Epoch → LoopState → Result Raised LoopState
  unfolding start_epoch after_batches evaluate_epoch save_epoch save_interrupted
  train_epoch epoch x s = do
    trained ← train_batches x.offered (start_epoch s)
    evaluated ← evaluate_epoch epoch (after_batches trained)
    saved ← save_epoch epoch evaluated
    ok (
        save_interrupted epoch
          (record saved { sigterm_received = saved.sigterm_received || x.late_sigterm }))

  -- The loop over the epochs, from `epoch`.
  unfoldable pub train_epochs : ℕ → List Epoch → LoopState → Result Raised LoopState
  train_epochs epoch [] s = ok s
  train_epochs epoch (x ∷ rest) s =
      train_epoch epoch x s
      >>= (λ (t : LoopState). if t.sigterm_received then ok t else train_epochs (epoch + 1) rest t)
