-- ===== src/Training/Tests.antt =====
-- A run of models/training/pipeline.py that SIGTERM ends in its third epoch.
use ml_engineer_challenge_so.Prelude.{true, false, List, [], ◌∷◌, some, ok, ◌≡◌, refl}
use ml_engineer_challenge_so.Training.{
  TrainBatch, Epoch, LoopConfig, LoopState, initial, train_batch, train_batches, train_epoch,
  train_epochs, is_multiple, start_epoch,
}
use ml_engineer_challenge_so.Training.Interval.{epochs, interval_text, parse_eval_interval}
use ml_engineer_challenge_so.Training.Saved.{Checkpoints, train_epochs-Checkpoints}
use ml_engineer_challenge_so.Training.Bounded.{IsWithin, train_batches-IsWithin}
use ml_engineer_challenge_so.Startup.Tests.{ascii_digit}

-- `"1ep"`
parsed : parse_eval_interval ascii_digit (interval_text (49 ∷ 101 ∷ 112 ∷ [])) ≡ ok (epochs, 1)
unfolding parse_eval_interval
parsed = refl

abbrev every_other : LoopConfig
every_other = record {
  eval_unit = epochs;
  eval_value = 1;
  save_interval = 2;
  train_subset = 0;
  step_every_batch = false;
}

abbrev plain : TrainBatch
plain = record { finite = true; sync_gradients = true; sigterm = false }

abbrev last : TrainBatch
last = record { finite = true; sync_gradients = true; sigterm = true }

abbrev four_epochs : List Epoch
four_epochs =
    record { offered = plain ∷ plain ∷ []; late_sigterm = false }
    ∷ record { offered = plain ∷ []; late_sigterm = false }
    ∷ record { offered = plain ∷ last ∷ plain ∷ []; late_sigterm = false }
    ∷ record { offered = plain ∷ []; late_sigterm = false }
    ∷ []

abbrev ended : LoopState
ended = record initial {
  global_batch_idx = 5;
  epoch_batch_idx = 2;
  num_steps = 2;
  sigterm_received = true;
  last_saved_epoch = some 1;
  saved = 1 ∷ 2 ∷ [];
  evaluations = 2 ∷ 3 ∷ 5 ∷ [];
  scheduler_steps = 3;
}

runs : train_epochs every_other 0 four_epochs initial ≡ ok ended
unfolding train_epochs train_epoch train_batches train_batch is_multiple
runs = refl

train_epochs-Checkpoints_example : Checkpoints every_other 0 4 (1 ∷ 2 ∷ []) true
train_epochs-Checkpoints_example = train_epochs-Checkpoints every_other four_epochs 0 ended runs

-- The third epoch of that run, alone.
abbrev cut_short : LoopState
cut_short = record initial {
  global_batch_idx = 2;
  epoch_batch_idx = 2;
  num_steps = 2;
  sigterm_received = true;
}

train_batches-IsWithin_example : IsWithin every_other 0 cut_short
unfolding train_batches train_batch start_epoch
train_batches-IsWithin_example =
    train_batches-IsWithin every_other (plain ∷ last ∷ plain ∷ []) initial cut_short refl refl
