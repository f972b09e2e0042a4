-- ===== src/Audit/Writer.antt =====
-- The writer task of api/services/audit_service.py among callers, `stop` and `flush`, as steps
-- between the points at which a coroutine waits.
pub mod Contents
pub mod Accounting
use ml_engineer_challenge_so.Prelude.{
  ℕ, suc, ◌+◌, ◌≤◌, ◌≡◌, Bool, true, false, ltb, if◌then◌else◌, List, [], ◌∷◌, ◌++◌, length, take,
  drop, max,
}
use ml_engineer_challenge_so.Audit.{AuditService, record_fields, write, top_up}

-- Where the writer is: no task, waiting in `_collect`, with the record that its getter took, in
-- `_write` with a batch, or returned from `_run`.
pub data Phase (A : Type 0) : Type 0 where
  idle waiting halted : Phase A
  got : A → Phase A
  writing : List A → Phase A

pub record System (A : Type 0) : Type 0 where
  pub service : AuditService A
  pub open service use *
  pub phase : Phase A
  pub stopping : Bool
  -- the batch in the hands of `_drain`
  pub draining : List A
  -- records that were in the hands of a cancelled writer
  pub lost : ℕ

module _ {A : Type 0} where
  abbrev pub system : AuditService A → System A
  system s = record { service = s; phase = idle; stopping = false; draining = []; lost = 0 }

  -- How many records the writer holds.
  abbrev pub held : Phase A → ℕ
  held (got a) = 1
  held (writing batch) = length batch
  held _ = 0

  -- `if batch:` of `_run`
  abbrev pub write_batch : (ℕ → Bool) → List A → AuditService A → AuditService A
  write_batch commits [] s = s
  write_batch commits (b ∷ bs) s = write commits (b ∷ bs) s

  -- What `_collect` returns, from the getter's record and the queue.
  unfoldable pub collected : List A → System A → System A
  unfolding top_up
  collected first s =
      let (batch, rest) = top_up s.batch_size first s.queue in
      record s { service = record (s.service) { queue = rest }; phase = writing batch }

  -- `_drain` takes records until the batch is full or the queue is empty.
  abbrev pub drained_batch : System A → List A
  drained_batch s = take (max 1 s.batch_size) s.queue

-- `commits n` is the outcome of the n-th insert.
pub data Step {A : Type 0} (commits : ℕ → Bool) : System A → System A → Type 0 where
  -- a request calls `record`
  offer :
      (s : System A) (fields : A)
      → Step commits s (record s { service = record_fields fields s.service })
  start :
      (s : System A)
      → s.enabled ≡ true
      → s.phase ≡ idle
      → Step commits s (record s { phase = waiting })
  -- the getter takes the oldest record
  get :
      (s : System A) (x : A) (rest : List A)
      → s.phase ≡ waiting
      → s.queue ≡ x ∷ rest
      → Step commits s (record s { service = record (s.service) { queue = rest }; phase = got x })
  -- the wait ends by the interval or by the stop event
  wake : (s : System A) → s.phase ≡ waiting → Step commits s (collected [] s)
  collect : (s : System A) (x : A) → s.phase ≡ got x → Step commits s (collected (x ∷ []) s)
  -- `_write` returns, and the loop goes on or ends
  commit :
      (s : System A) (batch : List A)
      → s.phase ≡ writing batch
      → Step commits s (record s {
        service = write_batch commits batch s.service;
        phase = if s.stopping then halted else waiting;
      })
  ask_stop : (s : System A) → Step commits s (record s { stopping = true })
  -- `stop` sees the writer return, or cancels it when the timeout has passed
  stopped :
      (s : System A)
      → s.phase ≡ halted
      → Step commits s (record s { phase = idle; stopping = false })
  cancel :
      (s : System A)
      → s.stopping ≡ true
      → Step commits s (record s { phase = idle; stopping = false; lost = s.lost + held s.phase })
  drain_fill :
      (s : System A)
      → s.draining ≡ []
      → Step commits s (record s {
        service = record (s.service) { queue = drop (max 1 s.batch_size) s.queue };
        draining = drained_batch s;
      })
  drain_write :
      (s : System A)
      → Step commits s
          (record s { service = write_batch commits s.draining s.service; draining = [] })

pub data Reach {A : Type 0} (commits : ℕ → Bool) (s : System A) : System A → Type 0 where
  here : Reach commits s s
  next : {t u : System A} → Reach commits s t → Step commits t u → Reach commits s u
