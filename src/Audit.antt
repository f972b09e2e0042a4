-- ===== src/Audit.antt =====
-- api/services/audit_service.py: the bounded queue of audit records and its writer. `A` is one
-- record's fields.
pub mod Recent
pub mod Delivery
pub mod Writer
pub mod Tests
use ml_engineer_challenge_so.Prelude.{
  ℕ, zero, suc, ◌+◌, ◌-◌, max, Bool, true, false, ltb, leb, ◌==◌, if◌then◌else◌, ◌&&◌, not, List,
  [], ◌∷◌, ◌++◌, length, take, drop,
}

abbrev pub default_queue_size : ℕ
default_queue_size = 10_000

abbrev pub default_batch_size : ℕ
default_batch_size = 50

pub record AuditStats : Type 0 where
  pub queued : ℕ
  pub written : ℕ
  pub dropped : ℕ
  pub failed : ℕ

-- `enabled` says whether there is a session factory; `rows` are the rows of the table
-- `inference_logs` that this service inserted, and `writes` counts the attempts to insert.
pub record AuditService (A : Type 0) : Type 0 where
  pub enabled : Bool
  pub queue : List A
  pub queue_size : ℕ
  pub batch_size : ℕ
  pub stats : AuditStats
  pub rows : List A
  pub writes : ℕ

abbrev pub no_stats : AuditStats
no_stats = record { queued = 0; written = 0; dropped = 0; failed = 0 }

module _ {A : Type 0} where
  unfoldable pub init : Bool → ℕ → ℕ → AuditService A
  init enabled queue_size batch_size = record {
    enabled = enabled;
    queue = [];
    queue_size = queue_size;
    batch_size = batch_size;
    stats = no_stats;
    rows = [];
    writes = 0;
  }

  -- `asyncio.Queue.full`: a size of zero is no bound.
  abbrev pub is_full : AuditService A → Bool
  is_full s = ltb 0 s.queue_size && leb s.queue_size (length s.queue)

  -- `put_nowait` on a queue that is not full, and the counter.
  put : A → AuditService A → AuditService A
  put fields s = record s {
    queue = s.queue ++ (fields ∷ []);
    stats = record (s.stats) { queued = s.stats.queued + 1 };
  }

  -- `get_nowait`, which does nothing here on an empty queue, and the counter.
  discard_oldest : AuditService A → List A → AuditService A
  discard_oldest s [] = s
  discard_oldest s (oldest ∷ rest) = record s {
    queue = rest;
    stats = record (s.stats) { dropped = s.stats.dropped + 1 };
  }

  retry_put : A → AuditService A → AuditService A
  unfolding put
  retry_put fields s = if is_full s then s else put fields s

  -- the method `record`
  unfoldable pub record_fields : A → AuditService A → AuditService A
  unfolding put discard_oldest retry_put
  record_fields fields s =
      if not s.enabled
      then s
      else if is_full s
      then retry_put fields (discard_oldest s s.queue)
      else put fields s

  -- `_write`. The outcome of the n-th insert is `commits n`; a failed one stores nothing.
  unfoldable pub write : (ℕ → Bool) → List A → AuditService A → AuditService A
  write commits batch s =
      if not s.enabled
      then s
      else if commits s.writes
      then record s {
        rows = s.rows ++ batch;
        writes = s.writes + 1;
        stats = record (s.stats) { written = s.stats.written + length batch };
      }
      else record s {
        writes = s.writes + 1;
        stats = record (s.stats) { failed = s.stats.failed + length batch };
      }

  -- The loop of `_drain`, on what is still queued and the batch in hand.
  unfoldable pub drain_from : (ℕ → Bool) → List A → List A → AuditService A → AuditService A
  drain_from commits [] [] s = record s { queue = [] }
  drain_from commits [] (b ∷ bs) s = write commits (b ∷ bs) (record s { queue = [] })
  drain_from commits (x ∷ queue) batch s = elim (leb s.batch_size (length (batch ++ (x ∷ [])))) [
    | true ↦
        drain_from commits queue [] (write commits (batch ++ (x ∷ [])) (record s { queue = queue }))
    | false ↦ drain_from commits queue (batch ++ (x ∷ [])) s
  ]

  -- `_drain`, with nothing queued meanwhile
  unfoldable pub drain : (ℕ → Bool) → AuditService A → AuditService A
  unfolding drain_from
  drain commits s = drain_from commits s.queue [] s

  -- The second loop of `_collect`: what the batch takes from the queue, and what it leaves.
  unfoldable pub top_up : ℕ → List A → List A → List A × List A
  top_up batch_size batch [] = (batch, [])
  top_up batch_size batch (x ∷ queue) =
      let more = top_up batch_size (batch ++ (x ∷ [])) queue in
      if ltb (length batch) batch_size then more else (batch, x ∷ queue)
