-- ===== src/Audit/Delivery.antt =====
-- Draining the queue of api/services/audit_service.py.
use mathlib.Core.List.{append_assoc, append-nil}
use ml_engineer_challenge_so.Prelude.{
  ℕ, ◌+◌, ◌≡◌, refl, sym, inl, inr, Bool, true, leb, Bool-cases, List, [], ◌∷◌, ◌++◌, length,
  length-append, arith,
}
use ml_engineer_challenge_so.Audit.{AuditService, write, drain, drain_from}

module _ {A : Type 0} (commits : ℕ → Bool) where
  drain_from-queue :
      (queue batch : List A) (s : AuditService A) → (drain_from commits queue batch s).queue ≡ []
  unfolding drain_from write
  drain_from-queue [] [] s = refl
  drain_from-queue [] (b ∷ bs) s = ground arith
  drain_from-queue (x ∷ queue) batch s =
      elim (Bool-cases (leb s.batch_size (length (batch ++ (x ∷ []))))) [
        | inl full ↦ rw (full, drain_from) (drain_from-queue queue [] _)
        | inr more ↦ rw (more, drain_from) (drain_from-queue queue (batch ++ (x ∷ [])) s)
      ]

  -- With every insert failing or not, each record is counted once.
  drain_from-counts :
      (queue batch : List A) (s : AuditService A)
      → s.enabled ≡ true
      → let t = drain_from commits queue batch s in
        (t.stats.written + t.stats.failed
          ≡ s.stats.written + s.stats.failed + length batch + length queue)
        × (t.stats.queued ≡ s.stats.queued)
        × (t.stats.dropped ≡ s.stats.dropped)
  unfolding drain_from write
  drain_from-counts [] [] s e = (omega arith, refl, refl)
  drain_from-counts [] (b ∷ bs) s e = ground arith
  drain_from-counts (x ∷ queue) batch s e =
      elim (Bool-cases (leb s.batch_size (length (batch ++ (x ∷ []))))) [
        | inl full ↦
            rw (full, drain_from)
              (ground (
                arith,
                drain_from-counts queue []
                    (write commits (batch ++ (x ∷ [])) (record s { queue = queue })),
                length-append batch (x ∷ []),
              ))
        | inr more ↦
            rw (more, drain_from)
              (omega (
                arith,
                drain_from-counts queue (batch ++ (x ∷ [])) s e,
                length-append batch (x ∷ []),
              ))
      ]

  -- With every insert succeeding, the rows are the records in the order in which they were queued.
  drain_from-rows :
      (queue batch : List A) (s : AuditService A)
      → s.enabled ≡ true
      → ((n : ℕ) → commits n ≡ true)
      → let t = drain_from commits queue batch s in
        (t.rows ≡ s.rows ++ (batch ++ queue)) × (t.stats.failed ≡ s.stats.failed)
  unfolding drain_from write
  drain_from-rows [] [] s e all = (sym (append-nil s.rows), refl)
  drain_from-rows [] (b ∷ bs) s e all = ground (arith, all s.writes, append-nil (b ∷ bs))
  drain_from-rows (x ∷ queue) batch s e all =
      let joined = append_assoc batch (x ∷ []) queue in
      elim (Bool-cases (leb s.batch_size (length (batch ++ (x ∷ []))))) [
        | inl full ↦
            rw (full, drain_from)
              (ground (
                arith,
                all s.writes,
                drain_from-rows queue []
                    (write commits (batch ++ (x ∷ [])) (record s { queue = queue })),
                append_assoc s.rows (batch ++ (x ∷ [])) queue,
                joined,
              ))
        | inr more ↦
            rw (more, drain_from)
              (ground (arith, drain_from-rows queue (batch ++ (x ∷ [])) s, joined))
      ]

  -- Draining an enabled service empties its queue and counts every queued record once, as written
  -- or as failed, and no other; if no insert fails, the table gets the records in the order in
  -- which they were queued, and none counts as failed.
  pub drain-delivers :
      (s : AuditService A)
      → s.enabled ≡ true
      → let t = drain commits s in
        (t.queue ≡ [])
        × (t.stats.written + t.stats.failed ≡ s.stats.written + s.stats.failed + length s.queue)
        × (t.stats.queued ≡ s.stats.queued)
        × (t.stats.dropped ≡ s.stats.dropped)
        × (((n : ℕ) → commits n ≡ true)
            → (t.rows ≡ s.rows ++ s.queue) × (t.stats.failed ≡ s.stats.failed))
  unfolding drain
  drain-delivers s e =
      let counts = drain_from-counts s.queue [] s e in
      (
        drain_from-queue s.queue [] s,
        omega (arith, counts),
        counts.1,
        counts.2,
        drain_from-rows s.queue [] s e,
      )
