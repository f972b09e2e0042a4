-- ===== src/Audit/Writer/Accounting.antt =====
-- The records of api/services/audit_service.py under every interleaving of requests, writer, drains
-- and shutdown.
use ml_engineer_challenge_so.Prelude.{
  ℕ, ◌+◌, ◌≤◌, ◌<◌, ◌≡◌, refl, Bool, true, List, [], ◌∷◌, ◌++◌, length, take, drop, max,
  length-append, take-append-drop, length-take-le, arith, ap, sym, subst,
}
use ml_engineer_challenge_so.Audit.{AuditService, init, record_fields, write, top_up}
use ml_engineer_challenge_so.Audit.Writer.{
  Phase, writing, System, system, held, write_batch, collected, Step, offer, start, get, wake,
  collect, commit, ask_stop, stopped, cancel, drain_fill, drain_write, Reach, here, next,
}
use ml_engineer_challenge_so.Audit.Writer.Contents.{
  holding, offered_by, offered, number_of, run_brings,
}

-- A batch in hand fits the batch size, or is the getter's one record.
abbrev pub Fits : {A : Type 0} → ℕ → Phase A → Type 0
Fits size (writing batch) = length batch ≤ max 1 size
Fits size _ = Unit

pub record Inv {A : Type 0} (s : System A) : Type 0 where
  pub enabled : s.enabled ≡ true
  pub counted :
      s.service.stats.queued
      ≡ s.service.stats.written
        + s.service.stats.failed
        + s.service.stats.dropped
        + length s.queue
        + held s.phase
        + length s.draining
        + s.lost
  pub bounded : 0 < s.queue_size → length s.queue ≤ s.queue_size
  pub stored : length s.rows ≡ s.stats.written
  pub fits : Fits s.batch_size s.phase
  pub drain_fits : length s.draining ≤ max 1 s.batch_size

module _ {A : Type 0} where
  -- `record` on a queue within its bound
  record_fields-counts :
      (f : A) (s : AuditService A) (q : List A)
      → s.queue ≡ q
      → s.enabled ≡ true
      → (0 < s.queue_size → length s.queue ≤ s.queue_size)
      → let t = record_fields f s in
        (t.stats.queued ≡ s.stats.queued + 1)
        × (t.stats.dropped + length t.queue ≡ s.stats.dropped + length s.queue + 1)
        × (t.stats.written ≡ s.stats.written)
        × (t.stats.failed ≡ s.stats.failed)
        × (t.enabled ≡ true)
        × (t.queue_size ≡ s.queue_size)
        × (t.batch_size ≡ s.batch_size)
        × (t.rows ≡ s.rows)
        × (0 < s.queue_size → length t.queue ≤ s.queue_size)
  unfolding record_fields
  record_fields-counts f s [] p e h = ground (arith, ap length p, length-append s.queue (f ∷ []))
  record_fields-counts f s (x ∷ q) p e h =
      ground (arith, ap length p, length-append s.queue (f ∷ []), length-append q (f ∷ []))

  write_batch-counts :
      (commits : ℕ → Bool) (batch : List A) (s : AuditService A)
      → s.enabled ≡ true
      → let t = write_batch commits batch s in
        (t.stats.written + t.stats.failed ≡ s.stats.written + s.stats.failed + length batch)
        × (t.stats.queued ≡ s.stats.queued)
        × (t.stats.dropped ≡ s.stats.dropped)
        × (t.queue ≡ s.queue)
        × (t.enabled ≡ true)
        × (t.queue_size ≡ s.queue_size)
        × (t.batch_size ≡ s.batch_size)
        × (length t.rows + s.stats.written ≡ length s.rows + t.stats.written)
  unfolding write
  write_batch-counts commits [] s e = ground arith
  write_batch-counts commits (b ∷ bs) s e = ground (arith, length-append s.rows (b ∷ bs))

  top_up-length :
      (size : ℕ) (batch queue : List A)
      → let r = top_up size batch queue in
        (length r.0 + length r.1 ≡ length batch + length queue)
        × (length r.0 ≤ max (length batch) size)
        × (length r.1 ≤ length queue)
  unfolding top_up
  top_up-length size batch [] = omega arith
  top_up-length size batch (x ∷ queue) =
      ground (arith, top_up-length size (batch ++ (x ∷ [])) queue, length-append batch (x ∷ []))

  take-drop-length : (n : ℕ) (xs : List A) → length (take n xs) + length (drop n xs) ≡ length xs
  take-drop-length n xs =
      omega (arith, length-append (take n xs) (drop n xs), ap length (take-append-drop n xs))

  Fits-eq : (m n : ℕ) (p : Phase A) → m ≡ n → Fits m p → Fits n p
  Fits-eq m n p e h = subst (λ k. Fits k p) e h

  collected-Inv :
      (s : System A) (first : List A)
      → Inv s
      → length first ≡ held s.phase
      → length first ≤ 1
      → Inv (collected first s)
  unfolding collected
  collected-Inv s first v e small =
      let (total, cap, fewer) = top_up-length s.batch_size first s.queue in
      record {
        enabled = v.enabled;
        counted = omega (arith, v.counted);
        bounded = λ pos. let before : length s.queue ≤ s.queue_size = v.bounded pos in omega arith;
        stored = v.stored;
        fits = omega arith;
        drain_fits = v.drain_fits;
      }

  Step-Inv : (commits : ℕ → Bool) {s t : System A} → Step commits s t → Inv s → Inv t
  Step-Inv commits (offer s f) v =
      let (queued, kept, written, failed, enabled, size, batch, rows, bound) =
        record_fields-counts f s.service s.queue refl v.enabled v.bounded in
      record {
        enabled = enabled;
        counted = omega (arith, v.counted);
        bounded = λ pos. omega (arith, bound (omega arith));
        stored = omega (arith, ap length rows, v.stored);
        fits = Fits-eq s.batch_size _ s.phase (sym batch) v.fits;
        drain_fits = omega (arith, v.drain_fits);
      }
  Step-Inv commits (start s on p) v = ground (arith, v.counted, v.bounded)
  Step-Inv commits (get s x rest p q) v = ground (arith, ap length q, v.counted)
  Step-Inv commits (wake s p) v = collected-Inv s [] v (ground arith) (omega arith)
  Step-Inv commits (collect s x p) v = collected-Inv s (x ∷ []) v (ground arith) (omega arith)
  Step-Inv commits (commit s batch p) v =
      ground (arith, write_batch-counts commits batch s.service v.enabled)
  Step-Inv commits (ask_stop s) v = ground arith
  Step-Inv commits (stopped s p) v = ground arith
  Step-Inv commits (cancel s p) v = ground arith
  Step-Inv commits (drain_fill s p) v = ground (
    arith,
    take-drop-length (max 1 s.batch_size) s.queue,
    length-take-le (max 1 s.batch_size) s.queue,
    ap length p,
  )
  Step-Inv commits (drain_write s) v =
      let (total, queued, dropped, queue, enabled, size, batch, rows) =
        write_batch-counts commits s.draining s.service v.enabled in
      record {
        enabled = enabled;
        counted = omega (arith, v.counted, ap length queue);
        bounded = λ pos. omega (arith, ap length queue, v.bounded (omega arith));
        stored = omega (arith, rows, v.stored);
        fits = Fits-eq s.batch_size _ s.phase (sym batch) v.fits;
        drain_fits = omega arith;
      }

  Reach-Inv : (commits : ℕ → Bool) {s t : System A} → Inv s → Reach commits s t → Inv t
  Reach-Inv commits v here = v
  Reach-Inv commits v (next r st) = Step-Inv commits st (Reach-Inv commits v r)

  init-Inv : (queue_size batch_size : ℕ) → Inv (system (init {A = A} true queue_size batch_size))
  unfolding init
  init-Inv queue_size batch_size = ground arith

  -- Every record that was handed in has been queued.
  Step-queued :
      {commits : ℕ → Bool} {s t : System A} (step : Step commits s t)
      → Inv s
      → t.service.stats.queued ≡ s.service.stats.queued + length (offered_by step)
  unfolding collected
  Step-queued (offer s f) v =
      let (queued, _, _, _, _, _, _, _, _) =
        record_fields-counts f s.service s.queue refl v.enabled v.bounded in
      omega (arith, queued)
  Step-queued (start s on p) v = omega arith
  Step-queued (get s x rest p q) v = omega arith
  Step-queued (wake s p) v = omega arith
  Step-queued (collect s x p) v = omega arith
  Step-queued {commits} (commit s batch p) v =
      let (total, queued, _, _, _, _, _, _) =
        write_batch-counts commits batch s.service v.enabled in
      omega (arith, queued)
  Step-queued (ask_stop s) v = omega arith
  Step-queued (stopped s p) v = omega arith
  Step-queued (cancel s p) v = omega arith
  Step-queued (drain_fill s p) v = omega arith
  Step-queued {commits} (drain_write s) v =
      let (total, queued, _, _, _, _, _, _) =
        write_batch-counts commits s.draining s.service v.enabled in
      omega (arith, queued)

  Reach-queued :
      {commits : ℕ → Bool} {s t : System A} (r : Reach commits s t)
      → Inv s
      → t.service.stats.queued ≡ s.service.stats.queued + length (offered r)
  Reach-queued here v = omega arith
  Reach-queued {commits} (next r step) v = omega (
    arith,
    Reach-queued r v,
    Step-queued step (Reach-Inv commits v r),
    length-append (offered r) (offered_by step),
  )

  -- Whatever the interleaving of requests, writer, drains, shutdown and failing inserts: every
  -- record that was handed in is counted as queued, and every one that was queued is written,
  -- failed, dropped, still queued, in the hands of the writer or of a drain, or was in the hands of
  -- a writer cancelled at the shutdown timeout; the table has one row for each record that is
  -- counted as written; of the records with any given property, no more are stored, queued and in
  -- hand together than were handed in, so none is stored twice or made up; the queue stays within
  -- its bound, and no batch is larger than the batch size (or one record, if that is 0).
  pub Reach-init-Inv :
      (commits : ℕ → Bool) (queue_size batch_size : ℕ) {s : System A}
      (r : Reach commits (system (init true queue_size batch_size)) s) (p : A → Bool)
      → Inv s
        × (s.service.stats.queued ≡ length (offered r))
        × (number_of p s.rows
              + number_of p s.queue
              + number_of p (holding s.phase)
              + number_of p s.draining
            ≤ number_of p (offered r))
  unfolding init
  Reach-init-Inv commits queue_size batch_size r p =
      let start = init-Inv queue_size batch_size in
      (
        Reach-Inv commits start r,
        omega (arith, Reach-queued r start),
        omega (arith, run_brings p r),
      )
