-- ===== src/Audit/Writer/Contents.antt =====
-- Which records of api/services/audit_service.py are where: how many with a given property each
-- operation moves.
use ml_engineer_challenge_so.Prelude.{
  ℕ, suc, ◌+◌, ◌≤◌, ◌≡◌, refl, Bool, if◌then◌else◌, List, [], ◌∷◌, ◌++◌, take, drop, max,
  take-append-drop, arith, ap, sym, ◌∙◌,
}
use ml_engineer_challenge_so.Audit.{AuditService, record_fields, write, top_up}
use ml_engineer_challenge_so.Audit.Writer.{
  Phase, got, writing, System, write_batch, collected, Step, offer, start, get, wake, collect,
  commit, ask_stop, stopped, cancel, drain_fill, drain_write, Reach, here, next,
}

-- The records that the writer holds.
abbrev pub holding : {A : Type 0} → Phase A → List A
holding (got a) = a ∷ []
holding (writing batch) = batch
holding _ = []

-- The record that a step hands in.
abbrev pub offered_by :
    {A : Type 0} {commits : ℕ → Bool} {s t : System A} → Step commits s t → List A
offered_by (offer s f) = f ∷ []
offered_by _ = []

-- The records that were handed in, in order.
abbrev pub offered : {A : Type 0} {commits : ℕ → Bool} {s t : System A} → Reach commits s t → List A
offered here = []
offered (next r step) = offered r ++ offered_by step

module _ {A : Type 0} (p : A → Bool) where
  -- How many pass the test.
  abbrev pub number_of : List A → ℕ
  number_of [] = 0
  number_of (x ∷ xs) = let rest = number_of xs in if p x then suc rest else rest

  pub number_of-append : (xs ys : List A) → number_of (xs ++ ys) ≡ number_of xs + number_of ys
  number_of-append [] ys = omega arith
  number_of-append (x ∷ xs) ys = ground (arith, number_of-append xs ys)

  -- How many of those that pass it are stored or on their way.
  abbrev pub in_system : System A → ℕ
  in_system s =
      number_of s.rows + number_of s.queue + number_of (holding s.phase) + number_of s.draining

  record_fields-number :
      (f : A) (s : AuditService A) (q : List A)
      → s.queue ≡ q
      → number_of (record_fields f s).rows + number_of (record_fields f s).queue
        ≤ number_of s.rows + number_of s.queue + number_of (f ∷ [])
  unfolding record_fields
  record_fields-number f s [] e = ground (arith, number_of-append s.queue (f ∷ []))
  record_fields-number f s (x ∷ q) e =
      ground (arith, ap number_of e, number_of-append s.queue (f ∷ []), number_of-append q (f ∷ []))

  top_up-number :
      (size : ℕ) (batch queue : List A)
      → number_of (top_up size batch queue).0 + number_of (top_up size batch queue).1
        ≡ number_of batch + number_of queue
  unfolding top_up
  top_up-number size batch [] = omega arith
  top_up-number size batch (x ∷ queue) =
      ground (arith, top_up-number size (batch ++ (x ∷ [])) queue, number_of-append batch (x ∷ []))

  write_batch-number :
      (commits : ℕ → Bool) (batch : List A) (s : AuditService A)
      → (number_of (write_batch commits batch s).rows ≤ number_of s.rows + number_of batch)
        × ((write_batch commits batch s).queue ≡ s.queue)
  unfolding write
  write_batch-number commits [] s = ground arith
  write_batch-number commits (b ∷ bs) s = ground (arith, number_of-append s.rows (b ∷ bs))

  take-drop-number :
      (n : ℕ) (xs : List A) → number_of (take n xs) + number_of (drop n xs) ≡ number_of xs
  take-drop-number n xs =
      sym (number_of-append (take n xs) (drop n xs)) ∙ ap number_of (take-append-drop n xs)

  -- No step invents a record or has one twice.
  step_brings :
      {commits : ℕ → Bool} {s t : System A} (step : Step commits s t)
      → in_system t ≤ in_system s + number_of (offered_by step)
  unfolding collected
  step_brings (offer s f) = omega (arith, record_fields-number f s.service s.queue refl)
  step_brings (start s on e) = ground arith
  step_brings (get s x rest e q) = ground (arith, ap number_of q)
  step_brings (wake s e) = ground (arith, top_up-number s.batch_size [] s.queue)
  step_brings (collect s x e) = ground (arith, top_up-number s.batch_size (x ∷ []) s.queue)
  step_brings {commits} (commit s batch e) =
      ground (arith, write_batch-number commits batch s.service)
  step_brings (ask_stop s) = omega arith
  step_brings (stopped s e) = ground arith
  step_brings (cancel s e) = ground arith
  step_brings (drain_fill s e) =
      ground (arith, take-drop-number (max 1 s.batch_size) s.queue, ap number_of e)
  step_brings {commits} (drain_write s) =
      let (rows, queue) = write_batch-number commits s.draining s.service in
      omega (arith, rows, ap number_of queue)

  pub run_brings :
      {commits : ℕ → Bool} {s t : System A} (r : Reach commits s t)
      → in_system t ≤ in_system s + number_of (offered r)
  run_brings here = omega arith
  run_brings (next r step) =
      omega (arith, run_brings r, step_brings step, number_of-append (offered r) (offered_by step))
