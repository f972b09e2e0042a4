-- ===== src/Training/Saved.antt =====
-- Which epochs the loop of models/training/pipeline.py saves, also where SIGTERM ends it.
use ml_engineer_challenge_so.Prelude.{
  ℕ, suc, ◌+◌, ◌%◌, Bool, true, false, ◌||◌, ◌==◌, if◌then◌else◌, List, [], ◌∷◌, ◌++◌, length, ok,
  ◌>>=◌, Ensures, raises, returns, bind-Ensures, imp-Ensures, if-Ensures, Ensures-eq-ok, ◌≡◌, refl,
  sym, ap, ◌∙◌, subst, Bool-cases, inl, inr, arith,
}
use ml_engineer_challenge_so.Training.{
  Epoch, LoopConfig, LoopState, initial, is_multiple, evaluate, step_schedulers, save_checkpoint,
  is_due, counts_epochs, train_batches, start_epoch, after_batches, evaluate_epoch, save_epoch,
  is_last_saved, save_interrupted, train_epoch, train_epochs,
}
use ml_engineer_challenge_so.Training.Checkpoints.{
  Unsaved, after-Unsaved, branch-Unsaved, train_batches-Unsaved,
}

same_epoch : (n : ℕ) → (n == n) ≡ true
same_epoch n = ground arith

later : (n j : ℕ) → (n == n + 1 + j) ≡ false
later n j = ground arith

plus_zero : (n : ℕ) → n + 0 ≡ n
plus_zero n = omega arith

plus_one : (n j : ℕ) → n + suc j ≡ n + 1 + j
plus_one n j = omega arith

append_cons : (xs ys : List ℕ) (y : ℕ) → (xs ++ (y ∷ [])) ++ ys ≡ xs ++ (y ∷ ys)
append_cons [] ys y = refl
append_cons (x ∷ xs) ys y = ap (λ zs. x ∷ zs) (append_cons xs ys y)

or_false : (b : Bool) → (b || false) ≡ b
or_false b = ground arith

or_true : (b : Bool) → (b || true) ≡ true
or_true b = ground arith

append_nil : (xs : List ℕ) → xs ++ [] ≡ xs
append_nil [] = refl
append_nil (x ∷ xs) = ap (λ zs. x ∷ zs) (append_nil xs)

module _ (c : LoopConfig) where
  -- The checkpoint that is due at the end of an epoch.
  abbrev pub is_saved : ℕ → Bool
  is_saved epoch = (epoch + 1) % c.save_interval == 0

  -- What a run of the loop over this many epochs adds to the checkpoints, and whether SIGTERM ended
  -- it: every epoch that is due, and the one in which SIGTERM is seen, which is the last.
  pub data Checkpoints : ℕ → ℕ → List ℕ → Bool → Type 0 where
    complete : {epoch : ℕ} → Checkpoints epoch 0 [] false
    continued :
        {epoch n : ℕ} {added : List ℕ} {interrupted : Bool}
        → Checkpoints (epoch + 1) n added interrupted
        → Checkpoints epoch (suc n) (if is_saved epoch then epoch ∷ added else added) interrupted
    terminated : {epoch n : ℕ} → Checkpoints epoch (suc n) (epoch ∷ []) true

  -- No epoch from this one on has been saved.
  abbrev Old : ℕ → LoopState → Type 0
  Old epoch s = (j : ℕ) → is_last_saved c (epoch + j) s.last_saved_epoch ≡ false

  -- What the end of an epoch leaves, from the state before it.
  record Ended (epoch : ℕ) (s t : LoopState) : Type 0 where
    saved :
        t.saved
        ≡ (if is_saved epoch || t.sigterm_received then s.saved ++ (epoch ∷ []) else s.saved)
    old : Old (epoch + 1) t

  after_batches-Unsaved : (s : LoopState) → Unsaved c s (after_batches c s)
  unfolding after_batches step_schedulers
  after_batches-Unsaved s = elim (Bool-cases c.step_every_batch) [
    | inl e ↦ rw e (refl, refl)
    | inr e ↦ rw e (refl, refl)
  ]

  evaluate_epoch-Unsaved :
      (epoch : ℕ) (s : LoopState) → Ensures (Unsaved c s) (evaluate_epoch c epoch s)
  unfolding evaluate_epoch evaluate
  evaluate_epoch-Unsaved epoch s =
      branch-Unsaved c s (evaluate s) s (is_due c (counts_epochs c) (epoch + 1)) (refl, refl)
        (refl, refl)

  -- The epoch is saved where it is due, and nothing later is.
  record Saved (epoch : ℕ) (s t : LoopState) : Type 0 where
    saved : t.saved ≡ (if is_saved epoch then s.saved ++ (epoch ∷ []) else s.saved)
    last : is_last_saved c epoch t.last_saved_epoch ≡ is_saved epoch
    old : Old (epoch + 1) t

  save_epoch-Saved :
      (epoch : ℕ) (s : LoopState) → Old epoch s → Ensures (Saved epoch s) (save_epoch c epoch s)
  unfolding save_epoch is_multiple save_checkpoint is_last_saved
  save_epoch-Saved epoch s old = elim (Bool-cases (c.save_interval == 0)) [
    | inl z ↦ rw z raises
    | inr z ↦ rw z (elim (Bool-cases (is_saved epoch)) [
      | inl e ↦ rw e (
          returns (record {
            saved = rw e refl;
            last = rw e (same_epoch epoch);
            old = λ j. later epoch j;
          }))
      | inr e ↦ rw e (
          returns (record {
            saved = rw e refl;
            last = rw e (
                subst (λ n. is_last_saved c n s.last_saved_epoch ≡ false) (plus_zero epoch)
                  (old 0));
            old = λ j.
                subst (λ n. is_last_saved c n s.last_saved_epoch ≡ false) (plus_one epoch j)
                  (old (suc j));
          }))
    ])
  ]

  save_interrupted-Ended :
      (epoch : ℕ) (s t : LoopState) (signal : Bool)
      → Saved epoch s t
      → Ended epoch s (save_interrupted c epoch (record t { sigterm_received = signal }))
  unfolding save_interrupted save_checkpoint
  save_interrupted-Ended epoch s t false h = record {
    saved =
        h.saved
        ∙ ap (λ b. if b then s.saved ++ (epoch ∷ []) else s.saved)
            (sym (or_false (is_saved epoch)));
    old = h.old;
  }
  save_interrupted-Ended epoch s t true h = elim (Bool-cases (is_saved epoch)) [
    | inl e ↦
        let last = h.last ∙ e in
        rw last (record { saved = rw e (h.saved ∙ rw e refl); old = h.old })
    | inr e ↦
        let last = h.last ∙ e in
        let kept : t.saved ≡ s.saved = h.saved ∙ rw e refl in
        rw last (record { saved = rw e (ap (λ xs. xs ++ (epoch ∷ [])) kept); old = h.old })
  ]

  moved_Ended : (epoch : ℕ) (s u t : LoopState) → Unsaved c s u → Ended epoch u t → Ended epoch s t
  moved_Ended epoch s u t (a, b) h = record {
    saved =
        h.saved
        ∙ ap (λ xs. if is_saved epoch || t.sigterm_received then xs ++ (epoch ∷ []) else xs) a;
    old = h.old;
  }

  moved-Old : (epoch : ℕ) (s t : LoopState) → Unsaved c s t → Old epoch s → Old epoch t
  moved-Old epoch s t (a, b) old j = ap (is_last_saved c (epoch + j)) b ∙ old j

  after_saving :
      (epoch : ℕ) (x : Epoch) (s u : LoopState)
      → Unsaved c s u
      → Old epoch s
      → Ensures (Ended epoch s) (do
        saved ← save_epoch c epoch u
        ok (
            save_interrupted c epoch
              (record saved { sigterm_received = saved.sigterm_received || x.late_sigterm })))
  after_saving epoch x s u r old =
      bind-Ensures (Saved epoch u) (Ended epoch s) (save_epoch c epoch u) _
        (save_epoch-Saved epoch u (moved-Old epoch s u r old))
        (λ v h. returns (
          moved_Ended epoch s u _ r
            (save_interrupted-Ended epoch u v (v.sigterm_received || x.late_sigterm) h)))

  train_epoch-Ended :
      (epoch : ℕ) (x : Epoch) (s : LoopState)
      → Old epoch s
      → Ensures (Ended epoch s) (train_epoch c epoch x s)
  unfolding train_epoch start_epoch
  train_epoch-Ended epoch x s old =
      bind-Ensures (Unsaved c s) (Ended epoch s) (train_batches c x.offered (start_epoch c s)) _
        (train_batches-Unsaved c x.offered (start_epoch c s))
        (λ t p.
          let q = after-Unsaved c s t (after_batches c t) p (after_batches-Unsaved t) in
          bind-Ensures (Unsaved c s) (Ended epoch s) (evaluate_epoch c epoch (after_batches c t)) _
            (imp-Ensures (Unsaved c (after_batches c t)) (Unsaved c s) _
              (λ u r. after-Unsaved c s (after_batches c t) u q r)
              (evaluate_epoch-Unsaved epoch (after_batches c t)))
            (λ u r. after_saving epoch x s u r old))

  -- The checkpoints of a run from a state, and whether SIGTERM ended it.
  record Resumable (epoch n : ℕ) (s t : LoopState) : Type 0 where
    added : List ℕ
    trail : Checkpoints epoch n added t.sigterm_received
    saved : t.saved ≡ s.saved ++ added

  joined_saved :
      (epoch n : ℕ) (s t u : LoopState)
      → t.saved ≡ (if is_saved epoch then s.saved ++ (epoch ∷ []) else s.saved)
      → Resumable (epoch + 1) n t u
      → Resumable epoch (suc n) s u
  joined_saved epoch n s t u h r = record {
    added = if is_saved epoch then epoch ∷ r.added else r.added;
    trail = continued r.trail;
    saved = elim (Bool-cases (is_saved epoch)) [
      | inl e ↦
          let here : t.saved ≡ s.saved ++ (epoch ∷ []) = h ∙ rw e refl in
          rw e (r.saved ∙ ap (λ xs. xs ++ r.added) here ∙ append_cons s.saved r.added epoch)
      | inr e ↦
          let here : t.saved ≡ s.saved = h ∙ rw e refl in
          rw e (r.saved ∙ ap (λ xs. xs ++ r.added) here)
    ];
  }

  train_epochs-Resumable :
      (xs : List Epoch) (epoch : ℕ) (s : LoopState)
      → s.sigterm_received ≡ false
      → Old epoch s
      → Ensures (Resumable epoch (length xs) s) (train_epochs c epoch xs s)
  unfolding train_epochs
  train_epochs-Resumable [] epoch s quiet old = returns (record {
    added = [];
    trail = subst (Checkpoints epoch 0 []) (sym quiet) complete;
    saved = sym (append_nil s.saved);
  })
  train_epochs-Resumable (x ∷ xs) epoch s quiet old =
      bind-Ensures (Ended epoch s) (Resumable epoch (suc (length xs)) s) (train_epoch c epoch x s) _
        (train_epoch-Ended epoch x s old)
        (λ t h.
          if-Ensures (Resumable epoch (suc (length xs)) s) t.sigterm_received (ok t)
            (train_epochs c (epoch + 1) xs t)
            (λ e. returns (record {
              added = epoch ∷ [];
              trail = subst (Checkpoints epoch (suc (length xs)) (epoch ∷ [])) (sym e) terminated;
              saved = h.saved ∙ rw (e, or_true (is_saved epoch)) refl;
            }))
            (λ e.
              imp-Ensures (Resumable (epoch + 1) (length xs) t)
                (Resumable epoch (suc (length xs)) s) (train_epochs c (epoch + 1) xs t)
                (λ u r.
                  joined_saved epoch (length xs) s t u
                    (h.saved ∙ rw (e, or_false (is_saved epoch)) refl) r)
                (train_epochs-Resumable xs (epoch + 1) t e h.old)))

  -- A training run that raises nothing stops after its last epoch, or after the first one in which
  -- SIGTERM is seen, and leaves these checkpoints, in order and none twice: every epoch that is due
  -- by the save interval, and the epoch that SIGTERM cut short, whether it was due or not.
  pub train_epochs-Checkpoints :
      (xs : List Epoch) (start : ℕ) (t : LoopState)
      → train_epochs c start xs initial ≡ ok t
      → Checkpoints start (length xs) t.saved t.sigterm_received
  train_epochs-Checkpoints xs start t h =
      let r =
        Ensures-eq-ok (train_epochs c start xs initial) t
          (train_epochs-Resumable xs start initial refl (λ j. unfold is_last_saved in refl)) h in
      subst (λ saved. Checkpoints start (length xs) saved t.sigterm_received) (sym r.saved) r.trail
