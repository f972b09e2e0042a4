-- ===== src/Audit/Tests.antt =====
-- Runs of api/services/audit_service.py.
use ml_engineer_challenge_so.Prelude.{
  length, ◌==◌, ◌+◌, ◌≤◌, ℕ, ◌≡◌, refl, Bool, true, false, List, [], ◌∷◌,
}
use ml_engineer_challenge_so.Audit.{AuditService, init, record_fields, write, drain}
use ml_engineer_challenge_so.Audit.Delivery.{drain-delivers}
use ml_engineer_challenge_so.Audit.Writer.{
  Reach, System, got, system, offer, start, get, here, next,
}
use ml_engineer_challenge_so.Audit.Writer.Contents.{holding, offered, number_of}
use ml_engineer_challenge_so.Audit.Writer.Accounting.{Inv, Reach-init-Inv}

abbrev always : ℕ → Bool
always n = true

abbrev three : List ℕ
three = 1 ∷ 2 ∷ 3 ∷ []

abbrev three_queued : AuditService ℕ
three_queued = record (init true 10 2) { queue = 1 ∷ 2 ∷ 3 ∷ [] }

drain-delivers_example : (drain always three_queued).queue ≡ []
unfolding init
drain-delivers_example = (drain-delivers always three_queued refl).0

drained_rows : (drain always three_queued).rows ≡ 1 ∷ 2 ∷ 3 ∷ []
unfolding drain write init
drained_rows = refl

-- Two records, of which the writer has one in hand.
abbrev one_taken : System ℕ
one_taken = record {
  service = record {
    enabled = true;
    queue = 2 ∷ [];
    queue_size = 10;
    batch_size = 2;
    stats = record { queued = 2; written = 0; dropped = 0; failed = 0 };
    rows = [];
    writes = 0;
  };
  phase = got 1;
  stopping = false;
  draining = [];
  lost = 0;
}

abbrev run_to_one : Reach always (system (init true 10 2)) one_taken
unfolding init record_fields
run_to_one =
    next
      (next (next (next here (offer (system (init true 10 2)) 1)) (offer _ 2)) (start _ refl refl))
      (get _ 1 (2 ∷ []) refl refl)

Reach-init-Inv_example :
    Inv one_taken
    × (one_taken.service.stats.queued ≡ length (offered run_to_one))
    × (number_of (λ n. n == 2) one_taken.service.rows
          + number_of (λ n. n == 2) one_taken.service.queue
          + number_of (λ n. n == 2) (holding one_taken.phase)
          + number_of (λ n. n == 2) one_taken.draining
        ≤ number_of (λ n. n == 2) (offered run_to_one))
Reach-init-Inv_example = Reach-init-Inv always 10 2 {s = one_taken} run_to_one (λ n. n == 2)
