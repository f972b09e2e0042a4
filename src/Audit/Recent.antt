-- ===== src/Audit/Recent.antt =====
-- What a full queue of api/services/audit_service.py keeps.
use ml_engineer_challenge_so.Prelude.{
  ℕ, zero, suc, ◌-◌, ◌≤◌, ◌<◌, ◌≡◌, refl, sym, ap, ◌∙◌, true, List, [], ◌∷◌, ◌++◌, length, drop,
  length-append, length-drop, arith,
}
use mathlib.Core.List.{append_assoc, append-nil}
use native.Mathlib.Decide.{dec_lt}
use ml_engineer_challenge_so.Audit.{AuditService, init, record_fields}

module _ {A : Type 0} where
  -- The last `n` members.
  abbrev pub last_n : ℕ → List A → List A
  last_n n xs = drop (length xs - n) xs

  drop-append : (n : ℕ) (xs ys : List A) → n ≤ length xs → drop n (xs ++ ys) ≡ drop n xs ++ ys
  drop-append zero xs ys h = refl
  drop-append (suc n) [] ys h = absurd (omega arith)
  drop-append (suc n) (x ∷ xs) ys h = drop-append n xs ys (omega arith)

  drop_cons : (n : ℕ) (xs : List A) → n < length xs → (x : A) × (drop n xs ≡ x ∷ drop (suc n) xs)
  drop_cons n [] h = absurd (omega arith)
  drop_cons zero (x ∷ xs) h = (x, refl)
  drop_cons (suc n) (x ∷ xs) h = drop_cons n xs (omega arith)

  -- Before the queue is full, and once it is.
  last_n-short : (n : ℕ) (xs : List A) → length xs ≤ n → last_n n xs ≡ xs
  last_n-short n xs h = ap (λ k. drop k xs) {y = 0} (omega arith)

  last_n-snoc :
      (n : ℕ) (xs : List A) (f : A)
      → 0 < n
      → n ≤ length xs
      → (x : A) × (rest : List A) × (last_n n xs ≡ x ∷ rest)
        × (last_n n (xs ++ (f ∷ [])) ≡ rest ++ (f ∷ []))
  last_n-snoc n xs f pos h =
      let (x, e) = drop_cons (length xs - n) xs (omega arith) in
      (
        x,
        drop (suc (length xs - n)) xs,
        e,
        ap (λ k. drop k (xs ++ (f ∷ []))) {y = suc (length xs - n)}
              (omega (arith, length-append xs (f ∷ [])))
            ∙ drop-append (suc (length xs - n)) xs (f ∷ []) (omega arith),
      )

  -- The records `past` were offered so far, and the writer took none.
  record Offered (size : ℕ) (past : List A) (s : AuditService A) : Type 0 where
    enabled : s.enabled ≡ true
    size_eq : s.queue_size ≡ size
    queue : s.queue ≡ last_n size past
    queued : s.stats.queued ≡ length past
    dropped : s.stats.dropped ≡ length past - size

  module _ (size : ℕ) (past : List A) (s : AuditService A) (f : A) (o : Offered size past s) where
    offer_room : length past < size → Offered size (past ++ (f ∷ [])) (record_fields f s)
    unfolding record_fields
    offer_room short =
        let q = o.queue ∙ last_n-short size past (omega arith) in
        let grown = length-append past (f ∷ []) in
        let after = last_n-short size (past ++ (f ∷ [])) (omega (arith, grown)) in
        ground (arith, q, ap length q, grown, after)

    offer_full : 0 < size → size ≤ length past → Offered size (past ++ (f ∷ [])) (record_fields f s)
    unfolding record_fields
    offer_full pos full =
        let (x, rest, before, after) = last_n-snoc size past f pos full in
        let q : s.queue ≡ x ∷ rest = o.queue ∙ before in
        let grown = length-append past (f ∷ []) in
        let kept : length (x ∷ rest) ≡ size =
          ap length (sym before) ∙ length-drop (length past - size) past ∙ omega arith in
        ground (arith, q, ap length q, grown, after, kept)

  -- Successive calls of `record`.
  pub record_all : List A → AuditService A → AuditService A
  record_all [] s = s
  record_all (f ∷ fs) s = record_all fs (record_fields f s)

  record_all-Offered :
      (size : ℕ) (past fs : List A) (s : AuditService A)
      → 0 < size
      → Offered size past s
      → Offered size (past ++ fs) (record_all fs s)
  unfolding record_all
  record_all-Offered size past [] s pos o = rw append-nil o
  record_all-Offered size past (f ∷ fs) s pos o = rw (← append_assoc past (f ∷ []) fs) (
      record_all-Offered size (past ++ (f ∷ [])) fs (record_fields f s) pos
        (elim (dec_lt (length past) size) [
          | yes short ↦ offer_room size past s f o short
          | no full ↦ offer_full size past s f o pos (omega arith)
        ]))

  -- While the writer takes nothing, as in an outage, an enabled service with a bound of at least
  -- one keeps exactly the most recent records that the bound allows, in the order in which they
  -- came; every record counts as queued, and those pushed out count as dropped.
  pub record_all-init :
      (size batch_size : ℕ) (fs : List A)
      → 0 < size
      → let s = record_all fs (init true size batch_size) in
        (s.queue ≡ drop (length fs - size) fs)
        × (s.stats.queued ≡ length fs)
        × (s.stats.dropped ≡ length fs - size)
  record_all-init size batch_size fs pos =
      let o = record_all-Offered size [] fs (init true size batch_size) pos (
        unfold init in
        record {
          enabled = refl;
          size_eq = refl;
          queue = sym (last_n-short size [] (omega arith));
          queued = refl;
          dropped = omega arith;
        }) in
      (o.queue, o.queued, o.dropped)
