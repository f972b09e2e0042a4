-- ===== src/Detect/Confident.antt =====
-- Which detections `_decode` of api/services/detection_service.py returns.
use mathlib.Core.List.{Perm}
use mathlib.Core.List.Perm
use ml_engineer_challenge_so.Prelude.{
  Bool-cases, inl, inr, keep, not, ◌&&◌, or_else, >>-eq-ok, raise_if, ℕ, zero, suc, ◌+◌, true, ◌≡◌,
  refl, sym, ap, subst, ◌∙◌, arith, List, [], ◌∷◌, map, take, get_elem?, some, Result, ok, err,
  or_raise, >>=-eq-ok, or_raise-eq-ok,
}
use ml_engineer_challenge_so.Errors.{Raised, builtin}
use ml_engineer_challenge_so.Models.{Host, LoadedModel}
use ml_engineer_challenge_so.Inference.{Vision}
use ml_engineer_challenge_so.Detect.{
  Arrays, Corners, Detection, bounding_box, in_bounds, gather, above, ordered, detection_of,
  detections_of, decode, box_to_absolute,
}
use ml_engineer_challenge_so.Detect.Places.{
  AreAt, nowhere, at, gather-AreAt, AreAt-take, AreAt-unique, AreAt-trans,
}

take-nil : {X : Type 0} (n : ℕ) → take {A = X} n [] ≡ []
take-nil zero = refl
take-nil (suc n) = refl

confidence_of : {F : Type 0} → Result Raised (Detection F) → F → F
confidence_of (ok d) default = d.confidence
confidence_of (err e) default = default

module _ {H : Host} {N : Vision H} (A : Arrays N) where
  open N use {F}

  -- Each is no greater than the one before it.
  abbrev pub IsFalling : List F → Type 0
  IsFalling [] = Unit
  IsFalling (x ∷ []) = Unit
  IsFalling (x ∷ y ∷ zs) = (A.le y x ≡ true) × IsFalling (y ∷ zs)

  -- numpy's argsort puts these scores in falling order, each of them once.
  abbrev pub SortsFalling : List F → Type 0
  SortsFalling xs =
      (ys : List F) × AreAt xs (A.argsort_descending xs) ys × Perm ys xs × IsFalling ys

  -- The places that are kept are those of the scores that reach the threshold.
  above-AreAt :
      (threshold : F) (scores whole : List F) (i : ℕ)
      → ((j : ℕ) → get_elem? whole (i + j) ≡ get_elem? scores j)
      → AreAt whole (above A threshold i scores) (keep (A.le threshold) scores)
  unfolding above
  above-AreAt threshold [] whole i same = nowhere
  above-AreAt threshold (x ∷ scores) whole i same =
      let next : (j : ℕ) → get_elem? whole (suc i + j) ≡ get_elem? scores j = λ j.
        subst (λ (k : ℕ). get_elem? whole k ≡ get_elem? scores j) (omega arith) (same (suc j)) in
      let later = above-AreAt threshold scores whole (suc i) next in
      let here : get_elem? whole i ≡ some x =
        subst (λ (k : ℕ). get_elem? whole k ≡ some x) (omega arith) (same 0) in
      elim (Bool-cases (A.le threshold x)) [
        | inl high ↦ rw high (at here later)
        | inr low ↦ rw low later
      ]

  detection_of-confidence :
      (m : LoadedModel H) (best_class : List ℕ) (best_score : List F) (i : ℕ) (b : Corners F)
      (d : Detection F)
      → detection_of A m best_class best_score i b ≡ ok d
      → (y : F) × (get_elem? best_score i ≡ some y) × (d.confidence ≡ N.round6 y)
  unfolding detection_of confidence_of
  detection_of-confidence m best_class best_score i b d h =
      let (c, classed, h2) =
        >>=-eq-ok (or_raise (get_elem? best_class i) (builtin "IndexError")) _ h in
      let (y, scored, h3) =
        >>=-eq-ok (or_raise (get_elem? best_score i) (builtin "IndexError")) _ h2 in
      let out_of_bounds = not (in_bounds A (bounding_box A b) && A.is_confidence (N.round6 y)) in
      let made : Detection F = record {
        label = or_else (get_elem? m.class_names c) (A.number_text c);
        class_id = c;
        confidence = N.round6 y;
        box = bounding_box A b;
      } in
      let (valid, h4) =
        >>-eq-ok (raise_if out_of_bounds (builtin "ValidationError")) (ok made) h3 in
      (
        y,
        or_raise-eq-ok (get_elem? best_score i) (builtin "IndexError") scored,
        sym (ap (λ (r : Result Raised (Detection F)). confidence_of r (N.round6 y)) h4),
      )

  detections_of-AreAt :
      (m : LoadedModel H) (best_class : List ℕ) (best_score : List F) (kept : List ℕ)
      (boxes : List (Corners F)) (ds : List (Detection F))
      → detections_of A m best_class best_score kept boxes ≡ ok ds
      → (ys : List F) × AreAt best_score kept ys × (map (λ d. d.confidence) ds ≡ map N.round6 ys)
  unfolding detections_of
  detections_of-AreAt m best_class best_score [] [] ds h =
      let e : [] ≡ ds = cc h in
      ([], nowhere, subst (λ (x : List (Detection F)). map (λ d. d.confidence) x ≡ []) e refl)
  detections_of-AreAt m best_class best_score [] (b ∷ boxes) ds h = absurd (cc h)
  detections_of-AreAt m best_class best_score (i ∷ kept) [] ds h = absurd (cc h)
  detections_of-AreAt m best_class best_score (i ∷ kept) (b ∷ boxes) ds h =
      let (d, made, h1) = >>=-eq-ok (detection_of A m best_class best_score i b) _ h in
      let (others, later, same) =
        >>=-eq-ok (detections_of A m best_class best_score kept boxes) _ h1 in
      let (y, found, rounded) = detection_of-confidence m best_class best_score i b d made in
      let (ys, places, equal) =
        detections_of-AreAt m best_class best_score kept boxes others later in
      let e : (d ∷ others) ≡ ds = cc same in
      (
        y ∷ ys,
        at found places,
        subst (λ (x : List (Detection F)). map (λ d. d.confidence) x ≡ N.round6 y ∷ map N.round6 ys)
            e (rw (rounded, equal) refl),
      )

  -- What `ordered` keeps, in terms of the scores at the places that it starts from.
  ordered-AreAt :
      (best_score : List F) (max_detections : ℕ) (kept idx : List ℕ) (scores ys : List F)
      → AreAt best_score kept scores
      → AreAt scores (A.argsort_descending scores) ys
      → Perm ys scores
      → IsFalling ys
      → ordered A best_score max_detections kept ≡ ok idx
      → (zs : List F) × Perm zs scores
        × IsFalling zs
        × AreAt best_score idx (take max_detections zs)
  unfolding ordered
  ordered-AreAt best_score max_detections [] idx scores ys places sorted perm falls h =
      let e : [] ≡ idx = cc h in
      let none_kept : [] ≡ scores = AreAt-unique [] [] scores nowhere places in
      (
        [],
        subst (λ (xs : List F). Perm [] xs) none_kept (Perm.refl []),
        tt,
        rw (take-nil max_detections) (subst (λ (is : List ℕ). AreAt best_score is []) e nowhere),
      )
  ordered-AreAt best_score max_detections (k ∷ kept) idx scores ys places sorted perm falls h =
      let (found, gathered, h1) = >>=-eq-ok (gather best_score (k ∷ kept)) _ h in
      let (by_score, ranked, last) =
        >>=-eq-ok (gather (k ∷ kept) (A.argsort_descending found)) _ h1 in
      let same : found ≡ scores =
        AreAt-unique (k ∷ kept) found scores (gather-AreAt best_score found (k ∷ kept) gathered)
          places in
      let order =
        subst (λ (xs : List F). AreAt (k ∷ kept) (A.argsort_descending xs) by_score) same
          (gather-AreAt (k ∷ kept) by_score (A.argsort_descending found) ranked) in
      let (zs, a, b) = AreAt-trans places order in
      let as_sorted : zs ≡ ys = AreAt-unique (A.argsort_descending scores) zs ys b sorted in
      let e : take max_detections by_score ≡ idx = cc last in
      (
        ys,
        perm,
        falls,
        subst (λ (is : List ℕ). AreAt best_score is (take max_detections ys)) e
            (AreAt-take max_detections
              (subst (λ (xs : List F). AreAt best_score by_score xs) as_sorted a)),
      )

  -- Where numpy's argsort puts the best scores that reach the threshold in falling order, the
  -- detections that `_decode` returns are exactly the first of those scores in that order, up to
  -- the cap: all of them where they are no more than the cap, and else none below one left out. The
  -- confidence that each shows is its score, rounded.
  pub decode-IsFalling :
      (scores : List (List F)) (boxes : List (Corners F)) (m : LoadedModel H) (width height : ℕ)
      (threshold : F) (max_detections : ℕ) (best_score : List F) (ds : List (Detection F))
      → A.amax scores ≡ ok best_score
      → SortsFalling (keep (A.le threshold) best_score)
      → decode A scores boxes m width height threshold max_detections ≡ ok ds
      → (zs : List F) × Perm zs (keep (A.le threshold) best_score)
        × IsFalling zs
        × (map (λ d. d.confidence) ds ≡ map N.round6 (take max_detections zs))
  unfolding decode
  decode-IsFalling scores boxes m width height threshold max_detections best_score ds maxima sorts
        h =
      let (best_class, classed, h1) = >>=-eq-ok (A.argmax scores) _ h in
      let (bests, scored, h2) = >>=-eq-ok (A.amax scores) _ h1 in
      let (kept, chosen, h3) =
        >>=-eq-ok (ordered A bests max_detections (above A threshold 0 bests)) _ h2 in
      let (picked, gathered, h4) = >>=-eq-ok (gather boxes kept) _ h3 in
      let same : bests ≡ best_score = cc in
      let (ys, sorted, perm, falls) =
        subst (λ (xs : List F). SortsFalling (keep (A.le threshold) xs)) (sym same) sorts in
      let (zs, members, falling, places) =
        ordered-AreAt bests max_detections (above A threshold 0 bests) kept
          (keep (A.le threshold) bests) ys
          (above-AreAt threshold bests bests 0 (λ j. ap (get_elem? bests) (omega arith))) sorted
          perm falls chosen in
      let (shown_scores, shown, rounded) =
        detections_of-AreAt m best_class bests kept
          (map (λ b. box_to_absolute A b width height) picked) ds h4 in
      (
        zs,
        subst (λ (xs : List F). Perm zs (keep (A.le threshold) xs)) same members,
        falling,
        rounded
            ∙ ap (map N.round6)
                (AreAt-unique kept shown_scores (take max_detections zs) shown places),
      )
