-- ===== src/Experiments/Assignment.antt =====
-- Which variant `assign` of models/validation/ab_testing.py gives to a user.
use ml_engineer_challenge_so.Prelude.{
  ℕ, String, ◌≡◌, refl, ap, subst, ◌⊎◌, inl, inr, Bool, true, false, Bool-cases, List, [], ◌∷◌,
  ◌++◌, some, all, arith,
}
use ml_engineer_challenge_so.Prelude.Float.{Float}
use ml_engineer_challenge_so.Experiments.{
  Variant, Experiment, pick, position_of, assign, assign_among, zero_weight,
}

module _ (N : Float) where
  open N use {F}

  -- The running total of the weights, from left to right.
  abbrev pub total : F → List (Variant N) → F
  total acc [] = acc
  total acc (v ∷ vs) = total (N.add acc v.weight) vs

  -- The position is below none of the running totals.
  abbrev pub AtOrAbove : F → F → List (Variant N) → Type 0
  AtOrAbove p acc [] = Unit
  AtOrAbove p acc (v ∷ vs) =
      (N.lt p (N.add acc v.weight) ≡ false) × AtOrAbove p (N.add acc v.weight) vs

  -- `v` is the variant whose segment of the running totals holds the position, or the last one
  -- where no segment does.
  pub record IsSegment (p acc : F) (vs : List (Variant N)) (v : Variant N) : Type 0 where
    pub before : List (Variant N)
    pub after : List (Variant N)
    pub split : vs ≡ before ++ (v ∷ after)
    pub above : AtOrAbove p acc before
    pub below : (N.lt p (N.add (total acc before) v.weight) ≡ true) ⊎ (after ≡ [])

  pick-IsSegment :
      (p acc : F) (v : Variant N) (vs : List (Variant N))
      → IsSegment p acc (v ∷ vs) (pick N p acc v vs)
  unfolding pick
  pick-IsSegment p acc v [] = record {
    before = [];
    after = [];
    split = refl;
    above = tt;
    below = inr refl;
  }
  pick-IsSegment p acc v (w ∷ vs) = elim (Bool-cases (N.lt p (N.add acc v.weight))) [
    | inl hit ↦
        rw hit (record { before = []; after = w ∷ vs; split = refl; above = tt; below = inl hit })
    | inr miss ↦
        let later = pick-IsSegment p (N.add acc v.weight) w vs in
        rw miss (record {
          before = v ∷ later.before;
          after = later.after;
          split = ap (λ t. v ∷ t) later.split;
          above = (miss, later.above);
          below = later.below;
        })
  ]

  abbrev pub FirstIs : Variant N → List (Variant N) → Type 0
  FirstIs v vs = (rest : List (Variant N)) × (vs ≡ v ∷ rest)

  assign_among-cases :
      (p : F) (enabled : Bool) (vs : List (Variant N)) (v : Variant N)
      → assign_among N p enabled vs ≡ some v
      → ((enabled ≡ true) × IsSegment p (zero_weight N) vs v) ⊎ ((enabled ≡ false) × FirstIs v vs)
  unfolding assign_among
  assign_among-cases p enabled [] v h = absurd (cc h)
  assign_among-cases p true (w ∷ vs) v h = inl (
    refl,
    subst (λ u. IsSegment p (zero_weight N) (w ∷ vs) u) (ground arith)
        (pick-IsSegment p (zero_weight N) w vs),
  )
  assign_among-cases p false (w ∷ vs) v h = inr (refl, (vs, ground arith))

  -- An enabled experiment assigns a user to the first variant whose running total of weights
  -- passes the user's position, and to the last variant where none does; a disabled experiment
  -- assigns everyone to its first variant, the control.
  pub assign-IsSegment :
      (hash : String → ℕ) (e : Experiment N) (user_id : String) (v : Variant N)
      → assign N hash e user_id ≡ some v
      → ((e.enabled ≡ true)
          × IsSegment (position_of N hash e.name user_id) (zero_weight N) e.variants v)
        ⊎ ((e.enabled ≡ false) × FirstIs v e.variants)
  unfolding assign
  assign-IsSegment hash e user_id v h =
      assign_among-cases (position_of N hash e.name user_id) e.enabled e.variants v h

  all_middle :
      (test : Variant N → Bool) (before after : List (Variant N)) (v : Variant N)
      → all test (before ++ (v ∷ after)) ≡ true
      → test v ≡ true
  all_middle test [] after v a = ground arith
  all_middle test (w ∷ before) after v a = all_middle test before after v (ground arith)

  -- The variant assigned passes every test that all variants pass.
  pub assign-all :
      (test : Variant N → Bool) (hash : String → ℕ) (e : Experiment N) (user_id : String)
      (v : Variant N)
      → assign N hash e user_id ≡ some v
      → all test e.variants ≡ true
      → test v ≡ true
  assign-all test hash e user_id v h a = elim (assign-IsSegment hash e user_id v h) [
    | inl (on, s) ↦ all_middle test s.before s.after v (subst (λ vs. all test vs ≡ true) s.split a)
    | inr (off, (rest, p)) ↦ all_middle test [] rest v (subst (λ vs. all test vs ≡ true) p a)
  ]
