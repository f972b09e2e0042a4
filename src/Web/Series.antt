-- ===== src/Web/Series.antt =====
-- The instruments of prometheus_client that api/middleware/monitoring.py uses: a series for each
-- list of label values that was ever asked for, and the value of a gauge or counter.
use text.Mathlib.TextEquality.{eq_iff}
use text.Mathlib.TextPositions.{eq_refl}
use ml_engineer_challenge_so.Prelude.{
  zero, suc, String, Bool, true, false, ◌&&◌, ◌||◌, str_eq, if◌then◌else◌, List, [], ◌∷◌, ◌≡◌, refl,
  sym, ◌∙◌, subst, Bool-cases, false≢true, inl, inr, and_elim, arith,
}
use ml_engineer_challenge_so.Prelude.Int.{ℤ, pos, negsuc}

abbrev pub LabelValues : Type 0
LabelValues = List String

abbrev pub same_labels : LabelValues → LabelValues → Bool
same_labels [] [] = true
same_labels (a ∷ ls) (b ∷ ms) = str_eq a b && same_labels ls ms
same_labels ls ms = false

pub same_labels-eq : (ls ms : LabelValues) → same_labels ls ms ≡ true → ls ≡ ms
same_labels-eq [] [] h = refl
same_labels-eq [] (b ∷ bs) h = absurd (cc h)
same_labels-eq (a ∷ ls) [] h = absurd (cc h)
same_labels-eq (a ∷ ls) (b ∷ bs) h =
    let (first, others) = and_elim (str_eq a b) (same_labels ls bs) h in
    let e : a ≡ b = (eq_iff a b).0 first in let es = same_labels-eq ls bs others in cc

pub same_labels_refl : (ls : LabelValues) → same_labels ls ls ≡ true
same_labels_refl [] = refl
same_labels_refl (a ∷ ls) = rw (eq_refl, same_labels_refl ls) refl

differ : (ks ls ms : LabelValues) → same_labels ks ls ≡ false → ks ≡ ms → same_labels ls ms ≡ false
differ ks ls ms other same = elim (Bool-cases (same_labels ls ms)) [
  | inl t ↦
      let eq : ls ≡ ks = same_labels-eq ls ms t ∙ sym same in
      absurd
        (false≢true (sym (subst (λ x. same_labels ks x ≡ false) eq other) ∙ same_labels_refl ks))
  | inr f ↦ f
]

pub record Series : Type 0 where
  pub labels : LabelValues
  pub value : ℤ

-- `labels(...).inc()` and `labels(...).dec()`
abbrev pub inc : ℤ → ℤ
inc (pos n) = pos (suc n)
inc (negsuc zero) = pos 0
inc (negsuc (suc n)) = negsuc n

abbrev pub dec : ℤ → ℤ
dec (pos zero) = negsuc 0
dec (pos (suc n)) = pos n
dec (negsuc n) = negsuc (suc n)

-- The child of these labels, made at zero where there is none, changed by `f`.
unfoldable pub change : (ℤ → ℤ) → LabelValues → List Series → List Series
change f ls [] = record { labels = ls; value = f (pos 0) } ∷ []
change f ls (s ∷ series) =
    if same_labels s.labels ls
    then record s { value = f s.value } ∷ series
    else s ∷ change f ls series

-- What a scrape reads for these labels: a missing series counts as zero.
unfoldable pub value_of : LabelValues → List Series → ℤ
value_of ls [] = pos 0
value_of ls (s ∷ series) = if same_labels s.labels ls then s.value else value_of ls series

unfoldable pub has_series : LabelValues → List Series → Bool
has_series ls [] = false
has_series ls (s ∷ series) = same_labels s.labels ls || has_series ls series

pub value_of-change :
    (f : ℤ → ℤ) (ls ms : LabelValues) (series : List Series)
    → value_of ms (change f ls series)
      ≡ (if same_labels ls ms then f (value_of ms series) else value_of ms series)
unfolding value_of change
value_of-change f ls ms [] = elim (Bool-cases (same_labels ls ms)) [
  | inl e ↦ rw e refl
  | inr e ↦ rw e refl
]
value_of-change f ls ms (s ∷ series) = elim (Bool-cases (same_labels s.labels ls)) [
  | inl e ↦
      let same = same_labels-eq s.labels ls e in
      rw e (elim (Bool-cases (same_labels ls ms)) [
        | inl t ↦ rw (same, t) refl
        | inr t ↦ rw (same, t) refl
      ])
  | inr e ↦ rw e (elim (Bool-cases (same_labels s.labels ms)) [
    | inl t ↦
        let same = same_labels-eq s.labels ms t in
        let other : same_labels ls ms ≡ false = differ s.labels ls ms e same in rw (t, other) refl
    | inr t ↦ rw t (value_of-change f ls ms series)
  ])
]

or_same : (a b : Bool) → (a || (a || b)) ≡ (a || b)
or_same a b = ground arith

or_swap : (a b c : Bool) → (a || (b || c)) ≡ (b || (a || c))
or_swap a b c = ground arith

-- No operation removes a series, and each makes one for its labels.
pub has_series-change :
    (f : ℤ → ℤ) (ls ms : LabelValues) (series : List Series)
    → has_series ms (change f ls series) ≡ (same_labels ls ms || has_series ms series)
unfolding has_series change
has_series-change f ls ms [] = refl
has_series-change f ls ms (s ∷ series) = elim (Bool-cases (same_labels s.labels ls)) [
  | inl e ↦ rw (e, same_labels-eq s.labels ls e) (sym (or_same (same_labels ls ms) _))
  | inr e ↦
      rw (e, has_series-change f ls ms series)
        (or_swap (same_labels s.labels ms) (same_labels ls ms) (has_series ms series))
]
