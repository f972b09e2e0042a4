-- ===== src/RateLimit/Window/Counts.antt =====
-- Counts over the members of a window and over the times of admitted requests.
use ml_engineer_challenge_so.Prelude.{
  ℕ, suc, ◌+◌, ◌≤◌, ◌≡◌, String, Bool, false, ◌&&◌, not, ltb, leb, keep, if◌then◌else◌, List, [],
  ◌∷◌, ◌++◌, length, All, arith, refl,
}
use ml_engineer_challenge_so.Prelude.Int.{sub_ℕ}
use ml_engineer_challenge_so.RateLimit.Commands.{Entry, in_range, holds_member}

-- The request admitted at `a` counts towards the window that ends at `t`.
abbrev pub in_window : ℕ → ℕ → ℕ → Bool
in_window window t a = leb a t && ltb t (a + window)

-- How many of the admitted requests lie in the window that ends at `t`.
unfoldable pub recent : ℕ → ℕ → List ℕ → ℕ
recent window t [] = 0
recent window t (a ∷ h) = (if in_window window t a then 1 else 0) + recent window t h

-- How many members are younger than the window at time `t`.
unfoldable pub live : ℕ → ℕ → List Entry → ℕ
live window t [] = 0
live window t (e ∷ es) = (if ltb t (e.score + window) then 1 else 0) + live window t es

-- `ZREMRANGEBYSCORE key 0 (now - window)`
abbrev pub trim : ℕ → ℕ → List Entry → List Entry
trim window now = keep (λ e. not (in_range 0 (sub_ℕ now window) e))

module _ (window : ℕ) where
  -- Trimming keeps what a later window sees.
  pub live-trim :
      (now t : ℕ) (es : List Entry)
      → now ≤ t
      → live window t (trim window now es) ≡ live window t es
  unfolding live
  live-trim now t [] h = refl
  live-trim now t (e ∷ es) h = ground (arith, live-trim now t es h)

  pub length-trim : (now : ℕ) (es : List Entry) → length (trim window now es) ≡ live window now es
  unfolding live
  length-trim now [] = refl
  length-trim now (e ∷ es) = ground (arith, length-trim now es)

  pub live-append :
      (t : ℕ) (front back : List Entry)
      → live window t (front ++ back) ≡ live window t front + live window t back
  unfolding live
  live-append t [] back = omega arith
  live-append t (e ∷ front) back = omega (arith, live-append t front back)

  pub live-insert :
      (t : ℕ) (front back : List Entry) (e : Entry)
      → live window t (front ++ (e ∷ back))
        ≡ (if ltb t (e.score + window) then 1 else 0) + live window t (front ++ back)
  unfolding live
  live-insert t [] back e = refl
  live-insert t (f ∷ front) back e = omega (arith, live-insert t front back e)

  pub length-insert :
      (front back : List Entry) (e : Entry)
      → length (front ++ (e ∷ back)) ≡ suc (length (front ++ back))
  length-insert [] back e = refl
  length-insert (f ∷ front) back e = omega (arith, length-insert front back e)

  pub recent_mono :
      (s t : ℕ) (h : List ℕ) → All (λ a. a ≤ s) h → s ≤ t → recent window t h ≤ recent window s h
  unfolding recent
  recent_mono s t [] old le = omega arith
  recent_mono s t (a ∷ h) old le = ground (arith, recent_mono s t h old.1 le)

  pub recent-old : (t : ℕ) (h : List ℕ) → All (λ a. a + window ≤ t) h → recent window t h ≡ 0
  unfolding recent
  recent-old t [] old = refl
  recent-old t (a ∷ h) old = ground (arith, recent-old t h old.1)

  pub live-le-length : (t : ℕ) (es : List Entry) → live window t es ≤ length es
  unfolding live
  live-le-length t [] = omega arith
  live-le-length t (e ∷ es) = ground (arith, live-le-length t es)

-- A member that the set does not hold is not among what trimming leaves.
pub holds_member-trim :
    (window now : ℕ) (m : String) (es : List Entry)
    → holds_member m es ≡ false
    → holds_member m (trim window now es) ≡ false
holds_member-trim window now m [] h = refl
holds_member-trim window now m (e ∷ es) h = ground (arith, holds_member-trim window now m es)
