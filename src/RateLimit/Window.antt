-- ===== src/RateLimit/Window.antt =====
-- The admitted requests of api/middleware/rate_limit.py over the history of one caller.
pub mod Counts
use ml_engineer_challenge_so.Prelude.{
  ℕ, suc, ◌+◌, ◌-◌, ◌≤◌, ◌<◌, ◌≡◌, sym, ◌∙◌, false, true, ltb, ◌==◌, if◌then◌else◌, Bool-cases, inl,
  inr, List, [], ◌∷◌, ◌++◌, Option, none, some, String, length, All, All-imp, arith, refl,
}
use ml_engineer_challenge_so.Prelude.Int.{sub_ℕ}
use ml_engineer_challenge_so.RateLimit.Commands.{SortedSet, IsSortedSet, Entry, holds_member}
use ml_engineer_challenge_so.RateLimit.{Key, Reply, empty_key, sliding_window}
use Counts.{
  recent, live, trim, live-trim, length-trim, live-insert, length-insert, recent_mono, recent-old,
  live-le-length, holds_member-trim,
}

module _ (R : SortedSet) (laws : IsSortedSet R) (window limit : ℕ) where
  abbrev pub admitted : Reply → ℕ → List ℕ → List ℕ
  admitted r now h = if r.allowed == 1 then now ∷ h else h

  -- `Run h k t`: one caller's key holds `k` at time `t`, after the requests admitted at the times
  -- `h`, newest first. Redis may remove a key from its expiry time on. Each request brings a member
  -- that the set does not hold.
  pub data Run : List ℕ → Key R → ℕ → Type 0 where
    start : (t : ℕ) → Run [] (empty_key R) t
    request :
        {h : List ℕ} {k : Key R} {t : ℕ}
        → Run h k t
        → (now : ℕ) (member : String) → t ≤ now
        → holds_member member (laws.entries k.set) ≡ false
        → Run
            (admitted (sliding_window R now window limit member k).0 now h)
            (sliding_window R now window limit member k).1
            now
    expire :
        {h : List ℕ} {k : Key R} {t : ℕ}
        → Run h k t
        → (now deadline : ℕ) → t ≤ now
        → k.expires_at ≡ some deadline
        → deadline ≤ now
        → Run h (empty_key R) now

  pub record Inv (h : List ℕ) (k : Key R) (t : ℕ) : Type 0 where
    pub past : All (λ a. a ≤ t) h
    pub covered : (s : ℕ) → t ≤ s → recent window s h ≤ live window s (laws.entries k.set)
    pub bounded : (s : ℕ) → recent window s h ≤ limit
    pub full : length (laws.entries k.set) ≤ limit
    pub deadline : (d : ℕ) → k.expires_at ≡ some d → All (λ a. a + window ≤ d) h

  module _ (h : List ℕ) (k : Key R) (t now : ℕ) (member : String) where
    abbrev trimmed : R.Z
    trimmed = R.zremrangebyscore 0 (sub_ℕ now window) k.set

    entries-trimmed : laws.entries trimmed ≡ trim window now (laws.entries k.set)
    entries-trimmed = laws.zremrangebyscore_lem 0 (sub_ℕ now window) k.set

    zcard-trimmed : R.zcard trimmed ≡ live window now (laws.entries k.set)
    zcard-trimmed = simp (laws.zcard_lem, entries-trimmed, length-trim)

    module _ (v : Inv h k t) (le : t ≤ now) where
      earlier : (s : ℕ) → now ≤ s → recent window s h ≤ live window now (laws.entries k.set)
      earlier s later = omega (
        arith,
        recent_mono window now s h
            (All-imp (λ a. a ≤ t) (λ a. a ≤ now) (λ a p. omega arith) h v.past) later,
        v.covered now le,
      )

      abbrev added : Key R
      added = record { set = R.zadd now member trimmed; expires_at = some (now + window + 1000) }

      -- where the new member goes in, and what the others amount to
      inserted :
          holds_member member (laws.entries k.set) ≡ false
          → (front : List Entry) × (back : List Entry) × (trim window now (laws.entries k.set)
              ≡ front ++ back)
            × (laws.entries added.set ≡ front ++ (record { score = now; member = member } ∷ back))
      inserted fresh =
          let (front, back, before, after) =
            laws.zadd_lem now member trimmed (
              rw entries-trimmed
                (holds_member-trim window now member (laws.entries k.set) fresh)) in
          (front, back, sym entries-trimmed ∙ before, after)

      live-added :
          holds_member member (laws.entries k.set) ≡ false
          → (s : ℕ) → now ≤ s
          → live window s (laws.entries added.set)
            ≡ (if ltb s (now + window) then 1 else 0) + live window s (laws.entries k.set)
      live-added fresh s later =
          let (front, back, before, after) = inserted fresh in
          rw (after, ← live-trim window now s (laws.entries k.set) later, before)
            (live-insert window s front back _)

      length-added :
          holds_member member (laws.entries k.set) ≡ false
          → length (laws.entries added.set) ≡ suc (R.zcard trimmed)
      length-added fresh =
          let (front, back, before, after) = inserted fresh in
          rw (after, zcard-trimmed, ← length-trim window now (laws.entries k.set), before)
            (length-insert window front back _)

      admit-Inv :
          holds_member member (laws.entries k.set) ≡ false
          → ltb (R.zcard trimmed) limit ≡ true
          → Inv (now ∷ h) added now
      unfolding recent
      admit-Inv fresh room = record {
        past = (omega arith, All-imp (λ a. a ≤ t) (λ a. a ≤ now) (λ a p. omega arith) h v.past);
        covered =
            λ s later. rw (live-added fresh s later) (ground (arith, v.covered s (omega arith)));
        bounded = λ s. ground (arith, v.bounded s, earlier s, zcard-trimmed);
        full = rw (length-added fresh) (ground arith);
        deadline = λ d e.
            let after : now + window ≤ d = ground arith in
            (after, All-imp (λ a. a ≤ t) (λ a. a + window ≤ d) (λ a p. omega arith) h v.past);
      }

      reject-Inv : Inv h (record { set = trimmed; expires_at = k.expires_at }) now
      reject-Inv = record {
        past = All-imp (λ a. a ≤ t) (λ a. a ≤ now) (λ a p. omega arith) h v.past;
        covered = λ s later.
            rw (entries-trimmed, live-trim window now s (laws.entries k.set) later)
              (v.covered s (omega arith));
        bounded = v.bounded;
        full =
            rw (entries-trimmed, length-trim window now (laws.entries k.set))
              (omega (arith, live-le-length window now (laws.entries k.set), v.full));
        deadline = v.deadline;
      }

      request-Inv :
          holds_member member (laws.entries k.set) ≡ false
          → Inv
              (admitted (sliding_window R now window limit member k).0 now h)
              (sliding_window R now window limit member k).1
              now
      unfolding sliding_window
      request-Inv fresh = elim (Bool-cases (ltb (R.zcard trimmed) limit)) [
        | inl room ↦ rw room (admit-Inv fresh room)
        | inr full ↦ rw full reject-Inv
      ]

      expire-Inv : (d : ℕ) → k.expires_at ≡ some d → d ≤ now → Inv h (empty_key R) now
      expire-Inv d e due = record {
        past = All-imp (λ a. a ≤ t) (λ a. a ≤ now) (λ a p. omega arith) h v.past;
        covered = λ s later.
            let old =
              All-imp (λ a. a + window ≤ d) (λ a. a + window ≤ s) (λ a p. omega arith) h
                (v.deadline d e) in
            omega (arith, recent-old window s h old);
        bounded = v.bounded;
        full = rw laws.entries-empty (omega arith);
        deadline = λ d' e'. absurd (cc e');
      }

  start-Inv : (t : ℕ) → Inv [] (empty_key R) t
  unfolding recent
  start-Inv t = record {
    past = tt;
    covered = λ s later. omega arith;
    bounded = λ s. omega arith;
    full = rw laws.entries-empty (omega arith);
    deadline = λ d e. tt;
  }

  pub Run-Inv : {h : List ℕ} {k : Key R} {t : ℕ} → Run h k t → Inv h k t
  Run-Inv (start t) = start-Inv t
  Run-Inv (request {h} {k} {t} r now member le fresh) =
      request-Inv h k t now member (Run-Inv r) le fresh
  Run-Inv (expire {h} {k} {t} r now d le e due) = expire-Inv h k t now "" (Run-Inv r) le d e due

  -- In every history of one caller, in which requests may come at any times and Redis may drop the
  -- key from its expiry time on, the requests admitted within the window that ends at `s`, for
  -- every time `s`, are at most the limit.
  pub recent-le-limit :
      {h : List ℕ} {k : Key R} {t : ℕ} → Run h k t → (s : ℕ) → recent window s h ≤ limit
  recent-le-limit r s = (Run-Inv r).bounded s
