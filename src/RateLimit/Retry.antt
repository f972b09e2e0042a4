-- ===== src/RateLimit/Retry.antt =====
-- The `Retry-After` of a rejection, api/middleware/rate_limit.py.
use ml_engineer_challenge_so.Prelude.{
  ℕ, ◌+◌, ◌*◌, ◌≤◌, ◌<◌, ◌≡◌, ◌∙◌, ap, true, not, List, [], ◌∷◌, String, length, All, All-keep,
  or_else, arith, refl, subst,
}
use ml_engineer_challenge_so.Prelude.Int.{sub_ℕ}
use ml_engineer_challenge_so.RateLimit.Commands.{
  SortedSet, IsSortedSet, Entry, in_range, lowest_score,
}
use ml_engineer_challenge_so.RateLimit.{Key, Reply, sliding_window, decide, retry_after}
use ml_engineer_challenge_so.RateLimit.Window.Counts.{live, trim, length-trim, live-le-length}
use ml_engineer_challenge_so.RateLimit.Window.{Run, Run-Inv}

retry_after_late :
    (oldest window now later : ℕ)
    → now < oldest + window
    → now + retry_after oldest window now * 1000 ≤ later
    → oldest + window ≤ later
unfolding retry_after
retry_after_late oldest window now later h k = ground arith

-- The first member that trimming leaves is younger than the window.
trim_head :
    (window now : ℕ) (es rest : List Entry) (e : Entry)
    → trim window now es ≡ e ∷ rest
    → now < e.score + window
trim_head window now es rest e p =
    let kept : All (λ f. not (in_range 0 (sub_ℕ now window) f) ≡ true) (e ∷ rest) =
      subst (All (λ f. not (in_range 0 (sub_ℕ now window) f) ≡ true)) p
        (All-keep (λ f. not (in_range 0 (sub_ℕ now window) f)) es) in
    let young : not (in_range 0 (sub_ℕ now window) e) ≡ true = kept.0 in ground arith

-- Once its oldest member has left the window, a full set has room.
live_after :
    (window later limit : ℕ) (es rest : List Entry) (e : Entry)
    → es ≡ e ∷ rest
    → length es ≤ limit
    → e.score + window ≤ later
    → live window later es < limit
unfolding live
live_after window later limit es rest e p full old =
    rw p (ground (arith, live-le-length window later rest, ap length p))

module _ (R : SortedSet) (window limit now : ℕ) (member : String) (k : Key R) where
  abbrev cut : R.Z
  cut = R.zremrangebyscore 0 (sub_ℕ now window) k.set

  -- What a rejection by the script says of the set.
  rejected :
      (sliding_window R now window limit member k).0.allowed ≡ 0
      → (limit ≤ R.zcard cut)
        × ((sliding_window R now window limit member k).1.set ≡ cut)
        × ((sliding_window R now window limit member k).0.oldest ≡ or_else (R.lowest cut) 0)
  unfolding sliding_window
  rejected h = ground arith

  admits : R.zcard cut < limit → (sliding_window R now window limit member k).0.allowed ≡ 1
  unfolding sliding_window
  admits h = ground arith

decide-retry :
    (R : SortedSet) (now window limit : ℕ) (r : Reply)
    → r.allowed ≡ 0
    → (decide R now window limit r).retry_after_seconds ≡ retry_after r.oldest window now
unfolding decide
decide-retry R now window limit r h = ground arith

module _ (R : SortedSet) (laws : IsSortedSet R) (window limit : ℕ) where
  room_later :
      (k : Key R) (now later : ℕ) (left : List Entry)
      → trim window now (laws.entries k.set) ≡ left
      → 0 < limit
      → length (laws.entries k.set) ≤ limit
      → limit ≤ length left
      → now + retry_after (or_else (lowest_score left) 0) window now * 1000 ≤ later
      → live window later left < limit
  room_later k now later [] p pos full busy wait = absurd (omega arith)
  room_later k now later (e ∷ rest) p pos full busy wait =
      live_after window later limit (e ∷ rest) rest e refl
        (omega (
          arith,
          ap length p,
          length-trim window now (laws.entries k.set),
          live-le-length window now (laws.entries k.set),
        ))
        (retry_after_late e.score window now later
          (trim_head window now (laws.entries k.set) rest e p) wait)

  entries-cut :
      (z : R.Z) (now : ℕ)
      → laws.entries (R.zremrangebyscore 0 (sub_ℕ now window) z) ≡ trim window now (laws.entries z)
  entries-cut z now = laws.zremrangebyscore_lem 0 (sub_ℕ now window) z

  zcard-cut :
      (z : R.Z) (now : ℕ)
      → R.zcard (R.zremrangebyscore 0 (sub_ℕ now window) z) ≡ live window now (laws.entries z)
  zcard-cut z now = simp (laws.zcard_lem, entries-cut, length-trim)

  -- A caller that is rejected and waits for the seconds of `Retry-After`, with no request in
  -- between, is admitted then, whatever requests came before; the limit is at least one.
  pub retry_after_suffices :
      {h : List ℕ} {k : Key R} {t : ℕ}
      → Run R laws window limit h k t
      → 0 < limit
      → (now later : ℕ) (member later_member : String)
      → (sliding_window R now window limit member k).0.allowed ≡ 0
      → now
          + (decide R now window limit
              (sliding_window R now window limit member k).0).retry_after_seconds
            * 1000
        ≤ later
      → (sliding_window R later window limit later_member
          (sliding_window R now window limit member k).1).0.allowed
        ≡ 1
  retry_after_suffices {k} r pos now later member later_member refused wait =
      let (busy, set, oldest) = rejected R window limit now member k refused in
      let es = laws.entries k.set in
      let count =
        ap (λ z. R.zcard (R.zremrangebyscore 0 (sub_ℕ later window) z)) set
        ∙ zcard-cut (cut R window limit now member k) later
        ∙ ap (live window later) (entries-cut k.set now) in
      let delay =
        decide-retry R now window limit (sliding_window R now window limit member k).0 refused
        ∙ ap (λ o. retry_after o window now)
            (oldest
              ∙ ap (λ o. or_else o 0)
                  (laws.lowest_lem (cut R window limit now member k)
                    ∙ ap lowest_score (entries-cut k.set now))) in
      let room =
        room_later k now later (trim window now es) refl pos (Run-Inv R laws window limit r).full
          (omega (arith, zcard-cut k.set now, length-trim window now es)) (omega (arith, delay)) in
      admits R window limit later later_member (sliding_window R now window limit member k).1
        (omega (arith, count, room))
