-- ===== src/RateLimit/Decisions.antt =====
-- The decisions of api/middleware/rate_limit.py: when a caller is turned away, and whose window a
-- request touches.
use Prim.Native.Char.{Char, code}
use Prim.Native.String.{◌++◌}
use text.Mathlib.TextLemmas.{append_cancel_left, cons-append, head-eq_of_cons-eq}
use ml_engineer_challenge_so.Prelude.{
  ℕ, ◌≤◌, ◌*◌, ◌≡◌, refl, sym, ap, ◌∙◌, String, false, inl, inr, Bool-cases, str_eq, eq_iff, err,
  ltb, or_else, arith,
}
use ml_engineer_challenge_so.Prelude.Int.{sub_ℕ}
use ml_engineer_challenge_so.Errors.{ApiError, rate_limit_error}
use ml_engineer_challenge_so.Config.{Settings, UserTier, free, pro, enterprise, rate_limit_for}
use ml_engineer_challenge_so.RateLimit.Commands.{SortedSet}
use ml_engineer_challenge_so.RateLimit.{
  Redis, answering, absent, failing, Store, window_key, window_seconds, retry_after, check, enforce,
  decide, sliding_window, reset,
}

first_codes :
    (c d : Char) (s t u v : String)
    → (String.◌∷◌ c s) ++ u ≡ (String.◌∷◌ d t) ++ v
    → code c ≡ code d
first_codes c d s t u v e =
    ap code (head-eq_of_cons-eq (sym (cons-append c s u) ∙ e ∙ cons-append d t v))

tail_eq : (u v : String) → "ratelimit:" ++ u ≡ "ratelimit:" ++ v → u ≡ v
tail_eq u v e = append_cancel_left "ratelimit:" u v e

-- Different callers have different keys.
window_key_inj :
    (u u' : String) (t t' : UserTier) → window_key u t ≡ window_key u' t' → (u ≡ u') × (t ≡ t')
unfolding window_key
window_key_inj u u' free free e =
    (append_cancel_left ":" u u' (append_cancel_left "free" _ _ (tail_eq _ _ e)), refl)
window_key_inj u u' pro pro e =
    (append_cancel_left ":" u u' (append_cancel_left "pro" _ _ (tail_eq _ _ e)), refl)
window_key_inj u u' enterprise enterprise e =
    (append_cancel_left ":" u u' (append_cancel_left "enterprise" _ _ (tail_eq _ _ e)), refl)
window_key_inj u u' free pro e =
    absurd (omega (arith, first_codes "f" "p" "ree" "ro" _ _ (tail_eq _ _ e)))
window_key_inj u u' free enterprise e =
    absurd (omega (arith, first_codes "f" "e" "ree" "nterprise" _ _ (tail_eq _ _ e)))
window_key_inj u u' pro free e =
    absurd (omega (arith, first_codes "p" "f" "ro" "ree" _ _ (tail_eq _ _ e)))
window_key_inj u u' pro enterprise e =
    absurd (omega (arith, first_codes "p" "e" "ro" "nterprise" _ _ (tail_eq _ _ e)))
window_key_inj u u' enterprise free e =
    absurd (omega (arith, first_codes "e" "f" "nterprise" "ree" _ _ (tail_eq _ _ e)))
window_key_inj u u' enterprise pro e =
    absurd (omega (arith, first_codes "e" "p" "nterprise" "ro" _ _ (tail_eq _ _ e)))

keys_differ :
    (user other : String) (tier other_tier : UserTier)
    → ¬ ((user ≡ other) × (tier ≡ other_tier))
    → str_eq (window_key user tier) (window_key other other_tier) ≡ false
keys_differ user other tier other_tier differ =
    elim (Bool-cases (str_eq (window_key user tier) (window_key other other_tier))) [
      | inl same ↦ absurd (differ (window_key_inj user other tier other_tier ((eq_iff _ _).0 same)))
      | inr apart ↦ apart
    ]

retry_after_pos : (oldest window now : ℕ) → 1 ≤ retry_after oldest window now
unfolding retry_after
retry_after_pos oldest window now = ground arith

module _ (R : SortedSet) (settings : Settings) (s : Store R) where
  -- A request of one user in one tier, and a reset of that window, leave the window of every other
  -- user and tier as it was.
  pub check_isolated :
      (redis : Redis) (now : ℕ) (member user other : String) (tier other_tier : UserTier)
      → ¬ ((user ≡ other) × (tier ≡ other_tier))
      → ((check R redis settings now member user tier s).1 (window_key other other_tier)
          ≡ s (window_key other other_tier))
        × (reset R redis user tier s (window_key other other_tier)
            ≡ s (window_key other other_tier))
  unfolding check reset
  check_isolated absent now member user other tier other_tier differ = (refl, refl)
  check_isolated failing now member user other tier other_tier differ = (refl, refl)
  check_isolated answering now member user other tier other_tier differ =
      let apart = keys_differ user other tier other_tier differ in (rw apart, rw apart)

  abbrev cut : ℕ → String → UserTier → R.Z
  cut now user tier =
      R.zremrangebyscore 0 (sub_ℕ now (window_seconds * 1000)) (s (window_key user tier)).set

  -- An enforced request is refused only where Redis answers and the window, trimmed to the last
  -- sixty seconds, holds at least the tier's limit; the error is the 429 that carries the limit
  -- and a delay of at least one second.
  pub enforce-err :
      (redis : Redis) (now : ℕ) (member user : String) (tier : UserTier) (e : ApiError)
      → (enforce R redis settings now member user tier s).0 ≡ err e
      → (redis ≡ answering)
        × (rate_limit_for settings tier ≤ R.zcard (cut now user tier))
        × (e.status_code ≡ 429)
        × ((delay : ℕ) × (1 ≤ delay) × (e ≡ rate_limit_error delay (rate_limit_for settings tier)))
  unfolding enforce check sliding_window rate_limit_error
  enforce-err absent now member user tier e h = absurd (cc h)
  enforce-err failing now member user tier e h = absurd (cc h)
  enforce-err answering now member user tier e h =
      elim (Bool-cases (ltb (R.zcard (cut now user tier)) (rate_limit_for settings tier))) [
        | inl room ↦ absurd (cc (rw (room, enforce, check, sliding_window, decide) at h))
        | inr full ↦
            let oldest = or_else (R.lowest (cut now user tier)) 0 in
            let delay = retry_after oldest (window_seconds * 1000) now in
            let thrown : e ≡ rate_limit_error delay (rate_limit_for settings tier) = ground arith in
            (
              refl,
              ground arith,
              ap (λ (x : ApiError). x.status_code) thrown,
              (delay, retry_after_pos oldest (window_seconds * 1000) now, thrown),
            )
      ]
