-- ===== src/Cache/Outcomes.antt =====
-- The counters of api/services/cache_service.py.
use ml_engineer_challenge_so.Prelude.{
  ℕ, ◌+◌, ◌≤◌, String, Bool, true, false, ◌≡◌, refl, arith, Option, none, some, Result, ok, err,
  if_elim,
}
use ml_engineer_challenge_so.Cache.{
  RedisServer, Codec, CacheService, get, delete, decoded, answered, deleted,
}

module _ {R : RedisServer} {A : Type 0} (J : Codec A) where
  -- The payload and the counters after a call.
  pub data IsCounted (hits misses errors : ℕ) (c' : CacheService R) : Option A → Type 0 where
    hit :
        {payload : A}
        → c'.hits ≡ hits + 1
        → c'.misses ≡ misses
        → c'.errors ≡ errors
        → IsCounted hits misses errors c' (some payload)
    miss :
        c'.hits ≡ hits
        → c'.misses ≡ misses + 1
        → c'.errors ≡ errors
        → IsCounted hits misses errors c' none
    failed :
        c'.hits ≡ hits
        → c'.misses ≡ misses
        → errors + 1 ≤ c'.errors
        → c'.errors ≤ errors + 2
        → IsCounted hits misses errors c' none

  deleted-counts :
      (c : CacheService R) (r : Bool × R.State)
      → ((deleted c r).hits ≡ c.hits)
        × ((deleted c r).misses ≡ c.misses)
        × (c.errors ≤ (deleted c r).errors)
        × ((deleted c r).errors ≤ c.errors + 1)
  unfolding deleted
  deleted-counts c (true, server) = (refl, refl, omega arith, omega arith)
  deleted-counts c (false, server) = (refl, refl, omega arith, omega arith)

  delete-counts :
      (key : String) (c : CacheService R)
      → ((delete key c).hits ≡ c.hits)
        × ((delete key c).misses ≡ c.misses)
        × (c.errors ≤ (delete key c).errors)
        × ((delete key c).errors ≤ c.errors + 1)
  unfolding delete
  delete-counts key c =
      if_elim
        (λ (t : CacheService R).
          (t.hits ≡ c.hits)
          × (t.misses ≡ c.misses)
          × (c.errors ≤ t.errors)
          × (t.errors ≤ c.errors + 1))
        c.configured (λ _. deleted-counts c (R.delete_key key c.server))
        (λ _. (refl, refl, omega arith, omega arith))

  decoded-IsCounted :
      (key : String) (c : CacheService R) (o : Option A)
      → IsCounted c.hits c.misses c.errors (decoded J key c o).1 (decoded J key c o).0
  unfolding decoded
  decoded-IsCounted key c (some payload) = hit refl refl refl
  decoded-IsCounted key c none =
      let (h, m, low, high) = delete-counts key (record c { errors = c.errors + 1 }) in
      failed h m low (omega (arith, high))

  answered-IsCounted :
      (key : String) (c : CacheService R) (r : Result (Unit {0}) (Option String) × R.State)
      → IsCounted c.hits c.misses c.errors (answered J key c r).1 (answered J key c r).0
  unfolding answered
  answered-IsCounted key c (err e, server) = failed refl refl (omega arith) (omega arith)
  answered-IsCounted key c (ok none, server) = miss refl refl refl
  answered-IsCounted key c (ok (some raw), server) =
      decoded-IsCounted key (record c { server = server }) (J.loads raw)

  -- On a cache with Redis, a lookup counts once: a payload counts as one hit, and no payload as
  -- one miss or as one error, or two where dropping a corrupt entry fails as well. Without Redis
  -- a lookup gives nothing and counts nothing.
  pub get-IsCounted :
      (key : String) (c : CacheService R)
      → (c.configured ≡ true → IsCounted c.hits c.misses c.errors (get J key c).1 (get J key c).0)
        × (c.configured ≡ false → get J key c ≡ (none, c))
  unfolding get
  get-IsCounted key c = (
    λ on.
        if_elim
          (λ (t : Option A × CacheService R).
            c.configured ≡ true → IsCounted c.hits c.misses c.errors t.1 t.0)
          c.configured (λ _ _. answered-IsCounted key c (R.get_text key c.server))
          (λ off up. absurd (cc)) on,
    λ off.
        if_elim (λ (t : Option A × CacheService R). c.configured ≡ false → t ≡ (none, c))
          c.configured (λ on down. absurd (cc)) (λ _ _. refl) off,
  )
