-- ===== src/Cache/Stored.antt =====
-- `set` and then `get` of api/services/cache_service.py.
use ml_engineer_challenge_so.Prelude.{
  ℕ, String, Bool, true, false, ◌≡◌, refl, Option, some, Result, ok, if_elim, sym, Option-cases,
  inl, inr, subst,
}
use ml_engineer_challenge_so.Cache.{
  RedisServer, Codec, CacheService, get, set, decoded, answered, store_text, written, time_to_live,
}

-- What Redis promises of a key within its time to live: reading after a successful write gives
-- what was written.
abbrev pub Keeps : RedisServer → Type 0
Keeps R =
    (key raw : String) (ttl : ℕ) (s : R.State)
    → (R.set_text key raw ttl s).0 ≡ true
    → (R.get_text key (R.set_text key raw ttl s).1).0 ≡ ok (some raw)

-- `json.loads` after `json.dumps`.
abbrev pub RoundTrips : {A : Type 0} → Codec A → Type 0
RoundTrips {A = A} J =
    (value : A) (raw : String) → J.dumps value ≡ some raw → J.loads raw ≡ some value

module _ {R : RedisServer} {A : Type 0} (J : Codec A) where
  answered-some :
      (key : String) (c : CacheService R) (reply : Result (Unit {0}) (Option String) × R.State)
      (raw : String) (value : A)
      → reply.0 ≡ ok (some raw)
      → J.loads raw ≡ some value
      → (answered J key c reply).0 ≡ some value
  unfolding answered decoded
  answered-some key c (reply, server) raw value e loaded = rw (e, loaded) refl

  written-true :
      (c : CacheService R) (r : Bool × R.State)
      → (written J c r).0 ≡ true
      → (r.0 ≡ true) × ((written J c r).1 ≡ record c { server = r.1 })
  unfolding written
  written-true c (true, server) h = (refl, refl)
  written-true c (false, server) h = absurd (cc h)

  stored_text :
      Keeps R
      → (key : String) (value : A) (raw : String) (ttl : Option ℕ) (c : CacheService R)
      → c.configured ≡ true
      → J.loads raw ≡ some value
      → (store_text J key (some raw) ttl c).0 ≡ true
      → (get J key (store_text J key (some raw) ttl c).1).0 ≡ some value
  unfolding store_text get
  stored_text keeps key value raw ttl c on loaded h =
      let reply = R.set_text key raw (time_to_live ttl c.ttl_seconds) c.server in
      let (sent, after) = written-true c reply h in
      subst (λ (t : CacheService R). (get J key t).0 ≡ some value) (sym after)
        (if_elim (λ (t : Option A × CacheService R). t.0 ≡ some value) c.configured
          (λ _.
            answered-some key (record c { server = reply.1 }) (R.get_text key reply.1) raw value
              (keeps key raw (time_to_live ttl c.ttl_seconds) c.server sent) loaded)
          (λ off. absurd (cc)))

  store_text-get :
      Keeps R
      → RoundTrips J
      → (key : String) (value : A) (ttl : Option ℕ) (c : CacheService R) → c.configured ≡ true
      → (store_text J key (J.dumps value) ttl c).0 ≡ true
      → (get J key (store_text J key (J.dumps value) ttl c).1).0 ≡ some value
  unfolding store_text get
  store_text-get keeps trips key value ttl c on stored = elim (Option-cases (J.dumps value)) [
    | inl e ↦ absurd (cc (rw e at stored))
    | inr (raw, e) ↦
        subst
          (λ o.
            (store_text J key o ttl c).0 ≡ true
            → (get J key (store_text J key o ttl c).1).0 ≡ some value)
          (sym e) (λ h. stored_text keeps key value raw ttl c on (trips value raw e) h) stored
  ]

  -- With a Redis that keeps what was written and a codec that reads what it wrote, a lookup after
  -- a `set` that reports success gives the payload that was stored, until the entry expires.
  pub get-set :
      Keeps R
      → RoundTrips J
      → (key : String) (value : A) (ttl : Option ℕ) (c : CacheService R)
      → (set J key value ttl c).0 ≡ true
      → (get J key (set J key value ttl c).1).0 ≡ some value
  unfolding set
  get-set keeps trips key value ttl c stored =
      if_elim (λ (t : Bool × CacheService R). t.0 ≡ true → (get J key t.1).0 ≡ some value)
        c.configured (λ on. store_text-get keeps trips key value ttl c on) (λ off h. absurd (cc h))
        stored
