-- ===== src/Experiments/Registry.antt =====
-- What the registry of api/services/experiment_service.py holds after loading.
use ml_engineer_challenge_so.Prelude.{
  ℕ, String, ◌≡◌, refl, inl, inr, Bool, true, false, ◌&&◌, Bool-cases, List, [], ◌∷◌, Option, some,
  all, map, Result, ok, err, or_else, Option-cases, is_ok, is_ok-bind, not, ap, ◌∙◌, subst,
  >>=-eq-ok, arith,
}
use ml_engineer_challenge_so.Prelude.Dict.{
  Dict, Entries, Entries-insert, Entries-lookup, lookup, insert,
}
use ml_engineer_challenge_so.Prelude.Float.{Float}
use ml_engineer_challenge_so.Experiments.{
  Variant, Experiment, Exn, RawEntry, RawVariant, fields, scalar, ConfigFile, absent, unreadable,
  not_object, not_iterable, entries, Registry, read_entry, read_variant, read_variants,
  make_experiment, add_entry, load_entries, load, loaded_for, is_servable, is_empty, has_member,
  all_distinct, assign, resolve_version, zero_weight, one, handler,
}
use ml_engineer_challenge_so.Experiments.Assignment.{assign-all}

module _ (N : Float) where
  open N use {F}

  abbrev in_unit : Variant N → Bool
  in_unit v = N.le (zero_weight N) v.weight && N.le v.weight (one N)

  -- What an experiment in force promises: some variants, weights between 0 and 1 that sum to 1
  -- within the tolerance, distinct names, and only versions that are loaded.
  pub record IsServed (available : Dict (List String)) (model : String) (e : Experiment N)
      : Type 0 where
    pub nonempty : is_empty N e.variants ≡ false
    pub in_range : all in_unit e.variants ≡ true
    pub close : N.isclose (N.sum (map (λ v. v.weight) e.variants)) (one N) (N.decimal 1 6) ≡ true
    pub distinct : all_distinct (map (λ v. v.name) e.variants) ≡ true
    pub servable : is_servable N (loaded_for available model) e ≡ true

  read_variant-in_range :
      (raw : RawVariant F) (v : Variant N) → read_variant N raw ≡ ok v → in_unit v ≡ true
  unfolding read_variant
  read_variant-in_range raw v h = ground arith

  read_variants-in_range :
      (raw : List (RawVariant F)) (vs : List (Variant N))
      → read_variants N raw ≡ ok vs
      → all in_unit vs ≡ true
  unfolding read_variants
  read_variants-in_range [] [] h = refl
  read_variants-in_range [] (v ∷ vs) h = absurd (cc h)
  read_variants-in_range (r ∷ raw) vs h =
      let (v, first, h₁) = >>=-eq-ok (read_variant N r) _ h in
      let (ws, rest, h₂) = >>=-eq-ok (read_variants N raw) _ h₁ in
      let checked = read_variant-in_range r v first in
      let others = read_variants-in_range raw ws rest in
      let list : vs ≡ v ∷ ws = ground arith in rw (list, checked) others

  make_experiment-ok :
      (name : String) (vs : List (Variant N)) (enabled : Bool) (e : Experiment N)
      → make_experiment N name vs enabled ≡ ok e
      → (e.variants ≡ vs)
        × (is_empty N vs ≡ false)
        × (N.isclose (N.sum (map (λ v. v.weight) vs)) (one N) (N.decimal 1 6) ≡ true)
        × (all_distinct (map (λ v. v.name) vs) ≡ true)
  unfolding make_experiment
  make_experiment-ok name vs enabled e h = ground arith

  -- What one entry of the file gives, where it gives an experiment.
  read_entry-ok :
      (raw : RawEntry F) (model : String) (e : Experiment N)
      → read_entry N raw ≡ ok (model, e)
      → (is_empty N e.variants ≡ false)
        × (all in_unit e.variants ≡ true)
        × (N.isclose (N.sum (map (λ v. v.weight) e.variants)) (one N) (N.decimal 1 6) ≡ true)
        × (all_distinct (map (λ v. v.name) e.variants) ≡ true)
  unfolding read_entry
  read_entry-ok scalar model e h = absurd (cc h)
  read_entry-ok (fields (some m) (some n) (some raw) enabled unhashable) model e h =
      let (arms, read, h₁) = >>=-eq-ok (read_variants N raw) _ h in
      let (e', made, h₂) = >>=-eq-ok (make_experiment N n arms (or_else enabled true)) _ h₁ in
      let same : e' ≡ e = ground arith in
      let (kept, nonempty, close, distinct) =
        make_experiment-ok n arms (or_else enabled true) e' made in
      let variants : e.variants ≡ arms = subst (λ x. x.variants ≡ arms) same kept in
      rw variants (nonempty, read_variants-in_range raw arms read, close, distinct)
  read_entry-ok (fields m n raw enabled unhashable) model e h = absurd (cc h)

  handler-ok : (raw : RawEntry F) (r r' : Registry N) → handler N raw r ≡ ok r' → r ≡ r'
  unfolding handler
  handler-ok scalar r r' h = absurd (cc h)
  handler-ok (fields m n vs enabled unhashable) r r' h = ground arith

  add_entry-IsServed :
      (available : Dict (List String)) (raw : RawEntry F) (r r' : Registry N)
      (read : Result Exn (String × Experiment N))
      → read_entry N raw ≡ read
      → Entries (IsServed available) r
      → add_entry N available raw r read ≡ ok r'
      → Entries (IsServed available) r'
  unfolding add_entry
  add_entry-IsServed available raw r r' (err x) p h e =
      subst (Entries (IsServed available)) (handler-ok raw r r' e) h
  add_entry-IsServed available raw r r' (ok (model, x)) p h e =
      elim (Bool-cases (is_servable N (loaded_for available model) x)) [
        | inl serves ↦
            let (nonempty, in_range, close, distinct) = read_entry-ok raw model x p in
            let served : IsServed available model x = record {
              nonempty = nonempty;
              in_range = in_range;
              close = close;
              distinct = distinct;
              servable = serves;
            } in
            let after : insert model x r ≡ r' = ground arith in
            subst (Entries (IsServed available)) after
              (Entries-insert (IsServed available) model x r served h)
        | inr missing ↦
            let after : r ≡ r' = ground arith in subst (Entries (IsServed available)) after h
      ]

  load_entries-IsServed :
      (available : Dict (List String)) (raws : List (RawEntry F)) (r r' : Registry N)
      → Entries (IsServed available) r
      → load_entries N available raws r ≡ ok r'
      → Entries (IsServed available) r'
  unfolding load_entries
  load_entries-IsServed available [] r r' h e =
      let same : r ≡ r' = ground arith in subst (Entries (IsServed available)) same h
  load_entries-IsServed available (raw ∷ raws) r r' h e =
      let (r₁, added, e₁) = >>=-eq-ok (add_entry N available raw r (read_entry N raw)) _ e in
      load_entries-IsServed available raws r₁ r'
        (add_entry-IsServed available raw r r₁ (read_entry N raw) refl h added) e₁

  -- After loading, each experiment in the registry has some variants with distinct names, weights
  -- between 0 and 1 that sum to 1 within the tolerance, and only versions that are loaded for its
  -- model; whatever the file says otherwise is left out.
  pub load-IsServed :
      (config : ConfigFile F) (available : Dict (List String)) (r : Registry N)
      → load N config available ≡ ok r
      → Entries (IsServed available) r
  unfolding load
  load-IsServed absent available r e =
      let same : [] ≡ r = ground arith in subst (Entries (IsServed available)) same tt
  load-IsServed unreadable available r e =
      let same : [] ≡ r = ground arith in subst (Entries (IsServed available)) same tt
  load-IsServed not_object available r e = absurd (cc e)
  load-IsServed not_iterable available r e = absurd (cc e)
  load-IsServed (entries raws) available r e = load_entries-IsServed available raws [] r tt e

  resolved_from :
      (r : Registry N) (hash : String → ℕ) (model user_id version variant : String)
      → resolve_version N hash r model user_id ≡ some (version, variant)
      → (e : Experiment N) × (v : Variant N) × (lookup model r ≡ some e)
        × (assign N hash e user_id ≡ some v)
        × (v.model_version ≡ version)
  unfolding resolve_version
  resolved_from r hash model user_id version variant h = elim (Option-cases (lookup model r)) [
    | inl missing ↦ absurd (ground arith)
    | inr (e, found) ↦ elim (Option-cases (assign N hash e user_id)) [
      | inl nobody ↦ absurd (ground arith)
      | inr (v, assigned) ↦ (e, v, found, assigned, ground arith)
    ]
  ]

  -- A version that the registry gives to a user is one that is loaded for the model, so that the
  -- request does not fail for want of it.
  pub resolve_version-loaded :
      (config : ConfigFile F) (available : Dict (List String)) (r : Registry N) (hash : String → ℕ)
      (model user_id version variant : String)
      → load N config available ≡ ok r
      → resolve_version N hash r model user_id ≡ some (version, variant)
      → has_member version (loaded_for available model) ≡ true
  resolve_version-loaded config available r hash model user_id version variant loaded h =
      let (e, v, found, assigned, same) = resolved_from r hash model user_id version variant h in
      let served =
        Entries-lookup (IsServed available) model e r (load-IsServed config available r loaded)
          found in
      subst (λ x. has_member x (loaded_for available model) ≡ true) same
        (assign-all N (λ w. has_member w.model_version (loaded_for available model)) hash e user_id
          v assigned served.servable)

  -- An entry that raises nothing outside the `try`: an object, whose names can be looked up where
  -- an experiment can be made of it.
  abbrev pub is_harmless : RawEntry F → Bool
  is_harmless scalar = false
  is_harmless (fields m n vs enabled unhashable) =
      not (is_ok (read_entry N (fields m n vs enabled unhashable)) && unhashable)

  -- Whether the file is one whose loading raises nothing.
  abbrev pub is_shaped : ConfigFile F → Bool
  is_shaped not_object = false
  is_shaped not_iterable = false
  is_shaped (entries raws) = all is_harmless raws
  is_shaped _ = true

  add_entry-is_ok :
      (available : Dict (List String)) (m n : Option String) (vs : Option (List (RawVariant F)))
      (enabled : Option Bool) (unhashable : Bool) (r : Registry N)
      (read : Result Exn (String × Experiment N))
      → is_ok (add_entry N available (fields m n vs enabled unhashable) r read)
        ≡ not (is_ok read && unhashable)
  unfolding add_entry handler
  add_entry-is_ok available m n vs enabled unhashable r (err x) = refl
  add_entry-is_ok available m n vs enabled true r (ok (model, e)) = refl
  add_entry-is_ok available m n vs enabled false r (ok (model, e)) = refl

  entry-is_ok :
      (available : Dict (List String)) (raw : RawEntry F) (r : Registry N)
      → is_ok (add_entry N available raw r (read_entry N raw)) ≡ is_harmless raw
  entry-is_ok available scalar r = unfold read_entry add_entry handler in refl
  entry-is_ok available (fields m n vs enabled unhashable) r =
      add_entry-is_ok available m n vs enabled unhashable r
        (read_entry N (fields m n vs enabled unhashable))

  load_entries-is_ok :
      (available : Dict (List String)) (raws : List (RawEntry F)) (r : Registry N)
      → is_ok (load_entries N available raws r) ≡ all is_harmless raws
  unfolding load_entries
  load_entries-is_ok available [] r = refl
  load_entries-is_ok available (raw ∷ raws) r =
      is_ok-bind (add_entry N available raw r (read_entry N raw)) _ (all is_harmless raws)
        (λ r'. load_entries-is_ok available raws r')
      ∙ ap (λ b. b && all is_harmless raws) (entry-is_ok available raw r)

  -- Loading raises nothing exactly where the file is absent, unreadable, or an object whose
  -- experiments can be iterated over and are objects, none of which gives an experiment with a list
  -- or an object for its model or for a version; then every other fault of an entry only leaves
  -- that experiment out.
  pub load-is_ok :
      (config : ConfigFile F) (available : Dict (List String))
      → is_ok (load N config available) ≡ is_shaped config
  unfolding load
  load-is_ok absent available = refl
  load-is_ok unreadable available = refl
  load-is_ok not_object available = refl
  load-is_ok not_iterable available = refl
  load-is_ok (entries raws) available = load_entries-is_ok available raws []
