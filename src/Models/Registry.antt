-- ===== src/Models/Registry.antt =====
-- The registry of api/services/model_service.py: its invariant, lookups and promotions.
use ml_engineer_challenge_so.Prelude.{
  String, Bool, false, not, ◌||◌, str_eq, Option, none, some, is_some, ◌≡◌, refl, sym, subst,
  Bool-cases, Option-cases, inl, inr, ok, ap, ◌∙◌, >>=-eq-ok,
}
use ml_engineer_challenge_so.Prelude.Dict.{
  Dict, lookup, insert, lookup-insert, lookup-insert_self, Entries, Entries-insert, Entries-imp,
  Entries-lookup,
}
use ml_engineer_challenge_so.Config.{InferenceBackend, same_backend}
use ml_engineer_challenge_so.Models.{
  Host, LoadedModel, ModelService, init, key, model_key, register, set_active, get, find_version,
  resolved_version, get_for_backend, require_backend,
}

module _ {H : Host} where
  -- Some model stands under the key of this name and version.
  abbrev pub IsLoaded : Dict (LoadedModel H) → String → String → Type 0
  IsLoaded models name version =
      (m : LoadedModel H) × (lookup (model_key name version) models ≡ some m)

  pub record Inv (s : ModelService H) : Type 0 where
    pub keyed : Entries (λ k m. k ≡ key m) s.models
    pub active_loaded : Entries (IsLoaded s.models) s.active

  -- The two operations that change the registry.
  pub data Reach : ModelService H → Type 0 where
    start : Reach (init H)
    registered :
        {s : ModelService H} (m : LoadedModel H) (make_active : Bool)
        → Reach s
        → Reach (register m make_active s)
    activated :
        {s t : ModelService H} (name version : String)
        → Reach s
        → set_active name version s ≡ ok t
        → Reach t

  IsLoaded-insert :
      (k : String) (m : LoadedModel H) (models : Dict (LoadedModel H)) (name version : String)
      → IsLoaded models name version
      → IsLoaded (insert k m models) name version
  IsLoaded-insert k m models name version h =
      elim (Bool-cases (str_eq k (model_key name version))) [
        | inl e ↦ (m, rw (lookup-insert, e) refl)
        | inr e ↦ (h.0, rw (lookup-insert, e) h.1)
      ]

  register-Inv :
      (m : LoadedModel H) (make_active : Bool) (s : ModelService H)
      → Inv s
      → Inv (register m make_active s)
  unfolding register
  register-Inv m make_active s i =
      let here : IsLoaded (insert (key m) m s.models) m.name m.version =
        (m, lookup-insert_self (key m) m s.models) in
      let others =
        Entries-imp (IsLoaded s.models) (IsLoaded (insert (key m) m s.models))
          (IsLoaded-insert (key m) m s.models) s.active i.active_loaded in
      record {
        keyed = Entries-insert (λ k n. k ≡ key n) (key m) m s.models refl i.keyed;
        active_loaded = elim (Bool-cases (make_active || not (is_some (lookup m.name s.active)))) [
          | inl e ↦ rw e (
              Entries-insert (IsLoaded (insert (key m) m s.models)) m.name m.version s.active here
                others)
          | inr e ↦ rw e others
        ];
      }

  -- What a successful `set_active` did.
  set_active-inv :
      (name version : String) (s t : ModelService H)
      → set_active name version s ≡ ok t
      → IsLoaded s.models name version × (t ≡ record s { active = insert name version s.active })
  unfolding set_active
  set_active-inv name version s t h =
      elim (Option-cases (lookup (model_key name version) s.models)) [
        | inl e ↦ absurd (cc (rw e at h))
        | inr (m, e) ↦ ((m, e), cc (rw e at h))
      ]

  set_active-Inv :
      (name version : String) (s t : ModelService H)
      → set_active name version s ≡ ok t
      → Inv s
      → Inv t
  set_active-Inv name version s t h i =
      let (loaded, e) = set_active-inv name version s t h in
      subst Inv (sym e) (record {
        keyed = i.keyed;
        active_loaded =
            Entries-insert (IsLoaded s.models) name version s.active loaded i.active_loaded;
      })

  pub Reach-Inv : (s : ModelService H) → Reach s → Inv s
  Reach-Inv _ start = record { keyed = tt; active_loaded = tt }
  Reach-Inv _ (registered {s = s} m make_active r) = register-Inv m make_active s (Reach-Inv s r)
  Reach-Inv _ (activated {s = s} {t = t} name version r h) =
      set_active-Inv name version s t h (Reach-Inv s r)

  -- In a registry that loads and promotions have built, a request that pins no version is served
  -- where its name has an active version, by the model that stands under that name and version.
  pub get-active :
      (s : ModelService H) (name version : String)
      → Reach s
      → lookup name s.active ≡ some version
      → (m : LoadedModel H) × (get s name none ≡ ok m) × (key m ≡ model_key name version)
  unfolding get find_version
  get-active s name version r h =
      let i = Reach-Inv s r in
      let (m, e) = Entries-lookup (IsLoaded s.models) name version s.active i.active_loaded h in
      (
        m,
        rw (h, e) refl,
        sym (Entries-lookup (λ k n. k ≡ key n) (model_key name version) m s.models i.keyed e),
      )

  require_backend-eq :
      (m n : LoadedModel H) (backend : Option InferenceBackend)
      → require_backend m backend ≡ ok n
      → m ≡ n
  unfolding require_backend
  require_backend-eq m n none h = cc h
  require_backend-eq m n (some backend) h = elim (Bool-cases (same_backend m.backend backend)) [
    | inl e ↦ cc (rw e at h)
    | inr e ↦ absurd (cc (rw e at h))
  ]

  pub get_for_backend-get :
      (s : ModelService H) (name : String) (version : Option String)
      (backend : Option InferenceBackend) (m : LoadedModel H)
      → get_for_backend s name version backend ≡ ok m
      → get s name version ≡ ok m
  unfolding get_for_backend
  get_for_backend-get s name version backend m h =
      let (n, got, kept) = >>=-eq-ok (get s name version) _ h in
      let same = require_backend-eq n m backend kept in got ∙ ap ok same

  -- A model that `get` returns for a version that the caller pins stands under that name and
  -- version, whichever version is active.
  pub get-pinned :
      (s : ModelService H) (name version : String) (m : LoadedModel H)
      → Reach s
      → str_eq version "" ≡ false
      → get s name (some version) ≡ ok m
      → key m ≡ model_key name version
  unfolding get find_version
  get-pinned s name version m r pinned h =
      elim (Option-cases (lookup (model_key name version) s.models)) [
        | inl e ↦ absurd (cc (rw (pinned, e) at h))
        | inr (n, e) ↦
            let same : n ≡ m = cc (rw (pinned, e) at h) in
            ap key (sym same)
            ∙ sym (
                Entries-lookup (λ k x. k ≡ key x) (model_key name version) n s.models
                  (Reach-Inv s r).keyed e)
      ]

  -- Pinning the version of a model that is stored gets it.
  pub get-stored :
      (s : ModelService H) (name version : String) (m : LoadedModel H)
      → str_eq version "" ≡ false
      → lookup (model_key name version) s.models ≡ some m
      → get s name (some version) ≡ ok m
  unfolding get find_version
  get-stored s name version m pinned stored = rw (pinned, stored) refl

  found_again :
      (s : ModelService H) (active : Dict String) (other : String) (v : Option String)
      (m : LoadedModel H)
      → find_version s other v ≡ ok m
      → find_version (record s { active = active }) other v ≡ ok m
  unfolding find_version
  found_again s active other none m got = absurd (cc got)
  found_again s active other (some v) m got =
      elim (Option-cases (lookup (model_key other v) s.models)) [
        | inl e ↦ absurd (cc (rw e at got))
        | inr (n, e) ↦ rw e (cc (rw e at got))
      ]

  -- Another entry among the active versions changes no successful search under another name.
  find_version-ok :
      (s : ModelService H) (name version other : String) (pin : Option String) (m : LoadedModel H)
      → str_eq name other ≡ false
      → get s other pin ≡ ok m
      → get (record s { active = insert name version s.active }) other pin ≡ ok m
  unfolding get
  find_version-ok s name version other pin m differs got =
      rw (lookup-insert, differs)
        (found_again s (insert name version s.active) other
          (resolved_version pin (lookup other s.active)) m got)

  -- After a promotion, a request for this name that pins no version gets the model that pinning
  -- the version gets, and a request for another name that got a model gets the same model.
  pub get-set_active :
      (name version : String) (s t : ModelService H)
      → str_eq version "" ≡ false
      → set_active name version s ≡ ok t
      → ((m : LoadedModel H) × (get s name (some version) ≡ ok m) × (get t name none ≡ ok m))
        × ((other : String) (pin : Option String) (m : LoadedModel H)
            → str_eq name other ≡ false
            → get s other pin ≡ ok m
            → get t other pin ≡ ok m)
  unfolding get find_version
  get-set_active name version s t pinned h =
      let ((m, loaded), e) = set_active-inv name version s t h in
      let promoted : get (record s { active = insert name version s.active }) name none ≡ ok m =
        rw (lookup-insert_self, loaded) refl in
      (
        (m, rw (pinned, loaded) refl, subst (λ u. get u name none ≡ ok m) (sym e) promoted),
        λ other pin n differs got.
            subst (λ u. get u other pin ≡ ok n) (sym e)
              (find_version-ok s name version other pin n differs got),
      )
