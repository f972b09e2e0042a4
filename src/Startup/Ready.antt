-- ===== src/Startup/Ready.antt =====
-- What a start of api/main.py that succeeds leaves in `app.state`, and when one fails.
use ml_engineer_challenge_so.Prelude.{
  ℕ, String, true, false, ◌&&◌, str_eq, List, [], ◌∷◌, Option, none, some, is_some, Result, ok, err,
  >>=-eq-ok, ◌≡◌, refl, sym, subst, Bool-cases, inl, inr,
}
use ml_engineer_challenge_so.Prelude.Float.{Float}
use ml_engineer_challenge_so.Config.{Settings, is_production}
use ml_engineer_challenge_so.Errors.{Raised}
use ml_engineer_challenge_so.Auth.{resolve, resolve_from}
use ml_engineer_challenge_so.Models.{
  Host, LoadedModel, ModelService, init, default_version, key, model_key, get_classifier, get,
}
use ml_engineer_challenge_so.Models.Registry.{Reach, get-active, get-pinned, get-stored}
use ml_engineer_challenge_so.Models.Versions.{discover_versions}
use ml_engineer_challenge_so.Loading.Tasks.{Request, load_classifier}
use ml_engineer_challenge_so.Experiments.{
  Exn, key_error, type_error, value_error, attribute_error, Registry, load, resolve_version,
}
use ml_engineer_challenge_so.Experiments.Registry.{resolve_version-loaded}
use ml_engineer_challenge_so.Inference.{Vision}
use ml_engineer_challenge_so.Similarity.{Faiss, SimilarityIndex}
use ml_engineer_challenge_so.Startup.{
  Surroundings, Started, load_request, or_unchanged, load_extra, load_extras, start_detection,
  with_detector, start_similarity, with_index, with_embedder, lifespan, as_raised,
  available_versions, all_models, app_state, load_registry, seed_api_keys,
}
use ml_engineer_challenge_so.Startup.Connections.{create_redis}
use ml_engineer_challenge_so.Startup.Registered.{
  Registers, raised, loaded, load_classifier-Registers, load_embedder-Registers,
  load_detector-Registers, Kept, Registers-Kept, Registers-first,
}
use ml_engineer_challenge_so.Startup.Available.{available-IsLoaded}

module _ {H : Host} {N : Vision H} {W : Float} {I : Faiss N} (S : Surroundings W I)
    (settings : Settings) where
  or_unchanged-Kept :
      (q : Request H) (s : ModelService H) (r : Result Raised (LoadedModel H × ModelService H))
      → (str_eq q.name "tiny-imagenet-classifier" && q.make_active) ≡ false
      → Kept s
      → Registers q s r
      → Kept (or_unchanged S r s)
  or_unchanged-Kept q s _ other k raised = k
  or_unchanged-Kept q s _ other k (loaded m named versioned) =
      Registers-Kept q s m _ other k (loaded m named versioned)

  load_extras-Kept :
      (version : String) (extras : List String) (s : ModelService H)
      → Kept s
      → Kept (load_extras S settings version extras s)
  unfolding load_extras load_extra
  load_extras-Kept version [] s k = k
  load_extras-Kept version (extra ∷ extras) s k = elim (Bool-cases (str_eq extra version)) [
    | inl e ↦ rw e (load_extras-Kept version extras s k)
    | inr e ↦
        let q = load_request S "tiny-imagenet-classifier" extra false in
        let after =
          or_unchanged-Kept q s (load_classifier S.reader settings q s) refl k
            (load_classifier-Registers S.reader settings q s) in
        rw e (load_extras-Kept version extras _ after)
  ]

  with_detector-Kept :
      (s : ModelService H) (r : Result Raised (LoadedModel H × ModelService H))
      → Kept s
      → Registers (load_request S "rtdetr-coco-detector" default_version true) s r
      → Kept ((with_detector S s r).1)
  unfolding with_detector
  with_detector-Kept s _ k raised = k
  with_detector-Kept s _ k (loaded m named versioned) =
      let q = load_request S "rtdetr-coco-detector" default_version true in
      Registers-Kept q s m _ refl k (loaded m named versioned)

  with_index-models :
      (m : LoadedModel H) (t : ModelService H) (r : Result Raised (SimilarityIndex I))
      → (with_index S m t r).1 ≡ t
  unfolding with_index
  with_index-models m t (ok index) = refl
  with_index-models m t (err e) = refl

  with_embedder-Kept :
      (s : ModelService H) (r : Result Raised (LoadedModel H × ModelService H))
      → Kept s
      → Registers (load_request S "tiny-imagenet-embedder" default_version true) s r
      → Kept ((with_embedder S s r).1)
  unfolding with_embedder
  with_embedder-Kept s _ k raised = k
  with_embedder-Kept s _ k (loaded m named versioned) =
      let q = load_request S "tiny-imagenet-embedder" default_version true in
      rw with_index-models (Registers-Kept q s m _ refl k (loaded m named versioned))

  all_models-Kept :
      (m : LoadedModel H) (s : ModelService H) → Kept s → Kept (all_models S settings m s)
  unfolding start_similarity start_detection
  all_models-Kept m s k =
      let extras =
        load_extras-Kept m.version
          (discover_versions S.directory (H.files.slash S.artifacts_dir "onnx")) s k in
      let detector =
        with_detector-Kept _ _ extras (load_detector-Registers S.reader settings _ _) in
      with_embedder-Kept _ _ detector (load_embedder-Registers S.reader settings _ _)

  abbrev pub first_load : Result Raised (LoadedModel H × ModelService H)
  first_load =
      load_classifier S.reader settings
        (load_request S "tiny-imagenet-classifier" default_version true) (init H)

  as_raised-eq-ok : {A : Type 0} (r : Result Exn A) (a : A) → as_raised r ≡ ok a → r ≡ ok a
  as_raised-eq-ok (ok b) a h = cc h
  as_raised-eq-ok (err key_error) a h = absurd (cc h)
  as_raised-eq-ok (err type_error) a h = absurd (cc h)
  as_raised-eq-ok (err value_error) a h = absurd (cc h)
  as_raised-eq-ok (err attribute_error) a h = absurd (cc h)

  app_state-fields :
      (A : Type 0) (redis : Option (S.drivers.Client)) (m : LoadedModel H) (s : ModelService H)
      (registry : Registry W)
      → load W S.experiments (available_versions (all_models S settings m s)) ≡ ok registry
      → let x : Started S A = app_state S settings redis m s registry in
        (x.models ≡ all_models S settings m s)
        × (load W S.experiments (available_versions x.models) ≡ ok x.experiment_registry)
        × (x.api_key_store ≡ seed_api_keys S.sha256 settings)
  unfolding app_state
  app_state-fields A redis m s registry h = (refl, h, refl)

  -- The steps of a start that succeeds.
  pub lifespan-steps :
      (A : Type 0) (app : Started S A)
      → lifespan S (ok settings) ≡ ok app
      → (m : LoadedModel H) × (s : ModelService H) × (first_load ≡ ok (m, s))
        × (app.models ≡ all_models S settings m s)
        × (load W S.experiments (available_versions app.models) ≡ ok app.experiment_registry)
        × (app.api_key_store ≡ seed_api_keys S.sha256 settings)
  unfolding lifespan
  lifespan-steps A app h =
      let (redis, _, h₁) = >>=-eq-ok (create_redis S.drivers) _ h in
      let ((m, s), first, h₂) = >>=-eq-ok first_load _ h₁ in
      let (registry, read, h₃) = >>=-eq-ok (load_registry S settings m s) _ h₂ in
      let same : app_state S settings redis m s registry ≡ app = cc h₃ in
      let loads =
        as_raised-eq-ok (load W S.experiments (available_versions (all_models S settings m s)))
          registry read in
      let (models, served, keys) =
        subst
          (λ (x : Started S A).
            (x.models ≡ all_models S settings m s)
            × (load W S.experiments (available_versions x.models) ≡ ok x.experiment_registry)
            × (x.api_key_store ≡ seed_api_keys S.sha256 settings))
          same (app_state-fields A redis m s registry loads) in
      (m, s, first, models, served, keys)

  pub lifespan-Kept :
      {A : Type 0} (app : Started S A) → lifespan S (ok settings) ≡ ok app → Kept app.models
  lifespan-Kept app h =
      let (m, s, first, models, _, _) = lifespan-steps _ app h in
      let q = load_request S "tiny-imagenet-classifier" default_version true in
      let registered =
        subst (Registers q (init H)) first
          (load_classifier-Registers S.reader settings q (init H)) in
      subst Kept (sym models)
        (all_models-Kept m s (Registers-first q m s refl refl refl registered))

  -- After a start that succeeds, the registry is one that loads have built; a request that pins no
  -- version gets the default version of the classifier, whichever other versions were on disk;
  -- and in production no API key is known, although the log of such a start says that the keys
  -- come from the database.
  pub lifespan-IsReady :
      {A : Type 0} (app : Started S A)
      → lifespan S (ok settings) ≡ ok app
      → Reach app.models
        × ((m : LoadedModel H) × (get_classifier app.models none ≡ ok m)
            × (key m ≡ model_key "tiny-imagenet-classifier" default_version))
        × ((api_key : String)
            → (is_production settings && is_some (resolve S.sha256 api_key app.api_key_store))
              ≡ false)
  unfolding get_classifier seed_api_keys resolve resolve_from
  lifespan-IsReady app h =
      let (_, _, _, _, _, keys) = lifespan-steps _ app h in
      let kept = lifespan-Kept app h in
      (
        kept.reached,
        get-active app.models "tiny-imagenet-classifier" default_version kept.reached kept.active,
        λ api_key. elim (Bool-cases (is_production settings)) [
          | inl e ↦ rw (keys, e) refl
          | inr e ↦ rw e refl
        ],
      )

  -- After a start that succeeds, a request that follows its experiment finds its model: whatever
  -- version the experiments give a user for a model, that version of the model is loaded, and a
  -- request that pins it gets it. The version is not the empty text.
  pub lifespan-routes :
      {A : Type 0} (app : Started S A) (hash : String → ℕ) (model user_id version variant : String)
      → lifespan S (ok settings) ≡ ok app
      → resolve_version W hash app.experiment_registry model user_id ≡ some (version, variant)
      → str_eq version "" ≡ false
      → (m : LoadedModel H) × (get app.models model (some version) ≡ ok m)
        × (key m ≡ model_key model version)
  lifespan-routes app hash model user_id version variant h routed pinned =
      let (_, _, _, _, served, _) = lifespan-steps _ app h in
      let reached = (lifespan-Kept app h).reached in
      let member =
        resolve_version-loaded W S.experiments (available_versions app.models)
          app.experiment_registry hash model user_id version variant served routed in
      let (m, stored) = available-IsLoaded app.models model version reached member in
      let got : get app.models model (some version) ≡ ok m =
        get-stored app.models model version m pinned stored in
      (m, got, get-pinned app.models model version m reached pinned got)
