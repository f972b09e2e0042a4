-- ===== src/Startup/Registered.antt =====
-- What the loads of a start in api/main.py leave of the registry of
-- api/services/model_service.py.
use text.Mathlib.TextEquality.{eq_iff}
use ml_engineer_challenge_so.Prelude.{
  ℕ, Bool, true, false, not, ◌&&◌, ◌||◌, str_eq, List, [], Option, some, is_some, Result, ok, err,
  ◌>>=◌, ◌≡◌, refl, Bool-cases, inl, inr,
}
use ml_engineer_challenge_so.Prelude.Dict.{lookup, lookup-insert, lookup-insert_self}
use ml_engineer_challenge_so.Config.{Settings, InferenceBackend}
use ml_engineer_challenge_so.Errors.{Raised}
use ml_engineer_challenge_so.Models.{
  Host, LoadedModel, ModelService, TaskType, init, register, default_version,
}
use ml_engineer_challenge_so.Models.Registry.{Reach, start, registered}
use ml_engineer_challenge_so.Loading.{
  Reader, Metadata, try_backends, or_unavailable, read_classifier_metadata,
}
use ml_engineer_challenge_so.Loading.Tasks.{
  Request, loaded_model, open_and_register, load_classifier, load_embedder, load_detector,
  read_detector_metadata,
}

-- What a load returns is the model that it registers, under the name and version of the call.
pub data Registers {H : Host} (q : Request H) (s : ModelService H)
    : Result Raised (LoadedModel H × ModelService H) → Type 0 where
  raised : {e : Raised} → Registers q s (err e)
  loaded :
      (m : LoadedModel H)
      → m.name ≡ q.name
      → m.version ≡ q.version
      → Registers q s (ok (m, register m q.make_active s))

module _ {H : Host} (R : Reader H) (settings : Settings) (q : Request H) (s : ModelService H) where
  after-Registers :
      {A : Type 0} (r : Result Raised A) (rest : A → Result Raised (LoadedModel H × ModelService H))
      → ((a : A) → Registers q s (rest a))
      → Registers q s (do a ← r; rest a)
  after-Registers (ok a) rest f = f a
  after-Registers (err e) rest f = raised

  open_and_register-Registers :
      (task : TaskType) (metadata : Metadata H.Number)
      (artifact : InferenceBackend → Option H.files.FilePath) (ndim : ℕ)
      (chain : List InferenceBackend)
      → Registers q s (open_and_register R settings q task metadata artifact ndim chain s)
  unfolding open_and_register loaded_model
  open_and_register-Registers task metadata artifact ndim chain =
      after-Registers (or_unavailable (try_backends R artifact metadata.image_size ndim chain [])) _
        (λ o. loaded (loaded_model R settings q task metadata o) refl refl)

  pub load_classifier-Registers : Registers q s (load_classifier R settings q s)
  unfolding load_classifier
  load_classifier-Registers =
      after-Registers (read_classifier_metadata R q.artifacts q.version) _
        (λ metadata. open_and_register-Registers _ metadata _ _ _)

  pub load_embedder-Registers : Registers q s (load_embedder R settings q s)
  unfolding load_embedder
  load_embedder-Registers =
      after-Registers (read_classifier_metadata R q.artifacts q.version) _
        (λ metadata. open_and_register-Registers _ (record metadata { metrics = [] }) _ _ _)

  pub load_detector-Registers : Registers q s (load_detector R settings q s)
  unfolding load_detector
  load_detector-Registers =
      after-Registers (read_detector_metadata R q) _
        (λ metadata. open_and_register-Registers _ metadata _ _ _)

module _ {H : Host} where
  -- The registry has been built by loads, and the classifier that requests get is the default one.
  pub record Kept (s : ModelService H) : Type 0 where
    pub reached : Reach s
    pub active : lookup "tiny-imagenet-classifier" s.active ≡ some default_version

  -- A load that makes no other version of the classifier active keeps this.
  register-Kept :
      (m : LoadedModel H) (make_active : Bool) (s : ModelService H)
      → (str_eq m.name "tiny-imagenet-classifier" && make_active) ≡ false
      → Kept s
      → Kept (register m make_active s)
  unfolding register
  register-Kept m make_active s other k = record {
    reached = registered m make_active k.reached;
    active = elim (Bool-cases (str_eq m.name "tiny-imagenet-classifier")) [
      | inl e ↦
          let named = (eq_iff m.name "tiny-imagenet-classifier").0 e in
          let passive : make_active ≡ false = rw e at other in
          rw (passive, named, k.active) k.active
      | inr e ↦ elim (Bool-cases (make_active || not (is_some (lookup m.name s.active)))) [
        | inl t ↦ rw (t, lookup-insert, e) k.active
        | inr t ↦ rw t k.active
      ]
    ];
  }

  pub Registers-Kept :
      (q : Request H) (s : ModelService H) (m : LoadedModel H) (t : ModelService H)
      → (str_eq q.name "tiny-imagenet-classifier" && q.make_active) ≡ false
      → Kept s
      → Registers q s (ok (m, t))
      → Kept t
  Registers-Kept q s m t other k (loaded n named versioned) =
      register-Kept m q.make_active s (rw named other) k

  -- The first load makes the version that it loads active.
  pub Registers-first :
      (q : Request H) (m : LoadedModel H) (t : ModelService H)
      → q.name ≡ "tiny-imagenet-classifier"
      → q.version ≡ default_version
      → q.make_active ≡ true
      → Registers q (init H) (ok (m, t))
      → Kept t
  unfolding register lookup
  Registers-first q m t name version active (loaded n named versioned) = record {
    reached = registered m q.make_active start;
    active =
        let first : lookup "tiny-imagenet-classifier" (register m true (init H)).active
            ≡ some default_version =
          rw (named, versioned, name, version, lookup-insert_self) refl in
        rw active first;
  }
