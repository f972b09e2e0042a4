-- ===== src/Loading/Loaded.antt =====
-- What a load of api/services/model_service.py that succeeds has done.
use ml_engineer_challenge_so.Prelude.{
  ℕ, String, true, false, List, [], Option, none, some, Result, ok, err, >>=-eq-ok, ◌≡◌, refl, ap,
  ◌∙◌, subst, arith, All,
}
use ml_engineer_challenge_so.Prelude.Dict.{lookup, lookup-insert_self}
use ml_engineer_challenge_so.Config.{Settings, InferenceBackend, torch, onnx_int8, same_backend}
use ml_engineer_challenge_so.Runtime.{is_member, create_session}
use ml_engineer_challenge_so.Runtime.Sessions.{create_session-provider}
use ml_engineer_challenge_so.Models.{
  Host, LoadedModel, ModelService, TaskType, classification, embedding, detection, model_key,
  register,
}
use ml_engineer_challenge_so.Loading.{
  Reader, Metadata, try_backends, try_backend, warmup, precision_artifact, artifact_for, present,
  or_unavailable, degraded, chain_for, chain_without_int8, provider_for_backend,
  satisfying_providers, read_classifier_metadata,
}
use ml_engineer_challenge_so.Loading.Chains.{
  IsOnnx, chain_for-All, chain_without_int8-IsOnnx, chain_without_int8-All,
}
use ml_engineer_challenge_so.Loading.Attempts.{try_backends-FirstWorking, FirstWorking-ok}
use ml_engineer_challenge_so.Loading.Tasks.{
  Request, loaded_model, open_and_register, load_classifier, load_embedder, load_detector,
  read_detector_metadata,
}

module _ {H : Host} (R : Reader H) where
  -- The record of a loaded model: its file exists, its session has a provider that the backend it
  -- names accepts, it is marked as degraded where that backend is not the preferred one, and it
  -- stands in the registry under the name and version of the call. For `torch`, whose session is
  -- one of ONNX Runtime all the same, the backend that it names is not what is served.
  pub record IsAttributed (settings : Settings) (q : Request H) (m : LoadedModel H)
      (t : ModelService H) : Type 0 where
    pub file : H.files.exists m.artifact_path ≡ true
    pub provider :
        (p : String) × (H.ort.first_provider m.session ≡ some p)
        × (is_member (satisfying_providers m.backend) p ≡ true)
    pub fallback : m.degraded_from ≡ degraded settings.inference_backend m.backend
    pub stored : lookup (model_key q.name q.version) t.models ≡ some m

  or_unavailable-eq-ok :
      {A : Type 0} (r : Result (List String) A) (a : A) → or_unavailable r ≡ ok a → r ≡ ok a
  or_unavailable-eq-ok (ok b) a h = cc h
  or_unavailable-eq-ok (err fs) a h = absurd (cc h)

  present-exists :
      (o : Option H.files.FilePath) (p : H.files.FilePath)
      → present R o ≡ some p
      → H.files.exists p ≡ true
  present-exists none p h = absurd (cc h)
  present-exists (some r) p h = ground arith

  try_backend-provider :
      (path : H.files.FilePath) (c : InferenceBackend) (size ndim : ℕ) (s : H.ort.Session)
      (n : String)
      → try_backend R path c size ndim ≡ ok (s, n)
      → (p : String) × (H.ort.first_provider s ≡ some p)
        × (is_member (satisfying_providers c) p ≡ true)
  unfolding try_backend
  try_backend-provider path c size ndim s n h =
      let (pair, opened, rest) =
        >>=-eq-ok
          (create_session H.ort path (provider_for_backend c) (satisfying_providers c) R.cpus) _
          h in
      let (warm, ran, last) = >>=-eq-ok (warmup R (pair.0) (pair.1) size ndim) _ rest in
      let same : pair ≡ (s, n) = cc last in
      let (p, first, accepted, _, _) =
        create_session-provider H.ort path (provider_for_backend c) (satisfying_providers c) R.cpus
          s n (opened ∙ ap ok same) in
      (p, first, accepted)

  module _ (settings : Settings) (q : Request H) where
    open_and_register-IsAttributed :
        (task : TaskType) (metadata : Metadata H.Number)
        (artifact : InferenceBackend → Option H.files.FilePath) (ndim : ℕ)
        (chain : List InferenceBackend) (s : ModelService H) (m : LoadedModel H)
        (t : ModelService H) (P : InferenceBackend → Type 0)
        → open_and_register R settings q task metadata artifact ndim chain s ≡ ok (m, t)
        → All P chain
        → IsAttributed settings q m t × P m.backend
    unfolding open_and_register loaded_model register
    open_and_register-IsAttributed task metadata artifact ndim chain s m t P h all_p =
        let (o, opened, rest) =
          >>=-eq-ok (or_unavailable (try_backends R artifact metadata.image_size ndim chain [])) _
            h in
        let found =
          or_unavailable-eq-ok (try_backends R artifact metadata.image_size ndim chain []) o
            opened in
        let (works, p) =
          FirstWorking-ok R artifact metadata.image_size ndim P chain _ o
            (try_backends-FirstWorking R artifact metadata.image_size ndim chain []) found all_p in
        let model = loaded_model R settings q task metadata o in
        let loaded : LoadedModel H × ModelService H = (model, register model q.make_active s) in
        let returned : LoadedModel H × ModelService H = (m, t) in
        let same : loaded ≡ returned = cc rest in
        subst (λ x. IsAttributed settings q x.0 x.1 × P (x.0).backend) same
          (
            record {
              file = present-exists (artifact o.backend) o.artifact works.file;
              provider =
                  try_backend-provider o.artifact o.backend metadata.image_size ndim o.session
                    o.input_name works.session;
              fallback = refl;
              stored = lookup-insert_self (model_key q.name q.version) model s.models;
            },
            p,
          )

    classifier-IsAttributed :
        (s : ModelService H) (m : LoadedModel H) (t : ModelService H)
        (P : InferenceBackend → Type 0)
        → All P (chain_for settings)
        → load_classifier R settings q s ≡ ok (m, t)
        → IsAttributed settings q m t × P m.backend
    unfolding load_classifier
    classifier-IsAttributed s m t P all_p h =
        let (metadata, read, rest) =
          >>=-eq-ok (read_classifier_metadata R q.artifacts q.version) _ h in
        open_and_register-IsAttributed classification metadata
          (λ c. artifact_for R q.artifacts c q.version) 2 (chain_for settings) s m t P rest all_p

    embedder-IsAttributed :
        (s : ModelService H) (m : LoadedModel H) (t : ModelService H)
        (P : InferenceBackend → Type 0)
        → All P (chain_without_int8 settings)
        → load_embedder R settings q s ≡ ok (m, t)
        → IsAttributed settings q m t × P m.backend
    unfolding load_embedder
    embedder-IsAttributed s m t P all_p h =
        let (metadata, read, rest) =
          >>=-eq-ok (read_classifier_metadata R q.artifacts q.version) _ h in
        open_and_register-IsAttributed embedding (record metadata { metrics = [] })
          (λ c. precision_artifact R "embedder" q.artifacts c q.version) 2
          (chain_without_int8 settings) s m t P rest all_p

    detector-IsAttributed :
        (s : ModelService H) (m : LoadedModel H) (t : ModelService H)
        (P : InferenceBackend → Type 0)
        → All P (chain_without_int8 settings)
        → load_detector R settings q s ≡ ok (m, t)
        → IsAttributed settings q m t × P m.backend
    unfolding load_detector
    detector-IsAttributed s m t P all_p h =
        let (metadata, read, rest) = >>=-eq-ok (read_detector_metadata R q) _ h in
        open_and_register-IsAttributed detection metadata
          (λ c. precision_artifact R "detector" q.artifacts c q.version) 3
          (chain_without_int8 settings) s m t P rest all_p

    -- Where `torch` is not the preferred backend, a load of any of the three models that succeeds
    -- returns a model whose record says what is served: the backend is one of ONNX Runtime's, the
    -- file exists, the session has a provider that the backend accepts, it is marked as degraded
    -- from the preferred backend where it has another one, and it is registered under the name and
    -- version of the call.
    pub load-IsAttributed :
        (s : ModelService H) (m : LoadedModel H) (t : ModelService H)
        → same_backend settings.inference_backend torch ≡ false
        → (load_classifier R settings q s ≡ ok (m, t)
            → IsAttributed settings q m t × (same_backend m.backend torch ≡ false))
          × (load_embedder R settings q s ≡ ok (m, t)
              → IsAttributed settings q m t × (same_backend m.backend torch ≡ false))
          × (load_detector R settings q s ≡ ok (m, t)
              → IsAttributed settings q m t × (same_backend m.backend torch ≡ false))
    load-IsAttributed s m t preferred =
        let plain = chain_for-All settings preferred in
        let narrow = chain_without_int8-IsOnnx settings preferred in
        (
          λ h. classifier-IsAttributed s m t IsOnnx plain h,
          λ h. embedder-IsAttributed s m t IsOnnx narrow h,
          λ h. detector-IsAttributed s m t IsOnnx narrow h,
        )

    -- Where INT8 is not the preferred backend, no embedder and no detector is loaded as INT8.
    pub load-not_int8 :
        (s : ModelService H) (m : LoadedModel H) (t : ModelService H)
        → same_backend settings.inference_backend onnx_int8 ≡ false
        → (load_embedder R settings q s ≡ ok (m, t) → same_backend m.backend onnx_int8 ≡ false)
          × (load_detector R settings q s ≡ ok (m, t) → same_backend m.backend onnx_int8 ≡ false)
    load-not_int8 s m t preferred =
        let float_only = chain_without_int8-All settings preferred in
        let P : InferenceBackend → Type 0 = λ c. same_backend c onnx_int8 ≡ false in
        (
          λ h. (embedder-IsAttributed s m t P float_only h).1,
          λ h. (detector-IsAttributed s m t P float_only h).1,
        )
