-- ===== src/Loading/Attempts.antt =====
-- The loop over the candidate backends of api/services/model_service.py.
use ml_engineer_challenge_so.Prelude.{
  ℕ, String, List, [], ◌∷◌, Option, none, some, Result, ok, err, ◌≡◌, refl, subst, All, sym,
}
use ml_engineer_challenge_so.Config.{InferenceBackend}
use ml_engineer_challenge_so.Errors.{Raised}
use ml_engineer_challenge_so.Models.{Host}
use ml_engineer_challenge_so.Loading.{
  Reader, Opened, try_backends, try_backend, present, attempt, attempt_session, or_continue,
}

module _ {H : Host} (R : Reader H) (artifact : InferenceBackend → Option H.files.FilePath)
    (image_size output_ndim : ℕ) where
  -- The candidate's file exists, and its session opens, has an accepted provider and answers the
  -- probe.
  pub record Works (c : InferenceBackend) (o : Opened R) : Type 0 where
    pub backend : o.backend ≡ c
    pub file : present R (artifact c) ≡ some o.artifact
    pub session : try_backend R o.artifact c image_size output_ndim ≡ ok (o.session, o.input_name)

  -- The candidate has no file, or its session or its probe raised.
  pub data Fails (c : InferenceBackend) : Type 0 where
    missing : present R (artifact c) ≡ none → Fails c
    raised :
        (path : H.files.FilePath) (e : Raised)
        → present R (artifact c) ≡ some path
        → try_backend R path c image_size output_ndim ≡ err e
        → Fails c

  -- What the loop returns: the first candidate that works, or nothing where each one fails.
  pub data FirstWorking : List InferenceBackend → Result (List String) (Opened R) → Type 0 where
    exhausted : (failures : List String) → FirstWorking [] (err failures)
    first :
        {c : InferenceBackend} {chain : List InferenceBackend} {o : Opened R}
        → Works c o
        → FirstWorking (c ∷ chain) (ok o)
    skipped :
        {c : InferenceBackend} {chain : List InferenceBackend}
        {result : Result (List String) (Opened R)}
        → Fails c
        → FirstWorking chain result
        → FirstWorking (c ∷ chain) result

  session_turn :
      (c : InferenceBackend) (chain : List InferenceBackend) (path : H.files.FilePath)
      (result : Result Raised (H.ort.Session × String))
      (rest : List String → Result (List String) (Opened R)) (failures : List String)
      → present R (artifact c) ≡ some path
      → try_backend R path c image_size output_ndim ≡ result
      → ((fs : List String) → FirstWorking chain (rest fs))
      → FirstWorking (c ∷ chain) (or_continue R c (attempt_session R c path result) rest failures)
  unfolding attempt_session or_continue
  session_turn c chain path (ok (session, input_name)) rest failures e opened later =
      first (record { backend = refl; file = e; session = opened })
  session_turn c chain path (err exc) rest failures e refused later =
      skipped (raised path exc e refused) (later _)

  turn :
      (c : InferenceBackend) (chain : List InferenceBackend) (file : Option H.files.FilePath)
      (rest : List String → Result (List String) (Opened R)) (failures : List String)
      → present R (artifact c) ≡ file
      → ((fs : List String) → FirstWorking chain (rest fs))
      → FirstWorking
          (c ∷ chain)
          (or_continue R c (attempt R c file image_size output_ndim) rest failures)
  unfolding attempt or_continue
  turn c chain none rest failures e later = skipped (missing e) (later _)
  turn c chain (some path) rest failures e later =
      session_turn c chain path _ rest failures e refl later

  -- The loop returns the first candidate that works, and fails only where every candidate does.
  pub try_backends-FirstWorking :
      (chain : List InferenceBackend) (failures : List String)
      → FirstWorking chain (try_backends R artifact image_size output_ndim chain failures)
  unfolding try_backends
  try_backends-FirstWorking [] failures = exhausted failures
  try_backends-FirstWorking (c ∷ chain) failures =
      turn c chain _ _ failures refl (λ fs. try_backends-FirstWorking chain fs)

  -- Where the loop returned a backend, that backend works and is a member of the chain.
  pub FirstWorking-ok :
      (P : InferenceBackend → Type 0) (chain : List InferenceBackend)
      (result : Result (List String) (Opened R)) (o : Opened R)
      → FirstWorking chain result
      → result ≡ ok o
      → All P chain
      → Works (o.backend) o × P o.backend
  FirstWorking-ok P _ _ o (exhausted fs) e all_p = absurd (cc e)
  FirstWorking-ok P _ _ o (first {c = c} {chain = chain} {o = o'} w) e all_p =
      let same : o' ≡ o = cc e in
      let here : Works c o = subst (Works c) same w in
      (subst (λ b. Works b o) (sym here.backend) here, subst P (sym here.backend) all_p.0)
  FirstWorking-ok P _ _ o (skipped {c = c} {chain = chain} {result = result} f w) e all_p =
      FirstWorking-ok P chain result o w e all_p.1
