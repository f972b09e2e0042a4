-- ===== src/Loading/Chains.antt =====
-- The members of the backend chains of api/services/model_service.py.
use ml_engineer_challenge_so.Prelude.{
  Bool, Bool-cases, inl, inr, List, [], ◌∷◌, true, false, not, keep, ◌≡◌, arith, refl, All,
  All-keep, All-imp,
}
use ml_engineer_challenge_so.Config.{
  Settings, InferenceBackend, torch, onnx, onnx_int8, tensorrt, same_backend,
}
use ml_engineer_challenge_so.Loading.{fallback_chain, chain_for, chain_without_int8}

pub same_backend-eq : (a b : InferenceBackend) → same_backend a b ≡ true → a ≡ b
same_backend-eq torch torch h = refl
same_backend-eq torch onnx h = absurd (cc h)
same_backend-eq torch onnx_int8 h = absurd (cc h)
same_backend-eq torch tensorrt h = absurd (cc h)
same_backend-eq onnx torch h = absurd (cc h)
same_backend-eq onnx onnx h = refl
same_backend-eq onnx onnx_int8 h = absurd (cc h)
same_backend-eq onnx tensorrt h = absurd (cc h)
same_backend-eq onnx_int8 torch h = absurd (cc h)
same_backend-eq onnx_int8 onnx h = absurd (cc h)
same_backend-eq onnx_int8 onnx_int8 h = refl
same_backend-eq onnx_int8 tensorrt h = absurd (cc h)
same_backend-eq tensorrt torch h = absurd (cc h)
same_backend-eq tensorrt onnx h = absurd (cc h)
same_backend-eq tensorrt onnx_int8 h = absurd (cc h)
same_backend-eq tensorrt tensorrt h = refl

-- Where INT8 is not the preferred backend, the embedder's and the detector's chain lacks it.
pub chain_without_int8-All :
    (s : Settings)
    → same_backend s.inference_backend onnx_int8 ≡ false
    → All (λ c. same_backend c onnx_int8 ≡ false) (chain_without_int8 s)
unfolding chain_without_int8
chain_without_int8-All s h = rw h (
    All-imp (λ c. not (same_backend c onnx_int8) ≡ true) (λ c. same_backend c onnx_int8 ≡ false)
      (λ c e. ground arith) (keep (λ c. not (same_backend c onnx_int8)) (chain_for s))
      (All-keep (λ c. not (same_backend c onnx_int8)) (chain_for s)))

keep-All : {A : Type 0} (P : A → Type 0) (p : A → Bool) (xs : List A) → All P xs → All P (keep p xs)
keep-All P p [] h = tt
keep-All P p (x ∷ xs) h = elim (Bool-cases (p x)) [
  | inl e ↦ rw e (h.0, keep-All P p xs h.1)
  | inr e ↦ rw e (keep-All P p xs h.1)
]

abbrev pub IsOnnx : InferenceBackend → Type 0
IsOnnx b = same_backend b torch ≡ false

fallback_chain-All : (b : InferenceBackend) → IsOnnx b → All IsOnnx (fallback_chain b)
unfolding fallback_chain
fallback_chain-All torch h = absurd (cc h)
fallback_chain-All onnx h = (refl, (refl, tt))
fallback_chain-All onnx_int8 h = (refl, (refl, tt))
fallback_chain-All tensorrt h = (refl, (refl, (refl, tt)))

-- Where `torch` is not the preferred backend, no chain has it.
pub chain_for-All : (s : Settings) → IsOnnx s.inference_backend → All IsOnnx (chain_for s)
unfolding chain_for
chain_for-All s h = elim (Bool-cases s.enable_graceful_degradation) [
  | inl e ↦ rw e (fallback_chain-All s.inference_backend h)
  | inr e ↦ rw e (h, tt)
]

pub chain_without_int8-IsOnnx :
    (s : Settings) → IsOnnx s.inference_backend → All IsOnnx (chain_without_int8 s)
unfolding chain_without_int8
chain_without_int8-IsOnnx s h = elim (Bool-cases (same_backend s.inference_backend onnx_int8)) [
  | inl e ↦ rw e (chain_for-All s h)
  | inr e ↦
      rw e (keep-All IsOnnx (λ c. not (same_backend c onnx_int8)) (chain_for s) (chain_for-All s h))
]
