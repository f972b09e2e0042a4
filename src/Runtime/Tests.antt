-- ===== src/Runtime/Tests.antt =====
-- Runs of api/services/runtime.py on a build without CUDA.
use ml_engineer_challenge_so.Prelude.{◌≡◌, refl, String, List, [], ◌∷◌, none, some, ok, err}
use ml_engineer_challenge_so.Prelude.Int.{pos}
use ml_engineer_challenge_so.Errors.{builtin}
use ml_engineer_challenge_so.Runtime.{
  Cgroup, Ort, create_session, cpu_provider, usable_providers, value_error,
}

-- A quota of four processors under the second cgroup interface.
abbrev four_cpus : Cgroup
four_cpus = record {
  v2_quota = some (ok ("400000" ∷ "100000" ∷ []));
  v1_quota = none;
  v1_period = none;
  quotient = λ a b. ok (pos 4);
  to_int = λ s. err value_error;
  floor_div = λ a b. ok a;
}

-- A session is the list of its providers.
abbrev pub cpu_only : Ort String
cpu_only = record {
  Session = List String;
  available = cpu_provider ∷ [];
  open_session = λ path providers threads. ok providers;
  first_provider = λ s. elim s [ [] ↦ none | p ∷ _ ↦ some p ];
  first_input = λ s. some "pixel_values";
}

tensorrt_refused :
    create_session cpu_only "model.onnx"
      ("TensorrtExecutionProvider" ∷ cpu_provider ∷ [])
      ("TensorrtExecutionProvider" ∷ [])
      4
    ≡ err (builtin "RuntimeError")
unfolding create_session usable_providers
tensorrt_refused = refl
