-- ===== src/Runtime.antt =====
-- api/services/runtime.py: the processor count, and the session with its provider check. The
-- preload of shared libraries is ctypes and a part of the parameter `Ort`.
pub mod Cpus
pub mod Sessions
pub mod Tests
use ml_engineer_challenge_so.Prelude.{
  ℕ, zero, suc, min, max, String, Bool, true, false, ◌&&◌, not, str_eq, if◌then◌else◌, List, [],
  ◌∷◌, ◌++◌, Option, none, some, or_else, any, keep, Result, ok, err, ◌>>=◌, or_raise,
}
use ml_engineer_challenge_so.Prelude.Int.{ℤ, pos, negsuc}
use ml_engineer_challenge_so.Errors.{Raised, builtin}

-- The exceptions that reading a control file meets.
pub data ReadError : Type 0 where
  os_error value_error zero_division : ReadError

-- The control files of the cgroup, `none` where one does not exist, and what Python's conversions
-- make of their texts: `quotient a b` is `int(float(a) / float(b))`, `floor_div a b` is `a // b`.
pub record Cgroup : Type 0 where
  pub v2_quota : Option (Result ReadError (List String))
  pub v1_quota : Option (Result ReadError String)
  pub v1_period : Option (Result ReadError String)
  pub quotient : String → String → Result ReadError ℤ
  pub to_int : String → Result ReadError ℤ
  pub floor_div : ℤ → ℤ → Result ReadError ℤ

-- `max(1, n)`
abbrev at_least_one : ℤ → ℕ
at_least_one (pos n) = max 1 n
at_least_one (negsuc n) = 1

-- `raw_quota, raw_period = words`
two_words : List String → Result ReadError (String × String)
two_words (a ∷ b ∷ []) = ok (a, b)
two_words _ = err value_error

quota_v2 : Cgroup → Result ReadError (List String) → Result ReadError (Option ℕ)
unfolding two_words
quota_v2 c file = do
  words ← file
  pair ← two_words words
  if str_eq (pair.0) "max"
      then ok none
      else do n ← c.quotient (pair.0) (pair.1); ok (some (at_least_one n))

is_positive : ℤ → Bool
is_positive (pos zero) = false
is_positive (pos (suc n)) = true
is_positive (negsuc n) = false

quota_v1 : Cgroup → Result ReadError String → Result ReadError String → Result ReadError (Option ℕ)
unfolding is_positive
quota_v1 c quota period = do
  raw ← quota
  micros ← c.to_int raw
  if not (is_positive micros) then ok none else do
    raw_period ← period
    n ← c.to_int raw_period
    cpus ← c.floor_div micros n
    ok (some (at_least_one cpus))

-- `except (OSError, ValueError)`: any other exception goes on.
unreadable : Result ReadError (Option ℕ) → Result ReadError (Option ℕ)
unreadable (ok quota) = ok quota
unreadable (err os_error) = ok none
unreadable (err value_error) = ok none
unreadable (err zero_division) = err zero_division

read_quota :
    Cgroup
    → Option (Result ReadError (List String))
    → Option (Result ReadError String)
    → Option (Result ReadError String)
    → Result ReadError (Option ℕ)
unfolding quota_v2 quota_v1
read_quota c (some file) _ _ = quota_v2 c file
read_quota c none (some quota) (some period) = quota_v1 c quota period
read_quota c none _ _ = ok none

unfoldable pub cgroup_cpu_quota : Cgroup → Result ReadError (Option ℕ)
unfolding unreadable read_quota
cgroup_cpu_quota c = unreadable (read_quota c c.v2_quota c.v1_quota c.v1_period)

abbrev pub within : ℕ → Option ℕ → ℕ
within limit none = limit
within limit (some quota) = min limit quota

-- `affinity` is the size of the affinity mask, or the processor count, 0 where it is `None`.
unfoldable pub available_cpus : ℕ → Cgroup → Result ReadError ℕ
unfolding cgroup_cpu_quota
available_cpus affinity c = do
  quota ← cgroup_cpu_quota c
  ok (max 1 (within (max affinity 1) quota))

-- ONNX Runtime: the providers of the build, `InferenceSession` on a path, providers and a thread
-- count, and what a session says of itself (`none` where the list is empty).
pub record Ort (P : Type 0) : Type 1 where
  pub Session : Type 0
  pub available : List String
  pub open_session : P → List String → ℕ → Result Raised Session
  pub first_provider : Session → Option String
  pub first_input : Session → Option String

abbrev pub cpu_provider : String
cpu_provider = "CPUExecutionProvider"

abbrev pub is_member : List String → String → Bool
is_member names s = any (λ n. str_eq n s) names

-- The providers handed to `InferenceSession`.
unfoldable pub usable_providers : List String → List String → List String
usable_providers available requested =
    let usable = keep (is_member available) requested in
    if is_member usable cpu_provider then usable else usable ++ (cpu_provider ∷ [])

module _ {P : Type 0} (O : Ort P) where
  open O use {Session}

  -- `create_session` with its default flags, for a non-empty list of providers and a given
  -- `satisfied_by`, and `threads` from `available_cpus`.
  unfoldable pub create_session :
      P → List String → List String → ℕ → Result Raised (Session × String)
  unfolding usable_providers
  create_session model_path requested acceptable threads = do
    session ← O.open_session model_path (usable_providers O.available requested) threads
    selected ← or_raise (O.first_provider session) (builtin "IndexError")
    if not (is_member acceptable selected) then err (builtin "RuntimeError") else do
      input_name ← or_raise (O.first_input session) (builtin "IndexError")
      ok (session, input_name)
