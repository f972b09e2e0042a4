-- ===== src/Experiments.antt =====
-- The routing part of models/validation/ab_testing.py, and api/services/experiment_service.py.
pub mod Assignment
pub mod Registry
pub mod Analysis
pub mod Reports
pub mod Criteria
pub mod Recommended
pub mod Tests
use Prim.Native.String.{◌++◌ as concat}
use ml_engineer_challenge_so.Prelude.{
  ℕ, ◌^◌, String, Bool, true, false, ◌&&◌, ◌||◌, not, ◌==◌, str_eq, if◌then◌else◌, List, [], ◌∷◌,
  Option, none, some, or_else, map, any, all, keep, Result, ok, err, ◌>>=◌, ◌>>◌, raise_if,
  or_raise,
}
use ml_engineer_challenge_so.Prelude.Dict.{Dict, lookup, insert}
use ml_engineer_challenge_so.Prelude.Float.{Float}

-- The exceptions that the loader meets.
pub data Exn : Type 0 where
  key_error type_error value_error attribute_error : Exn

-- The lists and flags of one experiment in the configuration file. `none` is a missing key; a text
-- field that is present holds a text, and a weight that `float` refuses is `some none`. `unhashable`
-- says that `model_name` or a `model_version` is a list or an object, whose text here is then not
-- read. A value of another kind in the place of `variants`, or of one of them, is read like a
-- missing key: the exceptions of both are caught.
pub record RawVariant (F : Type 0) : Type 0 where
  pub name : Option String
  pub model_version : Option String
  pub weight : Option (Option F)

pub data RawEntry (F : Type 0) : Type 0 where
  fields :
      (model_name name : Option String) (variants : Option (List (RawVariant F)))
      (enabled : Option Bool) (unhashable : Bool)
      → RawEntry F
  -- a value that is no object
  scalar : RawEntry F

-- The file: absent, not to be read as JSON, no object at the top, no value to iterate over under
-- `experiments` (null, a number or a boolean), or what iterating over that gives.
pub data ConfigFile (F : Type 0) : Type 0 where
  absent unreadable not_object not_iterable : ConfigFile F
  entries : List (RawEntry F) → ConfigFile F

unfoldable pub has_member : String → List String → Bool
has_member s = any (λ t. str_eq t s)

-- `len(names) == len(set(names))`
unfoldable pub all_distinct : List String → Bool
unfolding has_member
all_distinct [] = true
all_distinct (n ∷ names) = not (has_member n names) && all_distinct names

-- `available_versions.get(model_name, set())`
abbrev pub loaded_for : Dict (List String) → String → List String
loaded_for available model = or_else (lookup model available) []

module _ (N : Float) where
  open N use {F}

  pub record Variant : Type 0 where
    pub name : String
    pub model_version : String
    pub weight : F

  pub record Experiment : Type 0 where
    pub name : String
    pub variants : List Variant
    pub enabled : Bool

  abbrev pub zero_weight : F
  zero_weight = N.decimal 0 0

  abbrev pub one : F
  one = N.decimal 1 0

  -- `Variant.__post_init__`
  unfoldable pub make_variant : String → String → F → Result Exn Variant
  make_variant name model_version weight =
      if N.le zero_weight weight && N.le weight one
      then ok (record { name = name; model_version = model_version; weight = weight })
      else err value_error

  abbrev pub is_empty : List Variant → Bool
  is_empty [] = true
  is_empty (v ∷ vs) = false

  -- `Experiment.__post_init__`
  unfoldable pub make_experiment : String → List Variant → Bool → Result Exn Experiment
  make_experiment name variants enabled =
      if is_empty variants
      then err value_error
      else if not (N.isclose (N.sum (map (λ v. v.weight) variants)) one (N.decimal 1 6))
      then err value_error
      else if not (all_distinct (map (λ v. v.name) variants))
      then err value_error
      else ok (record { name = name; variants = variants; enabled = enabled })

  -- The loop of `assign` after the first variant, with the running total; the last variant serves
  -- where no total passes the position.
  unfoldable pub pick : F → F → Variant → List Variant → Variant
  pick position cumulative v [] = v
  pick position cumulative v (w ∷ vs) =
      let rest = pick position (N.add cumulative v.weight) w vs in
      if N.lt position (N.add cumulative v.weight) then v else rest

  -- `hash text` is the first eight bytes of the SHA-256 digest of `text`, as a number.
  unfoldable pub position_of : (String → ℕ) → String → String → F
  position_of hash name user_id = N.ratio (hash (concat name (concat ":" user_id))) (2 ^ 64)

  -- `assign`; `none` is the `IndexError` of an experiment with no variant.
  assign_among : F → Bool → List Variant → Option Variant
  unfolding pick
  assign_among position enabled [] = none
  assign_among position enabled (v ∷ vs) =
      some (if enabled then pick position zero_weight v vs else v)

  unfoldable pub assign : (String → ℕ) → Experiment → String → Option Variant
  unfolding assign_among position_of
  assign hash e user_id = assign_among (position_of hash e.name user_id) e.enabled e.variants

  -- `float(v["weight"])`
  read_weight : Option (Option F) → Result Exn F
  read_weight none = err key_error
  read_weight (some none) = err value_error
  read_weight (some (some w)) = ok w

  unfoldable pub read_variant : RawVariant F → Result Exn Variant
  unfolding make_variant read_weight
  read_variant v = do
    name ← or_raise v.name key_error
    version ← or_raise v.model_version key_error
    weight ← read_weight v.weight
    make_variant name version weight

  unfoldable pub read_variants : List (RawVariant F) → Result Exn (List Variant)
  unfolding read_variant
  read_variants [] = ok []
  read_variants (v ∷ vs) = do first ← read_variant v; rest ← read_variants vs; ok (first ∷ rest)

  -- The body of the `try` for one entry: the model's name and the experiment.
  unfoldable pub read_entry : RawEntry F → Result Exn (String × Experiment)
  unfolding read_variants make_experiment
  read_entry scalar = err type_error
  read_entry (fields model_name name variants enabled unhashable) = do
    model ← or_raise model_name key_error
    title ← or_raise name key_error
    raw ← or_raise variants key_error
    arms ← read_variants raw
    experiment ← make_experiment title arms (or_else enabled true)
    ok (model, experiment)

  abbrev pub Registry : Type 0
  Registry = Dict Experiment

  -- The handler logs `entry.get("name", …)`, which a value that is no object does not have.
  unfoldable pub handler : RawEntry F → Registry → Result Exn Registry
  handler scalar r = err attribute_error
  handler (fields model_name name variants enabled unhashable) r = ok r

  abbrev pub is_servable : List String → Experiment → Bool
  is_servable loaded e = all (λ v. has_member v.model_version loaded) e.variants

  is_unhashable : RawEntry F → Bool
  is_unhashable scalar = false
  is_unhashable (fields model_name name variants enabled unhashable) = unhashable

  -- After the `try`: the lookups in a dict and in a set raise on a list or an object.
  unfoldable pub add_entry :
      Dict (List String)
      → RawEntry F
      → Registry
      → Result Exn (String × Experiment)
      → Result Exn Registry
  unfolding handler is_unhashable
  add_entry available entry r (err e) = handler entry r
  add_entry available entry r (ok (model, e)) =
      if is_unhashable entry
      then err type_error
      else ok (if is_servable (loaded_for available model) e then insert model e r else r)

  unfoldable pub load_entries :
      Dict (List String) → List (RawEntry F) → Registry → Result Exn Registry
  unfolding read_entry add_entry
  load_entries available [] r = ok r
  load_entries available (entry ∷ rest) r = do
    r' ← add_entry available entry r (read_entry entry)
    load_entries available rest r'

  -- `ExperimentRegistry.load`
  unfoldable pub load : ConfigFile F → Dict (List String) → Result Exn Registry
  unfolding load_entries
  load absent available = ok []
  load unreadable available = ok []
  load not_object available = err attribute_error
  load not_iterable available = err type_error
  load (entries es) available = load_entries available es []

  -- `resolve_version`: the version and the variant's name, where an experiment applies.
  unfoldable pub resolve_version :
      (String → ℕ) → Registry → String → String → Option (String × String)
  unfolding assign
  resolve_version hash r model user_id = elim (lookup model r) [
    | none ↦ none
    | some e ↦ elim (assign hash e user_id) [
      | none ↦ none
      | some v ↦ some (v.model_version, v.name)
    ]
  ]
