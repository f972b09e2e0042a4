-- ===== src/Models/Versions.antt =====
-- api/services/model_service.py: `discover_versions`, the pattern of a version's name and the
-- natural order of versions.
use Prim.Native.Char.{code, len_utf8}
use Prim.Native.String.{len}
use text.Mathlib.Text.{char_at?}
use ml_engineer_challenge_so.Prelude.{
  ℕ, zero, suc, ◌+◌, ◌*◌, String, Bool, true, false, not, ◌&&◌, ◌||◌, ◌==◌, ltb, str_eq,
  if◌then◌else◌, List, [], ◌∷◌, map, keep, any, Option, none, some, or_else,
}
use ml_engineer_challenge_so.Models.{Host, default_version}

-- The code points of the text from a position on; `fuel` is at least the number of those left.
codes_from : ℕ → String → ℕ → List ℕ
codes_from zero s i = []
codes_from (suc fuel) s i = elim (char_at? s i) [
  | none ↦ []
  | some c ↦ code c ∷ codes_from fuel s (i + len_utf8 c)
]

-- A text has at most as many characters as bytes.
unfoldable pub codes : String → List ℕ
unfolding codes_from
codes s = codes_from (len s) s 0

-- An entry of a directory, as `glob("*")` lists it.
pub record DirEntry : Type 0 where
  pub name : String
  pub is_dir : Bool

-- What the listing of a directory gives, in the order in which a set of the names is walked, and
-- the decimal value of a code point that is a digit (`\d`).
pub record Directory (H : Host) : Type 0 where
  pub glob : H.files.FilePath → List DirEntry
  pub digit : ℕ → Option ℕ

-- `sorted` of versions by a key that is a list of numbers.
abbrev pub key_le : List ℕ → List ℕ → Bool
key_le [] ks = true
key_le (j ∷ js) [] = false
key_le (j ∷ js) (k ∷ ks) = ltb j k || (j == k && key_le js ks)

module _ (sort_key : String → List ℕ) where
  abbrev pub insert_by : String → List String → List String
  insert_by v [] = v ∷ []
  insert_by v (w ∷ ws) = if key_le (sort_key v) (sort_key w) then v ∷ w ∷ ws else w ∷ insert_by v ws

  abbrev pub sorted_by : List String → List String
  sorted_by [] = []
  sorted_by (v ∷ vs) = insert_by v (sorted_by vs)

is_newline : ℕ → List ℕ → Bool
is_newline c [] = c == 10
is_newline c (d ∷ ds) = false

module _ (digit : ℕ → Option ℕ) where
  -- `\d*(?:\.\d+)*$`, or `\d+(?:\.\d+)*$` where a digit is needed; `$` accepts a last newline.
  is_rest : Bool → List ℕ → Bool
  unfolding is_newline
  is_rest needed [] = not needed
  is_rest needed (c ∷ cs) = elim (digit c) [
    | some d ↦ is_rest false cs
    | none ↦ not needed && ((c == 46 && is_rest true cs) || is_newline c cs)
  ]

  -- `_VERSION_PATTERN.match`: the letter v and the rest.
  unfoldable pub is_version : List ℕ → Bool
  unfolding is_rest
  is_version [] = false
  is_version (c ∷ cs) = c == 118 && is_rest true cs

  flushed : Option ℕ → List ℕ → List ℕ
  flushed none ns = ns
  flushed (some n) ns = n ∷ ns

  -- [int(part) for part in re.findall(r"\d+", version)], within a number where there is one
  unfoldable pub numbers_in : Option ℕ → List ℕ → List ℕ
  unfolding flushed
  numbers_in current [] = flushed current []
  numbers_in current (c ∷ cs) = elim (digit c) [
    | some d ↦ numbers_in (some (or_else current 0 * 10 + d)) cs
    | none ↦ flushed current (numbers_in none cs)
  ]

same_codes : List ℕ → List ℕ → Bool
same_codes [] [] = true
same_codes (c ∷ cs) (d ∷ ds) = c == d && same_codes cs ds
same_codes cs ds = false

-- The pattern `*` and a suffix.
unfoldable pub ends_with : List ℕ → List ℕ → Bool
unfolding same_codes
ends_with suffix [] = same_codes suffix []
ends_with suffix (c ∷ cs) = same_codes suffix (c ∷ cs) || ends_with suffix cs

module _ {H : Host} (D : Directory H) where
  -- The test of the comprehension.
  unfoldable pub is_version_dir : DirEntry → Bool
  unfolding is_version codes
  is_version_dir e = e.is_dir && is_version D.digit (codes e.name)

  -- `any(onnx_dir.glob("*.onnx"))`
  unfoldable pub has_flat : H.files.FilePath → Bool
  unfolding ends_with codes
  has_flat onnx_dir = any (λ e. ends_with (codes ".onnx") (codes e.name)) (D.glob onnx_dir)

  -- `found` before the flat layout is looked at; the names of a directory differ.
  abbrev pub found_dirs : H.files.FilePath → List String
  found_dirs onnx_dir = map (λ e. e.name) (keep is_version_dir (D.glob onnx_dir))

  abbrev pub natural_key : String → List ℕ
  natural_key version = numbers_in D.digit none (codes version)

  unfoldable pub discover_versions : H.files.FilePath → List String
  discover_versions onnx_dir =
      let found = found_dirs onnx_dir in
      let others = keep (λ v. not (str_eq v default_version)) found in
      let ordered = sorted_by natural_key others in
      if has_flat onnx_dir || any (λ v. str_eq v default_version) found
      then default_version ∷ ordered
      else ordered
