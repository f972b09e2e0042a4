-- ===== src/Models/Discovery.antt =====
-- What `discover_versions` of api/services/model_service.py lists, and in which order.
use text.Mathlib.TextEquality.{eq_iff}
use ml_engineer_challenge_so.Prelude.{
  ℕ, String, Bool, true, false, not, ◌&&◌, ◌||◌, str_eq, if◌then◌else◌, List, [], ◌∷◌, keep, any,
  ◌≡◌, refl, ◌∙◌, subst, Bool-cases, inl, inr, arith,
}
use ml_engineer_challenge_so.Models.{Host, default_version}
use ml_engineer_challenge_so.Models.Versions.{
  Directory, key_le, insert_by, sorted_by, found_dirs, has_flat, natural_key, discover_versions,
}

-- Each version stands before those with a greater key, and never after one.
pub data Ordered (sort_key : String → List ℕ) : List String → Type 0 where
  empty : Ordered sort_key []
  single : {v : String} → Ordered sort_key (v ∷ [])
  before :
      {v w : String} {ws : List String}
      → key_le (sort_key v) (sort_key w) ≡ true
      → Ordered sort_key (w ∷ ws)
      → Ordered sort_key (v ∷ w ∷ ws)

key_le-total : (js ks : List ℕ) → key_le js ks ≡ false → key_le ks js ≡ true
key_le-total [] ks h = absurd (cc h)
key_le-total (j ∷ js) [] h = refl
key_le-total (j ∷ js) (k ∷ ks) h = ground (arith, key_le-total js ks)

abbrev pub is_listed : String → List String → Bool
is_listed v = any (λ w. str_eq w v)

module _ (sort_key : String → List ℕ) where
  insert_by-before :
      (u v : String) (ws : List String)
      → key_le (sort_key u) (sort_key v) ≡ true
      → Ordered sort_key (u ∷ ws)
      → Ordered sort_key (u ∷ insert_by sort_key v ws)
  insert_by-before u v [] le o = before le single
  insert_by-before u v (w ∷ ws) le (before le' o) =
      elim (Bool-cases (key_le (sort_key v) (sort_key w))) [
        | inl e ↦ rw e (before le (before e o))
        | inr e ↦
            rw e (before le' (insert_by-before w v ws (key_le-total (sort_key v) (sort_key w) e) o))
      ]

  insert_by-Ordered :
      (v : String) (ws : List String)
      → Ordered sort_key ws
      → Ordered sort_key (insert_by sort_key v ws)
  insert_by-Ordered v [] o = single
  insert_by-Ordered v (w ∷ ws) o = elim (Bool-cases (key_le (sort_key v) (sort_key w))) [
    | inl e ↦ rw e (before e o)
    | inr e ↦ rw e (insert_by-before w v ws (key_le-total (sort_key v) (sort_key w) e) o)
  ]

  sorted_by-Ordered : (vs : List String) → Ordered sort_key (sorted_by sort_key vs)
  sorted_by-Ordered [] = empty
  sorted_by-Ordered (v ∷ vs) = insert_by-Ordered v (sorted_by sort_key vs) (sorted_by-Ordered vs)

  listed-insert_by :
      (u v : String) (ws : List String)
      → is_listed u (insert_by sort_key v ws) ≡ (str_eq v u || is_listed u ws)
  listed-insert_by u v [] = refl
  listed-insert_by u v (w ∷ ws) = ground (arith, listed-insert_by u v ws)

  listed-sorted_by :
      (u : String) (vs : List String) → is_listed u (sorted_by sort_key vs) ≡ is_listed u vs
  listed-sorted_by u [] = refl
  listed-sorted_by u (v ∷ vs) =
      rw (listed-insert_by u v (sorted_by sort_key vs), listed-sorted_by u vs) refl

-- The other versions are listed as before, the default one is not.
listed-keep :
    (u : String) (vs : List String)
    → is_listed u (keep (λ v. not (str_eq v default_version)) vs)
      ≡ (not (str_eq u default_version) && is_listed u vs)
listed-keep u [] = ground arith
listed-keep u (v ∷ vs) = ground (arith, eq_iff u "v1", eq_iff v "v1", eq_iff v u, listed-keep u vs)

-- What the listing has, from what its sorted part has: `flat` is whether the flat layout is there.
listed_all :
    (v : String) (found : List String) (flat sorted_part : Bool)
    → sorted_part ≡ (not (str_eq v default_version) && is_listed v found)
    → (if flat || is_listed default_version found
        then str_eq default_version v || sorted_part
        else sorted_part)
      ≡ (is_listed v found || (str_eq default_version v && flat))
listed_all v found flat sorted_part h = elim (Bool-cases (str_eq default_version v)) [
  | inl e ↦
      let same = (eq_iff default_version v).0 e in
      subst
        (λ u.
          sorted_part ≡ (not (str_eq u default_version) && is_listed u found)
          → (if flat || is_listed default_version found
              then str_eq default_version u || sorted_part
              else sorted_part)
            ≡ (is_listed u found || (str_eq default_version u && flat)))
        same
        (λ h'. elim (Bool-cases (is_listed default_version found)) [
          | inl t ↦ ground arith
          | inr t ↦ ground arith
        ])
        h
  | inr e ↦ ground (arith, eq_iff default_version v, eq_iff v default_version)
]

module _ {H : Host} (D : Directory H) where
  -- The listing is right: the versions found are those whose directory is there, and the default
  -- one in the flat layout too; the default version stands first where it is found, and only there;
  -- the others follow in natural order.
  pub record IsDiscovered (onnx_dir : H.files.FilePath) (vs : List String) : Type 0 where
    pub rest : List String
    pub members :
        (v : String)
        → is_listed v vs ≡ (
            is_listed v (found_dirs D onnx_dir)
            || (str_eq default_version v && has_flat D onnx_dir))
    pub layout : vs ≡ (if is_listed default_version vs then default_version ∷ rest else rest)
    pub others : is_listed default_version rest ≡ false
    pub natural : Ordered (natural_key D) rest

  -- `discover_versions` lists the versions that are there and no other, the default one first and
  -- the others in natural order.
  pub discover_versions-IsDiscovered :
      (onnx_dir : H.files.FilePath) → IsDiscovered onnx_dir (discover_versions D onnx_dir)
  unfolding discover_versions
  discover_versions-IsDiscovered onnx_dir =
      let found = found_dirs D onnx_dir in
      let others = keep (λ v. not (str_eq v default_version)) found in
      let ordered = sorted_by (natural_key D) others in
      let listed : (v : String)
          → is_listed v ordered ≡ (not (str_eq v default_version) && is_listed v found) =
        λ v. listed-sorted_by (natural_key D) v others ∙ listed-keep v found in
      let absent : is_listed default_version ordered ≡ false = listed default_version in
      let all =
        λ (v : String). listed_all v found (has_flat D onnx_dir) (is_listed v ordered) (listed v) in
      elim (Bool-cases (has_flat D onnx_dir || is_listed default_version found)) [
        | inl e ↦ rw e (record {
          rest = ordered;
          members = λ v. rw e at (all v);
          layout = refl;
          others = absent;
          natural = sorted_by-Ordered (natural_key D) others;
        })
        | inr e ↦ rw e (record {
          rest = ordered;
          members = λ v. rw e at (all v);
          layout = rw absent refl;
          others = absent;
          natural = sorted_by-Ordered (natural_key D) others;
        })
      ]
