-- ===== src/Startup/Available.antt =====
-- `available_versions` of api/main.py: a version that the experiments may use is loaded.
use text.Mathlib.TextEquality.{eq_iff}
use text.Mathlib.TextPositions.{eq_refl}
use ml_engineer_challenge_so.Prelude.{
  String, true, str_eq, if◌then◌else◌, List, [], ◌∷◌, any, All, some, or_else, ◌≡◌, refl, subst,
  Bool-cases, false≢true, inl, inr, ◌⊎◌,
}
use ml_engineer_challenge_so.Prelude.Dict.{
  Dict, lookup, values, lookup-insert, Entries, Entries-imp,
}
use ml_engineer_challenge_so.Experiments.{has_member, loaded_for}
use ml_engineer_challenge_so.Models.{Host, LoadedModel, ModelService, key, list_models}
use ml_engineer_challenge_so.Models.Registry.{Reach, Reach-Inv, IsLoaded}
use ml_engineer_challenge_so.Startup.{available_from, available_versions, add_available}

module _ {V : Type 0} where
  abbrev IsFound : Dict V → String → V → Type 0
  IsFound d k v = (w : V) × (lookup k d ≡ some w)

  -- An entry's key is found in the dictionary.
  Entries-IsFound : (d : Dict V) → Entries (IsFound d) d
  unfolding lookup
  Entries-IsFound [] = tt
  Entries-IsFound ((j, v) ∷ d) = (
    (v, rw eq_refl refl),
    Entries-imp (IsFound d) (IsFound ((j, v) ∷ d))
        (λ k w found. elim (Bool-cases (str_eq j k)) [
          | inl e ↦ (v, rw e refl)
          | inr e ↦ (found.0, rw e found.1)
        ])
        d (Entries-IsFound d),
  )

  -- What two facts on the entries give for the values.
  All-values :
      (P Q : String → V → Type 0) (R : V → Type 0) (f : (k : String) (v : V) → P k v → Q k v → R v)
      (d : Dict V)
      → Entries P d
      → Entries Q d
      → All R (values d)
  unfolding values
  All-values P Q R f [] p q = tt
  All-values P Q R f ((k, v) ∷ d) p q = (f k v (p.0) (q.0), All-values P Q R f d (p.1) (q.1))

no_version : (name v : String) → has_member v (loaded_for [] name) ≡ true → ⊥
unfolding has_member lookup
no_version name v h = false≢true h

module _ (Q : String → String → Type 0) where
  -- Every version that is available for a name satisfies `Q`.
  abbrev Holds : Dict (List String) → Type 0
  Holds d = (name version : String) → has_member version (loaded_for d name) ≡ true → Q name version

  member_or :
      (v version : String) (vs : List String)
      → any (λ t. str_eq t v) (if any (λ t. str_eq t version) vs then vs else version ∷ vs) ≡ true
      → (version ≡ v) ⊎ (any (λ t. str_eq t v) vs ≡ true)
  member_or v version vs h = elim (Bool-cases (any (λ t. str_eq t version) vs)) [
    | inl e ↦ inr (rw e at h)
    | inr e ↦ elim (Bool-cases (str_eq version v)) [
      | inl w ↦ inl ((eq_iff version v).0 w)
      | inr w ↦ inr (rw (e, w) at h)
    ]
  ]

  add_available-Holds :
      (name version : String) (d : Dict (List String))
      → Q name version
      → Holds d
      → Holds (add_available name version d)
  unfolding add_available has_member
  add_available-Holds name version d q h other v member = elim (Bool-cases (str_eq name other)) [
    | inl e ↦
        let same = (eq_iff name other).0 e in
        let versions = or_else (lookup name d) [] in
        elim (member_or v version versions (rw (lookup-insert, e) at member)) [
          | inl w ↦ subst (λ n. Q n v) same (subst (Q name) w q)
          | inr w ↦ subst (λ n. Q n v) same (h name v w)
        ]
    | inr e ↦ h other v (rw (lookup-insert, e) at member)
  ]

  module _ {H : Host} where
    available_from-Holds :
        (ms : List (LoadedModel H)) (d : Dict (List String))
        → All (λ m. Q m.name m.version) ms
        → Holds d
        → Holds (available_from ms d)
    unfolding available_from
    available_from-Holds [] d all h = h
    available_from-Holds (m ∷ ms) d all h =
        available_from-Holds ms (add_available m.name m.version d) (all.1)
          (add_available-Holds m.name m.version d (all.0) h)

module _ {H : Host} where
  pub All-IsLoaded :
      (s : ModelService H) → Reach s → All (λ m. IsLoaded s.models m.name m.version) (list_models s)
  unfolding list_models
  All-IsLoaded s r =
      All-values (λ k m. k ≡ key m) (IsFound s.models) (λ m. IsLoaded s.models m.name m.version)
        (λ k m named found. subst (λ j. IsFound s.models j m) named found) s.models
        ((Reach-Inv s r).keyed) (Entries-IsFound s.models)

  -- A version that is available for a name is loaded under that name.
  pub available-IsLoaded :
      (s : ModelService H) (name version : String)
      → Reach s
      → has_member version (loaded_for (available_versions s) name) ≡ true
      → IsLoaded s.models name version
  available-IsLoaded s name version r =
      available_from-Holds (IsLoaded s.models) (list_models s) [] (All-IsLoaded s r)
        (λ n v member. absurd (no_version n v member)) name version
