-- ===== src/Prelude/Dict.antt =====
-- Python's `dict` with text keys: entries in order of first insertion.
use Prim.Native.String.{String}
use mathlib.Core.Path.{◌≡◌, refl, sym, subst}
use mathlib.Core.List.{List, [], ◌∷◌}
use mathlib.Core.Option.{Option, none, some}
use mathlib.Core.Logic.{inl, inr}
use native.Mathlib.Omega.{arith}
use text.Mathlib.Text.{◌==◌}
use text.Mathlib.TextEquality.{eq_iff}
use text.Mathlib.TextPositions.{eq_refl}
use ml_engineer_challenge_so.Prelude.Tests.{if◌then◌else◌, Bool-cases}

abbrev pub Dict {ℓ} : Type ℓ → Type ℓ
Dict V = List (String × V)

module _ {ℓ} {V : Type ℓ} where
  -- `d.get(k)`
  unfoldable pub lookup : String → Dict V → Option V
  lookup k [] = none
  lookup k ((j, v) ∷ d) = if j == k then some v else lookup k d

  -- `list(d)`
  unfoldable pub keys : Dict V → List String
  keys [] = []
  keys ((j, v) ∷ d) = j ∷ keys d

  -- `d.values()`
  unfoldable pub values : Dict V → List V
  values [] = []
  values ((j, v) ∷ d) = v ∷ values d

  -- `d[k] = v`
  unfoldable pub insert : String → V → Dict V → Dict V
  insert k v [] = (k, v) ∷ []
  insert k v ((j, old) ∷ others) = if j == k then (j, v) ∷ others else (j, old) ∷ insert k v others

  pub lookup-insert :
      (k j : String) (v : V) (d : Dict V)
      → lookup j (insert k v d) ≡ (if k == j then some v else lookup j d)
  unfolding lookup insert
  lookup-insert k j v [] = refl
  lookup-insert k j v ((i, w) ∷ d) =
      ground (arith, eq_iff k j, eq_iff i k, eq_iff i j, lookup-insert k j v d)

  -- A property of a key and its value that every entry has.
  abbrev pub Entries {κ} : (String → V → Type κ) → Dict V → Type κ
  Entries P [] = Unit
  Entries P ((j, v) ∷ d) = P j v × Entries P d

  pub Entries-insert {κ} :
      (P : String → V → Type κ) (k : String) (v : V) (d : Dict V)
      → P k v
      → Entries P d
      → Entries P (insert k v d)
  unfolding insert
  Entries-insert P k v [] p h = (p, tt)
  Entries-insert P k v ((j, w) ∷ d) p h = elim (Bool-cases (j == k)) [
    | inl same ↦ rw same (subst (λ i. P i v) (sym ((eq_iff j k).0 same)) p, h.1)
    | inr other ↦ rw other (h.0, Entries-insert P k v d p h.1)
  ]

  pub Entries-lookup {κ} :
      (P : String → V → Type κ) (k : String) (v : V) (d : Dict V)
      → Entries P d
      → lookup k d ≡ some v
      → P k v
  unfolding lookup
  Entries-lookup P k v [] h e = absurd (cc e)
  Entries-lookup P k v ((j, w) ∷ d) h e = elim (Bool-cases (j == k)) [
    | inl same ↦ subst (λ i. P i v) ((eq_iff j k).0 same) (subst (λ u. P j u) (ground arith) h.0)
    | inr other ↦ Entries-lookup P k v d h.1 (rw other at e)
  ]

  pub Entries-imp {κ ι} :
      (P : String → V → Type κ) (Q : String → V → Type ι) (f : (k : String) (v : V) → P k v → Q k v)
      (d : Dict V)
      → Entries P d
      → Entries Q d
  Entries-imp P Q f [] h = tt
  Entries-imp P Q f ((j, w) ∷ d) h = (f j w h.0, Entries-imp P Q f d h.1)

  pub lookup-insert_self : (k : String) (v : V) (d : Dict V) → lookup k (insert k v d) ≡ some v
  lookup-insert_self k v d = simp (lookup-insert, eq_refl)
