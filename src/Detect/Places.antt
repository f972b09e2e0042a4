-- ===== src/Detect/Places.antt =====
-- The members of a list at given places, which is what numpy's `x[indices]` gives in
-- api/services/detection_service.py.
use ml_engineer_challenge_so.Prelude.{
  ℕ, zero, suc, ◌≡◌, refl, subst, List, [], ◌∷◌, take, get_elem?, some, ok, or_raise, >>=-eq-ok,
  or_raise-eq-ok,
}
use ml_engineer_challenge_so.Errors.{builtin}
use ml_engineer_challenge_so.Detect.{gather}

module _ {X : Type 0} where
  -- The members of a list at these places.
  pub data AreAt (xs : List X) : List ℕ → List X → Type 0 where
    nowhere : AreAt xs [] []
    at :
        {i : ℕ} {x : X} {is : List ℕ} {ys : List X}
        → get_elem? xs i ≡ some x
        → AreAt xs is ys
        → AreAt xs (i ∷ is) (x ∷ ys)

  pub gather-AreAt : (xs ys : List X) (is : List ℕ) → gather xs is ≡ ok ys → AreAt xs is ys
  unfolding gather
  gather-AreAt xs ys [] h =
      let e : [] ≡ ys = cc h in subst (λ (zs : List X). AreAt xs [] zs) e nowhere
  gather-AreAt xs ys (i ∷ is) h =
      let (x, found, h1) = >>=-eq-ok (or_raise (get_elem? xs i) (builtin "IndexError")) _ h in
      let (rest, later, same) = >>=-eq-ok (gather xs is) _ h1 in
      let e : (x ∷ rest) ≡ ys = cc same in
      subst (λ (zs : List X). AreAt xs (i ∷ is) zs) e
        (at (or_raise-eq-ok (get_elem? xs i) (builtin "IndexError") found)
          (gather-AreAt xs rest is later))

  AreAt-get_elem :
      {xs ys : List X} {is : List ℕ} (j i : ℕ)
      → AreAt xs is ys
      → get_elem? is j ≡ some i
      → (x : X) × (get_elem? xs i ≡ some x) × (get_elem? ys j ≡ some x)
  AreAt-get_elem j i nowhere h = absurd (cc h)
  AreAt-get_elem {xs = xs} zero i (at {i = k} {x = x} found rest) h =
      let e : k ≡ i = cc h in (x, subst (λ (n : ℕ). get_elem? xs n ≡ some x) e found, refl)
  AreAt-get_elem (suc j) i (at found rest) h = AreAt-get_elem j i rest h

  taken :
      {xs : List X} (n : ℕ) (is : List ℕ) (ys : List X)
      → AreAt xs is ys
      → AreAt xs (take n is) (take n ys)
  taken zero is ys h = nowhere
  taken (suc n) _ _ nowhere = nowhere
  taken (suc n) _ _ (at {is = is} {ys = ys} found rest) = at found (taken n is ys rest)

  pub AreAt-take :
      {xs ys : List X} {is : List ℕ} (n : ℕ) → AreAt xs is ys → AreAt xs (take n is) (take n ys)
  AreAt-take {xs = xs} {ys = ys} {is = is} n h = taken n is ys h

pub AreAt-unique :
    {X : Type 0} {xs : List X} (is : List ℕ) (ys zs : List X)
    → AreAt xs is ys
    → AreAt xs is zs
    → ys ≡ zs
AreAt-unique [] _ _ nowhere nowhere = refl
AreAt-unique (i ∷ is) _ _ (at {x = x} {ys = ys} found rest) (at {x = y} {ys = zs} found' rest') =
    let same : x ≡ y = cc in let others = AreAt-unique is ys zs rest rest' in cc

pub AreAt-trans :
    {X : Type 0} {xs ys : List X} {kept order idx : List ℕ}
    → AreAt xs kept ys
    → AreAt kept order idx
    → (zs : List X) × AreAt xs idx zs × AreAt ys order zs
AreAt-trans h nowhere = ([], nowhere, nowhere)
AreAt-trans h (at {i = j} {x = i} found rest) =
    let (zs, a, b) = AreAt-trans h rest in
    let (x, here, there) = AreAt-get_elem j i h found in (x ∷ zs, at here a, at there b)
