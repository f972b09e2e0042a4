-- ===== src/Prelude/Results.antt =====
-- A value, or the exception that a call raised.
use mathlib.Core.Path.{◌≡◌, refl, subst}
use mathlib.Core.Bool.{Bool, true, false, ◌&&◌}
use mathlib.Core.Option.{Option, none, some}
use ml_engineer_challenge_so.Prelude.Tests.{if◌then◌else◌}

pub data Result (E A : Type 0) : Type 0 where
  err : E → Result E A
  ok : A → Result E A

abbrev pub is_ok : {E A : Type 0} → Result E A → Bool
is_ok (err _) = false
is_ok (ok _) = true

-- The value, or `e` where it is missing.
abbrev pub or_raise : {E A : Type 0} → Option A → E → Result E A
or_raise none e = err e
or_raise (some a) _ = ok a

-- A statement of a body, then the rest of it.
infixl 5 ◌>>=◌
abbrev pub ◌>>=◌ : {E A B : Type 0} (m : Result E A) (rest : A → Result E B) → Result E B
err e >>= _ = err e
ok x >>= rest = rest x

-- `if test: raise e`
abbrev pub raise_if : {E : Type 0} → Bool → E → Result E (Unit {0})
raise_if false _ = ok tt
raise_if true e = err e

infixl 5 ◌>>◌
abbrev pub ◌>>◌ : {E B : Type 0} (check : Result E (Unit {0})) (rest : Result E B) → Result E B
err e >> _ = err e
ok _ >> rest = rest

module _ {E A B : Type 0} (rest : A → Result E B) {b : B} where
  succeeded : (m : Result E A) → m >>= rest ≡ ok b → (x : A) × (m ≡ ok x) × (rest x ≡ ok b)
  succeeded (err _) h = absurd (cc h)
  succeeded (ok x) h = (x, refl, h)

-- A body that returned has run each of its statements.
pub >>=-eq-ok :
    {E A B : Type 0} (m : Result E A) (rest : A → Result E B) {b : B}
    → m >>= rest ≡ ok b
    → (x : A) × (m ≡ ok x) × (rest x ≡ ok b)
>>=-eq-ok m rest = succeeded rest m

pub >>-eq-ok :
    {E B : Type 0} (check : Result E (Unit {0})) (rest : Result E B) {b : B}
    → check >> rest ≡ ok b
    → (check ≡ ok tt) × (rest ≡ ok b)
>>-eq-ok (err _) rest h = absurd (cc h)
>>-eq-ok (ok tt) rest h = (refl, h)

-- A test that did not raise was false.
pub raise_if-eq-ok : {E : Type 0} (b : Bool) (e : E) → raise_if b e ≡ ok tt → b ≡ false
raise_if-eq-ok false e h = refl
raise_if-eq-ok true e h = absurd (cc h)

pub or_raise-eq-ok :
    {E A : Type 0} (o : Option A) (e : E) {a : A} → or_raise o e ≡ ok a → o ≡ some a
or_raise-eq-ok none e h = absurd (cc h)
or_raise-eq-ok (some a) e h = cc

-- A property of the value, where the body returned.
pub data Ensures {E A : Type 0} (P : A → Type 0) : Result E A → Type 0 where
  raises : {e : E} → Ensures P (err e)
  returns : {a : A} → P a → Ensures P (ok a)

module _ {E B : Type 0} (P : B → Type 0) where
  pub >>=-Ensures :
      {A : Type 0} (m : Result E A) (rest : A → Result E B)
      → ((a : A) → Ensures P (rest a))
      → Ensures P (m >>= rest)
  >>=-Ensures (err e) rest h = raises
  >>=-Ensures (ok a) rest h = h a

  pub >>-Ensures :
      (check : Result E (Unit {0})) (rest : Result E B)
      → (check ≡ ok tt → Ensures P rest)
      → Ensures P (check >> rest)
  >>-Ensures (err e) rest h = raises
  >>-Ensures (ok tt) rest h = h refl

  ensured : (m : Result E B) (b : B) → Ensures P m → m ≡ ok b → P b
  ensured _ b raises same = absurd (cc same)
  ensured _ b (returns {a = a} p) same = let e : a ≡ b = cc same in subst P e p

pub Ensures-eq-ok :
    {E A : Type 0} {P : A → Type 0} (m : Result E A) (a : A) → Ensures P m → m ≡ ok a → P a
Ensures-eq-ok {P = P} m a = ensured P m a

pub is_ok-bind :
    {E A B : Type 0} (r : Result E A) (rest : A → Result E B) (b : Bool)
    → ((a : A) → is_ok (rest a) ≡ b)
    → is_ok (r >>= rest) ≡ (is_ok r && b)
is_ok-bind (ok a) rest b f = f a
is_ok-bind (err e) rest b f = refl

pub bind-Ensures :
    {E A B : Type 0} (Q : A → Type 0) (P : B → Type 0) (m : Result E A) (rest : A → Result E B)
    → Ensures Q m
    → ((a : A) → Q a → Ensures P (rest a))
    → Ensures P (m >>= rest)
bind-Ensures Q P _ rest raises f = raises
bind-Ensures Q P _ rest (returns {a = a} q) f = f a q

pub imp-Ensures :
    {E A : Type 0} (P Q : A → Type 0) (m : Result E A)
    → ((a : A) → P a → Q a)
    → Ensures P m
    → Ensures Q m
imp-Ensures P Q _ f raises = raises
imp-Ensures P Q _ f (returns {a = a} p) = returns (f a p)

pub if-Ensures :
    {E A : Type 0} (P : A → Type 0) (b : Bool) (x y : Result E A)
    → (b ≡ true → Ensures P x)
    → (b ≡ false → Ensures P y)
    → Ensures P (if b then x else y)
if-Ensures P true x y f g = f refl
if-Ensures P false x y f g = g refl
