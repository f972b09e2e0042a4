-- ===== src/Runtime/Sessions.antt =====
-- The provider of a session of `create_session`, api/services/runtime.py.
use ml_engineer_challenge_so.Prelude.{
  ℕ, String, List, ◌≡◌, ap, sym, ◌∙◌, some, true, Bool-cases, ok, or_raise, or_raise-eq-ok,
  >>=-eq-ok, inl, inr,
}
use ml_engineer_challenge_so.Runtime.{Ort, create_session, is_member, usable_providers}
use ml_engineer_challenge_so.Errors.{builtin}

-- A session that is returned has one of the acceptable providers in front, comes from the
-- providers of the build, and goes with the name of its first input.
pub create_session-provider :
    {P : Type 0} (O : Ort P) (path : P) (requested acceptable : List String) (threads : ℕ)
    (s' : O.Session) (input_name : String)
    → create_session O path requested acceptable threads ≡ ok (s', input_name)
    → (p : String) × (O.first_provider s' ≡ some p)
      × (is_member acceptable p ≡ true)
      × (O.first_input s' ≡ some input_name)
      × (O.open_session path (usable_providers O.available requested) threads ≡ ok s')
unfolding create_session
create_session-provider O path requested acceptable threads s' input_name h =
    let (s, opened, rest) =
      >>=-eq-ok (O.open_session path (usable_providers O.available requested) threads) _ h in
    let (p, first, rest2) =
      >>=-eq-ok (or_raise (O.first_provider s) (builtin "IndexError")) _ rest in
    elim (Bool-cases (is_member acceptable p)) [
      | inl e ↦
          let (n, input, rest3) =
            >>=-eq-ok (or_raise (O.first_input s) (builtin "IndexError")) _ (rw e at rest2) in
          let same : s ≡ s' = cc in
          let named : n ≡ input_name = cc in
          let selected = or_raise-eq-ok (O.first_provider s) (builtin "IndexError") first in
          let given = or_raise-eq-ok (O.first_input s) (builtin "IndexError") input in
          (
            p,
            ap O.first_provider (sym same) ∙ selected,
            e,
            ap O.first_input (sym same) ∙ given ∙ ap some named,
            opened ∙ ap ok same,
          )
      | inr e ↦ absurd (cc (rw e at rest2))
    ]
