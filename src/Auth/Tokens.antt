-- ===== src/Auth/Tokens.antt =====
-- A token from api/routers/auth.py, presented to api/middleware/auth.py.
use ml_engineer_challenge_so.Prelude.{ℕ, ◌<◌, ◌≤◌, err, String, false, ◌≡◌, ok}
use ml_engineer_challenge_so.Auth.{expired_signature, Claims, Jwt}

-- What PyJWT promises: a token is not empty; before its expiry it decodes, under the key that it was
-- made with, to the claims that it was made from, and from then on it has expired.
pub record IsSigning (J : Jwt) : Type 0 where
  pub not_empty : (claims : Claims) (key : String) → J.is_empty (J.encode claims key) ≡ false
  pub decodes :
      (claims : Claims) (key : String) (now : ℕ)
      → now < claims.expires_at
      → J.decode (J.encode claims key) key now ≡ ok claims
  pub expires :
      (claims : Claims) (key : String) (now : ℕ)
      → claims.expires_at ≤ now
      → J.decode (J.encode claims key) key now ≡ err expired_signature
