-- ===== src/Auth/Tests.antt =====
-- Runs of api/middleware/auth.py, with a hash that is the key itself.
use ml_engineer_challenge_so.Prelude.{
  String, false, ltb, str_eq, if◌then◌else◌, ◌≡◌, List, [], ◌∷◌, some, ok, err,
}
use ml_engineer_challenge_so.Prelude.Dict.{lookup}
use ml_engineer_challenge_so.Config.{pro, free}
use ml_engineer_challenge_so.Auth.{
  ApiKeyRecord, Claims, Jwt, TokenResponse, invalid_token, expired_signature, resolve, add, init,
}
use ml_engineer_challenge_so.Auth.Keys.{started, resolve-lookup}

-- A token is its claims and the key that signed it.
abbrev signer : Jwt
signer = record {
  Token = Claims × String;
  is_empty = λ t. false;
  encode = λ claims key. (claims, key);
  decode = λ t key now.
      if ltb now t.0.expires_at
      then (if str_eq t.1 key then ok t.0 else err invalid_token)
      else err expired_signature;
}

abbrev start : List ApiKeyRecord
start = record { user_id = "ann"; tier = pro; key_hash = "key" } ∷ []

abbrev issued : TokenResponse signer
issued = record {
  access_token = (
    record { sub = "ann"; tier = some "pro"; issued_at = 100; expires_at = 3700; token_id = "id" },
    "CHANGE_ME_generate_with_openssl_rand_hex_32",
  );
  expires_in = 3600;
  tier = "pro";
}

resolve-lookup_example :
    (resolve (λ s. s) "key" (init start) ≡ lookup "key" (init start))
    × (resolve (λ s. s) "key" (add (λ s. s) "new" "bob" free (init start))
        ≡ resolve (λ s. s) "key" (init start))
resolve-lookup_example = resolve-lookup (λ s. s) (init start) "new" "bob" "key" free (started start)
