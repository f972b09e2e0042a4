-- ===== src/Auth.antt =====
-- api/middleware/auth.py and api/routers/auth.py: the key store, the tokens and the tier guard.
pub mod Keys
pub mod Tokens
pub mod Tests
use ml_engineer_challenge_so.Prelude.{
  ℕ, ◌+◌, ◌==◌, String, Bool, true, false, ◌||◌, not, str_eq, if◌then◌else◌, List, [], ◌∷◌, any,
  Option, none, some, or_else, Result, ok, err, ◌>>=◌, ◌>>◌, raise_if, or_raise,
}
use ml_engineer_challenge_so.Prelude.Dict.{Dict, insert}
use ml_engineer_challenge_so.Config.{Settings, UserTier, free, pro, enterprise}
use ml_engineer_challenge_so.Errors.{ApiError, error, text, authentication, authorization}
use ml_engineer_challenge_so.RateLimit.{tier_value}

pub record Principal : Type 0 where
  pub user_id : String
  pub tier : UserTier

pub record ApiKeyRecord : Type 0 where
  pub user_id : String
  pub tier : UserTier
  pub key_hash : String

-- `_records`, by hash.
abbrev pub ApiKeyStore : Type 0
ApiKeyStore = Dict ApiKeyRecord

-- `APIKeyStore.__init__`: of two records with one hash the later one stays.
init_from : ApiKeyStore → List ApiKeyRecord → ApiKeyStore
init_from store [] = store
init_from store (r ∷ records) = init_from (insert r.key_hash r store) records

unfoldable pub init : List ApiKeyRecord → ApiKeyStore
unfolding init_from
init records = init_from [] records

-- The loop of `resolve` over all records; `compare_digest` is equality of the hashes.
unfoldable pub resolve_from : String → Option ApiKeyRecord → ApiKeyStore → Option ApiKeyRecord
resolve_from candidate matched [] = matched
resolve_from candidate matched ((stored_hash, r) ∷ store) =
    resolve_from candidate (if str_eq stored_hash candidate then some r else matched) store

-- `sha256` is `hash_api_key`.
module _ (sha256 : String → String) where
  abbrev pub new_record : String → String → UserTier → ApiKeyRecord
  new_record api_key user_id tier = record {
    user_id = user_id;
    tier = tier;
    key_hash = sha256 api_key;
  }

  unfoldable pub add : String → String → UserTier → ApiKeyStore → ApiKeyStore
  add api_key user_id tier = insert (sha256 api_key) (new_record api_key user_id tier)

  unfoldable pub resolve : String → ApiKeyStore → Option ApiKeyRecord
  resolve api_key store = resolve_from (sha256 api_key) none store

pub record Claims : Type 0 where
  pub sub : String
  pub tier : Option String
  pub issued_at : ℕ
  pub expires_at : ℕ
  pub token_id : String

-- The two groups of exceptions that `decode` tells apart.
pub data JwtError : Type 0 where
  expired_signature invalid_token : JwtError

-- PyJWT: `encode` with a key, `decode` with a key at a time. The algorithm is the configured one
-- in both, and `exp` and `sub` are required. A token is a text, of which the code itself reads
-- only whether it is empty.
pub record Jwt : Type 1 where
  pub Token : Type 0
  pub is_empty : Token → Bool
  pub encode : Claims → String → Token
  pub decode : Token → String → ℕ → Result JwtError Claims

-- `expires_in or settings.jwt_access_token_ttl_seconds`
abbrev pub lifetime_of : Option ℕ → ℕ → ℕ
lifetime_of none default = default
lifetime_of (some expires_in) default = if expires_in == 0 then default else expires_in

-- `UserTier(value)`, where `none` is its ValueError.
unfoldable pub parse_tier : String → Option UserTier
parse_tier value =
    if str_eq value "free"
    then some free
    else if str_eq value "pro"
    then some pro
    else if str_eq value "enterprise"
    then some enterprise
    else none

pub record TokenResponse (J : Jwt) : Type 0 where
  pub access_token : J.Token
  pub expires_in : ℕ
  pub tier : String

verified : Result JwtError Claims → Result ApiError Claims
verified (ok claims) = ok claims
verified (err e) = err (error authentication [])

-- `claims.get("tier", "free")` as a tier, an unknown one as the least privileged.
claimed_tier : Claims → UserTier
claimed_tier claims = or_else (parse_tier (or_else claims.tier "free")) free

module _ (J : Jwt) where
  -- `now` and `token_id` are the values of `datetime.now` and of `secrets.token_urlsafe`.
  unfoldable pub create_access_token : Principal → Settings → Option ℕ → ℕ → String → J.Token × ℕ
  create_access_token p settings expires_in now token_id =
      let lifetime = lifetime_of expires_in settings.jwt_access_token_ttl_seconds in
      (
        J.encode
            (record {
              sub = p.user_id;
              tier = some (tier_value p.tier);
              issued_at = now;
              expires_at = now + lifetime;
              token_id = token_id;
            })
            settings.jwt_secret_key,
        lifetime,
      )

  unfoldable pub decode_access_token : J.Token → Settings → ℕ → Result ApiError Claims
  unfolding verified
  decode_access_token token settings now = verified (J.decode token settings.jwt_secret_key now)

  bearer : Option J.Token → Result ApiError J.Token
  bearer none = err (error authentication [])
  bearer (some token) = if J.is_empty token then err (error authentication []) else ok token

  -- `authenticate`, on the credentials of the header.
  unfoldable pub authenticate : Option J.Token → Settings → ℕ → Result ApiError Principal
  unfolding bearer claimed_tier
  authenticate credentials settings now = do
    token ← bearer credentials
    claims ← decode_access_token token settings now
    ok (record { user_id = claims.sub; tier = claimed_tier claims })

  -- `issue_token`
  unfoldable pub issue_token :
      (String → String)
      → ApiKeyStore
      → String
      → Settings
      → ℕ
      → String
      → Result ApiError (TokenResponse J)
  issue_token sha256 store api_key settings now token_id = do
    r ← or_raise (resolve sha256 api_key store) (error authentication [])
    let issued =
        create_access_token (record { user_id = r.user_id; tier = r.tier }) settings none now
          token_id
    ok (record { access_token = issued.0; expires_in = issued.1; tier = tier_value r.tier })

-- The guard that `require_tier` builds.
unfoldable pub require_tier : List UserTier → Principal → Result ApiError Principal
require_tier allowed p =
    if any (λ t. str_eq (tier_value t) (tier_value p.tier)) allowed
    then ok p
    else err (error authorization (("your_tier", text (tier_value p.tier)) ∷ []))
