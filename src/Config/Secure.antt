-- ===== src/Config/Secure.antt =====
-- What holds of settings that passed the validators of api/config.py.
use ml_engineer_challenge_so.Prelude.{◌≤◌, String, ◌≡◌, ◌≢◌, ok, arith, eq_iff}
use ml_engineer_challenge_so.Config.{
  Settings, production, placeholder_secret, dev_default_db_password, construct,
}

-- No signing key is the template's, a production password is not the template's, and the limits
-- are usable.
pub record IsSecure (s : Settings) : Type 0 where
  pub key : s.jwt_secret_key ≢ placeholder_secret
  pub password : s.app_env ≡ production → s.postgres_password ≢ dev_default_db_password
  pub batch : 1 ≤ s.max_batch_size
  pub upload : 1024 ≤ s.max_upload_bytes

-- Settings that the validators accept have a signing key other than the template's in every
-- environment, in production a database password other than the template's, room for one batch
-- item and for an upload of 1 KiB, given that a fresh random key is not the template.
pub construct-IsSecure :
    (fresh : String) (s t : Settings)
    → fresh ≢ placeholder_secret
    → construct fresh s ≡ ok t
    → IsSecure t
unfolding construct
construct-IsSecure fresh s t h e = ground (
  arith,
  eq_iff s.jwt_secret_key placeholder_secret,
  eq_iff s.postgres_password dev_default_db_password,
)
