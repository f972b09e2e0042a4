-- ===== src/Config.antt =====
-- api/config.py: the settings, their validators, and the limit of each tier.
pub mod Secure
pub mod Tests
use ml_engineer_challenge_so.Prelude.{
  ℕ, ◌*◌, String, Bool, true, false, ◌&&◌, ◌||◌, ltb, str_eq, if◌then◌else◌, Result, ok, err, ◌>>=◌,
}

pub data AppEnv : Type 0 where
  development staging production : AppEnv

pub data UserTier : Type 0 where
  free pro enterprise : UserTier

pub data InferenceBackend : Type 0 where
  torch onnx onnx_int8 tensorrt : InferenceBackend

abbrev pub backend_value : InferenceBackend → String
backend_value torch = "torch"
backend_value onnx = "onnx"
backend_value onnx_int8 = "onnx-int8"
backend_value tensorrt = "tensorrt"

abbrev pub same_backend : InferenceBackend → InferenceBackend → Bool
same_backend torch torch = true
same_backend onnx onnx = true
same_backend onnx_int8 onnx_int8 = true
same_backend tensorrt tensorrt = true
same_backend _ _ = false

abbrev pub placeholder_secret : String
placeholder_secret = "CHANGE_ME_generate_with_openssl_rand_hex_32"

abbrev pub dev_default_db_password : String
dev_default_db_password = "mlapi"

-- The settings that the modelled code reads.
pub record Settings : Type 0 where
  pub app_env : AppEnv
  pub jwt_secret_key : String
  pub jwt_access_token_ttl_seconds : ℕ
  pub postgres_password : String
  pub cache_ttl_seconds : ℕ
  pub inference_backend : InferenceBackend
  pub enable_graceful_degradation : Bool
  pub allow_backend_override : Bool
  pub max_upload_bytes : ℕ
  pub max_image_pixels : ℕ
  pub max_batch_size : ℕ
  pub rate_limit_free_rpm : ℕ
  pub rate_limit_pro_rpm : ℕ
  pub rate_limit_enterprise_rpm : ℕ

abbrev pub default_settings : Settings
default_settings = record {
  app_env = development;
  jwt_secret_key = placeholder_secret;
  jwt_access_token_ttl_seconds = 3600;
  postgres_password = dev_default_db_password;
  cache_ttl_seconds = 3600;
  inference_backend = onnx;
  enable_graceful_degradation = true;
  allow_backend_override = false;
  max_upload_bytes = 10 * 1024 * 1024;
  max_image_pixels = 89_478_485;
  max_batch_size = 64;
  rate_limit_free_rpm = 10;
  rate_limit_pro_rpm = 120;
  rate_limit_enterprise_rpm = 1200;
}

abbrev pub is_production : Settings → Bool
is_production s = elim s.app_env [ production ↦ true | _ ↦ false ]

unfoldable pub rate_limit_for : Settings → UserTier → ℕ
rate_limit_for s free = s.rate_limit_free_rpm
rate_limit_for s pro = s.rate_limit_pro_rpm
rate_limit_for s enterprise = s.rate_limit_enterprise_rpm

-- The `ValueError`s of the two validators.
pub data ConfigError : Type 0 where
  insecure_defaults : Bool → Bool → ConfigError
  batch_size_too_small upload_limit_too_small : ConfigError

-- `fresh` is what `secrets.token_hex(32)` returns.
reject_insecure_defaults : String → Settings → Result ConfigError Settings
reject_insecure_defaults fresh s =
    let weak_key = str_eq s.jwt_secret_key placeholder_secret in
    let weak_password = str_eq s.postgres_password dev_default_db_password in
    if is_production s
    then (if weak_key || weak_password
        then err (insecure_defaults weak_key weak_password)
        else ok s)
    else if weak_key
    then ok (record s { jwt_secret_key = fresh })
    else ok s

validate_limits : Settings → Result ConfigError Settings
validate_limits s =
    if ltb s.max_batch_size 1
    then err batch_size_too_small
    else if ltb s.max_upload_bytes 1024
    then err upload_limit_too_small
    else ok s

-- The validators run in the order in which the class declares them.
unfoldable pub construct : String → Settings → Result ConfigError Settings
unfolding reject_insecure_defaults validate_limits
construct fresh s = do checked ← reject_insecure_defaults fresh s; validate_limits checked
