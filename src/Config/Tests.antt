-- ===== src/Config/Tests.antt =====
-- Runs of api/config.py.
use ml_engineer_challenge_so.Prelude.{◌≡◌, refl, false≢true, err, true, eq_iff}
use ml_engineer_challenge_so.Config.{
  Settings, production, default_settings, construct, insecure_defaults,
}
use ml_engineer_challenge_so.Config.Secure.{IsSecure, construct-IsSecure}

abbrev started : Settings
started = record default_settings { jwt_secret_key = "9f86d081" }

construct-IsSecure_example : IsSecure started
unfolding construct
construct-IsSecure_example =
    construct-IsSecure "9f86d081" default_settings started
      (λ e. false≢true ((eq_iff "9f86d081" "CHANGE_ME_generate_with_openssl_rand_hex_32").1 e)) refl

production_refused :
    construct "9f86d081" (record default_settings { app_env = production })
    ≡ err (insecure_defaults true true)
unfolding construct
production_refused = refl
