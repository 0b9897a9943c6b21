-- ===== src/Config.antt =====
-- The settings and the start of the application: backend/core/config.py, `create_secret_store` of
-- backend/core/secret_store.py, `lifespan` of backend/app/main.py and backend/app/version.py. Reading
-- the environment is pydantic's; the two stores are parameters.
pub mod Backends
pub mod Startup
use claim_automation_cloud.Prelude.{
  ℕ, Bool, true, false, not, ◌&&◌, Option, none, some, List, [], ◌∷◌, if◌then◌else◌,
}
use claim_automation_cloud.Text.{Text, codes, nonempty, strip, Runtime}
use claim_automation_cloud.Exec.{
  Error, value_error, runtime_error, assertion_error, Result, ok, err, Exec, pure, raise, lift,
  ◌>>=◌,
}
use claim_automation_cloud.Secrets.{
  SecretStore, session_signing_key, google_client_secret, require_secret,
}

pub data SecretBackend : Type 0 where
  file keyvault : SecretBackend

pub data TableBackend : Type 0 where
  connection_string managed_identity : TableBackend

pub data ExtractorBackend : Type 0 where
  regex llm : ExtractorBackend

pub record Settings : Type 0 where
  pub google_client_id : Text
  pub google_auth_url : Text
  pub google_token_url : Text
  pub gmail_api_base_url : Text
  pub trello_api_base_url : Text
  pub oauth_redirect_uri : Text
  pub operator_email : Text
  pub frontend_base_url : Text
  pub secret_store_backend : SecretBackend
  pub secret_store_file_path : Text
  pub key_vault_uri : Option Text
  pub table_storage_backend : TableBackend
  pub storage_connection_string : Text
  pub tables_endpoint : Option Text
  pub cors_allowed_origin : Option Text
  pub jwt_ttl_hours : ℕ
  pub field_extractor_backend : ExtractorBackend
  pub foundry_endpoint : Option Text
  pub foundry_deployment : Text
  pub llm_capture_content : Bool
  pub claim_sender_allowlist : Text
  pub membretes_container : Text
  pub blob_endpoint : Option Text

-- The values of the fields when the environment sets none.
abbrev pub default_settings : Settings
default_settings = record {
  google_client_id = [];
  google_auth_url = codes "https://accounts.google.com/o/oauth2/v2/auth";
  google_token_url = codes "https://oauth2.googleapis.com/token";
  gmail_api_base_url = codes "https://gmail.googleapis.com";
  trello_api_base_url = codes "https://api.trello.com";
  oauth_redirect_uri = codes "http://localhost:8000/api/auth/callback";
  operator_email = [];
  frontend_base_url = codes "http://localhost:5173";
  secret_store_backend = file;
  secret_store_file_path = codes ".secrets.json";
  key_vault_uri = none;
  table_storage_backend = connection_string;
  storage_connection_string = codes "UseDevelopmentStorage=true";
  tables_endpoint = none;
  cors_allowed_origin = none;
  jwt_ttl_hours = 8;
  field_extractor_backend = regex;
  foundry_endpoint = none;
  foundry_deployment = codes "gpt-5-mini";
  llm_capture_content = true;
  claim_sender_allowlist = [];
  membretes_container = codes "membretes";
  blob_endpoint = none;
}

-- `bool(value)` of an optional text.
abbrev pub is_set : Option Text → Bool
is_set none = false
is_set (some s) = nonempty s

abbrev pub on_vault : SecretBackend → Bool
on_vault keyvault = true
on_vault file = false

abbrev pub on_identity : TableBackend → Bool
on_identity managed_identity = true
on_identity connection_string = false

-- `_keyvault_requires_uri`
unfoldable pub keyvault_requires_uri : Settings → Result Settings
keyvault_requires_uri settings =
    if on_vault settings.secret_store_backend && not (is_set settings.key_vault_uri)
    then err (
        value_error (
          codes
            "KEY_VAULT_URI is not configured — required when SECRET_STORE_BACKEND=keyvault (set by the infra deployment as a Function App setting)"))
    else ok settings

-- `_managed_identity_requires_endpoint`
unfoldable pub managed_identity_requires_endpoint : Settings → Result Settings
managed_identity_requires_endpoint settings =
    if on_identity settings.table_storage_backend && not (is_set settings.tables_endpoint)
    then err (
        value_error (
          codes
            "TABLES_ENDPOINT is not configured — required when TABLE_STORAGE_BACKEND=managed_identity (set by the infra deployment as a Function App setting)"))
    else ok settings

abbrev pub and_validate : (Settings → Result Settings) → Result Settings → Result Settings
and_validate f (ok settings) = f settings
and_validate f (err e) = err e

-- The validators in the order of the class.
unfoldable pub validate : Settings → Result Settings
unfolding keyvault_requires_uri managed_identity_requires_endpoint
validate settings = and_validate managed_identity_requires_endpoint (keyvault_requires_uri settings)

module _ {W : Type 0} (file_at vault_at : Text → SecretStore W) where
  -- `assert settings.key_vault_uri`
  abbrev pub vault_of : Option Text → Result (SecretStore W)
  vault_of none = err assertion_error
  vault_of (some uri) = if nonempty uri then ok (vault_at uri) else err assertion_error

  abbrev pub store_on : Settings → SecretBackend → Result (SecretStore W)
  store_on settings file = ok (file_at settings.secret_store_file_path)
  store_on settings keyvault = vault_of settings.key_vault_uri

  unfoldable pub create_secret_store : Settings → Result (SecretStore W)
  create_secret_store settings = store_on settings settings.secret_store_backend

  abbrev pub require_operator_email : Text → Exec W (Unit {0})
  require_operator_email email =
      if nonempty email
      then pure tt
      else raise (
          runtime_error (
            codes
              "OPERATOR_EMAIL is not configured — set it in the environment (dev: .env loaded via `make dev`, see backend/README; prod: app settings)"))

  -- `lifespan`, up to its `yield`.
  unfoldable pub lifespan : Settings → Exec W (Unit {0})
  unfolding create_secret_store
  lifespan settings = lift (create_secret_store settings) >>= λ store.
      require_secret store session_signing_key >>= λ key.
      require_secret store google_client_secret >>= λ secret.
      require_operator_email settings.operator_email

abbrev pub dev_version : Text
dev_version = codes "dev"

abbrev or_dev : Text → Text
or_dev [] = dev_version
or_dev (c ∷ s) = c ∷ s

-- `get_build_version`; `none` is an OSError of the read.
unfoldable pub get_build_version : Runtime → Option Text → Text
get_build_version py none = dev_version
get_build_version py (some content) = or_dev (strip py.is_space content)
