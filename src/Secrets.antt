-- ===== src/Secrets.antt =====
-- The secret stores: backend/core/secret_store.py. The file system, `json` and the Key Vault client are
-- parameters; the locks, which make each operation one step among the threads, are left out.
pub mod Spec
pub mod Files
pub mod Vault
use claim_automation_cloud.Prelude.{
  ℕ, Bool, true, false, Option, none, some, List, [], ◌∷◌, ◌++◌, if◌then◌else◌,
}
use claim_automation_cloud.Text.{Text, codes, text_eq}
use claim_automation_cloud.Exec.{
  Error, resource_not_found, runtime_error, Result, ok, err, Exec, pure, raise, lift, ◌>>=◌,
  try_except,
}

abbrev pub session_signing_key : Text
session_signing_key = codes "session-signing-key"

abbrev pub google_client_secret : Text
google_client_secret = codes "google-client-secret"

abbrev pub gmail_refresh_token : Text
gmail_refresh_token = codes "gmail-refresh-token"

abbrev pub trello_api_key : Text
trello_api_key = codes "trello-api-key"

abbrev pub trello_token : Text
trello_token = codes "trello-token"

-- `SecretStore`
pub record SecretStore (W : Type 0) : Type 0 where
  pub get : Text → Exec W (Option Text)
  pub set : Text → Text → Exec W (Unit {0})

-- `dict[str, str]`, in the order in which the keys came.
abbrev pub Dict : Type 0
Dict = List (Text × Text)

unfoldable pub look : Text → Dict → Option Text
look name [] = none
look name ((key, value) ∷ d) = if text_eq key name then some value else look name d

unfoldable pub assign : Text → Text → Dict → Dict
assign name value [] = (name, value) ∷ []
assign name value ((key, old) ∷ d) =
    if text_eq key name then (key, value) ∷ d else (key, old) ∷ assign name value d

-- The store's file and the temporary file beside it, and `json`.
pub record FileSystem (W : Type 0) : Type 0 where
  pub exists : Exec W Bool
  pub read_text : Exec W Text
  pub write_tmp : Text → Exec W (Unit {0})
  pub replace : Exec W (Unit {0})

pub record JsonText : Type 0 where
  pub dumps : Dict → Text
  pub loads : Text → Result Dict

module _ {W : Type 0} (files : FileSystem W) (json : JsonText) where
  abbrev read_if : Bool → Exec W Dict
  read_if false = pure []
  read_if true = files.read_text >>= λ content. lift (json.loads content)

  -- `FileSecretStore._read`
  unfoldable pub read_all : Exec W Dict
  read_all = files.exists >>= read_if

  -- `FileSecretStore.get`
  unfoldable pub file_get : Text → Exec W (Option Text)
  unfolding read_all look
  file_get name = read_all >>= λ secrets. pure (look name secrets)

  -- `FileSecretStore.set`
  unfoldable pub file_set : Text → Text → Exec W (Unit {0})
  unfolding read_all assign
  file_set name value = read_all >>= λ secrets.
      files.write_tmp (json.dumps (assign name value secrets)) >>= λ _. files.replace

  abbrev pub file_store : SecretStore W
  file_store = record { get = file_get; set = file_set }

-- `azure.keyvault.secrets.SecretClient`
pub record VaultClient (W : Type 0) : Type 0 where
  pub get_secret : Text → Exec W Text
  pub set_secret : Text → Text → Exec W (Unit {0})

module _ {W : Type 0} (client : VaultClient W) where
  abbrev pub none_if_missing : Error → Exec W (Option Text)
  none_if_missing (resource_not_found code) = pure none
  none_if_missing e = raise e

  -- `KeyVaultSecretStore.get`
  unfoldable pub vault_get : Text → Exec W (Option Text)
  vault_get name =
      try_except (client.get_secret name >>= λ value. pure (some value)) none_if_missing

  abbrev pub vault_store : SecretStore W
  vault_store = record { get = vault_get; set = client.set_secret }

module _ {W : Type 0} (store : SecretStore W) where
  abbrev pub required : Text → Option Text → Exec W Text
  required name (some (c ∷ s)) = pure (c ∷ s)
  required name found = raise (
      runtime_error (
        name
        ++ codes
            " missing from the secret store — seed it before starting (dev: make seed-dev, see backend/README; prod: infra pipeline)"))

  -- `require_secret`
  unfoldable pub require_secret : Text → Exec W Text
  require_secret name = store.get name >>= required name
