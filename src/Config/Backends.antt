-- ===== src/Config/Backends.antt =====
-- The choice of the backends: `state_store_from_settings` of backend/core/state_store.py,
-- `_build_membrete_source` of backend/pipeline/entry.py and `get_field_extractor` of
-- backend/pipeline/extraction.py. The constructors of the clients are parameters.
use claim_automation_cloud.Prelude.{Option, none, some, [], ◌∷◌, ◌++◌, if◌then◌else◌}
use claim_automation_cloud.Text.{Text, codes, text_eq}
use claim_automation_cloud.Exec.{
  Error, assertion_error, runtime_error, value_error, Result, ok, err, Exec, pure, lift, ◌>>=◌,
}
use claim_automation_cloud.Tables.{TableService}
use claim_automation_cloud.Store.{ensure_tables}
use claim_automation_cloud.Config.{
  Settings, TableBackend, connection_string, managed_identity, is_set,
}

-- A client at an endpoint that is set, or the error.
abbrev pub at_endpoint : {S : Type 0} → (Text → S) → Error → Option Text → Result S
at_endpoint make e none = err e
at_endpoint make e (some []) = err e
at_endpoint make e (some (c ∷ s)) = ok (make (c ∷ s))

module _ {W : Type 0} (identity_at from_connection_string : Text → TableService W) where
  abbrev pub service_on : Settings → TableBackend → Result (TableService W)
  service_on settings managed_identity =
      at_endpoint identity_at assertion_error settings.tables_endpoint
  service_on settings connection_string =
      ok (from_connection_string settings.storage_connection_string)

  -- The client that `state_store_from_settings` builds.
  unfoldable pub table_service : Settings → Result (TableService W)
  table_service settings = service_on settings settings.table_storage_backend

  unfoldable pub state_store_from_settings : Settings → Exec W (TableService W)
  unfolding table_service
  state_store_from_settings settings =
      lift (table_service settings) >>= λ service. ensure_tables service >>= λ _. pure service

module _ {S : Type 0} (identity_at from_connection_string : Text → Text → S) where
  abbrev source_on : Settings → TableBackend → Result S
  source_on settings managed_identity =
      at_endpoint (λ url. identity_at url settings.membretes_container)
        (runtime_error (codes "blob_endpoint must be configured under managed_identity (REQ-7)"))
        settings.blob_endpoint
  source_on settings connection_string =
      ok (from_connection_string settings.storage_connection_string settings.membretes_container)

  -- `_build_membrete_source`
  unfoldable pub build_membrete_source : Settings → Result S
  build_membrete_source settings = source_on settings settings.table_storage_backend

-- `repr` is Python's.
module _ {S : Type 0} (repr : Text → Text) (regex_extractor : S)
    (llm_extractor : Settings → S) where
  abbrev no_endpoint : Error
  no_endpoint = value_error (
      codes
        "FOUNDRY_ENDPOINT is not configured — required when FIELD_EXTRACTOR_BACKEND=llm (set by the infra deployment as a Function App setting)")

  abbrev llm_on : Option Settings → Result S
  llm_on none = err no_endpoint
  llm_on (some settings) =
      if is_set settings.foundry_endpoint then ok (llm_extractor settings) else err no_endpoint

  unfoldable pub get_field_extractor : Text → Option Settings → Result S
  get_field_extractor name settings =
      if text_eq name (codes "regex")
      then ok regex_extractor
      else if text_eq name (codes "llm")
      then llm_on settings
      else err (value_error (codes "Unknown field extractor backend: " ++ repr name))
