-- ===== src/Routes.antt =====
-- The protected routes: backend/app/settings_routes.py, backend/app/metrics_routes.py and
-- backend/app/worker_routes.py, behind `require_operator`. FastAPI's parsing of a body is left out but for
-- the limit on a field's length; the header that forbids caching changes no value. The answer to a body
-- that is refused is `validation_error_without_input` of backend/app/main.py.
pub mod Saved
pub mod Dashboard
use claim_automation_cloud.Prelude.{
  ℕ, Bool, true, false, ◌&&◌, Option, none, some, List, [], ◌∷◌, map, leb, length, if◌then◌else◌,
}
use claim_automation_cloud.Text.{Text, codes, nonempty, strip, Runtime}
use claim_automation_cloud.Exec.{Error, http_exception, Exec, pure, raise, ◌>>=◌, try_except}
use claim_automation_cloud.Json.{Fields, no_fields, field, lookup}
use claim_automation_cloud.Records.{
  HeartbeatStatus, Heartbeat, HistoryTotals, ErrorRun, RunCounts, ClaimRecord, TrelloConfig,
}
use claim_automation_cloud.Tables.{TableService}
use claim_automation_cloud.Store.{
  read_enabled, set_enabled, read_trello_config, write_trello_config, read_heartbeat, list_claims,
  history_totals, list_error_runs,
}
use claim_automation_cloud.Secrets.{SecretStore, trello_api_key, trello_token, gmail_refresh_token}
use claim_automation_cloud.Worker.{WakeStore, execute_wake}

pub record TrelloState : Type 0 where
  pub api_key_stored : Bool
  pub token_stored : Bool
  pub board_id : Text
  pub list_id : Text

pub record GmailState : Type 0 where
  pub account_email : Text
  pub refresh_token_stored : Bool

pub record SettingsState : Type 0 where
  pub trello : TrelloState
  pub gmail : GmailState

abbrev pub max_field_length : ℕ
max_field_length = 1024

pub record TrelloSettingsBody : Type 0 where
  pub api_key : Text
  pub token : Text
  pub board_id : Text
  pub list_id : Text

-- The limits of the fields; a body beyond them is answered with 422.
unfoldable pub is_admissible : TrelloSettingsBody → Bool
is_admissible body =
    leb (length body.api_key) max_field_length
    && (leb (length body.token) max_field_length
        && (leb (length body.board_id) max_field_length
            && leb (length body.list_id) max_field_length))

-- `value is not None`
abbrev pub is_stored : Option Text → Bool
is_stored none = false
is_stored (some value) = true

abbrev pub config_or_empty : Option TrelloConfig → TrelloConfig
config_or_empty none = record { board_id = []; list_id = [] }
config_or_empty (some config) = config

module _ {W : Type 0} (secrets : SecretStore W) (service : TableService W) where
  -- `_trello_state`
  unfoldable pub trello_state : Exec W TrelloState
  trello_state = read_trello_config service >>= λ found. secrets.get trello_api_key >>= λ api_key.
      secrets.get trello_token >>= λ token. pure (record {
        api_key_stored = is_stored api_key;
        token_stored = is_stored token;
        board_id = (config_or_empty found).board_id;
        list_id = (config_or_empty found).list_id;
      })

  -- `email` is what the guard returned.
  unfoldable pub read_settings : Text → Exec W SettingsState
  unfolding trello_state
  read_settings email = trello_state >>= λ trello. secrets.get gmail_refresh_token >>= λ token.
      pure (record {
        trello = trello;
        gmail = record { account_email = email; refresh_token_stored = is_stored token };
      })

  -- `if value: secrets.set(name, value)`
  unfoldable pub set_unless_blank : Text → Text → Exec W (Unit {0})
  set_unless_blank name value = if nonempty value then secrets.set name value else pure tt

  abbrev pub to_500 : Error → Exec W (Unit {0})
  to_500 e = raise (http_exception 500 (codes "settings save failed"))

  -- The writes of `save_trello_settings`, of texts that are trimmed.
  unfoldable pub save_all : Text → Text → TrelloConfig → Exec W (Unit {0})
  unfolding set_unless_blank
  save_all api_key token config = set_unless_blank trello_api_key api_key >>= λ _.
      set_unless_blank trello_token token >>= λ _. write_trello_config service config

  unfoldable pub save_trello_settings : Runtime → TrelloSettingsBody → Exec W TrelloState
  unfolding save_all trello_state
  save_trello_settings py body =
      let trim = strip py.is_space in
      try_except
        (save_all (trim body.api_key) (trim body.token)
          (record { board_id = trim body.board_id; list_id = trim body.list_id }))
        to_500
      >>= λ _. trello_state

-- A row of the ledger without the subject.
pub record ClaimOut : Type 0 where
  pub at : ℕ
  pub claim_ref : Text
  pub type : Text
  pub town : Option Text
  pub owner : Option Text
  pub card_url : Text

abbrev pub claim_out : ClaimRecord → ClaimOut
claim_out r = record {
  at = r.at;
  claim_ref = r.claim_ref;
  type = r.type;
  town = r.town;
  owner = r.owner;
  card_url = r.card_url;
}

pub record MetricsResponse : Type 0 where
  pub emails_processed : ℕ
  pub cards_created : ℕ
  pub emails_failed : ℕ
  pub failed_runs : ℕ
  pub error_runs : List ErrorRun
  pub claims : List ClaimOut

pub record WorkerStatus : Type 0 where
  pub enabled : Bool
  pub heartbeat : Option Heartbeat

module _ {W : Type 0} (service : TableService W) where
  unfoldable pub metrics : Exec W MetricsResponse
  metrics = list_claims service >>= λ claims. history_totals service >>= λ totals.
      list_error_runs service >>= λ error_runs. pure (record {
        emails_processed = totals.emails_processed;
        cards_created = length claims;
        emails_failed = totals.emails_failed;
        failed_runs = totals.failed_runs;
        error_runs = error_runs;
        claims = map claim_out claims;
      })

  unfoldable pub worker_status : Exec W WorkerStatus
  worker_status = read_enabled service >>= λ enabled. read_heartbeat service >>= λ heartbeat.
      pure (record { enabled = enabled; heartbeat = heartbeat })

  unfoldable pub set_worker_enabled : Bool → Exec W Bool
  set_worker_enabled enabled = set_enabled service enabled >>= λ _. pure enabled

-- `run_worker_now`
unfoldable pub run_worker_now :
    {W : Type 0} → WakeStore W → Exec W RunCounts → Exec W HeartbeatStatus
run_worker_now store pipeline = execute_wake store pipeline

-- `{key: error[key] for key in ("loc", "msg", "type") if key in error}`
abbrev keep_key : Text → Fields → Fields → Fields
keep_key key error rest = elim (lookup key error) [
  | none ↦ rest
  | some value ↦ field key value rest
]

unfoldable pub without_input : Fields → Fields
without_input error =
    keep_key (codes "loc") error
      (keep_key (codes "msg") error (keep_key (codes "type") error no_fields))

-- `validation_error_without_input`: the detail of the 422 answer.
unfoldable pub validation_error_without_input : List Fields → List Fields
unfolding without_input
validation_error_without_input errors = map without_input errors
