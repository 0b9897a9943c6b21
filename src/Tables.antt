-- ===== src/Tables.antt =====
-- Tables, keys and entities as backend/core/state_store.py lays them out. The table service is a
-- parameter of the model.
pub mod Laws
pub mod Memory
use claim_automation_cloud.Prelude.{
  ℕ, suc, ◌+◌, ◌-◌, Bool, true, false, ◌||◌, Option, none, some, List, [], ◌∷◌, ◌++◌, leb, ltb, any,
  map, sum_by, or_else, if◌then◌else◌,
}
use claim_automation_cloud.Text.{Text, codes, text_eq, replace}
use claim_automation_cloud.Exec.{
  Error, resource_exists, resource_modified, resource_not_found, type_error, key_error, value_error,
  run_busy, Result, ok, err, Exec, pure, raise, lift, or_raise, ◌>>=◌, ◌>>◌, try_except, finally,
}
use claim_automation_cloud.Records.{
  HeartbeatStatus, skipped_disabled, ran, failed, skipped_no_access, skipped_busy, status_value,
  Heartbeat, HistoryTotals, ErrorRun, ClaimRecord, TrelloConfig,
}

-- A property's value in an entity.
pub data Value : Type 0 where
  text : Text → Value
  number time : ℕ → Value
  flag : Bool → Value

abbrev pub Props : Type 0
Props = List (Text × Value)

pub record Key : Type 0 where
  pub table : Text
  pub partition : Text
  pub row : Text

pub record Entity : Type 0 where
  pub props : Props
  pub etag : ℕ

-- `azure.data.tables` as the store calls it; `query_partition` returns a partition's entities in the
-- order of their row keys, and `update_entity` replaces under `MatchConditions.IfNotModified`.
pub record TableService (W : Type 0) : Type 0 where
  pub create_table : Text → Exec W (Unit {0})
  pub get_entity : Key → Exec W Entity
  pub upsert_entity : Key → Props → Exec W (Unit {0})
  pub create_entity : Key → Props → Exec W (Unit {0})
  pub update_entity : Key → Props → ℕ → Exec W (Unit {0})
  pub delete_entity : Key → Exec W (Unit {0})
  pub query_partition : Text → Text → Exec W (List Entity)

-- `entity.get(name)`
unfoldable pub property : Text → Props → Option Value
property name [] = none
property name ((n, v) ∷ props) = if text_eq n name then some v else property name props

abbrev pub worker_state_table : Text
worker_state_table = codes "WorkerState"

abbrev pub trello_config_table : Text
trello_config_table = codes "TrelloConfig"

abbrev pub heartbeat_table : Text
heartbeat_table = codes "Heartbeat"

abbrev pub metrics_table : Text
metrics_table = codes "Metrics"

abbrev pub claim_history_table : Text
claim_history_table = codes "ClaimHistory"

abbrev pub all_tables : List Text
all_tables =
    worker_state_table ∷ trello_config_table ∷ heartbeat_table ∷ metrics_table ∷ claim_history_table
    ∷ []

-- `exc.error_code in ENTITY_MISSING_CODES`
abbrev pub is_entity_missing : Text → Bool
is_entity_missing code =
    text_eq code (codes "ResourceNotFound") || text_eq code (codes "EntityNotFound")

abbrev pub enabled_key : Key
enabled_key = record {
  table = worker_state_table;
  partition = codes "worker";
  row = codes "enabled";
}

abbrev pub run_lease_key : Key
run_lease_key = record {
  table = worker_state_table;
  partition = codes "worker";
  row = codes "run_lock";
}

abbrev pub heartbeat_key : Key
heartbeat_key = record { table = heartbeat_table; partition = codes "run"; row = codes "last" }

abbrev pub trello_config_key : Key
trello_config_key = record {
  table = trello_config_table;
  partition = codes "trello";
  row = codes "config";
}

-- `claim_ref.replace("/", "-")`
unfoldable pub claim_row_key : Text → Text
claim_row_key ref = replace ref (codes "/") (codes "-")

abbrev pub claim_key : Text → Key
claim_key ref = record {
  table = claim_history_table;
  partition = codes "claim";
  row = claim_row_key ref;
}

-- `entity[name]` of a given kind; a value of another kind is refused by the model's validation.
abbrev pub text_of : Option Value → Result Text
text_of none = err key_error
text_of (some (text t)) = ok t
text_of (some v) = err (value_error [])

abbrev pub time_of : Option Value → Result ℕ
time_of none = err key_error
time_of (some (time t)) = ok t
time_of (some v) = err (value_error [])

abbrev pub optional_text : Option Value → Result (Option Text)
optional_text none = ok none
optional_text (some (text t)) = ok (some t)
optional_text (some v) = err (value_error [])

abbrev pub optional_number : Option Value → Result (Option ℕ)
optional_number none = ok none
optional_number (some (number n)) = ok (some n)
optional_number (some v) = err (value_error [])

abbrev pub optional_prop : Text → Option Text → Props
optional_prop name none = []
optional_prop name (some t) = (name, text t) ∷ []

abbrev pub optional_count : Text → Option ℕ → Props
optional_count name none = []
optional_count name (some n) = (name, number n) ∷ []

unfoldable pub claim_props : ClaimRecord → Props
claim_props r =
    (codes "at", time r.at)
    ∷ (codes "claim_ref", text r.claim_ref)
    ∷ (codes "subject", text r.subject)
    ∷ (codes "type", text r.type)
    ∷ (codes "card_url", text r.card_url)
    ∷ (optional_prop (codes "town") r.town
        ++ (optional_prop (codes "owner") r.owner
            ++ optional_prop (codes "extractor_used") r.extractor_used))

unfoldable pub heartbeat_props : Heartbeat → Props
heartbeat_props h =
    (codes "at", time h.at)
    ∷ (codes "status", text (status_value h.status))
    ∷ (optional_count (codes "matched") h.matched
        ++ (optional_count (codes "processed") h.processed
            ++ (optional_count (codes "failed") h.failed
                ++ optional_count (codes "failed_total") h.failed_total)))

-- `HeartbeatStatus(value)`, which raises ValueError on any other text.
unfoldable pub parse_status : Text → Result HeartbeatStatus
unfolding text_eq
parse_status t =
    if text_eq t (status_value skipped_disabled)
    then ok skipped_disabled
    else if text_eq t (status_value ran)
    then ok ran
    else if text_eq t (status_value failed)
    then ok failed
    else if text_eq t (status_value skipped_no_access)
    then ok skipped_no_access
    else if text_eq t (status_value skipped_busy)
    then ok skipped_busy
    else err (value_error t)

module _ {W : Type 0} where
  -- `_to_claim_record`
  unfoldable pub to_claim_record : Props → Exec W ClaimRecord
  unfolding property
  to_claim_record e = lift (time_of (property (codes "at") e)) >>= λ at.
      lift (text_of (property (codes "claim_ref") e)) >>= λ claim_ref.
      lift (text_of (property (codes "subject") e)) >>= λ subject.
      lift (text_of (property (codes "type") e)) >>= λ type.
      lift (optional_text (property (codes "town") e)) >>= λ town.
      lift (optional_text (property (codes "owner") e)) >>= λ owner.
      lift (text_of (property (codes "card_url") e)) >>= λ card_url.
      lift (optional_text (property (codes "extractor_used") e)) >>= λ extractor_used.
      pure (record {
        at = at;
        claim_ref = claim_ref;
        subject = subject;
        type = type;
        town = town;
        owner = owner;
        card_url = card_url;
        extractor_used = extractor_used;
      })

  -- The conversion at the end of `read_heartbeat`.
  unfoldable pub to_heartbeat : Props → Exec W Heartbeat
  unfolding property parse_status
  to_heartbeat e = lift (time_of (property (codes "at") e)) >>= λ at.
      lift (text_of (property (codes "status") e)) >>= λ status_text.
      lift (parse_status status_text) >>= λ status.
      lift (optional_number (property (codes "matched") e)) >>= λ matched.
      lift (optional_number (property (codes "processed") e)) >>= λ processed.
      lift (optional_number (property (codes "failed") e)) >>= λ failed_count.
      lift (optional_number (property (codes "failed_total") e)) >>= λ failed_total. pure (record {
        at = at;
        status = status;
        matched = matched;
        processed = processed;
        failed = failed_count;
        failed_total = failed_total;
      })
