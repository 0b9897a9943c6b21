-- ===== src/Store.antt =====
-- `StateStore` of backend/core/state_store.py, operation by operation. The in-process lock, which makes
-- each operation one step among the threads of a process, is left out.
pub mod Codec
pub mod RoundTrip
pub mod Newest
pub mod Listed
use claim_automation_cloud.Prelude.{
  ℕ, ◌+◌, ◌-◌, ◌*◌, ◌^◌, Bool, true, false, Option, none, some, List, [], ◌∷◌, leb, ltb, sum_by,
  map, filter, if◌then◌else◌,
}
use claim_automation_cloud.Text.{Text, codes, text_eq}
use claim_automation_cloud.Exec.{
  Error, resource_exists, resource_modified, resource_not_found, type_error, key_error, run_busy,
  Result, ok, err, Exec, pure, raise, lift, ◌>>=◌, try_except, finally, map_exec,
}
use claim_automation_cloud.Records.{
  failed, status_value, Heartbeat, HistoryTotals, ErrorRun, ClaimRecord, TrelloConfig,
}
use claim_automation_cloud.Tables.{
  Value, text, number, time, flag, Props, Key, Entity, TableService, property, worker_state_table,
  heartbeat_table, claim_history_table, all_tables, is_entity_missing, enabled_key, run_lease_key,
  heartbeat_key, trello_config_key, claim_key, text_of, time_of, claim_props, heartbeat_props,
  to_claim_record, to_heartbeat,
}

-- `entity[name]` as the flag's reader takes it: only a bool will do.
abbrev flag_of : Option Value → Result Bool
flag_of none = err key_error
flag_of (some (flag b)) = ok b
flag_of (some v) = err type_error

abbrev number_or_zero : Option Value → ℕ
number_or_zero (some (number n)) = n
number_or_zero _ = 0

abbrev is_failed_row : Option Value → Bool
is_failed_row (some (text t)) = text_eq t (status_value failed)
is_failed_row _ = false

abbrev one_if : Bool → ℕ
one_if true = 1
one_if false = 0

module _ {W : Type 0} (service : TableService W) where
  abbrev pub on_missing : Error → Exec W (Option Entity)
  on_missing (resource_not_found code) =
      if is_entity_missing code then pure none else raise (resource_not_found code)
  on_missing e = raise e

  -- `_get_entity_or_none`
  unfoldable pub get_entity_or_none : Key → Exec W (Option Entity)
  get_entity_or_none key = try_except (service.get_entity key >>= λ e. pure (some e)) on_missing

  abbrev unless_exists : Error → Exec W (Unit {0})
  unless_exists resource_exists = pure tt
  unless_exists e = raise e

  unfoldable pub create_tables : List Text → Exec W (Unit {0})
  create_tables [] = pure tt
  create_tables (name ∷ names) =
      try_except (service.create_table name) unless_exists >>= λ _. create_tables names

  pub ensure_tables : Exec W (Unit {0})
  unfolding create_tables
  ensure_tables = create_tables all_tables

  abbrev pub enabled_of : Option Entity → Exec W Bool
  enabled_of none = pure false
  enabled_of (some e) = lift (flag_of (property (codes "enabled") e.props))

  unfoldable pub read_enabled : Exec W Bool
  unfolding get_entity_or_none property
  read_enabled = get_entity_or_none enabled_key >>= enabled_of

  unfoldable pub set_enabled : Bool → Exec W (Unit {0})
  set_enabled enabled = service.upsert_entity enabled_key ((codes "enabled", flag enabled) ∷ [])

  -- The row key of a history row: the wall clock, inverted, in twenty digits.
  abbrev pub history_key : (ℕ → Text) → ℕ → Key
  history_key pad20 time_ns = record {
    table = heartbeat_table;
    partition = codes "history";
    row = pad20 (2 ^ 63 - time_ns);
  }

  -- `write_heartbeat`: `pad20` formats a number in twenty decimal digits, `time_ns` is the clock's.
  unfoldable pub write_heartbeat : (ℕ → Text) → ℕ → Heartbeat → Exec W (Unit {0})
  write_heartbeat pad20 time_ns heartbeat =
      let props = heartbeat_props heartbeat in
      service.upsert_entity heartbeat_key props >>= λ _.
      try_except (service.create_entity (history_key pad20 time_ns) props) (λ _. pure tt)

  unfoldable pub write_trello_config : TrelloConfig → Exec W (Unit {0})
  write_trello_config config =
      service.upsert_entity trello_config_key
        ((codes "board_id", text config.board_id) ∷ (codes "list_id", text config.list_id) ∷ [])

  abbrev pub config_of : Option Entity → Exec W (Option TrelloConfig)
  config_of none = pure none
  config_of (some e) = lift (text_of (property (codes "board_id") e.props)) >>= λ board_id.
      lift (text_of (property (codes "list_id") e.props)) >>= λ list_id.
      pure (some (record { board_id = board_id; list_id = list_id }))

  unfoldable pub read_trello_config : Exec W (Option TrelloConfig)
  unfolding get_entity_or_none property
  read_trello_config = get_entity_or_none trello_config_key >>= config_of

  abbrev pub heartbeat_found : Option Entity → Exec W (Option Heartbeat)
  heartbeat_found none = pure none
  heartbeat_found (some e) = to_heartbeat e.props >>= λ h. pure (some h)

  unfoldable pub read_heartbeat : Exec W (Option Heartbeat)
  unfolding get_entity_or_none
  read_heartbeat = get_entity_or_none heartbeat_key >>= heartbeat_found

  unfoldable pub record_claim : ClaimRecord → Exec W (Unit {0})
  record_claim r = service.upsert_entity (claim_key r.claim_ref) (claim_props r)

  abbrev pub claim_found : Option Entity → Exec W (Option ClaimRecord)
  claim_found none = pure none
  claim_found (some e) = to_claim_record e.props >>= λ r. pure (some r)

  unfoldable pub get_claim : Text → Exec W (Option ClaimRecord)
  unfolding get_entity_or_none
  get_claim ref = get_entity_or_none (claim_key ref) >>= claim_found

  -- `records.sort(key=lambda record: record.at, reverse=True)`, which is stable.
  insert_newest : ClaimRecord → List ClaimRecord → List ClaimRecord
  insert_newest r [] = r ∷ []
  insert_newest r (x ∷ xs) = if leb x.at r.at then r ∷ x ∷ xs else x ∷ insert_newest r xs

  unfoldable pub newest_first : List ClaimRecord → List ClaimRecord
  unfolding insert_newest
  newest_first [] = []
  newest_first (r ∷ rs) = insert_newest r (newest_first rs)

  unfoldable pub list_claims : Exec W (List ClaimRecord)
  unfolding newest_first map_exec
  list_claims = service.query_partition claim_history_table (codes "claim") >>= λ entities.
      map_exec (λ (e : Entity). to_claim_record e.props) entities >>= λ records.
      pure (newest_first records)

  abbrev totals_of : List Entity → HistoryTotals
  totals_of entities = record {
    emails_processed =
        sum_by (λ (e : Entity). number_or_zero (property (codes "processed") e.props)) entities;
    emails_failed =
        sum_by (λ (e : Entity). number_or_zero (property (codes "failed") e.props)) entities;
    failed_runs =
        sum_by (λ (e : Entity). one_if (is_failed_row (property (codes "status") e.props)))
          entities;
  }

  unfoldable pub history_totals : Exec W HistoryTotals
  unfolding property
  history_totals = service.query_partition heartbeat_table (codes "history") >>= λ entities.
      pure (totals_of entities)

  abbrev error_run : Entity → Exec W ErrorRun
  error_run e = lift (time_of (property (codes "at") e.props)) >>= λ at.
      pure (record { at = at; failed = number_or_zero (property (codes "failed") e.props) })

  -- The filter `failed gt 0` runs in the service; a row without the property does not pass it.
  unfoldable pub list_error_runs : Exec W (List ErrorRun)
  unfolding property map_exec
  list_error_runs = service.query_partition heartbeat_table (codes "history") >>= λ entities.
      map_exec error_run (
        filter (λ (e : Entity). ltb 0 (number_or_zero (property (codes "failed") e.props)))
          entities)
