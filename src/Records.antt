-- ===== src/Records.antt =====
-- The data that the layers exchange: the models of backend/core/state_store.py. A point in time is
-- the number of microseconds since the epoch, in UTC; a field with `ge=0` is a natural number.
use claim_automation_cloud.Prelude.{ℕ, Option}
use claim_automation_cloud.Text.{Text, codes}

pub data HeartbeatStatus : Type 0 where
  skipped_disabled ran failed skipped_no_access skipped_busy : HeartbeatStatus

-- `HeartbeatStatus.value`
unfoldable pub status_value : HeartbeatStatus → Text
status_value skipped_disabled = codes "skipped_disabled"
status_value ran = codes "ran"
status_value failed = codes "failed"
status_value skipped_no_access = codes "skipped_no_access"
status_value skipped_busy = codes "skipped_busy"

pub record Heartbeat : Type 0 where
  pub at : ℕ
  pub status : HeartbeatStatus
  pub matched : Option ℕ
  pub processed : Option ℕ
  pub failed : Option ℕ
  pub failed_total : Option ℕ

pub record HistoryTotals : Type 0 where
  pub emails_processed : ℕ
  pub emails_failed : ℕ
  pub failed_runs : ℕ

pub record ErrorRun : Type 0 where
  pub at : ℕ
  pub failed : ℕ

pub record RunCounts : Type 0 where
  pub processed : ℕ
  pub failed : ℕ
  pub failed_total : Option ℕ

pub record ClaimRecord : Type 0 where
  pub at : ℕ
  pub claim_ref : Text
  pub subject : Text
  pub type : Text
  pub town : Option Text
  pub owner : Option Text
  pub card_url : Text
  pub extractor_used : Option Text

pub record TrelloConfig : Type 0 where
  pub board_id : Text
  pub list_id : Text
