-- ===== src/Worker.antt =====
-- One wake of the worker: backend/app/worker.py. Log lines and spans are left out.
pub mod Heartbeats
use claim_automation_cloud.Prelude.{ℕ, Bool, true, false, not, Option, none, some, if◌then◌else◌}
use claim_automation_cloud.Exec.{
  Error, run_busy, no_access, Result, ok, err, Exec, pure, raise, ◌>>=◌, ◌>>◌, finally,
}
use claim_automation_cloud.Records.{
  HeartbeatStatus, skipped_disabled, ran, failed, skipped_no_access, skipped_busy, Heartbeat,
  RunCounts,
}

-- What a wake needs of the store, and `datetime.now(UTC)`.
pub record WakeStore (W : Type 0) : Type 0 where
  pub read_enabled : Exec W Bool
  pub write_heartbeat : Heartbeat → Exec W (Unit {0})
  pub now : Exec W ℕ

-- `counts.field if counts else None`
abbrev count_of : Option RunCounts → (RunCounts → ℕ) → Option ℕ
count_of none field = none
count_of (some c) field = some (field c)

abbrev failed_total_of : Option RunCounts → Option ℕ
failed_total_of none = none
failed_total_of (some c) = c.failed_total

abbrev pub heartbeat_of : ℕ → HeartbeatStatus → Option RunCounts → Heartbeat
heartbeat_of now outcome counts = record {
  at = now;
  status = outcome;
  matched = none;
  processed = count_of counts (λ c. c.processed);
  failed = count_of counts (λ c. c.failed);
  failed_total = failed_total_of counts;
}

module _ {W : Type 0} (store : WakeStore W) where
  -- `_report`
  unfoldable pub report : HeartbeatStatus → Option RunCounts → Exec W (Unit {0})
  report outcome counts =
      store.now >>= λ now. store.write_heartbeat (heartbeat_of now outcome counts)

  -- The handlers around `pipeline()`: what is raised in one of them escapes.
  unfoldable pub on_error : Error → Exec W HeartbeatStatus
  unfolding report
  on_error run_busy = report skipped_busy none >>= λ _. pure skipped_busy
  on_error (no_access source reason) = report skipped_no_access none >>= λ _. pure skipped_no_access
  on_error e = report failed none >>= λ _. raise e

  unfoldable pub on_counts : RunCounts → Exec W HeartbeatStatus
  unfolding report
  on_counts counts = report ran (some counts) >>= λ _. pure ran

  abbrev pub classify : Result RunCounts → Exec W HeartbeatStatus
  classify (ok counts) = on_counts counts
  classify (err e) = on_error e

  -- `_execute_wake`; `run_worker` wraps it in a span and returns or raises the same.
  unfoldable pub execute_wake : Exec W RunCounts → Exec W HeartbeatStatus
  unfolding on_error on_counts
  execute_wake pipeline = store.read_enabled >>= λ enabled.
      if not enabled
      then (report skipped_disabled none >>= λ _. pure skipped_disabled)
      else (λ w. let (r, w') = pipeline w in classify r w')

  -- `run_scheduled_worker`: the flush of the telemetry comes last on every path.
  pub run_scheduled_worker : Exec W RunCounts → Exec W (Unit {0}) → Exec W (Unit {0})
  unfolding execute_wake
  run_scheduled_worker pipeline flush_telemetry =
      finally (execute_wake pipeline >>= λ _. pure tt) flush_telemetry
