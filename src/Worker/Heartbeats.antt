-- ===== src/Worker/Heartbeats.antt =====
-- The heartbeat is the report of a run: one, last, on every path.
use claim_automation_cloud.Prelude.{
  ℕ, ◌≡◌, Bool, true, false, Option, none, some, List, ◌∷◌, arith, if◌then◌else◌,
}
use claim_automation_cloud.Exec.{run_busy, no_access, Result, ok, err, Exec, ◌>>=◌}
use claim_automation_cloud.Records.{
  HeartbeatStatus, ran, failed, skipped_no_access, skipped_busy, Heartbeat, RunCounts,
}
use claim_automation_cloud.Worker.{
  WakeStore, heartbeat_of, execute_wake, on_error, on_counts, classify,
}

-- The events of a wake, newest first.
pub data Event : Type 0 where
  read pipeline_run clock_read : Event
  beat : Heartbeat → Event

abbrev pub Log : Type 0
Log = List Event

-- What the store and the pipeline answer, after any events.
pub record Answers : Type 0 where
  pub enabled : Log → Result Bool
  pub write : Log → Heartbeat → Result (Unit {0})
  pub now : Log → ℕ
  pub pipeline : Log → Result RunCounts

module _ (env : Answers) where
  abbrev pub wake_store : WakeStore Log
  wake_store = record {
    read_enabled = λ log. (env.enabled log, read ∷ log);
    write_heartbeat = λ h log. (env.write log h, beat h ∷ log);
    now = λ log. (ok (env.now log), clock_read ∷ log);
  }

  abbrev pub pipeline : Exec Log RunCounts
  pipeline log = (env.pipeline log, pipeline_run ∷ log)

-- The status that a run is to report, the counts, and what the wake is to return: only a failure
-- that says nothing about access or overlap is raised again.
abbrev pub status_of : Result RunCounts → HeartbeatStatus
status_of (ok c) = ran
status_of (err run_busy) = skipped_busy
status_of (err (no_access s r)) = skipped_no_access
status_of (err e) = failed

abbrev pub counts_of : Result RunCounts → Option RunCounts
counts_of (ok c) = some c
counts_of (err e) = none

abbrev pub is_failed : HeartbeatStatus → Bool
is_failed failed = true
is_failed _ = false

abbrev pub returned : Result RunCounts → Result HeartbeatStatus
returned (ok c) = ok ran
returned (err e) = if is_failed (status_of (err e)) then err e else ok (status_of (err e))

-- A failed write replaces what the wake returns.
abbrev pub unless_failed : Result (Unit {0}) → Result HeartbeatStatus → Result HeartbeatStatus
unless_failed (ok u) r = r
unless_failed (err e) r = err e

module _ (env : Answers) (log : Log) where
  -- The handlers, run after the pipeline.
  classify-eq :
      (r : Result RunCounts) (before : Log)
      → let h = heartbeat_of (env.now before) (status_of r) (counts_of r) in
        classify (wake_store env) r before ≡ (
          unless_failed (env.write (clock_read ∷ before) h) (returned r),
          beat h ∷ clock_read ∷ before,
        )
  unfolding on_error on_counts ◌>>=◌
  classify-eq (ok c) before = ground arith
  classify-eq (err run_busy) before = ground arith
  classify-eq (err _) before = ground arith

  -- An enabled worker runs the pipeline once and then writes exactly one heartbeat, last, whose
  -- status and counts are those of the run; it raises exactly when the write fails, or when the run
  -- failed for another reason than a held lease or lost access, and then with the run's exception.
  pub execute_wake_enabled :
      env.enabled log ≡ ok true
      → let before = pipeline_run ∷ read ∷ log in
        let r = env.pipeline (read ∷ log) in
        let h = heartbeat_of (env.now before) (status_of r) (counts_of r) in
        execute_wake (wake_store env) (pipeline env) log ≡ (
          unless_failed (env.write (clock_read ∷ before) h) (returned r),
          beat h ∷ clock_read ∷ before,
        )
  unfolding execute_wake ◌>>=◌
  execute_wake_enabled e =
      rw (e, execute_wake) (classify-eq (env.pipeline (read ∷ log)) (pipeline_run ∷ read ∷ log))
