-- ===== src/Tests/State.antt =====
-- The lease, the wake and the store at concrete inputs.
use claim_automation_cloud.Prelude.{ℕ, ◌≡◌, refl, true, none, some, [], ◌∷◌, arith}
use claim_automation_cloud.Text.{codes, text_eq, replace}
use claim_automation_cloud.Exec.{ok, err, run_busy, ◌>>=◌, try_except}
use claim_automation_cloud.Records.{skipped_busy, ran, Heartbeat, ClaimRecord, status_value}
use claim_automation_cloud.Lease.Machine.{
  Row, Machine, trying, goto, take, start, create_wins, IsLive, Reach, here, next, initial,
}
use claim_automation_cloud.Lease.Exclusion.{lease_exclusive}
use claim_automation_cloud.Worker.{heartbeat_of, execute_wake}
use claim_automation_cloud.Worker.Heartbeats.{
  read, pipeline_run, clock_read, beat, Answers, wake_store, pipeline, execute_wake_enabled,
}
use claim_automation_cloud.Tables.{
  claim_row_key, to_claim_record, claim_props, to_heartbeat, heartbeat_props,
}
use claim_automation_cloud.Tables.Memory.{Memory, memory, memory-TableLaws, empty_memory}
use claim_automation_cloud.Store.{record_claim, get_claim, write_heartbeat, read_heartbeat}
use claim_automation_cloud.Store.RoundTrip.{get_claim-record_claim, read_heartbeat-write_heartbeat}

abbrev held_row : Row
held_row = record { since = 0; tag = 0 }

abbrev held : Machine
held = take 4 0 (goto 4 (trying 0) initial)

held-IsLive : IsLive held 4 held_row
held-IsLive = record { held = refl; within = omega arith }

held_reached : Reach initial held
held_reached = next (next here (start 4 refl) tt) (create_wins 4 0 refl refl) tt

lease_exclusive_example : ◌≡◌ {A = ℕ} 4 4
lease_exclusive_example = lease_exclusive 4 4 held_row held_row held_reached held-IsLive held-IsLive

abbrev busy : Answers
busy = record {
  enabled = λ log. ok true;
  write = λ log h. ok tt;
  now = λ log. 9;
  pipeline = λ log. err run_busy;
}

execute_wake_enabled_example : execute_wake (wake_store busy) (pipeline busy) [] ≡ (
  ok skipped_busy,
  beat (heartbeat_of 9 skipped_busy none) ∷ clock_read ∷ pipeline_run ∷ read ∷ [],
)
execute_wake_enabled_example = execute_wake_enabled busy [] refl

abbrev claim_row : ClaimRecord
claim_row = record {
  at = 3;
  claim_ref = codes "2026/417";
  subject = codes "s";
  type = codes "DECLARACION_URGENTE";
  town = some (codes "Reus");
  owner = none;
  card_url = codes "url";
  extractor_used = none;
}

abbrev recorded : Memory
recorded = (record_claim memory claim_row empty_memory).1

read_back : get_claim memory (codes "2026/417") recorded ≡ (ok (some claim_row), recorded)
unfolding get_claim record_claim ◌>>=◌ try_except text_eq claim_row_key replace to_claim_record
    claim_props
read_back = refl

recorded_ok : record_claim memory claim_row empty_memory ≡ (ok tt, recorded)
unfolding record_claim
recorded_ok = refl

get_claim-record_claim_example : some claim_row ≡ some claim_row
get_claim-record_claim_example =
    get_claim-record_claim memory memory-TableLaws claim_row empty_memory recorded recorded recorded
      recorded_ok refl read_back

abbrev beat_row : Heartbeat
beat_row = heartbeat_of 9 ran none

abbrev beaten : Memory
beaten = (write_heartbeat memory (λ n. []) 5 beat_row empty_memory).1

beaten_ok : write_heartbeat memory (λ n. []) 5 beat_row empty_memory ≡ (ok tt, beaten)
unfolding write_heartbeat ◌>>=◌ try_except text_eq
beaten_ok = refl

beat_read : read_heartbeat memory beaten ≡ (ok (some beat_row), beaten)
unfolding read_heartbeat write_heartbeat ◌>>=◌ try_except text_eq to_heartbeat heartbeat_props
    status_value
beat_read = refl

read_heartbeat-write_heartbeat_example : some beat_row ≡ some beat_row
read_heartbeat-write_heartbeat_example =
    read_heartbeat-write_heartbeat memory memory-TableLaws (λ n. []) 5 beat_row empty_memory beaten
      beaten beaten beaten_ok refl beat_read
