-- ===== src/Tests/Recoveries.antt =====
-- A lease that is left behind, in memory.
use claim_automation_cloud.Prelude.{ℕ, ◌≡◌, refl, true, false, some, [], ◌∷◌, ◌==◌, All, arith}
use claim_automation_cloud.Text.{text_eq}
use claim_automation_cloud.Exec.{ok}
use claim_automation_cloud.Tables.{Props, run_lease_key}
use claim_automation_cloud.Tables.Memory.{Memory, memory, put, empty_memory}
use claim_automation_cloud.Lease.{try_acquire_run_lease}
use claim_automation_cloud.Lease.Recovery.{
  lease_row, Answering, answers, after_attempts, TakenAt, try_acquire_run_lease-recovers,
}

same_tag : (n : ℕ) → (n == n) ≡ true
same_tag n = ground arith

placed :
    (p : Props) (m : Memory)
    → (put run_lease_key (some (record { props = p; etag = m.next_tag })) m).rows run_lease_key
      ≡ some (record { props = p; etag = m.next_tag })
unfolding text_eq
placed p m = refl

abbrev answering_memory : Answering memory
answering_memory = record {
  row = λ m. m.rows run_lease_key;
  create_refused = λ p m row. rw row refl;
  get_found = λ m row. rw row refl;
  update_done = λ p m {e} row. (
    put run_lease_key (some (record { props = p; etag = m.next_tag })) m,
    m.next_tag,
    rw (row, same_tag e.etag) refl,
    placed p m,
  );
}

abbrev left_behind : Memory
left_behind = put run_lease_key (some (lease_row 5 0)) empty_memory

left_behind_taken : TakenAt memory answering_memory 5 left_behind
unfolding text_eq
left_behind_taken = (0, refl)

try_acquire_run_lease-recovers_example :
    All (λ r. r ≡ ok false) (answers memory (6 ∷ 600000005 ∷ []) left_behind)
    × ((m : Memory) × (try_acquire_run_lease memory 600000006
            (after_attempts memory (6 ∷ 600000005 ∷ []) left_behind)
          ≡ (ok true, m))
        × TakenAt memory answering_memory 600000006 m)
try_acquire_run_lease-recovers_example =
    try_acquire_run_lease-recovers memory answering_memory 5 left_behind (6 ∷ 600000005 ∷ [])
      600000006 left_behind_taken (omega arith, (omega arith, tt)) (omega arith)
