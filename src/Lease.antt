-- ===== src/Lease.antt =====
-- The run lease: `try_acquire_run_lease`, `release_run_lease` and `run_lease` of
-- backend/core/state_store.py.
pub mod Machine
pub mod Exclusion
pub mod Recovery
use claim_automation_cloud.Prelude.{ℕ, ◌+◌, Bool, true, false, [], ◌∷◌, leb, if◌then◌else◌}
use claim_automation_cloud.Text.{Text, codes}
use claim_automation_cloud.Exec.{
  Error, resource_exists, resource_modified, resource_not_found, run_busy, Exec, pure, raise, lift,
  ◌>>=◌, try_except, finally,
}
use claim_automation_cloud.Tables.{
  Props, Entity, TableService, time, time_of, property, run_lease_key,
}

-- RUN_LEASE_STALE_S, in microseconds.
abbrev pub run_lease_stale : ℕ
run_lease_stale = 600000000

-- `(now - held_since).total_seconds() <= RUN_LEASE_STALE_S`
abbrev pub is_held : ℕ → ℕ → Bool
is_held now held_since = leb now (held_since + run_lease_stale)

abbrev pub lease_props : ℕ → Props
lease_props now = (codes "at", time now) ∷ []

module _ {W : Type 0} (service : TableService W) where
  -- Another taker won, or the holder released in between.
  abbrev lost_race : Error → Exec W Bool
  lost_race resource_modified = pure false
  lost_race (resource_not_found code) = pure false
  lost_race e = raise e

  unfoldable pub take_over : ℕ → Entity → Exec W Bool
  unfolding property
  take_over now existing = lift (time_of (property (codes "at") existing.props)) >>= λ held_since.
      if is_held now held_since
      then pure false
      else try_except
          (service.update_entity run_lease_key (lease_props now) existing.etag >>= λ _. pure true)
          lost_race

  abbrev on_exists : ℕ → Error → Exec W Bool
  on_exists now resource_exists = service.get_entity run_lease_key >>= take_over now
  on_exists now e = raise e

  unfoldable pub try_acquire_run_lease : ℕ → Exec W Bool
  unfolding take_over
  try_acquire_run_lease now =
      try_except (service.create_entity run_lease_key (lease_props now) >>= λ _. pure true)
        (on_exists now)

  abbrev unless_missing : Error → Exec W (Unit {0})
  unless_missing (resource_not_found code) = pure tt
  unless_missing e = raise e

  unfoldable pub release_run_lease : Exec W (Unit {0})
  release_run_lease = try_except (service.delete_entity run_lease_key) unless_missing

  -- `with store.run_lease(): body`
  unfoldable pub run_lease : {A : Type 0} → ℕ → Exec W A → Exec W A
  unfolding try_acquire_run_lease release_run_lease
  run_lease now body = try_acquire_run_lease now >>= λ acquired.
      if acquired then finally body release_run_lease else raise run_busy
