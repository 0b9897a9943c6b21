-- ===== src/Lease/Recovery.antt =====
-- A lease whose holder never releases it: `try_acquire_run_lease` over a table service that answers.
use claim_automation_cloud.Prelude.{
  ℕ, ◌+◌, ◌≤◌, ◌<◌, ◌≡◌, refl, ap, ◌∙◌, Bool, true, false, Option, some, List, [], ◌∷◌, All, arith,
}
use claim_automation_cloud.Text.{text_eq}
use claim_automation_cloud.Exec.{resource_exists, Result, ok, err, ◌>>=◌, try_except}
use claim_automation_cloud.Exec.Inversion.{bind_after}
use claim_automation_cloud.Tables.{Props, Entity, TableService, property, run_lease_key}
use claim_automation_cloud.Lease.{
  run_lease_stale, is_held, lease_props, take_over, try_acquire_run_lease,
}

abbrev pub lease_row : ℕ → ℕ → Entity
lease_row t tag = record { props = lease_props t; etag = tag }

-- A table service that answers every call on the lease's row, with nobody else at work: an insertion over
-- a row is refused, a read gives the row, and an update under the row's tag replaces it.
pub record Answering {W : Type 0} (service : TableService W) : Type 0 where
  pub row : W → Option Entity
  pub create_refused :
      (p : Props) (w : W) {e : Entity}
      → row w ≡ some e
      → service.create_entity run_lease_key p w ≡ (err resource_exists, w)
  pub get_found :
      (w : W) {e : Entity} → row w ≡ some e → service.get_entity run_lease_key w ≡ (ok e, w)
  pub update_done :
      (p : Props) (w : W) {e : Entity}
      → row w ≡ some e
      → (w' : W) × (tag : ℕ) × (service.update_entity run_lease_key p e.etag w ≡ (ok tt, w'))
        × (row w' ≡ some (record { props = p; etag = tag }))

held_within : (t u : ℕ) → u ≤ t + run_lease_stale → is_held u t ≡ true
held_within t u h = ground arith

free_after : (t u : ℕ) → t + run_lease_stale < u → is_held u t ≡ false
free_after t u h = ground arith

module _ {W : Type 0} (service : TableService W) where
  -- The answers to attempts at the times, and the world after them.
  abbrev pub answers : List ℕ → W → List (Result Bool)
  answers [] w = []
  answers (u ∷ us) w = let (r, w') = try_acquire_run_lease service u w in r ∷ answers us w'

  abbrev pub after_attempts : List ℕ → W → W
  after_attempts [] w = w
  after_attempts (u ∷ us) w = after_attempts us (try_acquire_run_lease service u w).1

module _ {W : Type 0} (service : TableService W) (laws : Answering service) where
  -- The lease's row was written at `t`.
  abbrev pub TakenAt : ℕ → W → Type 0
  TakenAt t w = (tag : ℕ) × (laws.row w ≡ some (lease_row t tag))

  -- With a row in place the insertion fails, and the row decides.
  acquire_over :
      (u : ℕ) (w : W) {e : Entity}
      → laws.row w ≡ some e
      → try_acquire_run_lease service u w ≡ take_over service u e w
  unfolding try_acquire_run_lease try_except ◌>>=◌
  acquire_over u w row =
      rw (laws.create_refused (lease_props u) w row) (
        bind_after (service.get_entity run_lease_key) (take_over service u) w
          (laws.get_found w row))

  refused_within :
      (t u tag : ℕ) (w : W)
      → is_held u t ≡ true
      → take_over service u (lease_row t tag) w ≡ (ok false, w)
  unfolding take_over property text_eq ◌>>=◌
  refused_within t u tag w held = rw held refl

  won_after :
      (t u tag : ℕ) (w : W)
      → laws.row w ≡ some (lease_row t tag)
      → is_held u t ≡ false
      → (w' : W) × (take_over service u (lease_row t tag) w ≡ (ok true, w')) × TakenAt u w'
  unfolding take_over property text_eq try_except ◌>>=◌
  won_after t u tag w row free =
      let (w', tag', done, written) = laws.update_done (lease_props u) w row in
      (w', rw (free, done) refl, (tag', written))

  module _ (t : ℕ) (w : W) (taken : TakenAt t w) where
    refused_at :
        (u : ℕ) → u ≤ t + run_lease_stale → try_acquire_run_lease service u w ≡ (ok false, w)
    refused_at u h = acquire_over u w taken.1 ∙ refused_within t u taken.0 w (held_within t u h)

    won_at :
        (u : ℕ)
        → t + run_lease_stale < u
        → (w' : W) × (try_acquire_run_lease service u w ≡ (ok true, w')) × TakenAt u w'
    won_at u h =
        let (w', won, row) = won_after t u taken.0 w taken.1 (free_after t u h) in
        (w', acquire_over u w taken.1 ∙ won, row)

    refused_each :
        (us : List ℕ)
        → All (λ u. u ≤ t + run_lease_stale) us
        → All (λ r. r ≡ ok false) (answers service us w) × (after_attempts service us w ≡ w)
    refused_each [] h = (tt, refl)
    refused_each (u ∷ us) (h, hs) =
        rw (refused_at u h) (let (all, same) = refused_each us hs in ((refl, all), same))

  -- A lease that was taken at `t` and that nobody releases refuses every attempt until ten minutes after
  -- `t`, however many there are, and the first attempt after that takes it, under its own time: a holder
  -- that dies blocks the runs for no longer. The table service answers every call.
  pub try_acquire_run_lease-recovers :
      (t : ℕ) (w : W) (attempts : List ℕ) (now : ℕ)
      → TakenAt t w
      → All (λ u. u ≤ t + run_lease_stale) attempts
      → t + run_lease_stale < now
      → All (λ r. r ≡ ok false) (answers service attempts w)
        × ((w' : W) × (try_acquire_run_lease service now (after_attempts service attempts w)
              ≡ (ok true, w'))
            × TakenAt now w')
  try_acquire_run_lease-recovers t w attempts now taken within after =
      let (all, same) = refused_each t w taken attempts within in
      let (w', won, row) = won_at t w taken now after in
      (all, (w', ap (try_acquire_run_lease service now) same ∙ won, row))
