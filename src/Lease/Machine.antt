-- ===== src/Lease/Machine.antt =====
-- Any number of processes that acquire and release the lease, their calls of the table service
-- interleaved: each call is one atomic step on the lease's row.
use claim_automation_cloud.Prelude.{
  ℕ, suc, ◌+◌, ◌≤◌, ◌<◌, ◌≡◌, ◌≢◌, Option, none, some, ◌==◌, if◌then◌else◌,
}
use claim_automation_cloud.Lease.{run_lease_stale}

-- The row: when it was written, by the writer's clock, and its ETag.
pub record Row : Type 0 where
  pub since : ℕ
  pub tag : ℕ

-- Where a process stands: before its insertion, with the time that it read; refused by the
-- insertion; after reading a row that is stale at that time; in its run, with the row that it wrote.
pub data Place : Type 0 where
  idle : Place
  trying refused : ℕ → Place
  seen : ℕ → Row → Place
  holding : Row → Place

pub record Machine : Type 0 where
  pub row : Option Row
  pub next_tag : ℕ
  pub clock : ℕ
  pub place : ℕ → Place

abbrev pub goto : ℕ → Place → Machine → Machine
goto p x s = record s { place = λ q. if q == p then x else s.place q }

-- A write of the row gets a new ETag.
abbrev pub take : ℕ → ℕ → Machine → Machine
take p now s =
    let r : Row = record { since = now; tag = s.next_tag } in
    record s {
      row = some r;
      next_tag = suc s.next_tag;
      place = λ q. if q == p then holding r else s.place q;
    }

pub data Step (s : Machine) : Machine → Type 0 where
  tick : (t : ℕ) → s.clock ≤ t → Step s (record s { clock = t })
  start : (p : ℕ) → s.place p ≡ idle → Step s (goto p (trying s.clock) s)
  create_wins : (p now : ℕ) → s.place p ≡ trying now → s.row ≡ none → Step s (take p now s)
  create_loses :
      (p now : ℕ) (r : Row)
      → s.place p ≡ trying now
      → s.row ≡ some r
      → Step s (goto p (refused now) s)
  read_busy :
      (p now : ℕ) (r : Row)
      → s.place p ≡ refused now
      → s.row ≡ some r
      → now ≤ r.since + run_lease_stale
      → Step s (goto p idle s)
  read_stale :
      (p now : ℕ) (r : Row)
      → s.place p ≡ refused now
      → s.row ≡ some r
      → r.since + run_lease_stale < now
      → Step s (goto p (seen now r) s)
  -- The row is gone: the read raises, and the run fails.
  read_gone : (p now : ℕ) → s.place p ≡ refused now → s.row ≡ none → Step s (goto p idle s)
  update_wins :
      (p now : ℕ) (r : Row) → s.place p ≡ seen now r → s.row ≡ some r → Step s (take p now s)
  update_loses :
      (p now : ℕ) (r : Row) → s.place p ≡ seen now r → s.row ≢ some r → Step s (goto p idle s)
  release :
      (p : ℕ) (r : Row) → s.place p ≡ holding r → Step s (record (goto p idle s) { row = none })
  crash : (p : ℕ) (r : Row) → s.place p ≡ holding r → Step s (goto p idle s)

-- A process holds the lease within the window of its row.
pub record IsLive (s : Machine) (p : ℕ) (r : Row) : Type 0 where
  pub held : s.place p ≡ holding r
  pub within : s.clock ≤ r.since + run_lease_stale

-- A release comes within the window: the run has not outlived its lease.
abbrev pub InTime : {s t : Machine} → Step s t → Type 0
InTime {s = s} (release p r h) = s.clock ≤ r.since + run_lease_stale
InTime _ = Unit

-- A sequence of steps in which every release comes in time.
pub data Reach (s : Machine) : Machine → Type 0 where
  here : Reach s s
  next : {t u : Machine} → Reach s t → (e : Step t u) → InTime e → Reach s u

abbrev pub initial : Machine
initial = record { row = none; next_tag = 0; clock = 0; place = λ p. idle }
