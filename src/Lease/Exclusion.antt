-- ===== src/Lease/Exclusion.antt =====
-- Mutual exclusion: under any interleaving, two processes never hold the lease at a time, each within
-- the window of its own row, as long as no run outlives its lease and then releases it.
use mathlib.Core.Option.{some-injective}
use claim_automation_cloud.Prelude.{
  ◌⊎◌, ℕ, ◌+◌, ◌≤◌, ◌<◌, ◌≡◌, ◌≢◌, ◌∙◌, sym, ap, none, some, ◌==◌, ==_iff, arith, Bool-cases, inl,
  inr,
}
use claim_automation_cloud.Lease.{run_lease_stale}
use claim_automation_cloud.Lease.Machine.{
  Row, Place, idle, trying, refused, seen, holding, Machine, goto, take, Step, tick, start,
  create_wins, create_loses, read_busy, read_stale, read_gone, update_wins, update_loses, release,
  crash, IsLive, InTime, Reach, here, next, initial,
}

-- What a process remembers is not from the future, and a row that it takes over was stale.
abbrev IsSound : ℕ → Place → Type 0
IsSound clock (trying now) = now ≤ clock
IsSound clock (refused now) = now ≤ clock
IsSound clock (seen now r) = (now ≤ clock) × (r.since + run_lease_stale < now)
IsSound clock _ = Unit

IsSound-le : {a b : ℕ} (x : Place) → a ≤ b → IsSound a x → IsSound b x
IsSound-le (trying now) later h = omega arith
IsSound-le (refused now) later h = omega arith
IsSound-le (seen now r) later h = (omega arith, h.1)
IsSound-le idle later h = tt
IsSound-le (holding r) later h = tt

holding-injective : {r r' : Row} → holding r ≡ holding r' → r ≡ r'
holding-injective h = cc

pub record IsExclusive (s : Machine) : Type 0 where
  -- A live holder's row is the one in the table.
  pub live : (p : ℕ) (r : Row) → IsLive s p r → s.row ≡ some r
  pub fresh_row : (r : Row) → s.row ≡ some r → r.tag < s.next_tag
  pub fresh_held : (p : ℕ) (r : Row) → s.place p ≡ holding r → r.tag < s.next_tag
  pub one :
      (p q : ℕ) (r r' : Row)
      → s.place p ≡ holding r
      → s.place q ≡ holding r'
      → r.tag ≡ r'.tag
      → p ≡ q
  pub sound : (p : ℕ) → IsSound s.clock (s.place p)

module _ {s : Machine} (inv : IsExclusive s) where
  -- A process goes to a place where it does not hold the lease.
  goto-IsExclusive :
      (p : ℕ) (x : Place)
      → ((r : Row) → x ≢ holding r)
      → IsSound s.clock x
      → IsExclusive (goto p x s)
  goto-IsExclusive p x out good = record {
    live = λ q r l. inv.live q r (record { held = stays q r l.held; within = l.within });
    fresh_row = inv.fresh_row;
    fresh_held = λ q r h. inv.fresh_held q r (stays q r h);
    one = λ q q' r r' h h'. inv.one q q' r r' (stays q r h) (stays q' r' h');
    sound = λ q. elim (Bool-cases (q == p)) [ inl e ↦ rw e good | inr e ↦ rw e (inv.sound q) ];
  }
    where
      stays : (q : ℕ) (r : Row) → (goto p x s).place q ≡ holding r → s.place q ≡ holding r
      stays q r h = elim (Bool-cases (q == p)) [
        | inl e ↦ absurd (out r (rw e at h))
        | inr e ↦ rw e at h
      ]

  module _ (p now : ℕ) where
    abbrev written : Row
    written = record { since = now; tag = s.next_tag }

    -- A holder after the write is the writer, or held before.
    holder_cases :
        (q : ℕ) (r : Row)
        → (take p now s).place q ≡ holding r
        → (q ≡ p) × (written ≡ r) ⊎ (s.place q ≡ holding r)
    holder_cases q r h = elim (Bool-cases (q == p)) [
      | inl e ↦ inl ((==_iff q p).0 e, holding-injective (rw e at h))
      | inr e ↦ inr (rw e at h)
    ]

    -- A process writes the row while no process is live.
    take-IsExclusive : ((q : ℕ) (r : Row) → ¬ IsLive s q r) → IsExclusive (take p now s)
    take-IsExclusive alone = record {
      live = λ q r l. elim (holder_cases q r l.held) [
        | inl (e, f) ↦ ap some f
        | inr h ↦ absurd (alone q r (record { held = h; within = l.within }))
      ];
      fresh_row = λ r h. omega (arith, ap (λ (x : Row). x.tag) (some-injective _ _ h));
      fresh_held = λ q r h. elim (holder_cases q r h) [
        | inl (e, f) ↦ omega (arith, ap (λ (x : Row). x.tag) f)
        | inr k ↦ omega (arith, inv.fresh_held q r k)
      ];
      one = λ q q' r r' h h' t. elim (holder_cases q r h) [
        | inl (e, f) ↦ elim (holder_cases q' r' h') [
          | inl (e', f') ↦ e ∙ sym e'
          | inr k' ↦ absurd (omega (arith, ap (λ (x : Row). x.tag) f, inv.fresh_held q' r' k', t))
        ]
        | inr k ↦ elim (holder_cases q' r' h') [
          | inl (e', f') ↦
              absurd (omega (arith, ap (λ (x : Row). x.tag) f', inv.fresh_held q r k, t))
          | inr k' ↦ inv.one q q' r r' k k' t
        ]
      ];
      sound = λ q. elim (Bool-cases (q == p)) [ inl e ↦ rw e tt | inr e ↦ rw e (inv.sound q) ];
    }

  -- Time passes.
  tick-IsExclusive : (t : ℕ) → s.clock ≤ t → IsExclusive (record s { clock = t })
  tick-IsExclusive t later = record {
    live =
        λ q r l. inv.live q r (record { held = l.held; within = omega (arith, l.within, later) });
    fresh_row = inv.fresh_row;
    fresh_held = inv.fresh_held;
    one = inv.one;
    sound = λ q. IsSound-le (s.place q) later (inv.sound q);
  }

  -- A live holder removes its row.
  release-IsExclusive :
      (p : ℕ) (r : Row) → IsLive s p r → IsExclusive (record (goto p idle s) { row = none })
  release-IsExclusive p r l = record {
    live = λ q r' l'. absurd (other q r' l'.held l'.within);
    fresh_row = λ r' h. cc;
    fresh_held = rest.fresh_held;
    one = rest.one;
    sound = rest.sound;
  }
    where
      rest : IsExclusive (goto p idle s)
      rest = goto-IsExclusive p idle (λ r' e. cc) tt

      other :
          (q : ℕ) (r' : Row)
          → (goto p idle s).place q ≡ holding r'
          → s.clock ≤ r'.since + run_lease_stale
          → ⊥
      other q r' h w = elim (Bool-cases (q == p)) [
        | inl e ↦ cc (rw e at h)
        | inr e ↦
            let k : s.place q ≡ holding r' = rw e at h in
            let same =
              some-injective _ _
                (sym (inv.live p r l) ∙ inv.live q r' (record { held = k; within = w })) in
            let found = inv.one q p r' r k l.held (ap (λ (x : Row). x.tag) (sym same)) in
            absurd (cc (e, (==_iff q p).1 found))
      ]

  -- Nobody is live beside a row that is absent, or stale.
  alone_absent : s.row ≡ none → (q : ℕ) (r : Row) → ¬ IsLive s q r
  alone_absent gone q r l = cc (gone, inv.live q r l)

  alone_stale :
      (now : ℕ) (r : Row)
      → s.row ≡ some r
      → now ≤ s.clock
      → r.since + run_lease_stale < now
      → (q : ℕ) (r' : Row) → ¬ IsLive s q r'
  alone_stale now r there past stale q r' l =
      let same = some-injective _ _ (sym there ∙ inv.live q r' l) in
      omega (arith, ap (λ (x : Row). x.since) same, l.within, past, stale)

-- Every step, with releases in time, keeps the lease exclusive.
pub Step-IsExclusive : {s t : Machine} (e : Step s t) → InTime e → IsExclusive s → IsExclusive t
Step-IsExclusive (tick t later) _ inv = tick-IsExclusive inv t later
Step-IsExclusive (start p h) _ inv = goto-IsExclusive inv p _ (λ r e. cc) (omega arith)
Step-IsExclusive (create_wins p now h gone) _ inv =
    take-IsExclusive inv p now (alone_absent inv gone)
Step-IsExclusive (create_loses p now r h there) _ inv =
    goto-IsExclusive inv p (refused now) (λ r e. cc) (rw h at (inv.sound p))
Step-IsExclusive (read_busy p now r h there held) _ inv = goto-IsExclusive inv p idle (λ r e. cc) tt
Step-IsExclusive (read_stale p now r h there stale) _ inv =
    goto-IsExclusive inv p (seen now r) (λ r e. cc) ((rw h at (inv.sound p)), stale)
Step-IsExclusive (read_gone p now h gone) _ inv = goto-IsExclusive inv p idle (λ r e. cc) tt
Step-IsExclusive (update_wins p now r h there) _ inv =
    let (past, stale) : IsSound _ (seen now r) = rw h at (inv.sound p) in
    take-IsExclusive inv p now (alone_stale inv now r there past stale)
Step-IsExclusive (update_loses p now r h moved) _ inv = goto-IsExclusive inv p idle (λ r e. cc) tt
Step-IsExclusive (release p r h) timely inv =
    release-IsExclusive inv p r (record { held = h; within = timely })
Step-IsExclusive (crash p r h) _ inv = goto-IsExclusive inv p idle (λ r e. cc) tt

initial-IsExclusive : IsExclusive initial
initial-IsExclusive = record {
  live = λ p r l. cc (l.held);
  fresh_row = λ r h. cc;
  fresh_held = λ p r h. cc;
  one = λ p q r r' h h' t. cc;
  sound = λ p. tt;
}

Reach-IsExclusive : {s t : Machine} → IsExclusive s → Reach s t → IsExclusive t
Reach-IsExclusive inv here = inv
Reach-IsExclusive inv (next r e timely) = Step-IsExclusive e timely (Reach-IsExclusive inv r)

-- From the empty table, under any interleaving of any number of processes in which no release comes
-- after the window of its own row, two processes that hold the lease within the windows of their
-- rows are the same process.
pub lease_exclusive :
    {s : Machine} (p q : ℕ) (r r' : Row) → Reach initial s → IsLive s p r → IsLive s q r' → p ≡ q
lease_exclusive p q r r' reach l l' =
    let inv = Reach-IsExclusive initial-IsExclusive reach in
    let same = some-injective _ _ (sym (inv.live p r l) ∙ inv.live q r' l') in
    inv.one p q r r' l.held l'.held (ap (λ (x : Row). x.tag) same)
