-- ===== src/Mailbox/Checkpoint.antt =====
-- UNREAD is the checkpoint: a message loses it only as its final step, once, in order.
use claim_automation_cloud.Prelude.{
  ℕ, suc, ◌+◌, ◌≤◌, ◌≡◌, length, refl, List, [], ◌∷◌, arith, Bool-cases, true, ltb, inl, inr,
}
use claim_automation_cloud.Text.{Text}
use claim_automation_cloud.Exec.{Error, pure, Result, ok, err, Exec, ◌>>=◌}
use claim_automation_cloud.Exec.Effect.{Within}
use claim_automation_cloud.Claim.Message.{Message}
use claim_automation_cloud.Mailbox.{unread_label_id}
use claim_automation_cloud.Mailbox.Run.{handle_all, relabel}
use claim_automation_cloud.Mailbox.Trace.{Call, Log, Services, clock, gmail, relabels, quiet}

-- `base` with the calls of a list on top, the last of them topmost.
abbrev pub onto : Log → Log → Log
onto [] base = base
onto (c ∷ calls) base = onto calls (c ∷ base)

-- The calls that take UNREAD away, oldest first, with the numbers of messages that were processed
-- and that failed: one call for each message of a prefix of the list, in the list's order, with the
-- label that the outcome of handling it calls for.
pub data Handled {A : Type 0} (one : Message → Exec Log A) (procesado_id failed_id : Text)
    : List Message → Log → ℕ → ℕ → Type 0 where
  left_unread : (ms : List Message) → Handled one procesado_id failed_id ms [] 0 0
  processed :
      {ms : List Message} {calls : Log} {p f : ℕ} (m : Message) (log : Log) (a : A)
      → (one m log).0 ≡ ok a
      → Handled one procesado_id failed_id ms calls p f
      → Handled one procesado_id failed_id
          (m ∷ ms)
          (Call.modify_labels m.id (procesado_id ∷ []) (unread_label_id ∷ []) ∷ calls)
          (suc p)
          f
  failed :
      {ms : List Message} {calls : Log} {p f : ℕ} (m : Message) (log : Log) (e : Error)
      → (one m log).0 ≡ err e
      → Handled one procesado_id failed_id ms calls p f
      → Handled one procesado_id failed_id
          (m ∷ ms)
          (Call.modify_labels m.id (failed_id ∷ []) (unread_label_id ∷ []) ∷ calls)
          p
          (suc f)

module _ (sv : Services) (deadline : ℕ) {A : Type 0} (one : Message → Exec Log A)
    (procesado_id failed_id : Text) where
  -- What the loop over `ms` has done to the labels, by how it ended; a loop that returns before the
  -- deadline has passed has handled every message.
  pub record Checkpointed (ms : List Message) (counts : ℕ × ℕ) (log : Log)
      (r : Result (ℕ × ℕ) × Log) : Type 0 where
    pub calls : Log
    pub done : ℕ
    pub failures : ℕ
    pub handled : Handled one procesado_id failed_id ms calls done failures
    pub relabelled : relabels r.1 ≡ onto calls (relabels log)
    pub counted : (c : ℕ × ℕ) → r.0 ≡ ok c → (c.0 ≡ counts.0 + done) × (c.1 ≡ counts.1 + failures)
    pub complete :
        (c : ℕ × ℕ)
        → r.0 ≡ ok c
        → ((l : Log) → sv.monotonic l ≤ deadline)
        → done + failures ≡ length ms

module _ (sv : Services) {A : Type 0} (one : Message → Exec Log A)
    (one-quiet : (m : Message) → Within quiet (one m)) (procesado_id failed_id : Text)
    (deadline : ℕ) where
  abbrev loop : List Message → ℕ × ℕ → Exec Log (ℕ × ℕ)
  loop = handle_all (clock sv) (gmail sv) procesado_id failed_id one deadline

  -- The state after a relabel that was answered by `answer`, and what follows it.
  abbrev then_loop : Result (Unit {0}) → Call → ℕ × ℕ → List Message → Exec Log (ℕ × ℕ)
  then_loop answer call counts ms =
      ((λ log. (answer, call ∷ log)) >>= λ _. pure counts) >>= λ counts'. loop ms counts'

  abbrev Good : List Message → ℕ × ℕ → Log → Result (ℕ × ℕ) × Log → Type 0
  Good = Checkpointed sv deadline one procesado_id failed_id

  after_processed :
      (m : Message) (ms : List Message) (p f : ℕ) (log log1 log2 : Log) (a : A)
      (answer : Result (Unit {0}))
      → (one m log1).0 ≡ ok a
      → relabels log2 ≡ relabels log
      → let call = Call.modify_labels m.id (procesado_id ∷ []) (unread_label_id ∷ []) in
        Good ms (p + 1, f) (call ∷ log2) (loop ms (p + 1, f) (call ∷ log2))
        → Good (m ∷ ms) (p, f) log (then_loop answer call (p + 1, f) ms log2)
  unfolding ◌>>=◌
  after_processed m ms p f log log1 log2 a (ok u) e q g = record {
    calls = _ ∷ g.calls;
    done = suc g.done;
    failures = g.failures;
    handled = processed m log1 a e g.handled;
    relabelled = rw (g.relabelled, q);
    counted = λ c h. let (x, y) = g.counted c h in (omega arith, y);
    complete = λ c h early. let all = g.complete c h early in omega arith;
  }
  after_processed m ms p f log log1 log2 a (err x) e q g = record {
    calls = _ ∷ [];
    done = 1;
    failures = 0;
    handled = processed m log1 a e (left_unread ms);
    relabelled = rw q;
    counted = λ c h. cc;
    complete = λ c h early. cc;
  }

  after_failed :
      (m : Message) (ms : List Message) (p f : ℕ) (log log1 log2 : Log) (x : Error)
      (answer : Result (Unit {0}))
      → (one m log1).0 ≡ err x
      → relabels log2 ≡ relabels log
      → let call = Call.modify_labels m.id (failed_id ∷ []) (unread_label_id ∷ []) in
        Good ms (p, f + 1) (call ∷ log2) (loop ms (p, f + 1) (call ∷ log2))
        → Good (m ∷ ms) (p, f) log (then_loop answer call (p, f + 1) ms log2)
  unfolding ◌>>=◌
  after_failed m ms p f log log1 log2 x (ok u) e q g = record {
    calls = _ ∷ g.calls;
    done = g.done;
    failures = suc g.failures;
    handled = failed m log1 x e g.handled;
    relabelled = rw (g.relabelled, q);
    counted = λ c h. let (y, z) = g.counted c h in (y, omega arith);
    complete = λ c h early. let all = g.complete c h early in omega arith;
  }
  after_failed m ms p f log log1 log2 x (err y) e q g = record {
    calls = _ ∷ [];
    done = 0;
    failures = 1;
    handled = failed m log1 x e (left_unread ms);
    relabelled = rw q;
    counted = λ c h. cc;
    complete = λ c h early. cc;
  }

  stopped :
      (ms : List Message) (counts : ℕ × ℕ) (log : Log)
      → ltb deadline (sv.monotonic log) ≡ true
      → Good ms counts log (ok counts, Call.monotonic ∷ log)
  stopped ms counts log late = record {
    calls = [];
    done = 0;
    failures = 0;
    handled = left_unread ms;
    relabelled = refl;
    counted = λ c h. grind arith;
    complete = λ c h early. let still = early log in ground arith;
  }

  after_attempt :
      (m : Message) (ms : List Message) (p f : ℕ) (log log1 log2 : Log) (r : Result A)
      → (one m log1).0 ≡ r
      → relabels log2 ≡ relabels log
      → ((c : ℕ × ℕ) (l : Log) → Good ms c l (loop ms c l))
      → Good
          (m ∷ ms)
          (p, f)
          log
          ((relabel (clock sv) (gmail sv) procesado_id failed_id m r (p, f) >>= λ counts'.
              loop ms counts')
            log2)
  unfolding relabel ◌>>=◌
  after_attempt m ms p f log log1 log2 (ok a) e q rest =
      after_processed m ms p f log log1 log2 a _ e q (rest (p + 1, f) _)
  after_attempt m ms p f log log1 log2 (err x) e q rest =
      after_failed m ms p f log log1 log2 x _ e q (rest (p, f + 1) _)

  -- Where the handling of one message takes no label away, the loop over the messages takes UNREAD
  -- away by exactly one call for each message of a prefix of the list, in the list's order: with the
  -- processed label where the handling returned, with the failed label where it raised. If the loop
  -- returns, its counts have grown by the numbers of the two kinds.
  pub handle_all-Checkpointed :
      (ms : List Message) (counts : ℕ × ℕ) (log : Log)
      → Checkpointed sv deadline one procesado_id failed_id ms counts log
          (handle_all (clock sv) (gmail sv) procesado_id failed_id one deadline ms counts log)
  unfolding handle_all ◌>>=◌
  handle_all-Checkpointed [] counts log = record {
    calls = [];
    done = 0;
    failures = 0;
    handled = left_unread [];
    relabelled = refl;
    counted = λ c h. grind arith;
    complete = λ c h early. refl;
  }
  handle_all-Checkpointed (m ∷ ms) (p, f) log =
      elim (Bool-cases (ltb deadline (sv.monotonic log))) [
        | inl late ↦ rw late (stopped (m ∷ ms) (p, f) log late)
        | inr early ↦ rw early (
            after_attempt m ms p f log (Call.monotonic ∷ log) (one m (Call.monotonic ∷ log)).1
              (one m (Call.monotonic ∷ log)).0 refl ((one-quiet m).bound (Call.monotonic ∷ log))
              (λ c l. handle_all-Checkpointed ms c l))
      ]
