-- ===== src/Mailbox/Labels.antt =====
-- What a whole run may have done to the labels, and the step from its loop to its end.
use claim_automation_cloud.Prelude.{ℕ, ◌+◌, ◌≤◌, ◌≡◌, ◌∙◌, ◌⊎◌, refl, List, ◌∷◌, ap, arith, length}
use claim_automation_cloud.Text.{Text}
use claim_automation_cloud.Exec.{Error, Result, ok, err, Exec, ◌>>=◌}
use claim_automation_cloud.Claim.Message.{Message}
use claim_automation_cloud.Records.{RunCounts}
use claim_automation_cloud.Mailbox.{
  ProcessedAction, label_procesado, label_failed, build_claim_query,
}
use claim_automation_cloud.Mailbox.Run.Order.{IsSortOf}
use claim_automation_cloud.Mailbox.Run.Fetch.{Fetched, Unfetched}
use claim_automation_cloud.Mailbox.Trace.{Call, Log, Services, relabels}
use claim_automation_cloud.Mailbox.Checkpoint.{Handled, onto, Checkpointed}

-- The calls before the messages are fetched.
abbrev pub asked_processed : Log → Log
asked_processed log = Call.get_label label_procesado ∷ log

abbrev pub asked_failed : Log → Log
asked_failed log = Call.get_label label_failed ∷ asked_processed log

abbrev pub asked_unread : Log → Log
asked_unread log = Call.list_unread build_claim_query ∷ asked_failed log

module _ (sv : Services) (deadline : ℕ) (one : Message → Exec Log ProcessedAction) where
  -- The answers with which the loop is started: the ids of the two labels, the ids of the unread
  -- messages, and the messages fetched for them.
  pub record Started (log : Log) (procesado_id failed_id : Text) (fetched : List Message)
      (before : Log) : Type 0 where
    pub ids : List Text
    pub is_processed : sv.get_label log label_procesado ≡ ok procesado_id
    pub is_failed : sv.get_label (asked_processed log) label_failed ≡ ok failed_id
    pub is_unread : sv.list_unread (asked_failed log) build_claim_query ≡ ok ids
    pub is_fetched : Fetched sv deadline (asked_unread log) ids fetched before

  -- A run that has come to its loop: what it has done to the labels, by how it ended.
  pub record Looped (log : Log) (r : Result RunCounts × Log) : Type 0 where
    pub procesado_id : Text
    pub failed_id : Text
    pub fetched : List Message
    pub before : Log
    pub started : Started log procesado_id failed_id fetched before
    pub messages : List Message
    pub sorted : IsSortOf messages fetched
    pub calls : Log
    pub done : ℕ
    pub failures : ℕ
    pub handled : Handled one procesado_id failed_id messages calls done failures
    pub relabelled : relabels r.1 ≡ onto calls (relabels log)
    pub counted : (c : RunCounts) → r.0 ≡ ok c → (c.processed ≡ done) × (c.failed ≡ failures)
    pub complete :
        (c : RunCounts)
        → r.0 ≡ ok c
        → ((l : Log) → sv.monotonic l ≤ deadline)
        → done + failures ≡ length messages

  -- A run that has raised the error of a label, of the list or of a message, and no label is changed.
  abbrev pub Unstarted : Log → Result RunCounts × Log → Type 0
  Unstarted log r =
      (e : Error) × (r.0 ≡ err e)
      × (relabels r.1 ≡ relabels log)
      × ((sv.get_label log label_procesado ≡ err e)
          ⊎ ((sv.get_label (asked_processed log) label_failed ≡ err e)
              ⊎ ((sv.list_unread (asked_failed log) build_claim_query ≡ err e)
                  ⊎ ((ids : List Text) × (sv.list_unread (asked_failed log) build_claim_query
                        ≡ ok ids)
                      × Unfetched sv deadline (asked_unread log) ids e))))

  -- What a run has done to the labels.
  abbrev pub RunLabels : Log → Result RunCounts × Log → Type 0
  RunLabels log r = Unstarted log r ⊎ Looped log r

  -- What is reported once the loop is over: no label is changed, and the counts are the loop's.
  abbrev pub Reports : (ℕ × ℕ → Exec Log RunCounts) → Type 0
  Reports k =
      (counts : ℕ × ℕ) (log : Log)
      → (relabels (k counts log).1 ≡ relabels log)
        × ((c : RunCounts)
            → (k counts log).0 ≡ ok c
            → (c.processed ≡ counts.0) × (c.failed ≡ counts.1))

  pub after_loop :
      {pid fid : Text} {fetched ms : List Message} {log before : Log} (r : Result (ℕ × ℕ))
      (log1 : Log) (k : ℕ × ℕ → Exec Log RunCounts)
      → Started log pid fid fetched before
      → relabels before ≡ relabels log
      → IsSortOf ms fetched
      → Checkpointed sv deadline one pid fid ms (0, 0) before (r, log1)
      → Reports k
      → Looped log (((λ _. (r, log1)) >>= k) before)
  unfolding ◌>>=◌
  after_loop {pid = pid} {fid = fid} {fetched = fetched} {ms = ms} {before = before} (ok counts)
        log1 k started q sorted h rep =
      record {
        procesado_id = pid;
        failed_id = fid;
        fetched = fetched;
        before = before;
        started = started;
        messages = ms;
        sorted = sorted;
        calls = h.calls;
        done = h.done;
        failures = h.failures;
        handled = h.handled;
        relabelled = (rep counts log1).0 ∙ (h.relabelled ∙ ap (onto h.calls) q);
        counted = λ c e.
            let (x, y) = (rep counts log1).1 c e in
            let (u, v) = h.counted counts refl in (omega arith, omega arith);
        complete = λ c e early. h.complete counts refl early;
      }
  after_loop {pid = pid} {fid = fid} {fetched = fetched} {ms = ms} {before = before} (err e) log1 k
        started q sorted h rep =
      record {
        procesado_id = pid;
        failed_id = fid;
        fetched = fetched;
        before = before;
        started = started;
        messages = ms;
        sorted = sorted;
        calls = h.calls;
        done = h.done;
        failures = h.failures;
        handled = h.handled;
        relabelled = h.relabelled ∙ ap (onto h.calls) q;
        counted = λ c x. cc;
        complete = λ c x early. cc;
      }
