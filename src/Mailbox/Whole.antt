-- ===== src/Mailbox/Whole.antt =====
-- The labels after a whole run.
use claim_automation_cloud.Prelude.{
  ℕ, ◌≡◌, ◌∙◌, ◌⊎◌, inl, inr, refl, sym, none, some, List, [], ◌∷◌, ap, arith,
}
use claim_automation_cloud.Text.{Text, Runtime}
use claim_automation_cloud.Exec.{Error, Result, ok, err, Exec, pure, ◌>>=◌, try_except}
use claim_automation_cloud.Exec.Effect.{Within, Within-bind, Within-if, Within-pure, effect_rules}
use claim_automation_cloud.Claim.Message.{Message}
use claim_automation_cloud.Pdf.{Renderer}
use claim_automation_cloud.Records.{RunCounts}
use claim_automation_cloud.Mailbox.{
  process_one, ProcessedAction, label_procesado, label_failed, build_claim_query,
}
use claim_automation_cloud.Mailbox.Run.{fetch, sort_by_date, process_mailbox}
use claim_automation_cloud.Mailbox.Run.Order.{sort_by_date-IsSortOf}
use claim_automation_cloud.Mailbox.Run.Fetch.{Unfetched, fetching, fetch-FetchEnds}
use claim_automation_cloud.Mailbox.Trace.{
  Call, Log, Services, gmail, trello, ledger, membretes, clock, extractor, relabels, quiet,
}
use claim_automation_cloud.Mailbox.Quiet.{process_one-quiet, quiet_call}
use claim_automation_cloud.Mailbox.Checkpoint.{handle_all-Checkpointed}
use claim_automation_cloud.Mailbox.Labels.{
  asked_processed, asked_failed, asked_unread, Started, Looped, Unstarted, RunLabels, Reports,
  after_loop,
}

module _ (sv : Services) (py : Runtime) (renderer : Renderer) where
  abbrev pub one_message : List Text → Message → Exec Log ProcessedAction
  one_message allowed message =
      process_one py renderer (clock sv) message (trello sv) (membretes sv) (ledger sv)
        (extractor sv) allowed

  get_message-quiet : (id : Text) → Within quiet ((gmail sv).get_message id)
  get_message-quiet id = quiet_call _ _ refl

  monotonic-quiet : Within quiet ((clock sv).monotonic)
  monotonic-quiet = quiet_call _ _ refl

  fetch-quiet :
      (deadline : ℕ) (ids : List Text) → Within quiet (fetch (clock sv) (gmail sv) deadline ids)
  unfolding fetch
  fetch-quiet deadline [] = search effect_rules
  fetch-quiet deadline (id ∷ ids) = Within-bind _ _ monotonic-quiet λ t.
      Within-if _ _ _ (Within-pure _) (
        Within-bind _ _ (get_message-quiet id)
          λ m. Within-bind _ _ (fetch-quiet deadline ids) (λ ms. Within-pure _))

  abbrev report : Text → ℕ × ℕ → Exec Log RunCounts
  report failed_id counts =
      try_except ((gmail sv).count_messages_with_label failed_id >>= λ n. pure (some n))
        (λ _. pure none)
      >>= λ total. pure (record { processed = counts.0; failed = counts.1; failed_total = total })

  report_answer :
      (failed_id : Text) (counts : ℕ × ℕ) (log : Log) (answer : Result ℕ)
      → let k =
          try_except
            ((λ l. (answer, Call.count_label failed_id ∷ l)) >>= λ n. pure (some n))
            (λ _. pure none)
          >>= λ total. pure (
              let c : RunCounts = record {
                processed = counts.0;
                failed = counts.1;
                failed_total = total;
              } in
              c) in
        (relabels (k log).1 ≡ relabels log)
        × ((c : RunCounts) → (k log).0 ≡ ok c → (c.processed ≡ counts.0) × (c.failed ≡ counts.1))
  unfolding try_except ◌>>=◌
  report_answer failed_id counts log (ok n) = (refl, λ c e. ground arith)
  report_answer failed_id counts log (err e) = (refl, λ c e. ground arith)

  report-Reports :
      (deadline : ℕ) (allowed : List Text) (failed_id : Text)
      → Reports sv deadline (one_message allowed) (report failed_id)
  unfolding ◌>>=◌ try_except
  report-Reports deadline allowed failed_id counts log =
      report_answer failed_id counts log (sv.count_label log failed_id)

  abbrev run : ℕ → List Text → Log → Result RunCounts × Log
  run deadline allowed =
      process_mailbox py renderer (clock sv) (gmail sv) (trello sv) (membretes sv) (ledger sv)
        deadline (extractor sv) allowed

  Answer-cases : {A : Type 0} (r : Result A) → ((e : Error) × (r ≡ err e)) ⊎ ((a : A) × (r ≡ ok a))
  Answer-cases (ok a) = inr (a, refl)
  Answer-cases (err e) = inl (e, refl)

  -- A run whose loop is started: the loop over the sorted messages, and the report.
  Started-Looped :
      (deadline : ℕ) (allowed : List Text) (log : Log) (pid fid : Text) (ms : List Message)
      (before : Log) (s : Started sv deadline (one_message allowed) log pid fid ms before)
      → fetching sv deadline s.ids (asked_unread log) ≡ (ok ms, before)
      → Looped sv deadline (one_message allowed) log (run deadline allowed log)
  unfolding process_mailbox ◌>>=◌
  Started-Looped deadline allowed log pid fid ms before s q =
      rw (s.is_processed, s.is_failed, s.is_unread, q)
        (after_loop sv deadline (one_message allowed) _ _ (report fid) s
          (ap (λ (x : Result (List Message) × Log). relabels x.1) (sym q)
            ∙ (fetch-quiet deadline s.ids).bound (asked_unread log))
          (sort_by_date-IsSortOf ms)
          (handle_all-Checkpointed sv (one_message allowed)
            (λ m. process_one-quiet sv py renderer m allowed) pid fid deadline (sort_by_date ms)
            (0, 0) before)
          (report-Reports deadline allowed fid))

  -- A run whose messages could not be fetched.
  Unfetched-Unstarted :
      (deadline : ℕ) (allowed : List Text) (log : Log) (pid fid : Text) (ids : List Text)
      (e : Error) (v : Log)
      → sv.get_label log label_procesado ≡ ok pid
      → sv.get_label (asked_processed log) label_failed ≡ ok fid
      → sv.list_unread (asked_failed log) build_claim_query ≡ ok ids
      → Unfetched sv deadline (asked_unread log) ids e
      → fetching sv deadline ids (asked_unread log) ≡ (err e, v)
      → Unstarted sv deadline (one_message allowed) log (run deadline allowed log)
  unfolding process_mailbox ◌>>=◌
  Unfetched-Unstarted deadline allowed log pid fid ids e v p1 p2 p3 u q = (
    e,
    rw (p1, p2, p3, q),
    rw (p1, p2, p3, q)
        (ap (λ (x : Result (List Message) × Log). relabels x.1) (sym q)
          ∙ (fetch-quiet deadline ids).bound (asked_unread log)),
    inr (inr (inr (ids, p3, u))),
  )

  -- A whole run, whatever the services answer and however it ends. Either it raises the error of a
  -- label's id, of the list of unread messages or of a message's fetch, and no label is changed. Or
  -- those answers were there: then UNREAD has been taken away by exactly one call for each message of a
  -- prefix of the fetched messages in chronological order, with the processed label's id where
  -- handling it returned and the failed label's id where it raised; a run that returns reports exactly
  -- the numbers of the two, and together they are all the fetched messages if the clock never passes
  -- the deadline.
  pub process_mailbox-RunLabels :
      (deadline : ℕ) (allowed : List Text) (log : Log)
      → RunLabels sv deadline (one_message allowed) log (
          process_mailbox py renderer
            (clock sv)
            (gmail sv)
            (trello sv)
            (membretes sv)
            (ledger sv)
            deadline
            (extractor sv)
            allowed
            log)
  unfolding process_mailbox ◌>>=◌
  process_mailbox-RunLabels deadline allowed log =
      elim (Answer-cases (sv.get_label log label_procesado)) [
        | inl (e, p1) ↦ inl (e, rw p1, rw p1, inl p1)
        | inr (pid, p1) ↦ elim (Answer-cases (sv.get_label (asked_processed log) label_failed)) [
          | inl (e, p2) ↦ inl (e, rw (p1, p2), rw (p1, p2), inr (inl p2))
          | inr (fid, p2) ↦
              elim (Answer-cases (sv.list_unread (asked_failed log) build_claim_query)) [
                | inl (e, p3) ↦ inl (e, rw (p1, p2, p3), rw (p1, p2, p3), inr (inr (inl p3)))
                | inr (ids, p3) ↦ elim (fetch-FetchEnds sv deadline ids (asked_unread log)) [
                  | inl (ms, v, f, q) ↦ inr (
                      Started-Looped deadline allowed log pid fid ms v
                        (record {
                          ids = ids;
                          is_processed = p1;
                          is_failed = p2;
                          is_unread = p3;
                          is_fetched = f;
                        })
                        q)
                  | inr (e, v, f, q) ↦
                      inl (Unfetched-Unstarted deadline allowed log pid fid ids e v p1 p2 p3 f q)
                ]
              ]
        ]
      ]
