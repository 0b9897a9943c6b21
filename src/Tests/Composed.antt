-- ===== src/Tests/Composed.antt =====
-- The composed run over the table service in memory.
use claim_automation_cloud.Prelude.{◌≡◌, refl, true, none, [], ◌∷◌}
use claim_automation_cloud.Text.{codes, contains, starts_with, split_on, strip, lstrip, text_eq}
use claim_automation_cloud.Exec.{ok, err, http_error, ◌>>=◌, try_except}
use claim_automation_cloud.Extraction.{regex_extractor}
use claim_automation_cloud.Tables.Memory.{Memory, memory, empty_memory}
use claim_automation_cloud.Tables.{property}
use claim_automation_cloud.Store.{read_trello_config, get_entity_or_none}
use claim_automation_cloud.Lease.{try_acquire_run_lease, release_run_lease}
use claim_automation_cloud.Mailbox.{Clock}
use claim_automation_cloud.Mailbox.Sender.{parse_sender_allowlist}
use claim_automation_cloud.Mailbox.Compose.{Clients, work, run_pipeline, run_pipeline-finally}
use claim_automation_cloud.Tests.{ascii, blank_renderer}

abbrev still_clock : Clock Memory
still_clock = record { monotonic = λ m. (ok 0, m); now = λ m. (ok 0, m) }

-- Clients whose mailbox cannot be reached.
abbrev offline : Clients Memory
offline = record {
  get_field_extractor = λ m. (ok (regex_extractor ascii), m);
  gmail = record {
    list_unread_message_ids = λ q m. (err http_error, m);
    get_message = λ id m. (err http_error, m);
    modify_labels = λ id add rem m. (err http_error, m);
    get_or_create_label_id = λ name m. (err http_error, m);
    count_messages_with_label = λ id m. (err http_error, m);
  };
  trello = record {
    create_full_card = λ card m. (err http_error, m);
    add_comment = λ id text m. (err http_error, m);
    find_card_by_claim_ref = λ ref m. (err http_error, m);
  };
  history = record {
    get_claim = λ ref m. (err http_error, m);
    record_claim = λ row m. (err http_error, m);
  };
  preflight_gmail = λ m. (ok tt, m);
  preflight_trello = λ config m. (ok tt, m);
  build_membrete_source = λ m. (ok (λ name n. (err http_error, n)), m);
  close_gmail = λ m. (ok tt, m);
  close_trello = λ m. (err http_error, m);
  close_extractor = λ m. (ok tt, m);
}

abbrev leased : Memory
leased = (try_acquire_run_lease memory 5 empty_memory).1

lease_taken : try_acquire_run_lease memory 5 empty_memory ≡ (ok true, leased)
unfolding try_acquire_run_lease ◌>>=◌ try_except text_eq
lease_taken = refl

one_sender : parse_sender_allowlist ascii (codes "asitur.es") ≡ ok (codes "asitur.es" ∷ [])
unfolding parse_sender_allowlist split_on strip lstrip contains starts_with
one_sender = refl

no_config : read_trello_config memory leased ≡ (ok none, leased)
unfolding read_trello_config get_entity_or_none try_acquire_run_lease property ◌>>=◌ try_except
    text_eq
no_config = refl

run_pipeline-finally_example :
    (run_pipeline ascii blank_renderer still_clock memory offline 5
      (codes "asitur.es")
      empty_memory).1
    ≡ (release_run_lease memory
        (work ascii blank_renderer still_clock memory offline
          (regex_extractor ascii)
          (codes "asitur.es" ∷ [])
          none
          leased).1).1
run_pipeline-finally_example =
    run_pipeline-finally ascii blank_renderer still_clock memory offline 5 (codes "asitur.es")
      empty_memory leased leased leased (regex_extractor ascii) (codes "asitur.es" ∷ []) none
      lease_taken refl one_sender no_config
