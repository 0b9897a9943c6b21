-- ===== src/Mailbox/Compose.antt =====
-- The composition of a run: `run_pipeline` of backend/pipeline/entry.py, over the lease of the state store
-- and `process_mailbox`. What the clients do on the wire is given by `Clients`.
use claim_automation_cloud.Prelude.{ℕ, ◌+◌, ◌≡◌, true, Option, some, List}
use claim_automation_cloud.Text.{Text, Runtime}
use claim_automation_cloud.Exec.{ok, Exec, lift, ◌>>=◌, finally}
use claim_automation_cloud.Extraction.{Extractor}
use claim_automation_cloud.Pdf.{Bytes, Renderer}
use claim_automation_cloud.Records.{RunCounts, TrelloConfig}
use claim_automation_cloud.Tables.{TableService}
use claim_automation_cloud.Store.{read_trello_config}
use claim_automation_cloud.Lease.{run_lease, try_acquire_run_lease, release_run_lease}
use claim_automation_cloud.Mailbox.{GmailPipeline, TrelloPipeline, ClaimLedger, Clock}
use claim_automation_cloud.Mailbox.Sender.{parse_sender_allowlist}
use claim_automation_cloud.Mailbox.Run.{process_mailbox}

pub record Clients (W : Type 0) : Type 0 where
  pub get_field_extractor : Exec W (Extractor W)
  pub gmail : GmailPipeline W
  pub trello : TrelloPipeline W
  pub history : ClaimLedger W
  pub preflight_gmail : Exec W (Unit {0})
  pub preflight_trello : Option TrelloConfig → Exec W (Unit {0})
  pub build_membrete_source : Exec W (Text → Exec W Bytes)
  pub close_gmail : Exec W (Unit {0})
  pub close_trello : Exec W (Unit {0})
  pub close_extractor : Exec W (Unit {0})

abbrev pub run_deadline : ℕ
run_deadline = 120

module _ {W : Type 0} (py : Runtime) (renderer : Renderer) (clock : Clock W)
    (service : TableService W) (clients : Clients W) where
  -- The `try` block: the preflights and the run.
  abbrev pub work : Extractor W → List Text → Option TrelloConfig → Exec W RunCounts
  work extractor allowed_domains config = clients.preflight_gmail >>= λ _.
      clients.preflight_trello config >>= λ _. clients.build_membrete_source >>= λ membretes.
      clock.monotonic >>= λ now.
      process_mailbox py renderer clock clients.gmail clients.trello membretes clients.history
        (now + run_deadline) (some extractor) allowed_domains

  -- The `finally` block.
  abbrev pub close_all : Exec W (Unit {0})
  close_all = finally clients.close_gmail (finally clients.close_trello clients.close_extractor)

  -- `run_pipeline`; `now` is the lease's clock, `sender_allowlist` the setting.
  unfoldable pub run_pipeline : ℕ → Text → Exec W RunCounts
  run_pipeline now sender_allowlist = run_lease service now (
      clients.get_field_extractor >>= λ extractor.
      lift (parse_sender_allowlist py sender_allowlist) >>= λ allowed_domains.
      read_trello_config service >>= λ config.
      finally (work extractor allowed_domains config) close_all)

  -- Once the lease is taken and the configuration is read, a run ends with the work, then the closing
  -- of the Gmail client, of the Trello client and of the extractor, then the release of the lease,
  -- each on what the one before has left, whatever any of them returns or raises.
  pub run_pipeline-finally :
      (now : ℕ) (sender_allowlist : Text) (w w0 w1 w2 : W) (extractor : Extractor W)
      (allowed : List Text) (config : Option TrelloConfig)
      → try_acquire_run_lease service now w ≡ (ok true, w0)
      → clients.get_field_extractor w0 ≡ (ok extractor, w1)
      → parse_sender_allowlist py sender_allowlist ≡ ok allowed
      → read_trello_config service w1 ≡ (ok config, w2)
      → let done = (work extractor allowed config w2).1 in
        let closed =
          (clients.close_extractor (clients.close_trello (clients.close_gmail done).1).1).1 in
        (run_pipeline now sender_allowlist w).1 ≡ (release_run_lease service closed).1
  unfolding run_pipeline run_lease ◌>>=◌ finally
  run_pipeline-finally now sender_allowlist w w0 w1 w2 extractor allowed config h0 h1 h2 h3 =
      rw (h0, h1, h2, h3)
