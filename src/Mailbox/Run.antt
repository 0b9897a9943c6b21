-- ===== src/Mailbox/Run.antt =====
-- `process_mailbox` of backend/pipeline/entry.py: fetch, sort, handle each message, count.
pub mod Order
pub mod Fetch
use claim_automation_cloud.Prelude.{
  ℕ, suc, ◌+◌, Bool, true, false, Option, none, some, List, [], ◌∷◌, leb, ltb, if◌then◌else◌,
}
use claim_automation_cloud.Text.{Text, Runtime}
use claim_automation_cloud.Exec.{Error, Result, ok, err, Exec, pure, raise, ◌>>=◌, ◌>>◌, try_except}
use claim_automation_cloud.Claim.Message.{Message}
use claim_automation_cloud.Extraction.{Extractor}
use claim_automation_cloud.Pdf.{Bytes, Renderer}
use claim_automation_cloud.Records.{RunCounts}
use claim_automation_cloud.Mailbox.{
  GmailPipeline, TrelloPipeline, ClaimLedger, Clock, ProcessedAction, label_procesado, label_failed,
  unread_label_id, build_claim_query, process_one,
}

-- `messages.sort(key=lambda message: int(message["internalDate"]))`, which is stable.
unfoldable pub insert : Message → List Message → List Message
insert m [] = m ∷ []
insert m (n ∷ ns) = if leb m.internal_date n.internal_date then m ∷ n ∷ ns else n ∷ insert m ns

unfoldable pub sort_by_date : List Message → List Message
unfolding insert
sort_by_date [] = []
sort_by_date (m ∷ ms) = insert m (sort_by_date ms)

module _ {W : Type 0} (clock : Clock W) where
  -- The fetch loop: past the deadline the rest is not fetched.
  unfoldable pub fetch : GmailPipeline W → ℕ → List Text → Exec W (List Message)
  fetch gmail deadline [] = pure []
  fetch gmail deadline (message_id ∷ ids) = clock.monotonic >>= λ t.
      if ltb deadline t
      then pure []
      else (gmail.get_message message_id >>= λ message.
          fetch gmail deadline ids >>= λ messages. pure (message ∷ messages))

-- What the boundary around `_process_one` reports: it never raises.
abbrev pub attempt : {W A : Type 0} → Exec W A → Exec W (Result A)
attempt m w = let (r, w') = m w in (ok r, w')

module _ {W : Type 0} (clock : Clock W) (gmail : GmailPipeline W)
    (procesado_id failed_id : Text) where
  -- The label that replaces UNREAD, and the counts after it.
  unfoldable pub relabel : {A : Type 0} → Message → Result A → ℕ × ℕ → Exec W (ℕ × ℕ)
  relabel message (err e) (processed, failed) =
      gmail.modify_labels message.id (failed_id ∷ []) (unread_label_id ∷ []) >>= λ _.
      pure (processed, failed + 1)
  relabel message (ok action) (processed, failed) =
      gmail.modify_labels message.id (procesado_id ∷ []) (unread_label_id ∷ []) >>= λ _.
      pure (processed + 1, failed)

  -- The loop over the messages; `one` is `_process_one`.
  unfoldable pub handle_all :
      {A : Type 0} → (Message → Exec W A) → ℕ → List Message → ℕ × ℕ → Exec W (ℕ × ℕ)
  unfolding relabel
  handle_all one deadline [] counts = pure counts
  handle_all one deadline (message ∷ messages) counts = clock.monotonic >>= λ t.
      if ltb deadline t
      then pure counts
      else (attempt (one message) >>= λ outcome.
          relabel message outcome counts >>= λ counts'. handle_all one deadline messages counts')

module _ {W : Type 0} (py : Runtime) (renderer : Renderer) (clock : Clock W) where
  abbrev some_count : ℕ → Exec W (Option ℕ)
  some_count n = pure (some n)

  unfoldable pub process_mailbox :
      GmailPipeline W
      → TrelloPipeline W
      → (Text → Exec W Bytes)
      → ClaimLedger W
      → ℕ
      → Option (Extractor W)
      → List Text
      → Exec W RunCounts
  unfolding fetch handle_all
  process_mailbox gmail trello membretes history deadline extractor allowed_domains =
      gmail.get_or_create_label_id label_procesado >>= λ procesado_id.
      gmail.get_or_create_label_id label_failed >>= λ failed_id.
      gmail.list_unread_message_ids build_claim_query >>= λ message_ids.
      fetch clock gmail deadline message_ids >>= λ messages.
      handle_all clock gmail procesado_id failed_id
        (λ message.
          process_one py renderer clock message trello membretes history extractor allowed_domains)
        deadline (sort_by_date messages) (0, 0)
      >>= λ counts.
          try_except (gmail.count_messages_with_label failed_id >>= some_count) (λ _. pure none)
          >>= λ failed_total.
              pure (record { processed = counts.0; failed = counts.1; failed_total = failed_total })
