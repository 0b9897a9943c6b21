-- ===== src/Mailbox/Trace.antt =====
-- A world that records every call made to it, newest first. What each call answers is any function
-- of the calls so far, so every behaviour of the services is an instance, failures included.
use claim_automation_cloud.Prelude.{
  ℕ, ◌≡◌, refl, ◌∙◌, Bool, true, false, Option, some, List, [], ◌∷◌, if◌then◌else◌,
}
use claim_automation_cloud.Text.{Text}
use claim_automation_cloud.Exec.{Result, Exec}
use claim_automation_cloud.Exec.Effect.{Effect}
use claim_automation_cloud.Claim.{ClaimType, ClaimFields}
use claim_automation_cloud.Claim.Message.{Message}
use claim_automation_cloud.Extraction.{Extractor}
use claim_automation_cloud.Pdf.{Bytes}
use claim_automation_cloud.Records.{ClaimRecord}
use claim_automation_cloud.Mailbox.{
  NewCard, CardFound, GmailPipeline, TrelloPipeline, ClaimLedger, Clock,
}

pub data Call : Type 0 where
  list_unread get_message get_label count_label : Text → Call
  modify_labels : Text → List Text → List Text → Call
  create_full_card : NewCard → Call
  add_comment : Text → Text → Call
  find_card get_claim : Text → Call
  record_claim : ClaimRecord → Call
  fetch_membrete : Text → Call
  extract : ClaimType → Text → Text → Call
  monotonic now : Call

abbrev pub Log : Type 0
Log = List Call

-- How the services answer, after the calls of the log.
pub record Services : Type 0 where
  pub list_unread : Log → Text → Result (List Text)
  pub get_message : Log → Text → Result Message
  pub get_label : Log → Text → Result Text
  pub count_label : Log → Text → Result ℕ
  pub modify_labels : Log → Text → List Text → List Text → Result (Unit {0})
  pub create_full_card : Log → NewCard → Result Text
  pub add_comment : Log → Text → Text → Result (Unit {0})
  pub find_card : Log → Text → Result (Option CardFound)
  pub get_claim : Log → Text → Result (Option ClaimRecord)
  pub record_claim : Log → ClaimRecord → Result (Unit {0})
  pub fetch_membrete : Log → Text → Result Bytes
  pub extract : Log → ClaimType → Text → Text → Result ClaimFields
  pub monotonic : Log → ℕ
  pub now : Log → ℕ

module _ (sv : Services) where
  abbrev pub gmail : GmailPipeline Log
  gmail = record {
    list_unread_message_ids = λ q log. (sv.list_unread log q, list_unread q ∷ log);
    get_message = λ id log. (sv.get_message log id, get_message id ∷ log);
    modify_labels =
        λ id add rem log. (sv.modify_labels log id add rem, modify_labels id add rem ∷ log);
    get_or_create_label_id = λ name log. (sv.get_label log name, get_label name ∷ log);
    count_messages_with_label = λ id log. (sv.count_label log id, count_label id ∷ log);
  }

  abbrev pub trello : TrelloPipeline Log
  trello = record {
    create_full_card = λ card log. (sv.create_full_card log card, create_full_card card ∷ log);
    add_comment = λ id text log. (sv.add_comment log id text, add_comment id text ∷ log);
    find_card_by_claim_ref = λ ref log. (sv.find_card log ref, find_card ref ∷ log);
  }

  abbrev pub ledger : ClaimLedger Log
  ledger = record {
    get_claim = λ ref log. (sv.get_claim log ref, get_claim ref ∷ log);
    record_claim = λ row log. (sv.record_claim log row, record_claim row ∷ log);
  }

  abbrev pub membretes : Text → Exec Log Bytes
  membretes name log = (sv.fetch_membrete log name, fetch_membrete name ∷ log)

  abbrev pub clock : Clock Log
  clock = record {
    monotonic = λ log. (Result.ok (sv.monotonic log), monotonic ∷ log);
    now = λ log. (Result.ok (sv.now log), now ∷ log);
  }

  abbrev pub extractor : Option (Extractor Log)
  extractor =
      some (λ t subject body raw log. (sv.extract log t subject body, extract t subject body ∷ log))

-- The calls that take away a label, newest first.
abbrev pub is_relabel : Call → Bool
is_relabel (modify_labels id add rem) = true
is_relabel _ = false

abbrev pub relabels : Log → Log
relabels [] = []
relabels (c ∷ log) = if is_relabel c then c ∷ relabels log else relabels log

-- An action that takes no label away.
abbrev pub quiet : Effect Log
quiet = record {
  rel = λ log log'. relabels log' ≡ relabels log;
  still = λ log. refl;
  chain = λ p q. q ∙ p;
}
