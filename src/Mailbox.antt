-- ===== src/Mailbox.antt =====
-- One run over the mailbox: `process_mailbox` and `_process_one` of backend/pipeline/entry.py. What
-- they call is given by interfaces over a world `W`: Gmail, Trello, the letterheads, the ledger and
-- the clocks. Log lines and spans are left out: no result depends on them.
pub mod Sender
pub mod Run
pub mod Trace
pub mod Branches
pub mod Quiet
pub mod Checkpoint
pub mod Whole
pub mod Labels
pub mod Compose
use claim_automation_cloud.Prelude.{
  ℕ, suc, ◌+◌, Bool, true, false, not, ◌&&◌, Option, none, some, List, [], ◌∷◌, ◌++◌, ◌==◌, leb,
  ltb, map, any, or_else, is_none, if◌then◌else◌,
}
use claim_automation_cloud.Text.{Text, codes, contains, text_eq, nonempty, join, strip, Runtime}
use claim_automation_cloud.Exec.{
  Error, Result, ok, err, value_error, Exec, pure, raise, lift, or_raise, ◌>>=◌, ◌>>◌, try_except,
}
use claim_automation_cloud.Claim.{
  ClaimType, ClaimData, claim_subject_markers, is_comment_type, is_gestion, type_name,
  ExtractorUsed, regex, llm, regex_fallback,
}
use claim_automation_cloud.Claim.Card.{
  claim_ref, build_card_name, build_card_comment, build_card_description, build_pdf_filename,
}
use claim_automation_cloud.Claim.Message.{Message, extract_subject}
use claim_automation_cloud.Extraction.{Extractor, from_msg_data}
use claim_automation_cloud.Pdf.{Bytes, Renderer, generate_pdf_from_email}
use claim_automation_cloud.Records.{ClaimRecord, RunCounts}
use claim_automation_cloud.Mailbox.Sender.{sender_domain}

pub record NewCard : Type 0 where
  pub name : Text
  pub description : Text
  pub pdf_bytes : Bytes
  pub pdf_filename : Text
  pub comment : Text

pub record CardFound : Type 0 where
  pub id : Text
  pub name : Text

-- `GmailPipeline`
pub record GmailPipeline (W : Type 0) : Type 0 where
  pub list_unread_message_ids : Text → Exec W (List Text)
  pub get_message : Text → Exec W Message
  pub modify_labels : Text → List Text → List Text → Exec W (Unit {0})
  pub get_or_create_label_id : Text → Exec W Text
  pub count_messages_with_label : Text → Exec W ℕ

-- `TrelloPipeline`
pub record TrelloPipeline (W : Type 0) : Type 0 where
  pub create_full_card : NewCard → Exec W Text
  pub add_comment : Text → Text → Exec W (Unit {0})
  pub find_card_by_claim_ref : Text → Exec W (Option CardFound)

-- `ClaimLedger`
pub record ClaimLedger (W : Type 0) : Type 0 where
  pub get_claim : Text → Exec W (Option ClaimRecord)
  pub record_claim : ClaimRecord → Exec W (Unit {0})

-- `time.monotonic`, in the clock's own ticks, and `datetime.now(UTC)`.
pub record Clock (W : Type 0) : Type 0 where
  pub monotonic : Exec W ℕ
  pub now : Exec W ℕ

abbrev pub label_procesado : Text
label_procesado = codes "procesado"

abbrev pub label_failed : Text
label_failed = codes "failed"

abbrev pub unread_label_id : Text
unread_label_id = codes "UNREAD"

pub data ProcessedAction : Type 0 where
  card comment dedup_skip : ProcessedAction

-- `" OR ".join(f'subject:"{marker}"' for marker in CLAIM_SUBJECT_MARKERS)`
unfoldable pub build_claim_query : Text
build_claim_query =
    join (codes " OR ")
      (map (λ marker. codes "subject:\"" ++ (marker ++ codes "\"")) claim_subject_markers)

-- `ExtractorUsed.value`
abbrev extractor_value : ExtractorUsed → Text
extractor_value regex = codes "regex"
extractor_value llm = codes "llm"
extractor_value regex_fallback = codes "regex_fallback"

abbrev map_extractor : Option ExtractorUsed → Option Text
map_extractor none = none
map_extractor (some u) = some (extractor_value u)

abbrev pub claim_ref_of : ClaimData → Text
claim_ref_of claim = claim_ref claim.year claim.claim_number

abbrev pub ledger_row : ClaimData → Text → ℕ → ClaimRecord
ledger_row claim card_url now = record {
  at = now;
  claim_ref = claim_ref_of claim;
  subject = claim.subject;
  type = type_name claim.type;
  town = claim.town;
  owner = claim.owner_name;
  card_url = card_url;
  extractor_used = map_extractor claim.extractor_used;
}

-- `(claim.observaciones or "").strip()`
abbrev pub has_notice : Runtime → Option Text → Bool
has_notice py observaciones = nonempty (strip py.is_space (or_else observaciones []))

module _ {W : Type 0} (py : Runtime) (renderer : Renderer) (clock : Clock W) where
  -- The first part of `_process_one`: origin, marker, and the parsed claim.
  unfoldable pub admit_claim : Message → Option (Extractor W) → List Text → Exec W ClaimData
  unfolding extract_subject
  admit_claim message extractor allowed_domains =
      or_raise (sender_domain py message) (value_error (codes "no_sender")) >>= λ domain.
      if any (text_eq domain) allowed_domains
      then (if any (λ marker. contains marker (or_else (extract_subject message) []))
            claim_subject_markers
          then (from_msg_data py message extractor >>= λ claim.
              or_raise claim
                (value_error (codes "claim-marked subject without a parseable YYYY/N reference")))
          else raise
              (value_error (codes "server filter matched but no claim marker in the subject")))
      else raise (value_error (codes "sender_not_allowed domain=" ++ domain))

  -- The branch of the comment types: an @board comment on the card that the claim has.
  unfoldable pub post_comment : ClaimData → TrelloPipeline W → Exec W ProcessedAction
  post_comment claim trello =
      let gestion = is_gestion claim.type in
      let ref = claim_ref_of claim in
      if gestion && not (has_notice py claim.observaciones)
      then raise (value_error (codes "gestión con perito " ++ (ref ++ codes " has no notice text")))
      else (trello.find_card_by_claim_ref ref >>= λ found.
          or_raise found (
            value_error (
              (if gestion then codes "gestión con perito " else codes "comunicación ")
              ++ (ref ++ codes " has no existing card")))
          >>= λ found_card. lift (build_card_comment py claim) >>= λ text.
              trello.add_comment found_card.id text >>= λ _. pure comment)

  -- The last part of `_process_one`: the PDF, the card, the ledger row.
  unfoldable pub create_card :
      ClaimData → TrelloPipeline W → (Text → Exec W Bytes) → ClaimLedger W → Exec W ProcessedAction
  create_card claim trello membretes history =
      generate_pdf_from_email py renderer claim.email_body claim.type membretes >>= λ pdf.
      lift (build_card_name py claim) >>= λ name. lift (build_card_comment py claim) >>= λ text.
      trello.create_full_card (record {
        name = name;
        description = build_card_description claim;
        pdf_bytes = pdf;
        pdf_filename = build_pdf_filename claim.year claim.claim_number;
        comment = text;
      })
      >>= λ card_url. clock.now >>= λ now.
          history.record_claim (ledger_row claim card_url now) >>= λ _. pure card

  -- What follows the parsing: what the claim's type and the ledger call for.
  unfoldable pub dispatch :
      ClaimData → TrelloPipeline W → (Text → Exec W Bytes) → ClaimLedger W → Exec W ProcessedAction
  unfolding post_comment create_card
  dispatch claim trello membretes history =
      if is_comment_type claim.type
      then post_comment claim trello
      else (history.get_claim (claim_ref_of claim) >>= λ row.
          if is_none row then create_card claim trello membretes history else pure dedup_skip)

  -- `_process_one`
  unfoldable pub process_one :
      Message
      → TrelloPipeline W
      → (Text → Exec W Bytes)
      → ClaimLedger W
      → Option (Extractor W)
      → List Text
      → Exec W ProcessedAction
  unfolding admit_claim dispatch
  process_one message trello membretes history extractor allowed_domains =
      admit_claim message extractor allowed_domains >>= λ claim.
      dispatch claim trello membretes history
