-- ===== src/Mailbox/Quiet.antt =====
-- `_process_one` leaves every label alone: only the loop around it relabels a message.
use claim_automation_cloud.Prelude.{◌≡◌, refl, false, Option, none, some, List, ◌∷◌}
use claim_automation_cloud.Text.{Text, Runtime}
use claim_automation_cloud.Exec.{Result}
use claim_automation_cloud.Exec.Effect.{Within, effect_rules}
use claim_automation_cloud.Claim.{ClaimType, ClaimData}
use claim_automation_cloud.Claim.Reference.{Reference}
use claim_automation_cloud.Claim.Message.{Message}
use claim_automation_cloud.Extraction.{fill, from_msg_data}
use claim_automation_cloud.Pdf.{Renderer, generate_pdf_from_email}
use claim_automation_cloud.Records.{ClaimRecord}
use claim_automation_cloud.Mailbox.{
  NewCard, admit_claim, post_comment, create_card, dispatch, process_one,
}
use claim_automation_cloud.Mailbox.Trace.{
  Call, Log, Services, trello, ledger, membretes, clock, extractor, is_relabel, quiet,
}

module _ {A : Type 0} (answer : Log → Result A) (c : Call) (h : is_relabel c ≡ false) where
  pub quiet_call : Within quiet (λ log. (answer log, c ∷ log))
  quiet_call = record { bound = λ log. rw h }

module _ (sv : Services) (py : Runtime) (renderer : Renderer) where
  extract-quiet :
      (t : ClaimType) (s b r : Text)
      → Within quiet (λ log. (sv.extract log t s b, Call.extract t s b ∷ log))
  extract-quiet t s b r = quiet_call _ _ refl

  fill-quiet :
      (subject body raw : Text) (t : Option ClaimType) (ref : Option Reference)
      → Within quiet (
          fill py
            (λ t s b r log. (sv.extract log t s b, Call.extract t s b ∷ log))
            subject
            body
            raw
            t
            ref)
  fill-quiet subject body raw none ref = search effect_rules
  fill-quiet subject body raw (some t) none = search effect_rules
  fill-quiet subject body raw (some t) (some ref) = search (effect_rules, extract-quiet)

  from_msg_data-quiet : (m : Message) → Within quiet (from_msg_data py m (extractor sv))
  unfolding from_msg_data
  from_msg_data-quiet m = search (effect_rules, fill-quiet)

  admit_claim-quiet :
      (m : Message) (allowed : List Text)
      → Within quiet (admit_claim py renderer (clock sv) m (extractor sv) allowed)
  unfolding admit_claim
  admit_claim-quiet m allowed = search (effect_rules, from_msg_data-quiet)

  find_card-quiet : (ref : Text) → Within quiet ((trello sv).find_card_by_claim_ref ref)
  find_card-quiet ref = quiet_call _ _ refl

  add_comment-quiet : (id text : Text) → Within quiet ((trello sv).add_comment id text)
  add_comment-quiet id text = quiet_call _ _ refl

  create_full_card-quiet : (card : NewCard) → Within quiet ((trello sv).create_full_card card)
  create_full_card-quiet card = quiet_call _ _ refl

  get_claim-quiet : (ref : Text) → Within quiet ((ledger sv).get_claim ref)
  get_claim-quiet ref = quiet_call _ _ refl

  record_claim-quiet : (row : ClaimRecord) → Within quiet ((ledger sv).record_claim row)
  record_claim-quiet row = quiet_call _ _ refl

  membretes-quiet : (name : Text) → Within quiet (membretes sv name)
  membretes-quiet name = quiet_call _ _ refl

  now-quiet : Within quiet ((clock sv).now)
  now-quiet = quiet_call _ _ refl

  generate_pdf-quiet :
      (text : Text) (t : ClaimType)
      → Within quiet (generate_pdf_from_email py renderer text t (membretes sv))
  unfolding generate_pdf_from_email
  generate_pdf-quiet text t = search (effect_rules, membretes-quiet)

  post_comment-quiet :
      (claim : ClaimData) → Within quiet (post_comment py renderer (clock sv) claim (trello sv))
  unfolding post_comment
  post_comment-quiet claim = search (effect_rules, find_card-quiet, add_comment-quiet) depth 12

  create_card-quiet :
      (claim : ClaimData)
      → Within quiet
          (create_card py renderer (clock sv) claim (trello sv) (membretes sv) (ledger sv))
  unfolding create_card
  create_card-quiet claim =
      search
        (effect_rules, generate_pdf-quiet, create_full_card-quiet, now-quiet, record_claim-quiet)
        depth 16

  dispatch-quiet :
      (claim : ClaimData)
      → Within quiet (dispatch py renderer (clock sv) claim (trello sv) (membretes sv) (ledger sv))
  unfolding dispatch
  dispatch-quiet claim =
      search (effect_rules, post_comment-quiet, create_card-quiet, get_claim-quiet)

  -- Handling a message takes no label away, whatever the services answer.
  pub process_one-quiet :
      (m : Message) (allowed : List Text)
      → Within quiet (
          process_one py renderer
            (clock sv)
            m
            (trello sv)
            (membretes sv)
            (ledger sv)
            (extractor sv)
            allowed)
  unfolding process_one
  process_one-quiet m allowed = search (effect_rules, admit_claim-quiet, dispatch-quiet)
