-- ===== src/Tests/Pipeline.antt =====
-- Runs of the pipeline.
use mathlib.Core.Option.{some-injective}
use claim_automation_cloud.Pdf.{generate_pdf_from_email, membrete_by_type}
use claim_automation_cloud.Claim.Card.{build_card_name, build_card_comment}
use claim_automation_cloud.Claim.Message.{Message}
use claim_automation_cloud.Prelude.{List, ◌≡◌, refl, false, none, some, [], ◌∷◌, any}
use claim_automation_cloud.Text.{Text, codes, text_eq}
use claim_automation_cloud.Exec.{ok, err, value_error, ◌>>=◌}
use claim_automation_cloud.Claim.{ClaimData, declaracion_siniestro}
use claim_automation_cloud.Mailbox.{dispatch, card}
use claim_automation_cloud.Mailbox.Run.{process_mailbox, sort_by_date}
use claim_automation_cloud.Mailbox.Run.Order.{IsSortOf, sort_by_date-IsSortOf}
use claim_automation_cloud.Mailbox.Trace.{gmail, trello, ledger, membretes, clock, extractor}
use claim_automation_cloud.Mailbox.Labels.{RunLabels}
use claim_automation_cloud.Mailbox.Whole.{one_message, process_mailbox-RunLabels}
use claim_automation_cloud.Mailbox.Branches.{
  Outcome, dispatched, process_one-untrusted, dispatch-Outcome,
}
use claim_automation_cloud.Mailbox.Sender.{sender_domain}
use claim_automation_cloud.Tests.{ascii, blank_renderer, email, fine_services}

abbrev allowed : List Text
allowed = codes "asitur.es" ∷ []

process_mailbox-RunLabels_example :
    RunLabels fine_services 100 (one_message fine_services ascii blank_renderer allowed) [] (
      process_mailbox ascii blank_renderer
        (clock fine_services)
        (gmail fine_services)
        (trello fine_services)
        (membretes fine_services)
        (ledger fine_services)
        100
        (extractor fine_services)
        allowed
        [])
process_mailbox-RunLabels_example =
    process_mailbox-RunLabels fine_services ascii blank_renderer 100 allowed []

abbrev untrusted : Message
untrusted = email (codes "m2") 3 (codes "a@b.es") (codes "Comunicación a colaborador 2026/4")

untrusted_domain :
    (d : Text) → sender_domain ascii untrusted ≡ some d → any (text_eq d) allowed ≡ false
unfolding sender_domain text_eq
untrusted_domain d h = rw (← some-injective _ _ h)

process_one-untrusted_example :
    (reason : Text) × (one_message fine_services ascii blank_renderer allowed untrusted []
      ≡ (err (value_error reason), []))
process_one-untrusted_example =
    process_one-untrusted fine_services ascii blank_renderer untrusted allowed [] untrusted_domain

abbrev claim : ClaimData
claim = record {
  year = codes "2026";
  claim_number = codes "417";
  subject = codes "Declaración de siniestro a colaborador 2026/417";
  email_body = codes "Localidad: Reus";
  type = declaracion_siniestro;
  fields = record {
    insurance_company = none;
    nif = none;
    address = none;
    phone_number = none;
    town = some (codes "Reus");
    description = none;
    owner_name = none;
    observaciones = none;
    extractor_used = none;
  };
}

dispatched-claim :
    dispatched fine_services ascii blank_renderer claim []
    ≡ (ok card, (dispatched fine_services ascii blank_renderer claim []).1)
unfolding dispatch ◌>>=◌ generate_pdf_from_email membrete_by_type build_card_name build_card_comment
dispatched-claim = refl

dispatch-Outcome_example :
    Outcome fine_services ascii blank_renderer card claim []
      (dispatched fine_services ascii blank_renderer claim []).1
dispatch-Outcome_example =
    dispatch-Outcome fine_services ascii blank_renderer claim card []
      (dispatched fine_services ascii blank_renderer claim []).1 dispatched-claim

sort_by_date-IsSortOf_example :
    IsSortOf (sort_by_date (untrusted ∷ untrusted ∷ [])) (untrusted ∷ untrusted ∷ [])
sort_by_date-IsSortOf_example = sort_by_date-IsSortOf (untrusted ∷ untrusted ∷ [])
