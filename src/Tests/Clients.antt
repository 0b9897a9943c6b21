-- ===== src/Tests/Clients.antt =====
-- The Trello client, the language model and the attachments' route at concrete inputs.
use claim_automation_cloud.Prelude.{
  ℕ, ◌+◌, ◌≡◌, ◌≢◌, refl, ◌↔◌, true, false, none, some, Option, List, [], ◌∷◌, ◌++◌, leb,
  if◌then◌else◌,
}
use claim_automation_cloud.Text.{
  Text, replace, replace_from, strip, lstrip, text_eq, split_on, join, codes, is_ascii_digit,
}
use claim_automation_cloud.Exec.{
  Result, ok, err, http_status, http_error, http_exception, ◌>>=◌, try_except, finally,
}
use claim_automation_cloud.Records.{TrelloConfig}
use claim_automation_cloud.Json.{Json, null, string, object, field, no_fields}
use claim_automation_cloud.Claim.{type_value, declaracion_siniestro, llm, ClaimFields}
use claim_automation_cloud.Mailbox.{NewCard}
use claim_automation_cloud.Trello.{
  Request, Response, get_request, no_payload, create_full_card, attempt,
}
use claim_automation_cloud.Trello.Lookup.{ref_search}
use claim_automation_cloud.Trello.Boundary.{IsMentioned, ref_search_iff}
use claim_automation_cloud.Trello.Retry.{Step, recorded, Sending, attempt-Sending}
use claim_automation_cloud.Trello.Sending.{asked}
use claim_automation_cloud.Trello.WholeCard.{Ends, create_full_card-Ends}
use claim_automation_cloud.Llm.{
  subject_close, build_user_message, message_head, body_open, body_close, newline, Agent, Reply,
  output_model_by_type, answered, siniestro, words, extract, to_claim_fields, plausible_nif,
  digits_only,
}
use claim_automation_cloud.Llm.Quarantine.{
  build_user_message-nested, build_user_message-join, nested_close,
}
use claim_automation_cloud.Llm.Answers.{Gives, extract-Gives}
use claim_automation_cloud.Attachments.{
  Attachment, path_name, split_suffix, cut_last_dot, numbered, base_name, entry_names, TrelloClient,
  is_http_error, collect, download_claim_attachments,
}
use claim_automation_cloud.Attachments.Names.{entry_names-clash}
use claim_automation_cloud.Attachments.Errors.{download_claim_attachments-NoHttpError}
use claim_automation_cloud.Tests.{ascii}

abbrev one_digit : ℕ → Text
one_digit n = (48 + n) ∷ []

abbrev show_text : Json → Text
show_text (string s) = s
show_text value = []

abbrev config : TrelloConfig
config = record { board_id = codes "b"; list_id = codes "l" }

abbrev new_card : NewCard
new_card = record {
  name = codes "2026/417";
  description = codes "d";
  pdf_bytes = 1 ∷ [];
  pdf_filename = codes "2026_417.pdf";
  comment = codes "c";
}

abbrev card_body : Json
card_body = object (
    field (codes "id") (string (codes "7"))
      (field (codes "shortUrl") (string (codes "u")) no_fields))

-- The second request fails: the card is created, and its attachment is refused.
abbrev refuses_attachment : List Request → Request → Result Response
refuses_attachment [] r = ok (record { status = 200; body = ok card_body; content = [] })
refuses_attachment (x ∷ []) r = ok (record { status = 500; body = ok null; content = [] })
refuses_attachment log r = ok (record { status = 200; body = ok null; content = [] })

abbrev raise_from_400 : Response → Result (Unit {0})
raise_from_400 response =
    if leb 400 response.status then err (http_status response.status) else ok tt

create_full_card-Ends_example :
    Ends refuses_attachment raise_from_400 show_text config new_card [] (
      create_full_card
        (asked refuses_attachment raise_from_400 show_text)
        raise_from_400
        show_text
        config
        new_card
        [])
create_full_card-Ends_example =
    create_full_card-Ends refuses_attachment raise_from_400 show_text config new_card []

abbrev ping : Request
ping = record {
  method = get_request;
  path = codes "/1/members/me";
  payload = no_payload;
  slow = false;
}

-- The service limits the first request only.
abbrev limits_first : List Step → Option Text → Request → Result Response
limits_first [] auth r = ok (record { status = 429; body = ok null; content = [] })
limits_first log auth r = ok (record { status = 200; body = ok null; content = [] })

attempt-Sending_example :
    Sending limits_first raise_from_400 2 none ping []
      (attempt (recorded limits_first raise_from_400) 2 none ping [])
attempt-Sending_example = attempt-Sending limits_first raise_from_400 2 none ping []

ref_search_iff_example :
    (ref_search is_ascii_digit (codes "2026/41") (codes "2026/417 Reus") ≡ true)
    ↔ IsMentioned is_ascii_digit (codes "2026/41") (codes "2026/417 Reus")
ref_search_iff_example = ref_search_iff is_ascii_digit (codes "2026/41") (codes "2026/417 Reus")

build_user_message-nested_example :
    build_user_message declaracion_siniestro (codes "s") (nested_close ++ codes "x")
    ≡ message_head declaracion_siniestro (codes "s")
      ++ (body_open ++ (newline ++ (body_close ++ (codes "x" ++ (newline ++ body_close)))))
unfolding replace replace_from
build_user_message-nested_example =
    build_user_message-nested declaracion_siniestro (codes "s") (codes "x")

-- A body with one closing tag in it.
build_user_message-join_example :
    build_user_message declaracion_siniestro
      (join subject_close (codes "s" ∷ []))
      (join body_close (codes "x" ∷ codes "y" ∷ []))
    ≡ codes "Claim type: "
      ++ (type_value declaracion_siniestro
          ++ (codes "\n<email_subject>\n"
              ++ (join [] (codes "s" ∷ [])
                  ++ (codes "\n</email_subject>\n<email_body>\n"
                      ++ (join [] (codes "x" ∷ codes "y" ∷ []) ++ codes "\n</email_body>")))))
build_user_message-join_example =
    build_user_message-join declaracion_siniestro (codes "s" ∷ []) (codes "x" ∷ codes "y" ∷ [])
      (refl, tt) (refl, (refl, tt))

abbrev answers_nif : Agent ℕ
answers_nif model message calls = (
  ok (
      answered (
        siniestro none (words (codes "b12")) none (words (codes "6 0")) (some (codes "Reus")) none
          none)),
  calls + 1,
)

abbrev answered_fields : ClaimFields
answered_fields = record {
  insurance_company = none;
  nif = some (codes "B12");
  address = none;
  phone_number = some (codes "60");
  town = some (codes "Reus");
  description = none;
  owner_name = none;
  observaciones = none;
  extractor_used = some llm;
}

extracted :
    extract ascii one_digit answers_nif declaracion_siniestro [] [] [] 0 ≡ (ok answered_fields, 1)
unfolding extract ◌>>=◌ to_claim_fields plausible_nif digits_only strip lstrip
extracted = refl

extract-Gives_example :
    (reply : Reply) × (answers_nif
        (output_model_by_type declaracion_siniestro)
        (build_user_message declaracion_siniestro [] [])
        0
      ≡ (ok reply, 1))
    × Gives ascii one_digit declaracion_siniestro [] [] [] reply answered_fields
extract-Gives_example =
    extract-Gives ascii one_digit answers_nif declaracion_siniestro [] [] [] 0 1 answered_fields
      extracted

abbrev upload : Text → Attachment
upload name = record { id = codes "1"; name = name; is_upload = true }

abbrev first_photo : Attachment
first_photo = upload (codes "a (2).jpg")

abbrev photo : Attachment
photo = upload (codes "a.jpg")

first_photo_name : base_name first_photo ≡ numbered one_digit (codes "a.jpg") 2
unfolding numbered path_name split_suffix cut_last_dot text_eq split_on
first_photo_name = refl

photo_name : base_name photo ≡ codes "a.jpg"
unfolding path_name text_eq split_on
photo_name = refl

photo_renamed : numbered one_digit (codes "a.jpg") 2 ≢ codes "a.jpg"
unfolding numbered path_name split_suffix cut_last_dot text_eq split_on
photo_renamed h = cc

entry_names-clash_example :
    entry_names one_digit (first_photo ∷ photo ∷ photo ∷ [])
    ≡ numbered one_digit (codes "a.jpg") 2
      ∷ codes "a.jpg"
      ∷ numbered one_digit (codes "a.jpg") 2
      ∷ []
entry_names-clash_example =
    entry_names-clash one_digit (codes "a.jpg") first_photo photo photo first_photo_name photo_name
      photo_name photo_renamed

-- A board that cannot be reached.
abbrev unreachable : TrelloClient ℕ
unreachable = record {
  preflight = λ t. (ok tt, t);
  find_card_by_claim_ref = λ ref t. (err http_error, t);
  list_attachments = λ id t. (ok [], t);
  download_attachment = λ card id name t. (ok [], t);
  close = λ t. (ok tt, t);
  monotonic = λ t. (ok t, t + 1);
}

bad_gateway :
    download_claim_attachments one_digit unreachable (codes "2026") (codes "4") 0
    ≡ (err (http_exception 502 (codes "trello_error")), 1)
unfolding download_claim_attachments collect ◌>>=◌ try_except finally
bad_gateway = refl

download_claim_attachments-NoHttpError_example :
    is_http_error (http_exception 502 (codes "trello_error")) ≡ false
download_claim_attachments-NoHttpError_example =
    download_claim_attachments-NoHttpError one_digit unreachable (codes "2026") (codes "4") 0 1
      (http_exception 502 (codes "trello_error")) (λ v. (v, refl)) (λ v. refl) bad_gateway
