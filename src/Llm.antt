-- ===== src/Llm.antt =====
-- The extraction by a language model: backend/pipeline/llm_extraction.py. The agent's run
-- (pydantic-ai, the OpenAI client, pydantic's schema check) is the parameter `Agent`; its answers
-- come back as the values that the source's field validators are given. Log lines and the pool that
-- `close` releases are left out.
pub mod Quarantine
pub mod Answers
use claim_automation_cloud.Prelude.{
  ℕ, Bool, true, false, not, ◌&&◌, ◌||◌, Option, none, some, List, [], ◌∷◌, ◌++◌, ◌==◌, leb, all,
  filter, is_none, if◌then◌else◌,
}
use claim_automation_cloud.Text.{
  Text, codes, replace, strip, text_eq, nonempty, is_ascii_digit, Runtime,
}
use claim_automation_cloud.Exec.{Error, Exec, pure, raise, ◌>>=◌}
use claim_automation_cloud.Claim.{
  ClaimType, ClaimFields, ExtractorUsed, llm, regex_fallback, is_comment_type, type_value,
}
use claim_automation_cloud.Extraction.{regex_extract}

abbrev pub subject_open : Text
subject_open = codes "<email_subject>"

abbrev pub subject_close : Text
subject_close = codes "</email_subject>"

abbrev pub body_open : Text
body_open = codes "<email_body>"

abbrev pub body_close : Text
body_close = codes "</email_body>"

abbrev pub newline : Text
newline = codes "\n"

-- The message up to the body's opening tag.
abbrev pub message_head : ClaimType → Text → Text
message_head claim_type safe_subject =
    codes "Claim type: "
    ++ (type_value claim_type
        ++ (newline
            ++ (subject_open
                ++ (newline ++ (safe_subject ++ (newline ++ (subject_close ++ newline)))))))

unfoldable pub build_user_message : ClaimType → Text → Text → Text
build_user_message claim_type subject body =
    let safe_subject = replace subject subject_close [] in
    let safe_body = replace body body_close [] in
    message_head claim_type safe_subject
    ++ (body_open ++ (newline ++ (safe_body ++ (newline ++ body_close))))

-- What the model may put in a field: `_num_to_str` turns a number into its `str`.
pub data Raw : Type 0 where
  absent : Raw
  words : Text → Raw
  digits : ℕ → Raw

abbrev pub is_nif_char : ℕ → Bool
is_nif_char c = (leb b'A' c && leb c b'Z') || is_ascii_digit c

abbrev pub some_if : Bool → Text → Option Text
some_if b s = if b then some s else none

abbrev some_nonempty : Text → Option Text
some_nonempty s = some_if (nonempty s) s

-- `OUTPUT_MODEL_BY_TYPE`: the comment types have the one schema, the others the other.
pub data OutputModel : Type 0 where
  comunicacion_fields siniestro_fields : OutputModel

unfoldable pub output_model_by_type : ClaimType → OutputModel
output_model_by_type claim_type =
    if is_comment_type claim_type then comunicacion_fields else siniestro_fields

-- The model's answer for either schema, before the validators.
pub data Answer : Type 0 where
  comunicacion : Option Text → Answer
  siniestro :
      (insurance_company : Option Text)
      → (nif : Raw) → (address : Option Text) → (phone_number : Raw) → (town : Option Text)
      → (description : Option Text) → (owner_name : Option Text) → Answer

-- The classes that `classify_failure` tells apart, and any other subclass of AgentRunError.
-- `model_api_error` carries whether its cause is an APITimeoutError.
pub data AgentError : Type 0 where
  content_filter_error unexpected_model_behavior open_ai_error other_agent_error : AgentError
  model_api_error : Bool → AgentError

pub data FailureClass : Type 0 where
  content_filter truncation validation_failed timeout http_error other : FailureClass

abbrev is_length : Option Text → Bool
is_length none = false
is_length (some reason) = text_eq reason (codes "length")

unfoldable pub classify_failure : AgentError → Option Text → FailureClass
classify_failure content_filter_error finish_reason = content_filter
classify_failure unexpected_model_behavior finish_reason =
    if is_length finish_reason then truncation else validation_failed
classify_failure (model_api_error is_timeout) finish_reason =
    if is_timeout then timeout else http_error
classify_failure open_ai_error finish_reason = http_error
classify_failure other_agent_error finish_reason = other

pub data ValidationOutcome : Type 0 where
  all_plausible implausible_nulled : ValidationOutcome

-- How `agent.run_sync` ends: with an answer, with a recognised failure and the finish reason that
-- the hook has kept, or with any other exception, which is not caught.
pub data Reply : Type 0 where
  answered : Answer → Reply
  failed : AgentError → Option Text → Reply
  crashed : Error → Reply

abbrev pub Agent : Type 0 → Type 0
Agent W = OutputModel → Text → Exec W Reply

module _ (py : Runtime) (str : ℕ → Text) where
  -- `_num_to_str`
  abbrev pub num_to_str : Raw → Option Text
  num_to_str absent = none
  num_to_str (words s) = some s
  num_to_str (digits n) = some (str n)

  -- `_digits_only`
  unfoldable pub digits_only : Option Text → Option Text
  digits_only none = none
  digits_only (some s) = some_nonempty (filter py.is_digit s)

  -- `_plausible_nif`
  unfoldable pub plausible_nif : Option Text → Option Text
  plausible_nif none = none
  plausible_nif (some s) =
      let upper = py.upper (strip py.is_space s) in
      some_if (nonempty upper && all is_nif_char upper) upper

  -- The validators, and `_to_claim_fields`.
  unfoldable pub to_claim_fields : Answer → ClaimFields
  unfolding digits_only plausible_nif
  to_claim_fields (comunicacion observaciones) = record {
    insurance_company = none;
    nif = none;
    address = none;
    phone_number = none;
    town = none;
    description = none;
    owner_name = none;
    observaciones = observaciones;
    extractor_used = some llm;
  }
  to_claim_fields (siniestro company nif address phone_number town description owner_name) =
      record {
        insurance_company = company;
        nif = plausible_nif (num_to_str nif);
        address = address;
        phone_number = digits_only (num_to_str phone_number);
        town = town;
        description = description;
        owner_name = owner_name;
        observaciones = none;
        extractor_used = some llm;
      }

  -- `data.get(name) not in (None, "")`
  abbrev is_given : Raw → Bool
  is_given absent = false
  is_given (words s) = nonempty s
  is_given (digits n) = true

  abbrev name_if : Bool → Text → List Text
  name_if b name = if b then name ∷ [] else []

  -- `_track_nulled`: the fields that a validator turned into None.
  unfoldable pub nulled : Answer → List Text
  unfolding digits_only plausible_nif
  nulled (comunicacion observaciones) = []
  nulled (siniestro company nif address phone_number town description owner_name) =
      name_if (is_given nif && is_none (plausible_nif (num_to_str nif))) (codes "nif")
      ++ name_if (is_given phone_number && is_none (digits_only (num_to_str phone_number)))
          (codes "phone_number")

  -- The log line's outcome of the validators.
  unfoldable pub validation_outcome : Answer → ValidationOutcome
  unfolding nulled
  validation_outcome answer = elim (nulled answer) [
    | [] ↦ all_plausible
    | ◌∷◌ name (names → rest) ↦ implausible_nulled
  ]

  abbrev pub mark : ExtractorUsed → ClaimFields → ClaimFields
  mark used fields = record fields { extractor_used = some used }

  module _ {W : Type 0} (agent : Agent W) where
    abbrev pub on_reply : ClaimType → Text → Text → Text → Reply → Exec W ClaimFields
    on_reply claim_type subject body raw_body (answered answer) =
        pure (mark llm (to_claim_fields answer))
    on_reply claim_type subject body raw_body (failed error finish_reason) =
        pure (mark regex_fallback (regex_extract py claim_type subject body raw_body))
    on_reply claim_type subject body raw_body (crashed e) = raise e

    -- `LlmFieldExtractor.extract`
    unfoldable pub extract : ClaimType → Text → Text → Text → Exec W ClaimFields
    unfolding to_claim_fields
    extract claim_type subject body raw_body =
        agent (output_model_by_type claim_type) (build_user_message claim_type subject body)
        >>= on_reply claim_type subject body raw_body
