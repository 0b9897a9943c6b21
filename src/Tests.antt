-- ===== src/Tests.antt =====
-- Concrete inputs: an ASCII runtime, a renderer that makes an empty file, messages and services.
mod Clients
mod Composed
mod Digests
mod Caches
mod Pipeline
mod Recoveries
mod References
mod Sessions
mod Routed
mod Signins
mod State
mod Stores
mod Telemetries
use claim_automation_cloud.Prelude.{
  ℕ, ◌+◌, ◌-◌, Bool, ◌&&◌, ◌||◌, none, some, [], ◌∷◌, ◌++◌, map, leb, ◌==◌, if◌then◌else◌,
}
use claim_automation_cloud.Text.{Text, codes, is_ascii_digit, Runtime}
use claim_automation_cloud.Exec.{ok, err, http_error}
use claim_automation_cloud.Claim.Message.{Message, Parts}
use claim_automation_cloud.Pdf.{Renderer}
use claim_automation_cloud.Mailbox.Trace.{Services}

abbrev pub lower_char : ℕ → ℕ
lower_char c = if leb b'A' c && leb c b'Z' then c + 32 else c

abbrev pub upper_char : ℕ → ℕ
upper_char c = if leb b'a' c && leb c b'z' then c - 32 else c

abbrev pub ascii : Runtime
ascii = record {
  is_space = λ c. c == 32 || (leb 9 c && leb c 13);
  is_digit = is_ascii_digit;
  eq_ignore_case = λ a b. lower_char a == lower_char b;
  lower = map lower_char;
  upper = map upper_char;
  unescape = λ t. t;
  decode_base64 = λ t. some t;
  parse_address = λ t. t;
}

abbrev pub blank_renderer : Renderer
blank_renderer = record { image_size = λ png. ok (1, 1); build = λ fs. ok [] }

abbrev pub email : Text → ℕ → Text → Text → Message
email id date from subject = record {
  id = id;
  internal_date = date;
  headers =
      record { name = codes "From"; value = from }
      ∷ record { name = codes "Subject"; value = subject }
      ∷ [];
  parts = Parts.nil;
  body = some (codes "Localidad: Reus");
}

-- Every call succeeds; the ledger is empty; one message is unread.
abbrev pub fine_services : Services
fine_services = record {
  list_unread = λ log q. ok (codes "m1" ∷ []);
  get_message = λ log id.
      ok (
        email id 5 (codes "a@asitur.es") (codes "Declaración de siniestro a colaborador 2026/417"));
  get_label = λ log name. ok name;
  count_label = λ log id. err http_error;
  modify_labels = λ log id add rem. ok tt;
  create_full_card = λ log card. ok (codes "url");
  add_comment = λ log id text. ok tt;
  find_card = λ log ref. ok none;
  get_claim = λ log ref. ok none;
  record_claim = λ log row. ok tt;
  fetch_membrete = λ log name. ok [];
  extract = λ log t subject body. ok (record {
    insurance_company = none;
    nif = none;
    address = none;
    phone_number = none;
    town = some (codes "Reus");
    description = none;
    owner_name = none;
    observaciones = none;
    extractor_used = none;
  });
  monotonic = λ log. 0;
  now = λ log. 7;
}
