-- ===== src/Claim/Message.antt =====
-- The Gmail message resource as the program reads it, its headers and its body: `extract_subject`,
-- `_decode_body`, `_looks_like_html` and `_to_plain` of backend/pipeline/claim_data.py.
use claim_automation_cloud.Prelude.{
  ℕ, Bool, ◌||◌, Option, none, some, List, [], ◌∷◌, take, find, if◌then◌else◌,
}
use claim_automation_cloud.Text.{Text, codes, text_eq, contains, starts_with, lstrip, Runtime}
use claim_automation_cloud.Exec.{Result, ok, err, value_error}
use claim_automation_cloud.Claim.Html.{html_to_plain}

pub record Header : Type 0 where
  pub name : Text
  pub value : Text

-- `payload.parts`: a MIME type, the encoded data of the body, and the parts below.
mutual
  pub data Part : Type 0 where
    part : Option Text → Option Text → Parts → Part

  pub data Parts : Type 0 where
    nil : Parts
    cons : Part → Parts → Parts

-- A key that the resource lacks reads as the default that the code gives to `.get`;
-- `internal_date` is the number that `int(message["internalDate"])` reads.
pub record Message : Type 0 where
  pub id : Text
  pub internal_date : ℕ
  pub headers : List Header
  pub parts : Parts
  pub body : Option Text

abbrev value_of : Option Header → Option Text
value_of none = none
value_of (some h) = some h.value

-- `next((h["value"] for h in headers if h["name"] == name), None)`
abbrev pub header : Text → Message → Option Text
header name msg = value_of (find (λ (h : Header). text_eq h.name name) msg.headers)

unfoldable pub extract_subject : Message → Option Text
unfolding text_eq
extract_subject msg = header (codes "Subject") msg

module _ (py : Runtime) where
  decode : Text → Result Text
  decode data_text = elim (py.decode_base64 data_text) [
    | some t ↦ ok t
    | none ↦ err (value_error (codes "malformed base64"))
  ]

  -- `mime == "text/plain" and body`
  abbrev plain_data : Option Text → Option Text → Option Text
  plain_data (some mime) (some []) = none
  plain_data (some mime) (some (c ∷ d)) =
      if text_eq mime (codes "text/plain") then some (c ∷ d) else none
  plain_data _ _ = none

  -- What the walk returns for one part, or `rest` where it goes on.
  abbrev or_rest : Result Text → Result Text → Result Text
  or_rest (err e) rest = err e
  or_rest (ok []) rest = rest
  or_rest (ok (c ∷ t)) rest = ok (c ∷ t)

  unfoldable pub get_plain_text : Parts → Result Text
  unfolding decode
  get_plain_text nil = ok []
  get_plain_text (cons (part mime body sub_parts) rest) =
      let below = get_plain_text sub_parts in
      let later = get_plain_text rest in
      elim (plain_data mime body) [ some d ↦ decode d | none ↦ or_rest below later ]

  abbrev decode_single : Option Text → Result Text
  decode_single none = ok []
  decode_single (some []) = ok []
  decode_single (some (c ∷ d)) = decode (c ∷ d)

  -- `ClaimData._decode_body`
  unfoldable pub decode_body : Message → Result Text
  unfolding get_plain_text
  decode_body msg = elim msg.parts [
    | nil ↦ decode_single msg.body
    | cons p ps ↦ get_plain_text (cons p ps)
  ]

  -- `ClaimData._looks_like_html`
  unfoldable pub looks_like_html : Text → Bool
  looks_like_html text =
      let head = py.lower (take 500 (lstrip py.is_space text)) in
      starts_with (codes "<!doctype html") head
      || (starts_with (codes "<html") head
          || (contains (codes "<style") head
              || contains (codes "class=\"pt-fuentedeprrafopredeter") head))

  -- `ClaimData._to_plain`
  unfoldable pub to_plain : Text → Text
  unfolding looks_like_html
  to_plain raw = if looks_like_html raw then html_to_plain py raw else raw
