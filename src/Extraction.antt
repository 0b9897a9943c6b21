-- ===== src/Extraction.antt =====
-- The field extractors: backend/pipeline/extraction.py, and `ClaimData.from_msg_data` of
-- backend/pipeline/claim_data.py, which calls them.
use claim_automation_cloud.Prelude.{
  ℕ, Bool, true, false, not, ◌||◌, Option, none, some, [], ◌∷◌, ◌==◌, any, or_else, if◌then◌else◌,
}
use claim_automation_cloud.Text.{Text, codes, span, strip, starts_with, Runtime}
use claim_automation_cloud.Text.Regex.{Pattern, and_then, skip_while, literal_ci}
use claim_automation_cloud.Exec.{Exec, lift, pure, ◌>>=◌}
use claim_automation_cloud.Claim.{
  ClaimType, comunicacion_a_colaborador, gestion_con_perito, ClaimFields, ClaimData, is_gestion,
  regex, gestion_notice, from_subject,
}
use claim_automation_cloud.Claim.Reference.{Reference, parse_claim_ref}
use claim_automation_cloud.Claim.Message.{Message, extract_subject, decode_body, to_plain}

abbrev newline : ℕ
newline = 10

-- The first place where a pattern with one group matches: `re.search(...).group(1)`.
unfoldable pub search_group : Pattern → Pattern
search_group m [] = m []
search_group m (c ∷ s) =
    let later = search_group m s in elim (m (c ∷ s)) [ some g ↦ some g | none ↦ later ]

abbrev not_newline : ℕ → Bool
not_newline c = not (c == newline)

-- The text before the first place where the test of the rest holds; `none` where it never does.
unfoldable pub until : (Text → Bool) → Text → Option Text
until stop [] = if stop [] then some [] else none
until stop (c ∷ s) =
    let later = until stop s in
    if stop (c ∷ s) then some [] else elim later [ none ↦ none | some g ↦ some (c ∷ g) ]

-- `$` with no `re.MULTILINE`: the end, or before a newline that ends the text.
abbrev at_end : Text → Bool
at_end [] = true
at_end (c ∷ []) = c == newline
at_end (c ∷ d ∷ s) = false

abbrev found_at : Option Text → Bool
found_at none = false
found_at (some s) = true

abbrev is_upper_alnum : Text
is_upper_alnum = codes "ABCDEFGHIJKLMNOPQRSTUVWXYZ0123456789"

abbrev strip_group : (ℕ → Bool) → Option Text → Option Text
strip_group space none = none
strip_group space (some g) = some (strip space g)

abbrev some_nonempty : Text → Option Text
some_nonempty [] = none
some_nonempty (c ∷ s) = some (c ∷ s)

module _ (py : Runtime) where
  abbrev label : Text → Pattern
  label w s = literal_ci py.eq_ignore_case w s

  -- `\s*(.+)`. Where only white space is left, `\s*` gives back what `.+` needs; the group is then
  -- stripped to the empty text, unless every character left is a newline.
  abbrev line_group : Text × Text → Option Text
  line_group (spaces, []) = if any not_newline spaces then some [] else none
  line_group (spaces, c ∷ s) = some (span not_newline (c ∷ s)).0

  rest_of_line : Text → Pattern
  unfolding span
  rest_of_line w s = and_then (label w s) (λ t. line_group (span py.is_space t))

  -- `Nif:\s*([A-Z0-9]+)`
  abbrev in_nif : ℕ → Bool
  in_nif c = any (λ p. py.eq_ignore_case p c) is_upper_alnum

  nif_pattern : Pattern
  unfolding span
  nif_pattern s =
      and_then (label (codes "Nif:") s)
        (λ t. some_nonempty (span in_nif (skip_while py.is_space t)).0)

  -- `Dirección:[ \t]*([^\n]*)`
  address_pattern : Pattern
  unfolding span
  address_pattern s =
      and_then (label (codes "Dirección:") s)
        (λ t. some (span not_newline (skip_while (λ c. c == 32 || c == 9) t)).0)

  -- `Tfno\s*:\s*(\d+)`
  phone_pattern : Pattern
  unfolding span
  phone_pattern s =
      and_then
        (and_then (label (codes "Tfno") s) (λ t. label (codes ":") (skip_while py.is_space t)))
        (λ t. some_nonempty (span py.is_digit (skip_while py.is_space t)).0)

  -- `Localidad:\s*(.*?)(?:\s*Código Postal:|$)`, with `re.DOTALL`
  town_pattern : Pattern
  unfolding until
  town_pattern s = and_then (label (codes "Localidad:") s) (λ t.
      until (λ r. found_at (label (codes "Código Postal:") (skip_while py.is_space r)) || at_end r)
        (skip_while py.is_space t))

  -- `\s*(.+?)\s*Tipo:` behind its label, with `re.DOTALL`: the group has one character or more.
  -- Where only white space stands before the one `Tipo:`, `\s*` gives one character of it back.
  abbrev tipo_follows : Text → Bool
  tipo_follows r = found_at (label (codes "Tipo:") (skip_while py.is_space r))

  abbrev give_back : Text → Text → Option Text
  give_back [] r = none
  give_back (d ∷ spaces) r = if found_at (label (codes "Tipo:") r) then some (d ∷ []) else none

  abbrev one_then_until : Text → Text → Option Text
  one_then_until spaces [] = none
  one_then_until spaces (c ∷ s) = elim (until tipo_follows s) [
    | some g ↦ some (c ∷ g)
    | none ↦ give_back spaces (c ∷ s)
  ]

  description_pattern : Pattern
  unfolding until span
  description_pattern s =
      and_then (label (codes "Descripción:") s)
        (λ t. let (spaces, r) = span py.is_space t in one_then_until spaces r)

  -- `Observaciones:\s*(.*?)(?:\n--|$)`, with `re.DOTALL`
  observaciones_pattern : Pattern
  unfolding until
  observaciones_pattern s = and_then (label (codes "Observaciones:") s) (λ t.
      until (λ r. starts_with (newline ∷ codes "--") r || at_end r) (skip_while py.is_space t))

  -- `_extract_field`
  unfoldable pub extract_field : Pattern → Text → Option Text
  unfolding search_group
  extract_field m text = strip_group py.is_space (search_group m text)

  abbrev only_observaciones : Option Text → ClaimFields
  only_observaciones observaciones = record {
    insurance_company = none;
    nif = none;
    address = none;
    phone_number = none;
    town = none;
    description = none;
    owner_name = none;
    observaciones = observaciones;
    extractor_used = some regex;
  }

  abbrev siniestro_fields : Text → ClaimFields
  siniestro_fields body = record {
    insurance_company = extract_field (rest_of_line (codes "Compañía:")) body;
    nif = extract_field nif_pattern body;
    address = extract_field address_pattern body;
    phone_number = extract_field phone_pattern body;
    town = extract_field town_pattern body;
    description = extract_field description_pattern body;
    owner_name = extract_field (rest_of_line (codes "Tomador:")) body;
    observaciones = none;
    extractor_used = some regex;
  }

  -- `RegexFieldExtractor.extract`
  unfoldable pub regex_extract : ClaimType → Text → Text → Text → ClaimFields
  unfolding extract_field rest_of_line nif_pattern address_pattern phone_pattern town_pattern
      description_pattern observaciones_pattern
  regex_extract comunicacion_a_colaborador subject body raw_body =
      only_observaciones (extract_field observaciones_pattern body)
  regex_extract gestion_con_perito subject body raw_body = only_observaciones (gestion_notice body)
  regex_extract _ subject body raw_body = siniestro_fields body

-- `FieldExtractor`: the claim type, subject, body and raw body to fields.
abbrev pub Extractor : Type 0 → Type 0
Extractor W = ClaimType → Text → Text → Text → Exec W ClaimFields

-- `self`-less methods of the regex extractor touch nothing.
abbrev pub regex_extractor : {W : Type 0} → Runtime → Extractor W
regex_extractor py claim_type subject body raw_body =
    pure (regex_extract py claim_type subject body raw_body)

abbrev pub or_regex : {W : Type 0} → Runtime → Option (Extractor W) → Extractor W
or_regex py none = regex_extractor py
or_regex py (some extractor) = extractor

abbrev pub with_fields : Text → Text → Reference → ClaimType → ClaimFields → ClaimData
with_fields subject body (year, number) claim_type fields = record {
  year = year;
  claim_number = number;
  subject = subject;
  email_body = body;
  type = claim_type;
  fields = fields;
}

abbrev pub is_gestion_type : Option ClaimType → Bool
is_gestion_type none = false
is_gestion_type (some t) = is_gestion t

module _ {W : Type 0} (py : Runtime) where
  -- What follows the classification: both a type and a reference, or no claim.
  abbrev pub fill :
      Extractor W
      → Text
      → Text
      → Text
      → Option ClaimType
      → Option Reference
      → Exec W (Option ClaimData)
  fill extractor subject body raw none ref = pure none
  fill extractor subject body raw (some t) none = pure none
  fill extractor subject body raw (some t) (some ref) =
      extractor t subject body raw >>= λ fields. pure (some (with_fields subject body ref t fields))

  -- `ClaimData.from_msg_data`
  unfoldable pub from_msg_data : Message → Option (Extractor W) → Exec W (Option ClaimData)
  from_msg_data msg extractor = lift (decode_body py msg) >>= λ raw.
      let subject = extract_subject msg in
      let body = to_plain py raw in
      lift (from_subject py subject (some body)) >>= λ claim_type.
      fill (or_regex py extractor) (or_else subject []) body raw claim_type
        (parse_claim_ref py (or_else subject []) (is_gestion_type claim_type))
