-- ===== src/Claim.antt =====
-- Claim types and claim data: backend/pipeline/claim_data.py.
pub mod Reference
pub mod Message
pub mod Html
pub mod Card
use claim_automation_cloud.Prelude.{
  ℕ, Bool, true, false, ◌&&◌, ◌||◌, Option, none, some, List, [], ◌∷◌, ◌==◌, if◌then◌else◌,
}
use claim_automation_cloud.Text.{Text, codes, contains, nonempty, before_first, strip, Runtime}
use claim_automation_cloud.Exec.{Result, ok, err, value_error}

abbrev pub declaracion_marker : Text
declaracion_marker = codes "Declaración de siniestro a colaborador"

abbrev pub asistencia_marker : Text
asistencia_marker = codes "Solicitud de asistencia a colaborador"

abbrev pub comunicacion_marker : Text
comunicacion_marker = codes "Comunicación a colaborador"

abbrev pub gestion_perito_marker : Text
gestion_perito_marker = codes "Gestión con Perito"

abbrev pub claim_subject_markers : List Text
claim_subject_markers =
    declaracion_marker ∷ asistencia_marker ∷ comunicacion_marker ∷ gestion_perito_marker ∷ []

abbrev pub aviso_legal_marker : Text
aviso_legal_marker = codes "AVISO LEGAL"

pub data ClaimType : Type 0 where
  declaracion_siniestro declaracion_urgente : ClaimType
  solicitud_asistencia_brico solicitud_asistencia_envio_profesionales : ClaimType
  solicitud_asistencia_electricidad_emergencia : ClaimType
  comunicacion_a_colaborador gestion_con_perito : ClaimType

-- `ClaimType.name`
unfoldable pub type_name : ClaimType → Text
type_name declaracion_siniestro = codes "DECLARACION_SINIESTRO"
type_name declaracion_urgente = codes "DECLARACION_URGENTE"
type_name solicitud_asistencia_brico = codes "SOLICITUD_ASISTENCIA_BRICO"
type_name solicitud_asistencia_envio_profesionales =
    codes "SOLICITUD_ASISTENCIA_ENVIO_PROFESIONALES"
type_name solicitud_asistencia_electricidad_emergencia =
    codes "SOLICITUD_ASISTENCIA_ELECTRICIDAD_EMERGENCIA"
type_name comunicacion_a_colaborador = codes "COMUNICACION_A_COLABORADOR"
type_name gestion_con_perito = codes "GESTION_CON_PERITO"

-- `ClaimType.value`
unfoldable pub type_value : ClaimType → Text
type_value declaracion_siniestro = codes "Declaración de siniestro a colaborador"
type_value declaracion_urgente = codes "Declaración urgente de siniestro a colaborador"
type_value solicitud_asistencia_brico = codes "Solicitud de asistencia brico hogar"
type_value solicitud_asistencia_envio_profesionales =
    codes "Solicitud de asistencia envío de profesionales"
type_value solicitud_asistencia_electricidad_emergencia =
    codes "Solicitud de asistencia electricidad de emergencia"
type_value comunicacion_a_colaborador = codes "Comunicación a colaborador"
type_value gestion_con_perito = gestion_perito_marker

-- `claim_type in COMMENT_TYPES`
abbrev pub is_comment_type : ClaimType → Bool
is_comment_type comunicacion_a_colaborador = true
is_comment_type gestion_con_perito = true
is_comment_type _ = false

-- `claim_type is ClaimType.GESTION_CON_PERITO`
abbrev pub is_gestion : ClaimType → Bool
is_gestion gestion_con_perito = true
is_gestion _ = false

module _ (py : Runtime) where
  -- `body and marker.lower() in body.lower()`
  abbrev pub body_names : Option Text → Text → Bool
  body_names none marker = false
  body_names (some b) marker = nonempty b && contains (py.lower marker) (py.lower b)

  pub asistencia_type : Option Text → Result (Option ClaimType)
  asistencia_type body =
      if body_names body (codes "SERVICIO BRICO HOGAR")
      then ok (some solicitud_asistencia_brico)
      else if body_names body (codes "ENVÍO DE PROFESIONALES")
      then ok (some solicitud_asistencia_envio_profesionales)
      else if body_names body (codes "ELECTRICIDAD DE EMERGENCIA")
      then ok (some solicitud_asistencia_electricidad_emergencia)
      else err (value_error (codes "Invalid claim type in subject or body"))

  -- `ClaimType.from_subject`
  unfoldable pub from_subject : Option Text → Option Text → Result (Option ClaimType)
  unfolding asistencia_type contains
  from_subject none body = ok none
  from_subject (some []) body = ok none
  from_subject (some (c ∷ s)) body =
      if contains gestion_perito_marker (c ∷ s)
      then ok (some gestion_con_perito)
      else if contains declaracion_marker (c ∷ s)
      then (if contains (codes "urgente") (py.lower (c ∷ s))
          then ok (some declaracion_urgente)
          else ok (some declaracion_siniestro))
      else if contains asistencia_marker (c ∷ s)
      then asistencia_type body
      else if contains comunicacion_marker (c ∷ s)
      then ok (some comunicacion_a_colaborador)
      else ok none

-- `notice or None`
abbrev pub some_unless_empty : Text → Option Text
some_unless_empty [] = none
some_unless_empty (c ∷ s) = some (c ∷ s)

-- `string.whitespace + "*"`
abbrev is_notice_edge : ℕ → Bool
is_notice_edge c = c == 32 || c == 9 || c == 10 || c == 13 || c == 11 || c == 12 || c == b'*'

unfoldable pub gestion_notice : Text → Option Text
unfolding strip before_first
gestion_notice body =
    some_unless_empty (strip is_notice_edge (before_first aviso_legal_marker body))

-- The fields that an extractor fills: `ClaimFields` of backend/pipeline/extraction.py.
pub data ExtractorUsed : Type 0 where
  regex llm regex_fallback : ExtractorUsed

pub record ClaimFields : Type 0 where
  pub insurance_company : Option Text
  pub nif : Option Text
  pub address : Option Text
  pub phone_number : Option Text
  pub town : Option Text
  pub description : Option Text
  pub owner_name : Option Text
  pub observaciones : Option Text
  pub extractor_used : Option ExtractorUsed

pub record ClaimData : Type 0 where
  pub year : Text
  pub claim_number : Text
  pub subject : Text
  pub email_body : Text
  pub type : ClaimType
  pub fields : ClaimFields
  pub open fields use *
