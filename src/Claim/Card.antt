-- ===== src/Claim/Card.antt =====
-- The card's name, description, comment and attachment name: the `build_…` functions of
-- backend/pipeline/claim_data.py. `.upper()` on a missing town raises AttributeError.
use claim_automation_cloud.Prelude.{Option, none, some, [], ◌∷◌, ◌++◌}
use claim_automation_cloud.Text.{Text, codes, show_option, Runtime}
use claim_automation_cloud.Exec.{Result, ok, err, attribute_error}
use claim_automation_cloud.Claim.{
  ClaimType, declaracion_urgente, solicitud_asistencia_brico,
  solicitud_asistencia_envio_profesionales, comunicacion_a_colaborador, gestion_con_perito,
  ClaimData,
}

-- `f"{year}/{claim_number}"`
abbrev pub claim_ref : Text → Text → Text
claim_ref year number = year ++ (b'/' ∷ number)

abbrev pub newline_text : Text
newline_text = 10 ∷ []

module _ (py : Runtime) where
  abbrev upper_town : Option Text → Result Text
  upper_town none = err attribute_error
  upper_town (some town) = ok (py.upper town)

  abbrev pub after_town : Text → Option Text → Text → Result Text
  after_town before town after = elim (upper_town town) [
    | ok t ↦ ok (before ++ (t ++ after))
    | err e ↦ err e
  ]

  unfoldable pub build_card_name : ClaimData → Result Text
  build_card_name claim =
      after_town [] claim.town
        (32 ∷ (claim_ref claim.year claim.claim_number ++ (32 ∷ show_option claim.owner_name)))

  abbrev comment_for : ClaimType → ClaimData → Result Text
  comment_for solicitud_asistencia_brico claim =
      after_town (codes "@board Nueva brico asistencia en ") claim.town []
  comment_for solicitud_asistencia_envio_profesionales claim =
      after_town (codes "@board Nuevo envío de profesionales en ") claim.town []
  comment_for comunicacion_a_colaborador claim =
      ok (codes "@board " ++ show_option claim.observaciones)
  comment_for gestion_con_perito claim = ok (codes "@board " ++ show_option claim.observaciones)
  comment_for declaracion_urgente claim =
      after_town (codes "@board Parte URGENTE en ") claim.town []
  comment_for _ claim = after_town (codes "@board Parte nuevo en ") claim.town []

  unfoldable pub build_card_comment : ClaimData → Result Text
  build_card_comment claim = comment_for claim.type claim

unfoldable pub build_pdf_filename : Text → Text → Text
build_pdf_filename year number = codes "claim_" ++ (number ++ (95 ∷ (year ++ codes ".pdf")))

abbrev line : Text → Option Text → Text → Text
line label value rest = label ++ (show_option value ++ (newline_text ++ rest))

unfoldable pub build_card_description : ClaimData → Text
build_card_description claim = line (codes "Empresa de seguros: ") claim.insurance_company (
    line (codes "NIF: ") claim.nif (
      line (codes "Dirección: ") claim.address (
        line (codes "Teléfono: ") claim.phone_number (
          line (codes "Población: ") claim.town
            (line (codes "Descripción: ") claim.description [])))))
