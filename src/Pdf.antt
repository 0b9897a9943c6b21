-- ===== src/Pdf.antt =====
-- The letterhead PDF: `generate_pdf_from_email` of backend/pipeline/pdf_gen.py. Reading the image's
-- size (PIL) and setting the flowables on pages (reportlab) are the parameter `Renderer`.
use claim_automation_cloud.Prelude.{
  ℕ, Bool, false, ◌&&◌, ◌||◌, Option, none, some, List, [], ◌∷◌, ◌++◌, ◌==◌, leb, if◌then◌else◌,
}
use mathlib.Core.List.{reverse}
use claim_automation_cloud.Text.{Text, codes, strip, replace, before_first, starts_with, Runtime}
use claim_automation_cloud.Exec.{Result, value_error, Exec, lift, or_raise, ◌>>=◌}
use claim_automation_cloud.Claim.{
  ClaimType, declaracion_siniestro, declaracion_urgente, solicitud_asistencia_brico,
  solicitud_asistencia_envio_profesionales, solicitud_asistencia_electricidad_emergencia,
  comunicacion_a_colaborador, gestion_con_perito,
}

abbrev pub Bytes : Type 0
Bytes = List ℕ

-- `MEMBRETE_BY_TYPE.get(claim_type)`
unfoldable pub membrete_by_type : ClaimType → Option Text
membrete_by_type declaracion_siniestro = some (codes "normal.png")
membrete_by_type declaracion_urgente = some (codes "urgente.png")
membrete_by_type solicitud_asistencia_brico = some (codes "asistencia.png")
membrete_by_type solicitud_asistencia_envio_profesionales = some (codes "asistencia.png")
membrete_by_type solicitud_asistencia_electricidad_emergencia = some (codes "asistencia.png")
membrete_by_type comunicacion_a_colaborador = none
membrete_by_type gestion_con_perito = none

-- A paragraph's markup in one of two styles, the letterhead with its size in pixels, or a gap in
-- hundredths of a point.
pub data Flowable : Type 0 where
  letterhead : Bytes → ℕ × ℕ → Flowable
  heading paragraph : Text → Flowable
  spacer : ℕ → Flowable

pub record Renderer : Type 0 where
  pub image_size : Bytes → Result (ℕ × ℕ)
  pub build : List Flowable → Result Bytes

-- The line boundaries of `str.splitlines`.
abbrev is_line_break : ℕ → Bool
is_line_break c =
    (leb 10 c && leb c 13) || ((leb 28 c && leb c 30) || (c == 133 || (c == 8232 || c == 8233)))

abbrev push_line : ℕ → List Text → List Text
push_line c [] = (c ∷ []) ∷ []
push_line c (l ∷ ls) = (c ∷ l) ∷ ls

-- `after_cr`: the last character was a carriage return, so that a line feed belongs to its break.
unfoldable pub split_lines : Bool → Text → List Text
split_lines after_cr [] = []
split_lines after_cr (c ∷ s) =
    let rest = split_lines (c == 13) s in
    if after_cr && c == 10 then rest else if is_line_break c then [] ∷ rest else push_line c rest

-- `xml.sax.saxutils.escape`
unfoldable pub escape : Text → Text
escape s =
    replace (replace (replace s (codes "&") (codes "&amp;")) (codes ">") (codes "&gt;")) (codes "<")
      (codes "&lt;")

abbrev ends_with_colon : Text → Bool
ends_with_colon s = starts_with (codes ":") (reverse s)

-- The text behind the first colon; `none` where there is none.
unfoldable pub after_colon : Text → Option Text
after_colon [] = none
after_colon (c ∷ s) = let later = after_colon s in if c == b':' then some s else later

module _ (py : Runtime) where
  abbrev field_value : Text → Option Text → List Flowable
  field_value line none = paragraph (escape line) ∷ spacer 300 ∷ []
  field_value line (some value) =
      paragraph (
        codes "<b>"
        ++ (escape (strip py.is_space (before_first (codes ":") line))
            ++ (codes ":</b> " ++ escape (strip py.is_space value))))
      ∷ spacer 400
      ∷ []

  -- The body of the loop over the lines, for a line that `strip` has trimmed.
  unfoldable pub line_flowables : Text → List Flowable
  unfolding escape after_colon
  line_flowables [] = []
  line_flowables (c ∷ s) =
      if ends_with_colon (c ∷ s)
      then heading (codes "<u><i><b>" ++ (escape (c ∷ s) ++ codes "</b></i></u>")) ∷ []
      else field_value (c ∷ s) (after_colon (c ∷ s))

  unfoldable pub body_flowables : List Text → List Flowable
  unfolding line_flowables
  body_flowables [] = []
  body_flowables (l ∷ ls) = line_flowables (strip py.is_space l) ++ body_flowables ls

  module _ {W : Type 0} (renderer : Renderer) where
    -- `membretes` is `membrete_source.get`.
    unfoldable pub generate_pdf_from_email : Text → ClaimType → (Text → Exec W Bytes) → Exec W Bytes
    unfolding body_flowables split_lines
    generate_pdf_from_email email_text claim_type membretes =
        or_raise (membrete_by_type claim_type) (value_error (codes "Invalid claim type"))
        >>= λ membrete_name. membretes membrete_name >>= λ png.
            lift (renderer.image_size png) >>= λ size. lift (
              renderer.build
                (letterhead png size ∷ spacer 1440 ∷ body_flowables (split_lines false email_text)))
