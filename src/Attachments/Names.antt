-- ===== src/Attachments/Names.antt =====
-- The names of the zip's entries: `_entry_names`.
use claim_automation_cloud.Prelude.{ℕ, ◌≡◌, ◌≢◌, sym, inl, inr, false, [], ◌∷◌, Bool-cases}
use claim_automation_cloud.Text.{Text, text_eq, text_eq_iff, text_eq_refl}
use claim_automation_cloud.Attachments.{Attachment, base_name, numbered, names_from, entry_names}

text_ne : (s t : Text) → s ≢ t → text_eq s t ≡ false
text_ne s t h = elim (Bool-cases (text_eq s t)) [
  | inl same ↦ absurd (h ((text_eq_iff s t).0 same))
  | inr other ↦ other
]

-- Two entries get one name when an attachment has the name that the numbering gives to another: a
-- name, then twice the base that it is the second of.
pub entry_names-clash :
    (str : ℕ → Text) (base : Text) (x y z : Attachment)
    → base_name x ≡ numbered str base 2
    → base_name y ≡ base
    → base_name z ≡ base
    → numbered str base 2 ≢ base
    → entry_names str (x ∷ y ∷ z ∷ []) ≡ numbered str base 2 ∷ base ∷ numbered str base 2 ∷ []
unfolding entry_names names_from
entry_names-clash str base x y z hx hy hz ne =
    rw (hx, hy, hz, text_ne base (numbered str base 2) (λ e. ne (sym e)), text_eq_refl base)
