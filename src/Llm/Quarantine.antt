-- ===== src/Llm/Quarantine.antt =====
-- What the removal of the closing tag does to an email's body: `build_user_message`.
use claim_automation_cloud.Prelude.{
  ◌≡◌, refl, ap, ◌∙◌, not, List, [], ◌∷◌, ◌++◌, ◌==◌, append_assoc, true, all, All, arith,
}
use claim_automation_cloud.Text.{Text, codes, starts_with, join, replace, replace_from}
use claim_automation_cloud.Claim.{ClaimType, type_value}
use claim_automation_cloud.Llm.{
  build_user_message, body_open, body_close, subject_close, newline, message_head,
}

-- A closing tag with another one inside it.
abbrev pub nested_close : Text
nested_close = codes "</email" ++ (body_close ++ codes "_body>")

nested_close-replace :
    (rest : Text)
    → replace (nested_close ++ rest) body_close [] ≡ body_close ++ replace rest body_close []
unfolding replace replace_from starts_with
nested_close-replace rest = refl

-- A body with a closing tag inside a closing tag puts a closing tag of its own right behind the
-- opening one: what is left of the body stands outside the quarantine.
pub build_user_message-nested :
    (t : ClaimType) (subject rest : Text)
    → build_user_message t subject (nested_close ++ rest)
      ≡ message_head t (replace subject subject_close [])
        ++ (body_open
            ++ (newline ++ (body_close ++ (replace rest body_close [] ++ (newline ++ body_close)))))
unfolding build_user_message
build_user_message-nested t subject rest = rw (nested_close-replace rest)

-- A text in which no tag can begin.
abbrev pub IsTagless : Text → Type 0
IsTagless s = all (λ c. not (c == b'<')) s ≡ true

module _ (name : Text) where
  -- The tag with this name is removed wherever it stands in front.
  abbrev IsRemoved : Type 0
  IsRemoved =
      (s : Text)
      → replace_from 0 (b'<' ∷ name) [] (b'<' ∷ (name ++ s)) ≡ replace_from 0 (b'<' ∷ name) [] s

  replace_from-append :
      (p s : Text)
      → IsTagless p
      → replace_from 0 (b'<' ∷ name) [] (p ++ s) ≡ p ++ replace_from 0 (b'<' ∷ name) [] s
  unfolding replace_from starts_with
  replace_from-append [] s h = refl
  replace_from-append (c ∷ p) s h = ground (arith, replace_from-append p s)

  replace_from-tagless : (p : Text) → IsTagless p → replace_from 0 (b'<' ∷ name) [] p ≡ p
  unfolding replace_from starts_with
  replace_from-tagless [] h = refl
  replace_from-tagless (c ∷ p) h = ground (arith, replace_from-tagless p)

  -- Pieces joined by the tag lose every tag.
  replace_from-join :
      (pieces : List Text)
      → IsRemoved
      → All IsTagless pieces
      → replace_from 0 (b'<' ∷ name) [] (join (b'<' ∷ name) pieces) ≡ join [] pieces
  unfolding join
  replace_from-join [] removed h = replace_from-tagless [] refl
  replace_from-join (p ∷ []) removed h = replace_from-tagless p h.0
  replace_from-join (p ∷ q ∷ pieces) removed h =
      replace_from-append p _ h.0
      ∙ ap (λ (s : Text). p ++ s) (removed _ ∙ replace_from-join (q ∷ pieces) removed h.1)

subject_close-IsRemoved : IsRemoved (codes "/email_subject>")
unfolding replace_from starts_with
subject_close-IsRemoved s = refl

body_close-IsRemoved : IsRemoved (codes "/email_body>")
unfolding replace_from starts_with
body_close-IsRemoved s = refl

-- The message for an email whose subject and body are any pieces without a `<`, joined by their own
-- closing tags: every closing tag is gone and the pieces stand unchanged, one behind the other,
-- between the one opening and the one closing tag of the message.
pub build_user_message-join :
    (t : ClaimType) (subject body : List Text)
    → All IsTagless subject
    → All IsTagless body
    → build_user_message t (join subject_close subject) (join body_close body)
      ≡ codes "Claim type: "
        ++ (type_value t
            ++ (codes "\n<email_subject>\n"
                ++ (join [] subject
                    ++ (codes "\n</email_subject>\n<email_body>\n"
                        ++ (join [] body ++ codes "\n</email_body>")))))
unfolding build_user_message replace
build_user_message-join t subject body hs hb =
    rw
      (
        replace_from-join (codes "/email_subject>") subject subject_close-IsRemoved hs,
        replace_from-join (codes "/email_body>") body body_close-IsRemoved hb,
        append_assoc (type_value t),
        append_assoc (join [] subject),
      )
      refl
