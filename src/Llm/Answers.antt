-- ===== src/Llm/Answers.antt =====
-- What an extraction returns: `LlmFieldExtractor.extract` with its validators.
use claim_automation_cloud.Prelude.{
  ℕ, ◌≡◌, refl, sym, ap, ◌∙◌, Bool, true, false, ◌&&◌, Option, none, some, [], ◌∷◌, all, filter,
  arith,
}
use mathlib.Core.Path.{subst}
use claim_automation_cloud.Text.{Text, nonempty, strip, Runtime}
use claim_automation_cloud.Exec.{ok}
use claim_automation_cloud.Exec.Inversion.{bind-eq_ok, pure-eq_ok, raise-ne_ok}
use claim_automation_cloud.Claim.{ClaimType, ClaimFields, llm, regex_fallback}
use claim_automation_cloud.Extraction.{regex_extract}
use claim_automation_cloud.Llm.{
  Agent, Reply, answered, failed, crashed, Answer, comunicacion, siniestro, is_nif_char, Raw,
  absent, words, digits, output_model_by_type, build_user_message, num_to_str, digits_only,
  plausible_nif, to_claim_fields, mark, on_reply, extract, some_if,
}

filter-all : (p : ℕ → Bool) (s : Text) → all p (filter p s) ≡ true
filter-all p [] = refl
filter-all p (c ∷ s) = ground (arith, filter-all p s)

module _ (py : Runtime) (str : ℕ → Text) where
  -- The text that the model put in a field, a number as its digits.
  abbrev pub Says : Raw → Text → Type 0
  Says absent s = ⊥
  Says (words t) s = t ≡ s
  Says (digits n) s = str n ≡ s

  -- The NIF that is kept of an answer: the text in capitals without the space around it, if that is
  -- capital letters and digits, and nothing otherwise.
  abbrev pub IsNif : Raw → Option Text → Type 0
  IsNif raw none =
      (s : Text)
      → Says raw s
      → let upper = py.upper (strip py.is_space s) in
        nonempty upper && all is_nif_char upper ≡ false
  IsNif raw (some nif) =
      (s : Text) × (Says raw s)
      × (py.upper (strip py.is_space s) ≡ nif)
      × (nonempty nif ≡ true)
      × (all is_nif_char nif ≡ true)

  -- The phone number that is kept of an answer: the digits of the text, if it has any.
  abbrev pub IsPhone : Raw → Option Text → Type 0
  IsPhone raw none = (s : Text) → Says raw s → filter py.is_digit s ≡ []
  IsPhone raw (some phone) =
      (s : Text) × (Says raw s)
      × (filter py.is_digit s ≡ phone)
      × (nonempty phone ≡ true)
      × (all py.is_digit phone ≡ true)

  -- The fields that an answer becomes.
  abbrev pub Reads : Answer → ClaimFields → Type 0
  Reads (comunicacion observaciones) fields =
      (fields.observaciones ≡ observaciones)
      × (fields.insurance_company ≡ none)
      × (fields.nif ≡ none)
      × (fields.address ≡ none)
      × (fields.phone_number ≡ none)
      × (fields.town ≡ none)
      × (fields.description ≡ none)
      × (fields.owner_name ≡ none)
  Reads (siniestro company nif address phone_number town description owner_name) fields =
      (fields.observaciones ≡ none)
      × (fields.insurance_company ≡ company)
      × IsNif nif fields.nif
      × (fields.address ≡ address)
      × IsPhone phone_number fields.phone_number
      × (fields.town ≡ town)
      × (fields.description ≡ description)
      × (fields.owner_name ≡ owner_name)

  kept_if-IsNif :
      (raw : Raw) (s : Text) (b : Bool)
      → Says raw s
      → ((t : Text) → Says raw t → s ≡ t)
      → let upper = py.upper (strip py.is_space s) in
        nonempty upper && all is_nif_char upper ≡ b → IsNif raw (some_if b upper)
  kept_if-IsNif raw s true p only h = (s, p, refl, ground arith, ground arith)
  kept_if-IsNif raw s false p only h = λ t q. rw (← only t q) h

  kept_if-IsPhone :
      (raw : Raw) (s : Text) (kept : Text)
      → Says raw s
      → ((t : Text) → Says raw t → s ≡ t)
      → filter py.is_digit s ≡ kept
      → IsPhone raw (some_if (nonempty kept) kept)
  kept_if-IsPhone raw s [] p only h = λ t q. rw (← only t q) h
  kept_if-IsPhone raw s (c ∷ kept) p only h =
      (s, p, h, refl, subst (λ x. all py.is_digit x ≡ true) h (filter-all py.is_digit s))

  plausible_nif-IsNif : (raw : Raw) → IsNif raw (plausible_nif py str (num_to_str py str raw))
  unfolding plausible_nif
  plausible_nif-IsNif absent = λ s q. absurd q
  plausible_nif-IsNif (words s) = kept_if-IsNif (words s) s _ refl (λ t q. q) refl
  plausible_nif-IsNif (digits n) = kept_if-IsNif (digits n) (str n) _ refl (λ t q. q) refl

  digits_only-IsPhone : (raw : Raw) → IsPhone raw (digits_only py str (num_to_str py str raw))
  unfolding digits_only
  digits_only-IsPhone absent = λ s q. absurd q
  digits_only-IsPhone (words s) = kept_if-IsPhone (words s) s _ refl (λ t q. q) refl
  digits_only-IsPhone (digits n) = kept_if-IsPhone (digits n) (str n) _ refl (λ t q. q) refl

  to_claim_fields-Reads :
      (answer : Answer) → Reads answer (mark py str llm (to_claim_fields py str answer))
  unfolding to_claim_fields
  to_claim_fields-Reads (comunicacion observaciones) =
      (refl, refl, refl, refl, refl, refl, refl, refl)
  to_claim_fields-Reads (siniestro company nif address phone town description owner) =
      (refl, refl, plausible_nif-IsNif nif, refl, digits_only-IsPhone phone, refl, refl, refl)

  -- What an extraction returns after the agent's reply: nothing after a crash.
  abbrev pub Gives : ClaimType → Text → Text → Text → Reply → ClaimFields → Type 0
  Gives t subject body raw (answered answer) fields =
      (fields.extractor_used ≡ some llm) × Reads answer fields
  Gives t subject body raw (failed error reason) fields =
      (fields.extractor_used ≡ some regex_fallback)
      × (record fields { extractor_used = none }
          ≡ record (regex_extract py t subject body raw) { extractor_used = none })
  Gives t subject body raw (crashed e) fields = ⊥

  module _ {W : Type 0} (agent : Agent W) where
    -- An extraction that returns has asked the agent once, and nothing else, with the type's schema and
    -- the built message. After an answer its fields are marked as the model's and are the answer's:
    -- the texts as they are, the NIF in capitals if it is letters and digits, the phone number's digits,
    -- and nothing in the fields of the other schema. After a recognised failure they are the regex
    -- extractor's, marked as the fallback. After any other exception it does not return.
    pub extract-Gives :
        (t : ClaimType) (subject body raw : Text) (w w' : W) (fields : ClaimFields)
        → extract py str agent t subject body raw w ≡ (ok fields, w')
        → (reply : Reply) × (agent (output_model_by_type t) (build_user_message t subject body) w
            ≡ (ok reply, w'))
          × Gives t subject body raw reply fields
    unfolding extract
    extract-Gives t subject body raw w w' fields h =
        let (reply, v, e, k) = bind-eq_ok _ _ w h in
        let (g, q) = from_reply reply v k in (reply, e ∙ ap (λ (x : W). (ok reply, x)) q, g)
      where
        from_reply :
            (reply : Reply) (v : W)
            → on_reply py str agent t subject body raw reply v ≡ (ok fields, w')
            → Gives t subject body raw reply fields × (v ≡ w')
        from_reply (answered answer) v k =
            let (p, q) = pure-eq_ok _ v k in
            (
              subst (λ f. (f.extractor_used ≡ some llm) × Reads answer f) p
                  (refl, to_claim_fields-Reads answer),
              q,
            )
        from_reply (failed error reason) v k =
            let (p, q) = pure-eq_ok _ v k in
            (
              (
                ap (λ (f : ClaimFields). f.extractor_used) (sym p),
                ap (λ (f : ClaimFields). record f { extractor_used = none }) (sym p),
              ),
              q,
            )
        from_reply (crashed e) v k = absurd (raise-ne_ok e v k)
