-- ===== src/Mailbox/Branches.antt =====
-- What each branch of `_process_one` asks of the services, call by call.
use mathlib.Core.Path.{subst}
use claim_automation_cloud.Exec.Inversion.{
  pure-eq_ok, lift-eq_ok, or_raise-eq_ok, raise-ne_ok, call-eq_ok, ok-injective, bind-eq_ok,
}
use claim_automation_cloud.Prelude.{
  not, ◌&&◌, ℕ, ◌≡◌, refl, ap, sym, ◌∙◌, true, false, Option, none, some, List, ◌∷◌, ◌++◌, any,
  is_none, Bool-cases, Option-cases, inl, inr, if◌then◌else◌,
}
use claim_automation_cloud.Text.{Text, codes, text_eq, Runtime}
use claim_automation_cloud.Exec.{ok, err, value_error, pure, Exec, ◌>>=◌}
use claim_automation_cloud.Claim.{ClaimData, is_comment_type, is_gestion}
use claim_automation_cloud.Claim.Card.{
  build_card_name, build_card_comment, build_card_description, build_pdf_filename,
}
use claim_automation_cloud.Claim.Message.{Message}
use claim_automation_cloud.Pdf.{Renderer, Bytes, membrete_by_type, generate_pdf_from_email}
use claim_automation_cloud.Records.{ClaimRecord}
use claim_automation_cloud.Mailbox.{
  NewCard, CardFound, ProcessedAction, card, comment, dedup_skip, admit_claim, post_comment,
  create_card, dispatch, process_one, has_notice, claim_ref_of, ledger_row,
}
use claim_automation_cloud.Mailbox.Sender.{sender_domain}
use claim_automation_cloud.Mailbox.Trace.{Call, Log, Services, trello, ledger, membretes, clock}
use claim_automation_cloud.Mailbox.Whole.{one_message}

module _ (sv : Services) (py : Runtime) (renderer : Renderer) where
  -- A message whose sender is unknown or not on the list is refused before anything is asked of any
  -- service: not even the extractor sees it.
  pub process_one-untrusted :
      (m : Message) (allowed : List Text) (log : Log)
      → ((d : Text) → sender_domain py m ≡ some d → any (text_eq d) allowed ≡ false)
      → (reason : Text) × (one_message sv py renderer allowed m log
          ≡ (err (value_error reason), log))
  unfolding process_one admit_claim ◌>>=◌
  process_one-untrusted m allowed log h = elim (Option-cases (sender_domain py m)) [
    | inl unknown ↦ (codes "no_sender", rw unknown)
    | inr (d, e) ↦ (codes "sender_not_allowed domain=" ++ d, rw (e, h d e))
  ]

  -- The calls behind each outcome of `dispatch`, newest first, and the answers that led to it.
  abbrev pub Outcome : ProcessedAction → ClaimData → Log → Log → Type 0
  Outcome card claim log log' =
      (name : Text) × (new : NewCard) × (url : Text) × (let fetched =
          Call.fetch_membrete name ∷ Call.get_claim (claim_ref_of claim) ∷ log in
        let created = Call.create_full_card new ∷ fetched in
        (is_comment_type claim.type ≡ false)
        × (membrete_by_type claim.type ≡ some name)
        × (sv.get_claim log (claim_ref_of claim) ≡ ok none)
        × (generate_pdf_from_email py renderer claim.email_body claim.type (membretes sv)
              (Call.get_claim (claim_ref_of claim) ∷ log)
            ≡ (ok new.pdf_bytes, fetched))
        × (build_card_name py claim ≡ ok new.name)
        × (build_card_comment py claim ≡ ok new.comment)
        × (new.description ≡ build_card_description claim)
        × (new.pdf_filename ≡ build_pdf_filename claim.year claim.claim_number)
        × (sv.create_full_card fetched new ≡ ok url)
        × (log' ≡ Call.record_claim (ledger_row claim url (sv.now created)) ∷ Call.now ∷ created))
  Outcome comment claim log log' =
      (found : CardFound) × (text : Text) × ((is_comment_type claim.type ≡ true)
        × (sv.find_card log (claim_ref_of claim) ≡ ok (some found))
        × (build_card_comment py claim ≡ ok text)
        × (log' ≡ Call.add_comment found.id text ∷ Call.find_card (claim_ref_of claim) ∷ log))
  Outcome dedup_skip claim log log' =
      (row : ClaimRecord) × ((is_comment_type claim.type ≡ false)
        × (sv.get_claim log (claim_ref_of claim) ≡ ok (some row))
        × (log' ≡ Call.get_claim (claim_ref_of claim) ∷ log))

  abbrev pub dispatched : ClaimData → Exec Log ProcessedAction
  dispatched claim = dispatch py renderer (clock sv) claim (trello sv) (membretes sv) (ledger sv)

  -- The equations that a posted comment has gone through, put together.
  comment_steps :
      (claim : ClaimData) (a : ProcessedAction) (found : Option CardFound) (x : CardFound)
      (text : Text) (log v1 v2 v3 v4 log' : Log)
      → is_comment_type claim.type ≡ true
      → sv.find_card log (claim_ref_of claim) ≡ ok found
      → Call.find_card (claim_ref_of claim) ∷ log ≡ v1
      → found ≡ some x
      → v1 ≡ v2
      → build_card_comment py claim ≡ ok text
      → v2 ≡ v3
      → Call.add_comment x.id text ∷ v3 ≡ v4
      → comment ≡ a
      → v4 ≡ log'
      → Outcome a claim log log'
  comment_steps claim a found x text log v1 v2 v3 v4 log' t p1 q1 p2 q2 p3 q3 q4 p5 q5 =
      subst (λ b. Outcome b claim log log') p5 (x, text, (t, cc, p3, cc))

  post_comment-Outcome :
      (claim : ClaimData) (a : ProcessedAction) (log log' : Log)
      → is_comment_type claim.type ≡ true
      → post_comment py renderer (clock sv) claim (trello sv) log ≡ (ok a, log')
      → Outcome a claim log log'
  unfolding post_comment
  post_comment-Outcome claim a log log' t h =
      elim (Bool-cases (is_gestion claim.type && not (has_notice py claim.observaciones))) [
        | inl silent ↦ absurd (raise-ne_ok _ log (rw (silent, post_comment) at h))
        | inr fine ↦
            let (found, v1, e1, k1) = bind-eq_ok _ _ log (rw (fine, post_comment) at h) in
            let (x, v2, e2, k2) = bind-eq_ok _ _ v1 k1 in
            let (text, v3, e3, k3) = bind-eq_ok _ _ v2 k2 in
            let (u, v4, e4, k4) = bind-eq_ok _ _ v3 k3 in
            let (p1, q1) = call-eq_ok _ _ e1 in
            let (p2, q2) = or_raise-eq_ok _ _ v1 e2 in
            let (p3, q3) = lift-eq_ok _ v2 e3 in
            let (p4, q4) = call-eq_ok _ _ e4 in
            let (p5, q5) = pure-eq_ok _ v4 k4 in
            comment_steps claim a found x text log v1 v2 v3 v4 log' t p1 q1 p2 q2 p3 q3 q4 p5 q5
      ]

  pdf_steps :
      (text : Text) (claim : ClaimData) (pdf : Bytes) (log log' : Log)
      → generate_pdf_from_email py renderer text claim.type (membretes sv) log ≡ (ok pdf, log')
      → (name : Text) × (membrete_by_type claim.type ≡ some name)
        × (Call.fetch_membrete name ∷ log ≡ log')
  unfolding generate_pdf_from_email
  pdf_steps text claim pdf log log' h =
      let (name, v1, e1, k1) = bind-eq_ok _ _ log h in
      let (png, v2, e2, k2) = bind-eq_ok _ _ v1 k1 in
      let (size, v3, e3, k3) = bind-eq_ok _ _ v2 k2 in
      let (p1, q1) = or_raise-eq_ok _ _ log e1 in
      let (p2, q2) = call-eq_ok _ _ e2 in
      let (p3, q3) = lift-eq_ok _ v2 e3 in
      let (p4, q4) = lift-eq_ok _ v3 k3 in
      (name, p1, ap (λ (l : Log). Call.fetch_membrete name ∷ l) q1 ∙ (q2 ∙ (q3 ∙ q4)))

  card_steps :
      (claim : ClaimData) (a : ProcessedAction) (pdf : Bytes) (name text url mem : Text) (t : ℕ)
      (log v0 v1 v2 v3 v4 v5 v6 log' : Log)
      → let new : NewCard = record {
        name = name;
        description = build_card_description claim;
        pdf_bytes = pdf;
        pdf_filename = build_pdf_filename claim.year claim.claim_number;
        comment = text;
      } in
        is_comment_type claim.type ≡ false
        → sv.get_claim log (claim_ref_of claim) ≡ ok none
        → Call.get_claim (claim_ref_of claim) ∷ log ≡ v0
        → membrete_by_type claim.type ≡ some mem
        → Call.fetch_membrete mem ∷ v0 ≡ v1
        → generate_pdf_from_email py renderer claim.email_body claim.type (membretes sv) v0
          ≡ (ok pdf, v1)
        → build_card_name py claim ≡ ok name
        → v1 ≡ v2
        → build_card_comment py claim ≡ ok text
        → v2 ≡ v3
        → sv.create_full_card v3 new ≡ ok url
        → Call.create_full_card new ∷ v3 ≡ v4
        → sv.now v4 ≡ t
        → Call.now ∷ v4 ≡ v5
        → Call.record_claim (ledger_row claim url t) ∷ v5 ≡ v6
        → card ≡ a
        → v6 ≡ log'
        → Outcome a claim log log'
  card_steps claim a pdf name text url mem t log v0 v1 v2 v3 v4 v5 v6 log' c p0 q0 pm qm e1 pn qn pt
        qt pu qu pc qc qr pa qa =
      let new : NewCard = record {
        name = name;
        description = build_card_description claim;
        pdf_bytes = pdf;
        pdf_filename = build_pdf_filename claim.year claim.claim_number;
        comment = text;
      } in
      subst (λ b. Outcome b claim log log') pa
        (mem, new, url, (c, pm, p0, rw (q0, qm) e1, pn, pt, refl, refl, cc, cc))

  create_card-Outcome :
      (claim : ClaimData) (a : ProcessedAction) (log v0 log' : Log)
      → is_comment_type claim.type ≡ false
      → sv.get_claim log (claim_ref_of claim) ≡ ok none
      → Call.get_claim (claim_ref_of claim) ∷ log ≡ v0
      → create_card py renderer (clock sv) claim (trello sv) (membretes sv) (ledger sv) v0
        ≡ (ok a, log')
      → Outcome a claim log log'
  unfolding create_card
  create_card-Outcome claim a log v0 log' c p0 q0 h =
      let (pdf, v1, e1, k1) = bind-eq_ok _ _ v0 h in
      let (name, v2, e2, k2) = bind-eq_ok _ _ v1 k1 in
      let (text, v3, e3, k3) = bind-eq_ok _ _ v2 k2 in
      let (url, v4, e4, k4) = bind-eq_ok _ _ v3 k3 in
      let (t, v5, e5, k5) = bind-eq_ok _ _ v4 k4 in
      let (u, v6, e6, k6) = bind-eq_ok _ _ v5 k5 in
      let (mem, pm, qm) = pdf_steps claim.email_body claim pdf v0 v1 e1 in
      let (pn, qn) = lift-eq_ok _ v1 e2 in
      let (pt, qt) = lift-eq_ok _ v2 e3 in
      let (pu, qu) = call-eq_ok _ _ e4 in
      let (pc, qc) = call-eq_ok _ _ e5 in
      let (pr, qr) = call-eq_ok _ _ e6 in
      let (pa, qa) = pure-eq_ok _ v6 k6 in
      card_steps claim a pdf name text url mem t log v0 v1 v2 v3 v4 v5 v6 log' c p0 q0 pm qm e1 pn
        qn pt qt pu qu (ok-injective pc) qc qr pa qa

  row_branch :
      (claim : ClaimData) (a : ProcessedAction) (row : Option ClaimRecord) (log v0 log' : Log)
      → is_comment_type claim.type ≡ false
      → sv.get_claim log (claim_ref_of claim) ≡ ok row
      → Call.get_claim (claim_ref_of claim) ∷ log ≡ v0
      → (if is_none row
            then create_card py renderer (clock sv) claim (trello sv) (membretes sv) (ledger sv)
            else pure dedup_skip)
          v0
        ≡ (ok a, log')
      → Outcome a claim log log'
  row_branch claim a none log v0 log' c p q h = create_card-Outcome claim a log v0 log' c p q h
  row_branch claim a (some row) log v0 log' c p q h =
      let (pa, qa) = pure-eq_ok _ v0 h in
      subst (λ b. Outcome b claim log log') pa (row, (c, p, sym qa ∙ sym q))

  -- What an admitted claim has led to when its handling returns. A card: the ledger had no row, and
  -- the letterhead was fetched, the full card made, the clock read and the row recorded, in that
  -- order and nothing else; the card has the built name, description, comment and file name and the
  -- PDF that was generated from the email's body, and the row has the claim, the card's address and
  -- the clock's time. A comment: the live search found
  -- a card and the comment went to it, and the ledger was not asked. A skip: the ledger had a row,
  -- and Trello was not touched.
  pub dispatch-Outcome :
      (claim : ClaimData) (a : ProcessedAction) (log log' : Log)
      → dispatched claim log ≡ (ok a, log')
      → Outcome a claim log log'
  unfolding dispatch
  dispatch-Outcome claim a log log' h = elim (Bool-cases (is_comment_type claim.type)) [
    | inl commented ↦
        post_comment-Outcome claim a log log' commented (rw (commented, dispatch) at h)
    | inr carded ↦
        let (row, v0, e0, k0) = bind-eq_ok _ _ log (rw (carded, dispatch) at h) in
        let (p0, q0) = call-eq_ok _ _ e0 in row_branch claim a row log v0 log' carded p0 q0 k0
  ]
