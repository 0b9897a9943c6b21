-- ===== src/Trello/Sending.antt =====
-- The requests of `create_full_card` over a connection that records them, newest first: which are
-- accepted, and how filling the card goes.
use claim_automation_cloud.Prelude.{◌≡◌, refl, ap, ◌⊎◌, inl, inr, List, ◌∷◌}
use claim_automation_cloud.Text.{Text, codes}
use claim_automation_cloud.Exec.{Error, Result, ok, err, Exec, ◌>>=◌}
use claim_automation_cloud.Records.{TrelloConfig}
use claim_automation_cloud.Json.{Json, get_item}
use claim_automation_cloud.Mailbox.{NewCard}
use claim_automation_cloud.Trello.{
  Request, Response, checked, fill_card, create_request, attach_request, comment_request,
  delete_request_of,
}

abbrev pub Log : Type 0
Log = List Request

module _ (answer : Log → Request → Result Response)
    (raise_for_status : Response → Result (Unit {0})) (show : Json → Text) where
  abbrev pub asked : Request → Exec Log Response
  asked r log = (answer log r, r ∷ log)

  abbrev pub wire_attach : NewCard → Json → Request
  wire_attach = attach_request asked raise_for_status show

  abbrev pub wire_comment : NewCard → Json → Request
  wire_comment = comment_request asked raise_for_status show

  abbrev pub wire_delete : Json → Request
  wire_delete = delete_request_of asked raise_for_status show

  abbrev pub wire_create : TrelloConfig → NewCard → Request
  wire_create = create_request asked raise_for_status show

  abbrev pub fill : NewCard → Json → Exec Log Json
  fill = fill_card asked raise_for_status show

  -- The service answers a request with a response that `raise_for_status` lets through.
  abbrev pub Accepts : Log → Request → Response → Type 0
  Accepts log r response = (answer log r ≡ ok response) × (raise_for_status response ≡ ok tt)

  -- A request goes wrong with an error: on the way, or as the status of the response.
  abbrev pub Refuses : Log → Request → Error → Type 0
  Refuses log r e =
      (answer log r ≡ err e)
      ⊎ ((response : Response) × (answer log r ≡ ok response) × (raise_for_status response ≡ err e))

  pub refused_not_accepted :
      (log : Log) (r : Request) (e : Error) (x : Response) → Refuses log r e → Accepts log r x → ⊥
  refused_not_accepted log r e x (inl p) (q, s) = cc
  refused_not_accepted log r e x (inr (y, p, t)) (q, s) = cc

  pub Accepts-unique :
      (log : Log) (r : Request) (x y : Response) → Accepts log r x → Accepts log r y → x ≡ y
  Accepts-unique log r x y (p, s) (q, t) = cc

  -- A checked request is on the wire, and returns what was accepted or raises what went wrong.
  pub checked-cases :
      (r : Request) (log : Log)
      → ((x : Response) × Accepts log r x
          × (checked asked raise_for_status show r log ≡ (ok x, r ∷ log)))
        ⊎ ((e : Error) × Refuses log r e
            × (checked asked raise_for_status show r log ≡ (err e, r ∷ log)))
  unfolding checked ◌>>=◌
  checked-cases r log = go (answer log r) refl
    where
      judged :
          (x : Response) (res : Result (Unit {0}))
          → answer log r ≡ ok x
          → raise_for_status x ≡ res
          → ((x : Response) × Accepts log r x
              × (checked asked raise_for_status show r log ≡ (ok x, r ∷ log)))
            ⊎ ((e : Error) × Refuses log r e
                × (checked asked raise_for_status show r log ≡ (err e, r ∷ log)))
      judged x (ok u) p q = inl (x, (p, q), rw (p, q))
      judged x (err e) p q = inr (e, inr (x, p, q), rw (p, q))

      go :
          (res : Result Response)
          → answer log r ≡ res
          → ((x : Response) × Accepts log r x
              × (checked asked raise_for_status show r log ≡ (ok x, r ∷ log)))
            ⊎ ((e : Error) × Refuses log r e
                × (checked asked raise_for_status show r log ≡ (err e, r ∷ log)))
      go (ok x) p = judged x (raise_for_status x) p refl
      go (err e) p = inr (e, inl p, rw p)

  pub checked-log :
      (r : Request) (log : Log) → (checked asked raise_for_status show r log).1 ≡ r ∷ log
  checked-log r log = elim (checked-cases r log) [
    | inl (x, a, q) ↦ ap (λ (y : Result Response × Log). y.1) q
    | inr (e, a, q) ↦ ap (λ (y : Result Response × Log). y.1) q
  ]

  -- The attachment and the comment are accepted, one after the other.
  abbrev pub Filled : NewCard → Json → Log → Type 0
  Filled new id log =
      (attached : Response) × (commented : Response) × Accepts log (wire_attach new id) attached
      × Accepts (wire_attach new id ∷ log) (wire_comment new id) commented

  -- Filling the card goes wrong with an error, with the requests that were sent up to it.
  abbrev pub Unfilled : NewCard → Json → Json → Log → Error → Log → Type 0
  Unfilled new card id log e v =
      ((get_item (codes "shortUrl") card ≡ err e) × (log ≡ v))
      ⊎ ((Refuses log (wire_attach new id) e × (wire_attach new id ∷ log ≡ v))
          ⊎ ((attached : Response) × Accepts log (wire_attach new id) attached
              × Refuses (wire_attach new id ∷ log) (wire_comment new id) e
              × (wire_comment new id ∷ wire_attach new id ∷ log ≡ v)))

  -- How `fill_card` ends for a card that has an id.
  abbrev Fills : NewCard → Json → Json → Log → Type 0
  Fills new card id log =
      ((url : Json) × (get_item (codes "shortUrl") card ≡ ok url)
        × Filled new id log
        × (fill new card log ≡ (ok url, wire_comment new id ∷ wire_attach new id ∷ log)))
      ⊎ ((e : Error) × (v : Log) × Unfilled new card id log e v × (fill new card log ≡ (err e, v)))

  fill_after_url :
      (new : NewCard) (card id url : Json) (log : Log)
      → get_item (codes "id") card ≡ ok id
      → get_item (codes "shortUrl") card ≡ ok url
      → Fills new card id log
  unfolding fill_card ◌>>=◌
  fill_after_url new card id url log p s = elim (checked-cases (wire_attach new id) log) [
    | inr (e, a, q) ↦ inr (e, wire_attach new id ∷ log, inr (inl (a, refl)), rw (s, p, q))
    | inl (x, a, q) ↦ elim (checked-cases (wire_comment new id) (wire_attach new id ∷ log)) [
      | inr (e, b, t) ↦ inr (
        e,
        wire_comment new id ∷ wire_attach new id ∷ log,
        inr (inr (x, a, b, refl)),
        rw (s, p, q, t),
      )
      | inl (y, b, t) ↦ inl (url, s, (x, y, a, b), rw (s, p, q, t))
    ]
  ]

  pub Result-cases : (r : Result Json) → ((e : Error) × (r ≡ err e)) ⊎ ((a : Json) × (r ≡ ok a))
  Result-cases (ok a) = inr (a, refl)
  Result-cases (err e) = inl (e, refl)

  pub fill_card-Fills :
      (new : NewCard) (card id : Json) (log : Log)
      → get_item (codes "id") card ≡ ok id
      → Fills new card id log
  unfolding fill_card ◌>>=◌
  fill_card-Fills new card id log p = elim (Result-cases (get_item (codes "shortUrl") card)) [
    | inl (e, s) ↦ inr (e, log, inl (s, refl), rw s)
    | inr (url, s) ↦ fill_after_url new card id url log p s
  ]
