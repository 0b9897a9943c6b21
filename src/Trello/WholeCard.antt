-- ===== src/Trello/WholeCard.antt =====
-- `create_full_card` over a connection that records its requests, newest first: what is on the wire
-- when it returns or raises.
use claim_automation_cloud.Prelude.{◌≡◌, refl, sym, ap, ◌∙◌, ◌⊎◌, inl, inr, ◌∷◌}
use claim_automation_cloud.Text.{Text, codes}
use claim_automation_cloud.Exec.{Error, Result, ok, err, Exec, raise, pure, ◌>>=◌, try_except}
use claim_automation_cloud.Records.{TrelloConfig}
use claim_automation_cloud.Json.{Json, get_item}
use claim_automation_cloud.Mailbox.{NewCard}
use claim_automation_cloud.Trello.{
  Request, Response, checked, create_full_card, fill_card, compensate, delete_card,
}
use claim_automation_cloud.Trello.Sending.{
  Log, asked, wire_attach, wire_comment, wire_delete, wire_create, fill, Accepts,
  refused_not_accepted, Accepts-unique, checked-cases, checked-log, Filled, Unfilled, Result-cases,
  fill_card-Fills,
}

module _ (answer : Log → Request → Result Response)
    (raise_for_status : Response → Result (Unit {0})) (show : Json → Text) where
  then_pure-log :
      (m : Exec Log Response) (b : Unit {0}) (log : Log) → ((m >>= λ _. pure b) log).1 ≡ (m log).1
  unfolding ◌>>=◌
  then_pure-log m b log = go (m log).0 (m log).1
    where
      go : (r : Result Response) (v : Log) → (((λ _. (r, v)) >>= λ _. pure b) log).1 ≡ v
      go (ok a) v = refl
      go (err e) v = refl

  delete_card-log :
      (card id : Json) (log : Log)
      → get_item (codes "id") card ≡ ok id
      → (delete_card (asked answer raise_for_status show) raise_for_status show card log).1
        ≡ wire_delete answer raise_for_status show id ∷ log
  unfolding ◌>>=◌
  delete_card-log card id log h = rw (
    h,
    then_pure-log
        (checked (asked answer raise_for_status show) raise_for_status show
          (wire_delete answer raise_for_status show id))
        tt log,
    checked-log answer raise_for_status show (wire_delete answer raise_for_status show id) log,
  )

  guarded-eq :
      (m : Exec Log (Unit {0})) (other : Error → Exec Log (Unit {0})) (e : Error) (log v : Log)
      → (m log).1 ≡ v
      → ((x : Error) → other x v ≡ (ok tt, v))
      → (try_except m other >>= λ _. raise {A = Json} e) log ≡ (err e, v)
  unfolding ◌>>=◌ try_except
  guarded-eq m other e log v p h = go (m log).0 (m log).1 p
    where
      go :
          (r : Result (Unit {0})) (u : Log)
          → u ≡ v
          → (try_except (λ _. (r, u)) other >>= λ _. raise {A = Json} e) log ≡ (err e, v)
      go (ok a) u q = rw q
      go (err x) u q = rw (q, h x)

  compensate-eq :
      (card id : Json) (e : Error) (log : Log)
      → get_item (codes "id") card ≡ ok id
      → compensate (asked answer raise_for_status show) raise_for_status show card e log
        ≡ (err e, wire_delete answer raise_for_status show id ∷ log)
  unfolding compensate ◌>>=◌
  compensate-eq card id e log h =
      guarded-eq (delete_card (asked answer raise_for_status show) raise_for_status show card) _ e
        log (wire_delete answer raise_for_status show id ∷ log) (delete_card-log card id log h)
        (λ x. rw h)

  compensate-no_id :
      (card : Json) (e x : Error) (log : Log)
      → get_item (codes "id") card ≡ err x
      → compensate (asked answer raise_for_status show) raise_for_status show card e log
        ≡ (err x, log)
  unfolding compensate ◌>>=◌ try_except
  compensate-no_id card e x log h = rw h

  fill-no_id :
      (new : NewCard) (card : Json) (x : Error) (log : Log)
      → get_item (codes "id") card ≡ err x
      → (y : Error) × (fill answer raise_for_status show new card log ≡ (err y, log))
  unfolding fill_card ◌>>=◌
  fill-no_id new card x log h = go (get_item (codes "shortUrl") card) refl
    where
      go :
          (r : Result Json)
          → get_item (codes "shortUrl") card ≡ r
          → (y : Error) × (fill answer raise_for_status show new card log ≡ (err y, log))
      go (ok url) p = (x, rw (p, h))
      go (err y) p = (y, rw p)

  -- The first request was accepted, and the response's body is the card.
  abbrev pub Made : TrelloConfig → NewCard → Log → Json → Type 0
  Made config new log card =
      (response : Response) × Accepts answer raise_for_status show log
        (wire_create answer raise_for_status show config new) response
      × (response.body ≡ ok card)

  Made-unique :
      (config : TrelloConfig) (new : NewCard) (log : Log) (response : Response) (r : Result Json)
      (card : Json)
      → Accepts answer raise_for_status show log
          (wire_create answer raise_for_status show config new)
          response
      → response.body ≡ r
      → Made config new log card
      → r ≡ ok card
  Made-unique config new log response r card a b (other, c, d) =
      sym b
      ∙ (ap (λ (x : Response). x.body)
            (Accepts-unique answer raise_for_status show log
              (wire_create answer raise_for_status show config new) _ _ a c)
          ∙ d)

  -- The card is whole, was never made, or is deleted again.
  abbrev pub Ends : TrelloConfig → NewCard → Log → Result Json × Log → Type 0
  Ends config new log out =
      ((card : Json) × (id : Json) × (url : Json) × Made config new log card
        × (get_item (codes "id") card ≡ ok id)
        × (get_item (codes "shortUrl") card ≡ ok url)
        × Filled answer raise_for_status show new id
            (wire_create answer raise_for_status show config new ∷ log)
        × (out ≡ (
          ok url,
          wire_comment answer raise_for_status show new id
              ∷ wire_attach answer raise_for_status show new id
              ∷ wire_create answer raise_for_status show config new
              ∷ log,
        )))
      ⊎ (((e : Error) × ((card id : Json)
              → Made config new log card
              → get_item (codes "id") card ≡ ok id
              → ⊥)
            × (out ≡ (err e, wire_create answer raise_for_status show config new ∷ log)))
          ⊎ ((card : Json) × (id : Json) × (e : Error) × (v : Log) × Made config new log card
              × (get_item (codes "id") card ≡ ok id)
              × Unfilled answer raise_for_status show new card id
                  (wire_create answer raise_for_status show config new ∷ log) e v
              × (out ≡ (err e, wire_delete answer raise_for_status show id ∷ v))))

  abbrev wired : TrelloConfig → NewCard → Exec Log Json
  wired = create_full_card (asked answer raise_for_status show) raise_for_status show

  ok_ne : {e : Error} {a : Json} → err e ≡ ok a → ⊥
  ok_ne h = cc

  -- The rest of the making, for a card with an id.
  filled :
      (config : TrelloConfig) (new : NewCard) (log : Log) (response : Response) (card id : Json)
      → Accepts answer raise_for_status show log
          (wire_create answer raise_for_status show config new)
          response
      → checked
          (asked answer raise_for_status show)
          raise_for_status
          show
          (wire_create answer raise_for_status show config new)
          log
        ≡ (ok response, wire_create answer raise_for_status show config new ∷ log)
      → response.body ≡ ok card
      → get_item (codes "id") card ≡ ok id
      → Ends config new log (wired config new log)
  unfolding create_full_card ◌>>=◌ try_except
  filled config new log response card id a c b p =
      elim (fill_card-Fills answer raise_for_status show new card id
        (wire_create answer raise_for_status show config new ∷ log) p) [
          | inl (url, s, f, q) ↦ inl (card, id, url, (response, a, b), p, s, f, rw (c, b, q))
          | inr (e, v, f, q) ↦ inr (
              inr
                (card, id, e, v, (response, a, b), p, f, rw (c, b, q, compensate-eq card id e v p)))
        ]

  -- The rest of the making, for a card without an id.
  nameless :
      (config : TrelloConfig) (new : NewCard) (log : Log) (response : Response) (card : Json)
      (x : Error)
      → Accepts answer raise_for_status show log
          (wire_create answer raise_for_status show config new)
          response
      → checked
          (asked answer raise_for_status show)
          raise_for_status
          show
          (wire_create answer raise_for_status show config new)
          log
        ≡ (ok response, wire_create answer raise_for_status show config new ∷ log)
      → response.body ≡ ok card
      → get_item (codes "id") card ≡ err x
      → Ends config new log (wired config new log)
  unfolding create_full_card ◌>>=◌ try_except
  nameless config new log response card x a c b p =
      let (y, q) =
        fill-no_id new card x (wire_create answer raise_for_status show config new ∷ log) p in
      inr (
        inl (
          x,
          λ other id m i.
              let same = Made-unique config new log response (ok card) other a b m in
              ok_ne (sym p ∙ (ap (λ (r : Result Json). named r) same ∙ i)),
          rw (
            c,
            b,
            q,
            compensate-no_id card y x (wire_create answer raise_for_status show config new ∷ log) p,
          ),
        ))
    where
      named : Result Json → Result Json
      named (ok j) = get_item (codes "id") j
      named (err e) = err e

  made :
      (config : TrelloConfig) (new : NewCard) (log : Log) (response : Response)
      → Accepts answer raise_for_status show log
          (wire_create answer raise_for_status show config new)
          response
      → checked
          (asked answer raise_for_status show)
          raise_for_status
          show
          (wire_create answer raise_for_status show config new)
          log
        ≡ (ok response, wire_create answer raise_for_status show config new ∷ log)
      → Ends config new log (wired config new log)
  unfolding create_full_card ◌>>=◌
  made config new log response a c =
      elim (Result-cases answer raise_for_status show response.body) [
        | inl (e, b) ↦ inr (
            inl (
              e,
              λ card id m i. ok_ne (Made-unique config new log response (err e) card a b m),
              rw (c, b),
            ))
        | inr (card, b) ↦
            elim (Result-cases answer raise_for_status show (get_item (codes "id") card)) [
              | inl (x, p) ↦ nameless config new log response card x a c b p
              | inr (id, p) ↦ filled config new log response card id a c b p
            ]
      ]

  -- Making a full card ends in one of three ways. It returns the short address of the card in the
  -- answer, and the create, the attachment and the comment for the card's id were sent and each
  -- accepted: answered with a status that does not raise. Or it raises after the create alone, and
  -- no accepted answer named a card. Or the create was accepted with a card, it raises the error that
  -- filling the card met, a missing address or a refused attachment or comment, and the last request
  -- sent deletes that card.
  pub create_full_card-Ends :
      (config : TrelloConfig) (new : NewCard) (log : Log)
      → Ends config new log (
          create_full_card
            (asked answer raise_for_status show)
            raise_for_status
            show
            config
            new
            log)
  unfolding create_full_card ◌>>=◌
  create_full_card-Ends config new log =
      elim (checked-cases answer raise_for_status show
        (wire_create answer raise_for_status show config new) log) [
          | inl (response, a, c) ↦ made config new log response a c
          | inr (e, a, c) ↦ inr (
              inl (
                e,
                λ card id m i.
                    refused_not_accepted answer raise_for_status show log
                      (wire_create answer raise_for_status show config new) e m.0 a m.1,
                rw c,
              ))
        ]
