-- ===== src/Trello/Lookup.antt =====
-- Reading the board: `find_card_by_claim_ref`, `list_attachments` and `download_attachment` of
-- backend/pipeline/trello_client.py.
use claim_automation_cloud.Prelude.{
  ℕ, Bool, true, false, not, ◌&&◌, ◌||◌, Option, none, some, List, [], ◌∷◌, ◌==◌, if◌then◌else◌,
}
use claim_automation_cloud.Text.{Text, codes}
use claim_automation_cloud.Exec.{Result, ok, err, type_error, Exec, pure, lift, ◌>>=◌, map_exec}
use claim_automation_cloud.Records.{TrelloConfig}
use claim_automation_cloud.Json.{Json, null, string, get_item, get_or, iterate, truthy}
use claim_automation_cloud.Pdf.{Bytes}
use claim_automation_cloud.Trello.{
  get_request, no_payload, query, Request, Response, path_of, get_from, checked,
}

-- `(?!\d)`
abbrev pub no_digit_ahead : (ℕ → Bool) → Text → Bool
no_digit_ahead is_digit [] = true
no_digit_ahead is_digit (c ∷ s) = not (is_digit c)

-- The pattern of `find_card_by_claim_ref` at one position.
unfoldable pub matches_at : (ℕ → Bool) → Text → Text → Bool
matches_at is_digit [] s = no_digit_ahead is_digit s
matches_at is_digit (p ∷ ps) [] = false
matches_at is_digit (p ∷ ps) (c ∷ s) = p == c && matches_at is_digit ps s

-- `pattern.search(name)`
unfoldable pub ref_search : (ℕ → Bool) → Text → Text → Bool
unfolding matches_at
ref_search is_digit ref [] = matches_at is_digit ref []
ref_search is_digit ref (c ∷ s) = matches_at is_digit ref (c ∷ s) || ref_search is_digit ref s

abbrev search_name : (ℕ → Bool) → Text → Json → Result Bool
search_name is_digit ref (string name) = ok (ref_search is_digit ref name)
search_name is_digit ref value = err type_error

pub record Attachment : Type 0 where
  pub id : Json
  pub name : Json
  pub is_upload : Bool

module _ {W : Type 0} (request : Request → Exec W Response)
    (raise_for_status : Response → Result (Unit {0})) (show : Json → Text) where
  unfoldable pub first_match : (ℕ → Bool) → Text → List Json → Exec W (Option Json)
  unfolding ref_search
  first_match is_digit ref [] = pure none
  first_match is_digit ref (card ∷ cards) =
      lift (get_or (codes "name") (string []) card) >>= λ name.
      lift (search_name is_digit ref name) >>= λ hit.
      if hit then pure (some card) else first_match is_digit ref cards

  -- `for x in self._checked(self._request(...)).json()`
  abbrev listing : Request → Exec W (List Json)
  listing r = checked request raise_for_status show r >>= λ response.
      lift response.body >>= λ body. lift (iterate body)

  abbrev unless_found : Exec W (Option Json) → Option Json → Exec W (Option Json)
  unless_found m (some card) = pure (some card)
  unless_found m none = m

  unfoldable pub search_lists : (ℕ → Bool) → Text → List Json → Exec W (Option Json)
  unfolding checked first_match
  search_lists is_digit ref [] = pure none
  search_lists is_digit ref (board_list ∷ lists) = lift (get_item (codes "id") board_list) >>= λ id.
      listing (get_from (codes "/1/lists/" ∷ show id ∷ codes "/cards" ∷ [])) >>= λ cards.
      first_match is_digit ref cards >>= unless_found (search_lists is_digit ref lists)

  unfoldable pub find_card_by_claim_ref : TrelloConfig → (ℕ → Bool) → Text → Exec W (Option Json)
  unfolding checked search_lists first_match
  find_card_by_claim_ref config is_digit ref =
      listing (get_from (codes "/1/boards/" ∷ config.board_id ∷ codes "/lists" ∷ []))
      >>= search_lists is_digit ref
      >>= unless_found (
          listing (record {
            method = get_request;
            path = path_of (codes "/1/boards/" ∷ config.board_id ∷ codes "/cards" ∷ []);
            payload = query ((codes "filter", codes "closed") ∷ []);
            slow = false;
          })
          >>= first_match is_digit ref)

  unfoldable pub list_attachments : Text → Exec W (List Attachment)
  unfolding checked map_exec
  list_attachments card_id =
      listing (record {
        method = get_request;
        path = path_of (codes "/1/cards/" ∷ card_id ∷ codes "/attachments" ∷ []);
        payload = query ((codes "fields", codes "id,name,isUpload") ∷ []);
        slow = false;
      })
      >>= map_exec (λ value. lift (get_item (codes "id") value) >>= λ id.
          lift (get_item (codes "name") value) >>= λ name.
          lift (get_or (codes "isUpload") null value) >>= λ is_upload.
          pure (record { id = id; name = name; is_upload = truthy is_upload }))

  -- `quote` is `urllib.parse.quote` with no safe character.
  unfoldable pub download_attachment : (Text → Text) → Text → Text → Text → Exec W Bytes
  unfolding checked
  download_attachment quote card_id attachment_id name =
      checked request raise_for_status show (record {
        method = get_request;
        path = path_of (
            codes "/1/cards/"
            ∷ card_id
            ∷ codes "/attachments/"
            ∷ attachment_id
            ∷ codes "/download/"
            ∷ quote name
            ∷ []);
        payload = no_payload;
        slow = true;
      })
      >>= λ response. pure response.content
