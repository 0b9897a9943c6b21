-- ===== src/Trello.antt =====
-- The Trello client: backend/pipeline/trello_client.py, and `raise_for_status_logged` of
-- backend/pipeline/http_logging.py without its log line. httpx is the parameter `Http`; the client's
-- own state is the header that `preflight` leaves. The lazy opening of the connection is left out.
pub mod Retry
pub mod Sending
pub mod WholeCard
pub mod Lookup
pub mod Boundary
use claim_automation_cloud.Prelude.{
  ℕ, zero, suc, Bool, true, false, not, ◌&&◌, ◌||◌, Option, none, some, List, [], ◌∷◌, ◌++◌, ◌==◌,
  if◌then◌else◌,
}
use claim_automation_cloud.Text.{Text, codes, starts_with, nonempty, Runtime}
use claim_automation_cloud.Exec.{
  Error, Result, ok, err, no_access, runtime_error, type_error, Exec, pure, raise, lift, ◌>>=◌,
  try_except, map_exec,
}
use claim_automation_cloud.Records.{TrelloConfig}
use claim_automation_cloud.Json.{Json, string, get_item, get_or, iterate, truthy}
use claim_automation_cloud.Pdf.{Bytes}
use claim_automation_cloud.Mailbox.{NewCard}

pub data Method : Type 0 where
  get_request post_request delete_request : Method

-- What a request carries: query parameters, form data, or one file.
pub data Payload : Type 0 where
  no_payload : Payload
  query form : List (Text × Text) → Payload
  file : Text → Bytes → Payload

-- `slow`: the attachment's longer timeout, with redirects followed.
pub record Request : Type 0 where
  pub method : Method
  pub path : Text
  pub payload : Payload
  pub slow : Bool

pub record Response : Type 0 where
  pub status : ℕ
  pub body : Result Json
  pub content : Bytes

-- httpx and `time.sleep`; `raise_for_status` decides which responses raise.
pub record Http (W : Type 0) : Type 0 where
  pub request : Option Text → Request → Exec W Response
  pub sleep : ℕ → Exec W (Unit {0})
  pub raise_for_status : Response → Result (Unit {0})

-- `_auth` beside the outside world.
pub record Session (W : Type 0) : Type 0 where
  pub auth : Option Text
  pub world : W

abbrev in_session : {W A : Type 0} → Option Text → Result A × W → Result A × Session W
in_session a (r, w) = (r, record { auth = a; world = w })

abbrev outside : {W A : Type 0} → Exec W A → Exec (Session W) A
outside m s = in_session s.auth (m s.world)

abbrev pub max_429_retries : ℕ
max_429_retries = 2

abbrev pub retry_backoff : ℕ
retry_backoff = 2

abbrev pub path_of : List Text → Text
path_of [] = []
path_of (p ∷ ps) = p ++ path_of ps

abbrev pub get_from : List Text → Request
get_from ps = record { method = get_request; path = path_of ps; payload = no_payload; slow = false }

abbrev post_to : List Text → Payload → Request
post_to ps payload = record {
  method = post_request;
  path = path_of ps;
  payload = payload;
  slow = false;
}

module _ {W : Type 0} (http : Http W) where
  -- The loop of `_request`, with the retries that are left.
  unfoldable pub attempt : ℕ → Option Text → Request → Exec W Response
  attempt zero auth r = http.request auth r
  attempt (suc k) auth r =
      let again = attempt k auth r in
      http.request auth r >>= λ response.
      if response.status == 429 then (http.sleep retry_backoff >>= λ _. again) else pure response

  abbrev sent : Option Text → Request → Exec W Response
  sent none r = raise (runtime_error (codes "preflight() must succeed before Trello API calls"))
  sent (some auth) r = attempt max_429_retries (some auth) r

  -- `_request`
  unfoldable pub request : Request → Exec (Session W) Response
  unfolding attempt
  request r s = outside (sent s.auth r) s

  abbrev set_auth : Text → Exec (Session W) (Unit {0})
  set_auth header s = (ok tt, record { auth = some header; world = s.world })

  abbrev is_configured : Option TrelloConfig → Bool
  is_configured none = false
  is_configured (some config) = nonempty config.board_id && nonempty config.list_id

  abbrev present : Option Text → Bool
  present none = false
  present (some s) = nonempty s

  abbrev no_access_error : Text → Error
  no_access_error reason = no_access (codes "TrelloNoAccessError") reason

  abbrev auth_header : Text → Text → Text
  auth_header api_key token =
      codes "OAuth oauth_consumer_key=\""
      ++ (api_key ++ (codes "\", oauth_token=\"" ++ (token ++ codes "\"")))

  abbrev text_or_empty : Option Text → Text
  text_or_empty none = []
  text_or_empty (some s) = s

  -- `preflight`; `secret` is `SecretStore.get`.
  unfoldable pub preflight :
      Option TrelloConfig → (Text → Exec W (Option Text)) → Exec (Session W) (Unit {0})
  unfolding request
  preflight config secret =
      if not (is_configured config)
      then raise (no_access_error (codes "missing_config"))
      else (outside (secret (codes "trello-api-key")) >>= λ api_key.
          outside (secret (codes "trello-token")) >>= λ token.
          if not (present api_key) || not (present token)
          then raise (no_access_error (codes "missing_credentials"))
          else (set_auth (auth_header (text_or_empty api_key) (text_or_empty token)) >>= λ _.
              request (get_from (codes "/1/members/me" ∷ [])) >>= λ response.
              if response.status == 401
              then raise (no_access_error (codes "token_rejected"))
              else lift (http.raise_for_status response)))

-- The calls behind `preflight`, over `_request` itself; `show` is the `str` of an f-string.
module _ {W : Type 0} (request : Request → Exec W Response)
    (raise_for_status : Response → Result (Unit {0})) (show : Json → Text) where
  -- `_checked`
  unfoldable pub checked : Request → Exec W Response
  checked r = request r >>= λ response. lift (raise_for_status response) >>= λ _. pure response

  abbrev pub delete_request_of : Json → Request
  delete_request_of id = record {
    method = delete_request;
    path = path_of (codes "/1/cards/" ∷ show id ∷ []);
    payload = no_payload;
    slow = false;
  }

  abbrev pub attach_request : NewCard → Json → Request
  attach_request new id =
      post_to (codes "/1/cards/" ∷ show id ∷ codes "/attachments" ∷ [])
        (file new.pdf_filename new.pdf_bytes)

  abbrev pub comment_request : NewCard → Json → Request
  comment_request new id =
      post_to (codes "/1/cards/" ∷ show id ∷ codes "/actions/comments" ∷ [])
        (form ((codes "text", new.comment) ∷ []))

  abbrev pub delete_card : Json → Exec W (Unit {0})
  delete_card card =
      lift (get_item (codes "id") card) >>= λ id. checked (delete_request_of id) >>= λ _. pure tt

  -- The outer `except`: the compensating delete, then the first failure again. The log line of a
  -- failed delete reads `card["id"]` once more.
  unfoldable pub compensate : Json → Error → Exec W Json
  unfolding checked
  compensate card failure =
      try_except (delete_card card) (λ _. lift (get_item (codes "id") card) >>= λ _. pure tt)
      >>= λ _. raise failure

  -- The `try` block of `create_full_card`, behind the create.
  unfoldable pub fill_card : NewCard → Json → Exec W Json
  unfolding checked
  fill_card new card = lift (get_item (codes "shortUrl") card) >>= λ short_url.
      lift (get_item (codes "id") card) >>= λ id. checked (attach_request new id) >>= λ _.
      checked (comment_request new id) >>= λ _. pure short_url

  abbrev pub create_request : TrelloConfig → NewCard → Request
  create_request config new = post_to (codes "/1/cards" ∷ []) (
      form (
        (codes "idList", config.list_id)
        ∷ (codes "name", new.name)
        ∷ (codes "desc", new.description)
        ∷ []))

  unfoldable pub create_full_card : TrelloConfig → NewCard → Exec W Json
  unfolding checked fill_card compensate
  create_full_card config new = checked (create_request config new) >>= λ response.
      lift response.body >>= λ card. try_except (fill_card new card) (compensate card)

  pub add_comment : Text → Text → Exec W (Unit {0})
  unfolding checked
  add_comment card_id text =
      checked (
        post_to (codes "/1/cards/" ∷ card_id ∷ codes "/actions/comments" ∷ [])
          (form ((codes "text", text) ∷ [])))
      >>= λ _. pure tt
