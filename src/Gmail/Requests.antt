-- ===== src/Gmail/Requests.antt =====
-- The requests of the Gmail client: `_get`, `_post` and the calls over them, with the JSON that each reads
-- and writes, and the interface of the client filled by them. The lazy opening of the connection is left
-- out; `lower` is `str.lower`, `str` prints a number. Identifiers, names and header values are taken to be
-- text, and a malformed list of labels to raise before any label is remembered.
use claim_automation_cloud.Prelude.{ℕ, Bool, Option, none, some, List, [], ◌∷◌, ◌++◌, if◌then◌else◌}
use claim_automation_cloud.Text.{Text, codes, text_eq}
use claim_automation_cloud.Exec.{
  runtime_error, type_error, Result, ok, err, Exec, pure, lift, ◌>>=◌, map_exec,
}
use claim_automation_cloud.Json.{
  Json, null, string, array, object, Items, no_items, item, no_fields, field, get_item, get_or,
  iterate, truthy,
}
use claim_automation_cloud.Config.{Settings}
use claim_automation_cloud.Secrets.{SecretStore}
use claim_automation_cloud.Gmail.{GmailApi, TokenAnswer, probe_max_results}

-- What the client reads of a response; `body` is `response.json()`.
pub record Response : Type 0 where
  pub status : ℕ
  pub body : Result Json

-- httpx: an address, the query or the JSON body, and the value of the `Authorization` header.
pub record GmailHttp (W : Type 0) : Type 0 where
  pub get : Text → List (Text × Text) → Text → Exec W Response
  pub post : Text → Json → Text → Exec W Response
  pub post_form : Text → List (Text × Text) → Exec W Response
  pub raise_for_status : Response → Result (Unit {0})

abbrev messages_path : Text
messages_path = codes "/gmail/v1/users/me/messages"

abbrev labels_path : Text
labels_path = codes "/gmail/v1/users/me/labels"

abbrev text_items : List Text → Items
text_items [] = no_items
text_items (t ∷ ts) = item (string t) (text_items ts)

abbrev text_value : Json → Result Text
text_value (string s) = ok s
text_value j = err type_error

abbrev error_field : Result Json → Json
error_field (ok j) = j
error_field (err e) = string []

-- `_error_code`, for a body that is text where it is an error; any other error code is not definitive.
abbrev code_text : Json → Text
code_text (string s) = s
code_text j = []

unfoldable pub error_code : Result Json → Text
error_code (ok (object fields)) =
    code_text (error_field (get_or (codes "error") (string []) (object fields)))
error_code body = []

abbrev query_part : Option Text → List (Text × Text)
query_part none = []
query_part (some q) = (codes "q", q) ∷ []

module _ {W : Type 0} (str : ℕ → Text) (lower : Text → Text) (http : GmailHttp W)
    (settings : Settings) where
  -- `_auth_header`; the token is the client's own.
  unfoldable pub auth_header : Option Text → Result Text
  auth_header none = err (runtime_error (codes "preflight() must succeed before Gmail API calls"))
  auth_header (some token) = ok (codes "Bearer " ++ token)

  abbrev checked : Response → Exec W Json
  checked response = lift (http.raise_for_status response) >>= λ _. lift response.body

  -- `_get`
  unfoldable pub get_json : Option Text → Text → List (Text × Text) → Exec W Json
  unfolding auth_header
  get_json token path params = lift (auth_header token) >>= λ header.
      http.get (settings.gmail_api_base_url ++ path) params header >>= checked

  -- `_post`
  unfoldable pub post_json : Option Text → Text → Json → Exec W Json
  unfolding auth_header
  post_json token path body = lift (auth_header token) >>= λ header.
      http.post (settings.gmail_api_base_url ++ path) body header >>= checked

  abbrev message_ids : Json → Exec W (List Text)
  message_ids body = lift (get_or (codes "messages") (array no_items) body) >>= λ messages.
      lift (iterate messages)
      >>= map_exec (λ m. lift (get_item (codes "id") m) >>= λ id. lift (text_value id))

  unfoldable pub list_unread_message_ids : Option Text → Option Text → Exec W (List Text)
  unfolding get_json map_exec
  list_unread_message_ids token query =
      get_json token messages_path (
        (codes "labelIds", codes "UNREAD")
        ∷ (codes "maxResults", str probe_max_results)
        ∷ query_part query)
      >>= message_ids

  unfoldable pub get_message : Option Text → Text → Exec W Json
  unfolding get_json
  get_message token message_id =
      get_json token (messages_path ++ (codes "/" ++ message_id))
        ((codes "format", codes "full") ∷ [])

  unfoldable pub modify_labels : Option Text → Text → List Text → List Text → Exec W (Unit {0})
  unfolding post_json
  modify_labels token message_id add remove =
      post_json token (messages_path ++ (codes "/" ++ (message_id ++ codes "/modify"))) (
        object (
          field (codes "addLabelIds") (array (text_items add))
            (field (codes "removeLabelIds") (array (text_items remove)) no_fields)))
      >>= λ _. pure tt

  abbrev is_subject : Json → Exec W Bool
  is_subject header = lift (get_or (codes "name") (string []) header) >>= λ name.
      lift (text_value name) >>= λ name. pure (text_eq (lower name) (codes "subject"))

  -- The first header that is the subject.
  unfoldable pub subject_in : List Json → Exec W Text
  subject_in [] = pure []
  subject_in (header ∷ headers) =
      let rest = subject_in headers in
      is_subject header >>= λ found.
      if found
      then (lift (get_or (codes "value") (string []) header) >>= λ value. lift (text_value value))
      else rest

  unfoldable pub get_subject : Option Text → Text → Exec W Text
  unfolding get_json subject_in
  get_subject token message_id =
      get_json token (messages_path ++ (codes "/" ++ message_id))
        ((codes "format", codes "metadata") ∷ (codes "metadataHeaders", codes "Subject") ∷ [])
      >>= λ body. lift (get_item (codes "payload") body) >>= λ payload.
          lift (get_item (codes "headers") payload) >>= λ headers.
          lift (iterate headers) >>= subject_in

  abbrev label_of : Json → Exec W (Text × Text)
  label_of label = lift (get_item (codes "name") label) >>= λ name.
      lift (text_value name) >>= λ name.
      lift (get_item (codes "id") label) >>= λ id. lift (text_value id) >>= λ id. pure (name, id)

  -- The list of the labels in `get_or_create_label_id`.
  unfoldable pub list_labels : Option Text → Exec W (List (Text × Text))
  unfolding get_json map_exec
  list_labels token = get_json token labels_path [] >>= λ body.
      lift (get_or (codes "labels") (array no_items) body) >>= λ labels.
      lift (iterate labels) >>= map_exec label_of

  -- The creation of a label in `get_or_create_label_id`.
  unfoldable pub create_label : Option Text → Text → Exec W Text
  unfolding post_json
  create_label token name =
      post_json token labels_path (object (field (codes "name") (string name) no_fields))
      >>= λ created. lift (get_item (codes "id") created) >>= λ id. lift (text_value id)

  -- The page of `count_messages_with_label`: what stands for the messages, and the token if there is one.
  unfoldable pub list_page : Option Text → Text → Exec W (List Json × Bool)
  unfolding get_json
  list_page token label_id =
      get_json token messages_path
        ((codes "labelIds", label_id) ∷ (codes "maxResults", str probe_max_results) ∷ [])
      >>= λ body. lift (get_or (codes "nextPageToken") null body) >>= λ next.
          lift (get_or (codes "messages") (array no_items) body) >>= λ messages.
          lift (iterate messages) >>= λ items. pure (items, truthy next)

  abbrev token_answer : Response → TokenAnswer
  token_answer response = record {
    status = response.status;
    raised = http.raise_for_status response;
    error_code = error_code response.body;
    access_token = minted response.body;
  }
    where
      minted : Result Json → Result Text
      minted (err e) = err e
      minted (ok body) = elim (get_item (codes "access_token") body) [
        | ok j ↦ text_value j
        | err e ↦ err e
      ]

  -- The exchange of the refresh token in `preflight`.
  unfoldable pub post_token : Text → Text → Exec W TokenAnswer
  unfolding error_code
  post_token refresh_token client_secret =
      http.post_form settings.google_token_url (
        (codes "grant_type", codes "refresh_token")
        ∷ (codes "refresh_token", refresh_token)
        ∷ (codes "client_id", settings.google_client_id)
        ∷ (codes "client_secret", client_secret)
        ∷ [])
      >>= λ response. pure (token_answer response)

  abbrev page_as_texts : List Json × Bool → List Text × Option Text
  page_as_texts (items, more) = (blanks items, if more then some (codes "next") else none)
    where
      blanks : List Json → List Text
      blanks [] = []
      blanks (j ∷ js) = [] ∷ blanks js

  -- What the label cache, the count and the preflight rest on, of a store and a token.
  abbrev pub gmail_api : SecretStore W → Option Text → GmailApi W
  gmail_api store token = record {
    secret = store.get;
    post_token = post_token;
    list_labels = list_labels token;
    create_label = create_label token;
    list_page = λ label_id. list_page token label_id >>= λ page. pure (page_as_texts page);
  }
