-- ===== src/Gmail.antt =====
-- The Gmail client: the token's preflight, the label cache and the capped count of
-- backend/pipeline/gmail_client.py. httpx is given by what the endpoints answer.
pub mod Labels
pub mod Requests
pub mod Preflight
use claim_automation_cloud.Prelude.{
  ℕ, suc, ◌+◌, Bool, true, false, ◌&&◌, ◌||◌, Option, none, some, List, [], ◌∷◌, ◌==◌, any, length,
  if◌then◌else◌,
}
use claim_automation_cloud.Text.{Text, codes, text_eq, nonempty}
use claim_automation_cloud.Exec.{
  Error, Result, ok, err, no_access, runtime_error, Exec, pure, raise, lift, ◌>>=◌,
}

-- An answer of the token endpoint: its status, what `raise_for_status` makes of it, the OAuth error code
-- (empty without one), and the decoded access token.
pub record TokenAnswer : Type 0 where
  pub status : ℕ
  pub raised : Result (Unit {0})
  pub error_code : Text
  pub access_token : Result Text

-- `secret` is `SecretStore.get`; a label is a name with its id.
pub record GmailApi (W : Type 0) : Type 0 where
  pub secret : Text → Exec W (Option Text)
  pub post_token : Text → Text → Exec W TokenAnswer
  pub list_labels : Exec W (List (Text × Text))
  pub create_label : Text → Exec W Text
  pub list_page : Text → Exec W (List Text × Option Text)

abbrev pub definitive_token_errors : List Text
definitive_token_errors =
    codes "invalid_grant"
    ∷ codes "invalid_client"
    ∷ codes "deleted_client"
    ∷ codes "unauthorized_client"
    ∷ []

abbrev pub is_definitive : TokenAnswer → Bool
is_definitive answer =
    (answer.status == 400 || answer.status == 401)
    && any (text_eq answer.error_code) definitive_token_errors

abbrev pub gmail_no_access : Text → Error
gmail_no_access reason = no_access (codes "GmailNoAccessError") reason

abbrev pub probe_max_results : ℕ
probe_max_results = 100

-- `self._label_ids`
abbrev pub Cache : Type 0
Cache = Text → Option Text

abbrev pub remember : Text → Text → Cache → Cache
remember name id cache key = if text_eq key name then some id else cache key

abbrev missing_client_secret : Text
missing_client_secret =
    codes
      "google-client-secret missing from the secret store — seed it before starting (dev: make seed-dev, see backend/README; prod: infra pipeline)"

module _ {W : Type 0} (lower : Text → Text) (api : GmailApi W) where
  abbrev pub require_secret : Option Text → Exec W Text
  require_secret none = raise (runtime_error (missing_client_secret))
  require_secret (some []) = raise (runtime_error (missing_client_secret))
  require_secret (some (c ∷ s)) = pure (c ∷ s)

  abbrev pub on_answer : TokenAnswer → Exec W Text
  on_answer answer =
      if is_definitive answer
      then raise (gmail_no_access (codes "token_rejected"))
      else (lift answer.raised >>= λ _. lift answer.access_token)

  abbrev pub with_token : Option Text → Exec W Text
  with_token none = raise (gmail_no_access (codes "missing_token"))
  with_token (some []) = raise (gmail_no_access (codes "missing_token"))
  with_token (some (c ∷ s)) = api.secret (codes "google-client-secret") >>= λ found.
      require_secret found >>= λ client_secret. api.post_token (c ∷ s) client_secret >>= on_answer

  -- `preflight`: the access token that the run uses.
  unfoldable pub preflight : Exec W Text
  preflight = api.secret (codes "gmail-refresh-token") >>= with_token

  -- `count_messages_with_label`
  abbrev capped : List Text × Option Text → ℕ
  capped (ids, none) = length ids
  capped (ids, some []) = length ids
  capped (ids, some (c ∷ s)) = probe_max_results + 1

  unfoldable pub count_messages_with_label : Text → Exec W ℕ
  count_messages_with_label label_id = api.list_page label_id >>= λ page. pure (capped page)

  -- The cache is the client's own state, beside the world.
  abbrev beside : {A : Type 0} → Cache → Result A × W → Result A × (Cache × W)
  beside cache (r, w) = (r, (cache, w))

  abbrev remember_all : List (Text × Text) → Cache → Cache
  remember_all [] cache = cache
  remember_all ((name, id) ∷ labels) cache = remember_all labels (remember (lower name) id cache)

  abbrev after_create : Text → Cache → Result Text × W → Result Text × (Cache × W)
  after_create name cache (ok id, w) = (ok id, (remember (lower name) id cache, w))
  after_create name cache (err e, w) = (err e, (cache, w))

  abbrev look_again : Text → Cache → Option Text → W → Result Text × (Cache × W)
  look_again name cache (some id) w = (ok id, (cache, w))
  look_again name cache none w = after_create name cache (api.create_label name w)

  abbrev after_list : Text → Cache → Result (List (Text × Text)) × W → Result Text × (Cache × W)
  after_list name cache (err e, w) = (err e, (cache, w))
  after_list name cache (ok labels, w) =
      let known = remember_all labels cache in look_again name known (known (lower name)) w

  abbrev look_up : Text → Cache → Option Text → W → Result Text × (Cache × W)
  look_up name cache (some id) w = (ok id, (cache, w))
  look_up name cache none w = after_list name cache (api.list_labels w)

  unfoldable pub get_or_create_label_id : Text → Exec (Cache × W) Text
  get_or_create_label_id name (cache, w) = look_up name cache (cache (lower name)) w
