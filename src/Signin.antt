-- ===== src/Signin.antt =====
-- The sign-in: backend/app/auth_routes.py, and `require_operator` of backend/app/security.py. httpx,
-- `jwt.decode`, the clock, the random nonce and `urlencode` are parameters. An identity token is taken to
-- name the issuer and the email as text, and a refresh token that is not text to raise.
pub mod Guard
pub mod Refusals
pub mod Checks
pub mod Admission
use claim_automation_cloud.Prelude.{
  ℕ, Bool, true, false, not, ◌&&◌, ◌||◌, Option, none, some, List, [], ◌∷◌, ◌++◌, ◌==◌, any,
  if◌then◌else◌,
}
use claim_automation_cloud.Text.{Text, codes, text_eq, nonempty}
use claim_automation_cloud.Exec.{
  Error, http_status, http_error, value_error, type_error, Result, ok, err, Exec, pure, raise, lift,
  ◌>>=◌, try_except,
}
use claim_automation_cloud.Json.{Json, null, string, get_or, truthy}
use claim_automation_cloud.Config.{Settings, is_set}
use claim_automation_cloud.Security.{Codec, Jwt, make_state, verify_state, mint_session_jwt}
use claim_automation_cloud.Secrets.{
  SecretStore, session_signing_key, google_client_secret, gmail_refresh_token, require_secret,
}

abbrev pub google_issuers : List Text
google_issuers = codes "https://accounts.google.com" ∷ codes "accounts.google.com" ∷ []

abbrev pub scopes : Text
scopes = codes "openid email https://www.googleapis.com/auth/gmail.modify"

-- What the callback reads of the claims of an identity token.
pub record IdClaims : Type 0 where
  pub iss : Text
  pub email : Text

pub record TokenResponse : Type 0 where
  pub status : ℕ
  pub body : Result Json

-- `decode_id_token` is `jwt.decode` without the signature, with the audience, the time of the expiry's
-- check and the required claims: `none` is an InvalidTokenError.
pub record Outside (W : Type 0) : Type 0 where
  pub store : SecretStore W
  pub time : Exec W ℕ
  pub token_urlsafe : Exec W Text
  pub post : Text → List (Text × Text) → Exec W TokenResponse
  pub raise_for_status : TokenResponse → Result (Unit {0})
  pub decode_id_token : Json → Text → ℕ → Option IdClaims

-- The query of the callback.
pub record Query : Type 0 where
  pub error : Option Text
  pub code : Option Text
  pub state : Option Text

-- A step of the callback: it goes on with a value, or ends the request with `fail(kind)`.
pub data Step (A : Type 0) : Type 0 where
  next : A → Step A
  refuse : Text → Step A

abbrev pub login_failed : Text
login_failed = codes "login_failed"

abbrev pub unauthorized : Text
unauthorized = codes "unauthorized"

module _ {W A B : Type 0} where
  abbrev pub follow : (A → Exec W (Step B)) → Step A → Exec W (Step B)
  follow f (next a) = f a
  follow f (refuse kind) = pure (refuse kind)

  infixl 5 ◌>?>◌
  unfoldable pub ◌>?>◌ : Exec W (Step A) → (A → Exec W (Step B)) → Exec W (Step B)
  m >?> f = m >>= follow f

-- A guard clause: `if not holds: return fail(kind)`.
abbrev pub unless : {W : Type 0} → Bool → Text → Exec W (Step (Unit {0}))
unless holds kind = if holds then pure (next tt) else pure (refuse kind)

-- The first check, with the code and the state that passed it.
abbrev pub wanted_if : Bool → Option Text → Option Text → Step (Text × Text)
wanted_if false (some (x ∷ code)) (some (y ∷ state)) = next (x ∷ code, y ∷ state)
wanted_if error code state = refuse login_failed

abbrev pub wanted : Query → Step (Text × Text)
wanted query = wanted_if (is_set query.error) query.code query.state

-- What the gate of the callback lets through.
pub record Admitted : Type 0 where
  pub signing_key : Text
  pub payload : Json
  pub email : Text

module _ {W : Type 0} (c : Codec) (jwt : Jwt) (outside : Outside W) (settings : Settings) where
  -- `_authorize_redirect`: the parameters of the consent screen's address.
  unfoldable pub authorize_params : Text → Exec W (List (Text × Text))
  authorize_params prompt = require_secret outside.store session_signing_key >>= λ key.
      outside.token_urlsafe >>= λ nonce. outside.time >>= λ now. pure (
        (codes "client_id", settings.google_client_id)
        ∷ (codes "redirect_uri", settings.oauth_redirect_uri)
        ∷ (codes "response_type", codes "code")
        ∷ (codes "scope", scopes)
        ∷ (codes "access_type", codes "offline")
        ∷ (codes "prompt", prompt)
        ∷ (codes "state", make_state c key nonce now)
        ∷ [])

  abbrev authorize_redirect : (List (Text × Text) → Text) → Text → Exec W Text
  authorize_redirect urlencode prompt = authorize_params prompt >>= λ params.
      pure (settings.google_auth_url ++ (b'?' ∷ urlencode params))

  abbrev pub login : (List (Text × Text) → Text) → Exec W Text
  login urlencode = authorize_redirect urlencode (codes "select_account")

  abbrev pub reconnect : (List (Text × Text) → Text) → Exec W Text
  reconnect urlencode = authorize_redirect urlencode (codes "consent")

  abbrev token_request : Text → Text → List (Text × Text)
  token_request code secret =
      (codes "code", code)
      ∷ (codes "client_id", settings.google_client_id)
      ∷ (codes "client_secret", secret)
      ∷ (codes "redirect_uri", settings.oauth_redirect_uri)
      ∷ (codes "grant_type", codes "authorization_code")
      ∷ []

  abbrev pub on_exchange_error : Error → Exec W (Step Json)
  on_exchange_error (http_status status) = pure (refuse login_failed)
  on_exchange_error http_error = pure (refuse login_failed)
  on_exchange_error (value_error s) = pure (refuse login_failed)
  on_exchange_error e = raise e

  -- The `try` round the token's exchange.
  unfoldable pub exchange : Text → Exec W (Step Json)
  exchange code =
      try_except
        (require_secret outside.store google_client_secret >>= λ secret.
          outside.post settings.google_token_url (token_request code secret) >>= λ response.
          lift (outside.raise_for_status response) >>= λ _.
          lift response.body >>= λ payload. pure (next payload))
        on_exchange_error

  abbrev pub check_state : Text → Text → Exec W (Step (Unit {0}))
  check_state state key = outside.time >>= λ now.
      lift (verify_state c state key now) >>= λ accepted. unless accepted login_failed

  abbrev pub claims_or_refuse : Option IdClaims → Exec W (Step IdClaims)
  claims_or_refuse none = pure (refuse login_failed)
  claims_or_refuse (some claims) = pure (next claims)

  -- From the token response to the claims of its identity token.
  unfoldable pub identify : Json → Exec W (Step IdClaims)
  identify payload = lift (get_or (codes "id_token") null payload) >>= λ id_token.
      unless (truthy id_token) login_failed >?> λ _. outside.time >>= λ now.
      claims_or_refuse (outside.decode_id_token id_token settings.google_client_id now)

  -- The callback up to where the operator is known.
  unfoldable pub gate : Query → Exec W (Step Admitted)
  unfolding exchange identify ◌>?>◌
  gate query = pure (wanted query) >?> λ asked.
      require_secret outside.store session_signing_key >>= λ key. check_state asked.1 key >?> λ _.
      exchange asked.0 >?> λ payload. identify payload >?> λ claims.
      unless (any (text_eq claims.iss) google_issuers) login_failed >?> λ _.
      unless (text_eq claims.email settings.operator_email) unauthorized >?> λ _.
      pure (next (record { signing_key = key; payload = payload; email = claims.email }))

  -- `if refresh_token: store.set(...)`
  abbrev pub keep_refresh_token : Json → Exec W (Unit {0})
  keep_refresh_token (string s) =
      if nonempty s then outside.store.set gmail_refresh_token s else pure tt
  keep_refresh_token token = if truthy token then raise type_error else pure tt

  abbrev pub conclude : Step Admitted → Exec W Text
  conclude (refuse kind) = pure (settings.frontend_base_url ++ (codes "#error=" ++ kind))
  conclude (next admitted) =
      lift (get_or (codes "refresh_token") null admitted.payload) >>= λ token.
      keep_refresh_token token >>= λ _. outside.time >>= λ now. pure (
        settings.frontend_base_url
        ++ (codes "#token="
            ++ mint_session_jwt jwt admitted.email admitted.signing_key settings.jwt_ttl_hours now))

  -- `callback`: the address of the redirect.
  unfoldable pub callback : Query → Exec W Text
  unfolding gate
  callback query = gate query >>= conclude
