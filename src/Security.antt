-- ===== src/Security.antt =====
-- Session security: backend/app/security.py. The MAC (hmac with sha256), `jwt.encode`, `jwt.decode` and
-- `str` and `int` of a timestamp are parameters; times are microseconds. A MAC that is not ASCII, on
-- which `compare_digest` raises, is answered like any other wrong one.
pub mod State
use Prim.Native.Nat.{◌/◌}
use claim_automation_cloud.Prelude.{
  ℕ, ◌+◌, ◌*◌, Bool, true, false, not, ◌&&◌, ◌||◌, Option, none, some, List, [], ◌∷◌, ◌++◌, leb,
  if◌then◌else◌,
}
use claim_automation_cloud.Text.{Text, codes, text_eq, nonempty, split_on}
use claim_automation_cloud.Exec.{Result, ok, err, value_error, http_exception}

abbrev pub second : ℕ
second = 1000000

abbrev pub state_ttl_seconds : ℕ
state_ttl_seconds = 600

-- `mac` is the keyed MAC of a text in hexadecimal; `str` and `int` print and read a number.
pub record Codec : Type 0 where
  pub mac : Text → Text → Text
  pub str : ℕ → Text
  pub int : Text → Option ℕ

module _ (c : Codec) where
  -- `_state_mac`
  abbrev pub state_mac : Text → Text → Text → Text
  state_mac signing_key nonce timestamp =
      c.mac signing_key (codes "state:" ++ (nonce ++ (codes "." ++ timestamp)))

  -- `nonce` is `secrets.token_urlsafe(16)`, `now` the clock.
  unfoldable pub make_state : Text → Text → ℕ → Text
  make_state signing_key nonce now =
      let timestamp = c.str (now / second) in
      nonce ++ (b'.' ∷ timestamp ++ (b'.' ∷ state_mac signing_key nonce timestamp))

  abbrev fresh : ℕ → Option ℕ → Result Bool
  fresh now none = err (value_error (codes "invalid literal for int()"))
  fresh now (some t) =
      ok (leb (t * second) now && leb now (t * second + state_ttl_seconds * second))

  abbrev pub verify_parts : Text → ℕ → List Text → Result Bool
  verify_parts signing_key now (nonce ∷ timestamp ∷ mac ∷ []) =
      if text_eq mac (state_mac signing_key nonce timestamp)
      then fresh now (c.int timestamp)
      else ok false
  verify_parts signing_key now parts = ok false

  unfoldable pub verify_state : Text → Text → ℕ → Result Bool
  unfolding split_on text_eq
  verify_state state signing_key now = verify_parts signing_key now (split_on b'.' state)

-- The claims of a session token.
pub record SessionClaims : Type 0 where
  pub email : Option Text
  pub iat : ℕ
  pub exp : ℕ

-- `jwt.encode` under HS256, and `jwt.decode` with the pinned algorithm and the required claims:
-- `none` is an InvalidTokenError.
pub record Jwt : Type 0 where
  pub encode : SessionClaims → Text → Text
  pub decode : Text → Text → ℕ → Option SessionClaims

-- The check of the claim `email`.
abbrev pub email_of : Text → Option Text → Option Text
email_of operator_email none = none
email_of operator_email (some email) =
    if not (nonempty email) || not (text_eq email operator_email) then none else some email

module _ (jwt : Jwt) where
  unfoldable pub mint_session_jwt : Text → Text → ℕ → ℕ → Text
  mint_session_jwt email signing_key ttl_hours now =
      let seconds = now / second in
      jwt.encode (record { email = some email; iat = seconds; exp = seconds + ttl_hours * 3600 })
        signing_key

  abbrev pub operator_of : Text → Option SessionClaims → Option Text
  operator_of operator_email none = none
  operator_of operator_email (some claims) = email_of operator_email claims.email

  -- `none` is InvalidSession.
  unfoldable pub verify_session_jwt : Text → Text → Text → ℕ → Option Text
  verify_session_jwt token signing_key operator_email now =
      operator_of operator_email (jwt.decode token signing_key now)
