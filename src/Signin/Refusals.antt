-- ===== src/Signin/Refusals.antt =====
-- What the gate of the callback may do to the world: as much as the secrets' `get`, the clock and the
-- exchange may.
use claim_automation_cloud.Prelude.{Bool, true, false, Option, none, some, List, [], ◌∷◌}
use claim_automation_cloud.Text.{Text}
use claim_automation_cloud.Exec.{Error, http_status, http_error, value_error, Exec}
use claim_automation_cloud.Exec.Effect.{
  Effect, Within, Within-bind, Within-pure, Within-raise, Within-lift, Within-try_except,
  effect_rules,
}
use claim_automation_cloud.Json.{Json}
use claim_automation_cloud.Config.{Settings}
use claim_automation_cloud.Security.{Codec, Jwt}
use claim_automation_cloud.Secrets.{
  SecretStore, google_client_secret, session_signing_key, required, require_secret,
}
use claim_automation_cloud.Signin.{
  login_failed, claims_or_refuse, Outside, Query, Step, next, refuse, follow, ◌>?>◌, unless,
  IdClaims, on_exchange_error, exchange, check_state, identify, gate,
}

module _ {W : Type 0} {f : Effect W} where
  pub Within->?> :
      {A B : Type 0} (m : Exec W (Step A)) (k : A → Exec W (Step B))
      → Within f m
      → ((a : A) → Within f (k a))
      → Within f (m >?> k)
  unfolding ◌>?>◌
  Within->?> {A = A} {B = B} m k first second = Within-bind m (follow k) first rest
    where
      rest : (s : Step A) → Within f (follow k s)
      rest (next a) = second a
      rest (refuse kind) = Within-pure (refuse kind)

  required-Within :
      (store : SecretStore W) (name : Text) (o : Option Text) → Within f (required store name o)
  required-Within store name none = Within-raise _
  required-Within store name (some []) = Within-raise _
  required-Within store name (some (c ∷ s)) = Within-pure (c ∷ s)

  pub require_secret-Within :
      (store : SecretStore W) (name : Text)
      → Within f (store.get name)
      → Within f (require_secret store name)
  unfolding require_secret
  require_secret-Within store name get =
      Within-bind (store.get name) (required store name) get (required-Within store name)

module _ {W : Type 0} (c : Codec) (jwt : Jwt) (outside : Outside W) (settings : Settings)
    (f : Effect W) (gets : (name : Text) → Within f (outside.store.get name))
    (clock : Within f outside.time)
    (posts : (url : Text) (form : List (Text × Text)) → Within f (outside.post url form)) where
  on_exchange_error-Within : (e : Error) → Within f (on_exchange_error c jwt outside settings e)
  on_exchange_error-Within (http_status status) = Within-pure (refuse login_failed)
  on_exchange_error-Within http_error = Within-pure (refuse login_failed)
  on_exchange_error-Within (value_error s) = Within-pure (refuse login_failed)
  on_exchange_error-Within e = Within-raise e

  unless-Within : (holds : Bool) (kind : Text) → Within f (unless holds kind)
  unless-Within true kind = Within-pure (next tt)
  unless-Within false kind = Within-pure (refuse kind)

  exchange-Within : (code : Text) → Within f (exchange c jwt outside settings code)
  unfolding exchange
  exchange-Within code =
      let secrets =
        require_secret-Within outside.store google_client_secret (gets google_client_secret) in
      Within-try_except _ _
        (Within-bind _ _ secrets (λ secret. Within-bind _ _ (posts _ _) (λ response.
          Within-bind _ _ (Within-lift _)
            (λ _. Within-bind _ _ (Within-lift _) (λ payload. Within-pure (next payload))))))
        on_exchange_error-Within

  check_state-Within : (state key : Text) → Within f (check_state c jwt outside settings state key)
  check_state-Within state key =
      Within-bind _ _ clock
        (λ now. Within-bind _ _ (Within-lift _) (λ accepted. unless-Within accepted login_failed))

  claims_or_refuse-Within :
      (o : Option IdClaims) → Within f (claims_or_refuse c jwt outside settings o)
  claims_or_refuse-Within none = Within-pure (refuse login_failed)
  claims_or_refuse-Within (some claims) = Within-pure (next claims)

  identify-Within : (payload : Json) → Within f (identify c jwt outside settings payload)
  unfolding identify
  identify-Within payload = Within-bind _ _ (Within-lift _) (λ id_token.
      Within->?> _ _ (unless-Within _ login_failed)
        (λ _. Within-bind _ _ clock (λ now. claims_or_refuse-Within _)))

  pub gate-Within : (query : Query) → Within f (gate c jwt outside settings query)
  unfolding gate
  gate-Within query =
      let secrets =
        require_secret-Within outside.store session_signing_key (gets session_signing_key) in
      search
        (
          effect_rules, Within->?>, secrets, unless-Within, check_state-Within, exchange-Within,
          identify-Within,
        )
        depth 20
