-- ===== src/Tests/Signins.antt =====
-- A sign-in, a guarded request and a start, over a map of secrets as the world.
use claim_automation_cloud.Prelude.{
  ℕ, ◌≡◌, ◌≢◌, refl, ◌∙◌, Option, none, some, [], ◌∷◌, ◌++◌, if◌then◌else◌,
}
use claim_automation_cloud.Text.{Text, codes, text_eq}
use claim_automation_cloud.Exec.{ok, err, resource_modified, Exec, ◌>>=◌, try_except}
use claim_automation_cloud.Exec.Effect.{Effect, Within}
use claim_automation_cloud.Json.{string, object, no_fields, field}
use claim_automation_cloud.Config.{
  Settings, default_settings, validate, create_secret_store, lifespan,
}
use claim_automation_cloud.Tables.{TableService}
use claim_automation_cloud.Config.Backends.{table_service}
use claim_automation_cloud.Config.Startup.{lifespan_sound}
use claim_automation_cloud.Security.{SessionClaims, Jwt}
use claim_automation_cloud.Secrets.{
  SecretStore, session_signing_key, google_client_secret, vault_get, vault_store, require_secret,
}
use claim_automation_cloud.Secrets.Spec.{SecretMap}
use claim_automation_cloud.Signin.{Outside, Query, callback}
use claim_automation_cloud.Signin.Admission.{Verdict, callback-Verdict}
use claim_automation_cloud.Signin.Guard.{require_operator, require_operator_sound}
use claim_automation_cloud.Tests.{ascii}
use claim_automation_cloud.Tests.Stores.{map_client}
use claim_automation_cloud.Tests.Sessions.{toy_codec, toy_state}

abbrev operator : Text
operator = codes "op@x.es"

abbrev two_secrets : SecretMap
two_secrets = λ name.
    if text_eq name session_signing_key
    then some (codes "key")
    else if text_eq name google_client_secret
    then some (codes "gs")
    else none

abbrev operator_settings : Settings
operator_settings = record default_settings {
  operator_email = operator;
  google_client_id = codes "client";
}

abbrev toy_jwt : Jwt
toy_jwt = record {
  encode = λ claims key. codes "jwt";
  decode = λ token key now. some (record { email = some operator; iat = 0; exp = 9 });
}

abbrev unchanged : Effect SecretMap
unchanged = record { rel = λ v w. v ≡ w; still = λ w. refl; chain = λ p q. p ∙ q }

abbrev google : Outside SecretMap
google = record {
  store = vault_store map_client;
  time = λ w. (ok 5000000, w);
  token_urlsafe = λ w. (ok (codes "nonce"), w);
  post = λ url form w. (
    ok (record {
      status = 200;
      body = ok (object (field (codes "id_token") (string (codes "i")) no_fields));
    }),
    w,
  );
  raise_for_status = λ response. ok tt;
  decode_id_token =
      λ token audience now. some (record { iss = codes "accounts.google.com"; email = operator });
}

abbrev asked : Query
asked = record { error = none; code = some (codes "code"); state = some toy_state }

gets_keep : (name : Text) → Within unchanged (vault_get map_client name)
unfolding vault_get try_except ◌>>=◌
gets_keep name = record { bound = λ f. kept f (f name) refl }
  where
    kept : (f : SecretMap) (o : Option Text) → f name ≡ o → f ≡ (vault_get map_client name f).1
    kept f none e = rw e refl
    kept f (some value) e = rw e refl

callback-Verdict_example :
    Verdict toy_codec toy_jwt google operator_settings unchanged asked two_secrets
      (callback toy_codec toy_jwt google operator_settings asked two_secrets).0
      (callback toy_codec toy_jwt google operator_settings asked two_secrets).1
callback-Verdict_example =
    callback-Verdict toy_codec toy_jwt google operator_settings unchanged gets_keep
      (record { bound = λ w. refl }) (λ url form. record { bound = λ w. refl }) asked two_secrets

abbrev bearer : Option Text
bearer = some (codes "Bearer t")

abbrev passed : Exec SecretMap Text
passed =
    require_operator ascii toy_jwt (vault_store map_client) (λ w. (ok 5000000, w)) operator bearer

guarded : passed two_secrets ≡ (ok operator, two_secrets)
unfolding require_operator require_secret vault_get try_except ◌>>=◌ text_eq
guarded = refl

require_operator_sound_example :
    (scheme : Text) × (token : Text) × (key : Text) × (now : ℕ) × (claims : SessionClaims) × (bearer
      ≡ some (scheme ++ (b' ' ∷ token)))
    × (ascii.lower scheme ≡ codes "bearer")
    × ((u : SecretMap) × (v : SecretMap) × (require_secret
            (vault_store map_client)
            session_signing_key
            u
          ≡ (ok key, v)))
    × (toy_jwt.decode token key now ≡ some claims)
    × (claims.email ≡ some operator)
    × (operator ≡ operator)
    × (operator ≢ [])
require_operator_sound_example =
    require_operator_sound ascii toy_jwt (vault_store map_client) (λ w. (ok 5000000, w)) operator
      bearer two_secrets guarded

abbrev the_vault : Text → SecretStore SecretMap
the_vault place = vault_store map_client

abbrev no_tables : Text → TableService SecretMap
no_tables place = record {
  create_table = λ name f. (ok tt, f);
  get_entity = λ k f. (err resource_modified, f);
  upsert_entity = λ k p f. (err resource_modified, f);
  create_entity = λ k p f. (err resource_modified, f);
  update_entity = λ k p tag f. (err resource_modified, f);
  delete_entity = λ k f. (err resource_modified, f);
  query_partition = λ table partition f. (ok [], f);
}

valid : validate operator_settings ≡ ok operator_settings
unfolding validate
valid = refl

lifespan_sound_example :
    ((service : TableService SecretMap) × (table_service no_tables no_tables operator_settings
        ≡ ok service))
    × ((store : SecretStore SecretMap) × (create_secret_store the_vault the_vault operator_settings
          ≡ ok store)
        × ((w w' : SecretMap)
            → lifespan the_vault the_vault operator_settings w ≡ (ok tt, w')
            → ((key : Text) × (v : SecretMap) × (require_secret store session_signing_key w
                  ≡ (ok key, v)))
              × ((secret : Text) × (u : SecretMap) × (v : SecretMap) × (require_secret store
                      google_client_secret u
                    ≡ (ok secret, v)))
              × (operator_settings.operator_email ≢ [])))
lifespan_sound_example =
    lifespan_sound the_vault the_vault no_tables no_tables operator_settings operator_settings valid
