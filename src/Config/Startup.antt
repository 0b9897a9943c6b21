-- ===== src/Config/Startup.antt =====
-- What a start that succeeded has seen to: `lifespan`.
use mathlib.Core.Path.{subst}
use claim_automation_cloud.Prelude.{
  ◌≡◌, ◌≢◌, refl, sym, ap, ◌∙◌, Bool, true, false, not, ◌&&◌, if◌then◌else◌, Option, none, some, [],
  ◌∷◌,
}
use claim_automation_cloud.Text.{Text}
use claim_automation_cloud.Exec.{Error, assertion_error, Result, ok, err, lift}
use claim_automation_cloud.Exec.Inversion.{ok-injective, bind-eq_ok, lift-eq_ok, raise-ne_ok}
use claim_automation_cloud.Secrets.{
  SecretStore, session_signing_key, google_client_secret, require_secret,
}
use claim_automation_cloud.Tables.{TableService}
use claim_automation_cloud.Config.Backends.{at_endpoint, service_on, table_service}
use claim_automation_cloud.Config.{
  TableBackend, connection_string, managed_identity, on_identity, Settings, SecretBackend, file,
  keyvault, on_vault, is_set, managed_identity_requires_endpoint, keyvault_requires_uri, validate,
  and_validate, vault_of, store_on, create_secret_store, require_operator_email, lifespan,
}

guard-eq_ok :
    (b : Bool) (e : Error) (s : Settings) {t : Settings}
    → ◌≡◌ {A = Result Settings} (if b then err e else ok s) (ok t)
    → (b ≡ false) × (s ≡ t)
guard-eq_ok true e s h = cc
guard-eq_ok false e s h = (refl, ok-injective h)

abbrev VaultClear : Settings → Type 0
VaultClear s = (on_vault s.secret_store_backend && not (is_set s.key_vault_uri)) ≡ false

abbrev TablesClear : Settings → Type 0
TablesClear s = (on_identity s.table_storage_backend && not (is_set s.tables_endpoint)) ≡ false

-- Both conditions hold of settings that pass the validators.
validate-eq_ok : (s : Settings) {t : Settings} → validate s ≡ ok t → VaultClear t × TablesClear t
unfolding validate keyvault_requires_uri managed_identity_requires_endpoint
validate-eq_ok s {t = t} h = go (keyvault_requires_uri s) refl h
  where
    go :
        (r : Result Settings)
        → keyvault_requires_uri s ≡ r
        → and_validate managed_identity_requires_endpoint r ≡ ok t
        → VaultClear t × TablesClear t
    go (err e) p k = cc
    go (ok u) p k =
        let (clear, same) = guard-eq_ok _ _ s p in
        let (clear', same') = guard-eq_ok _ _ u k in
        (subst VaultClear (same ∙ same') clear, subst TablesClear same' clear')

service_on-total :
    {W : Type 0} (identity_at from_connection_string : Text → TableService W) (s : Settings)
    (backend : TableBackend)
    → (on_identity backend && not (is_set s.tables_endpoint)) ≡ false
    → (service : TableService W) × (service_on identity_at from_connection_string s backend
        ≡ ok service)
service_on-total identity_at from_connection_string s connection_string h =
    (from_connection_string s.storage_connection_string, refl)
service_on-total identity_at from_connection_string s managed_identity h = go s.tables_endpoint h
  where
    go :
        (uri : Option Text)
        → not (is_set uri) ≡ false
        → (service : TableService _) × (at_endpoint identity_at assertion_error uri ≡ ok service)
    go none k = cc
    go (some []) k = cc
    go (some (c ∷ t)) k = (identity_at (c ∷ t), refl)

module _ {W : Type 0} (file_at vault_at : Text → SecretStore W) where
  vault_of-total :
      (uri : Option Text)
      → not (is_set uri) ≡ false
      → (store : SecretStore W) × (vault_of file_at vault_at uri ≡ ok store)
  vault_of-total none h = cc
  vault_of-total (some []) h = cc
  vault_of-total (some (c ∷ s)) h = (vault_at (c ∷ s), refl)

  store_on-total :
      (s : Settings) (backend : SecretBackend)
      → (on_vault backend && not (is_set s.key_vault_uri)) ≡ false
      → (store : SecretStore W) × (store_on file_at vault_at s backend ≡ ok store)
  store_on-total s file h = (file_at s.secret_store_file_path, refl)
  store_on-total s keyvault h = vault_of-total s.key_vault_uri h

  require_operator_email-eq_ok :
      (email : Text) (w : W) {w' : W}
      → require_operator_email file_at vault_at email w ≡ (ok tt, w')
      → email ≢ []
  require_operator_email-eq_ok [] w h = absurd (raise-ne_ok _ w h)
  require_operator_email-eq_ok (c ∷ s) w h = λ e. filled e
    where
      filled : c ∷ s ≡ [] → ⊥
      filled k = cc

  -- Settings that pass the validators always have a secret store and a table service: the assertions that
  -- guard their addresses are never reached. And a start with such settings that returns has read a
  -- signing key and a client secret from that secret store, and has seen a configured operator.
  pub lifespan_sound :
      (identity_at from_connection_string : Text → TableService W) (s t : Settings)
      → validate s ≡ ok t
      → ((service : TableService W) × (table_service identity_at from_connection_string t
            ≡ ok service))
        × ((store : SecretStore W) × (create_secret_store file_at vault_at t ≡ ok store)
            × ((w w' : W)
                → lifespan file_at vault_at t w ≡ (ok tt, w')
                → ((key : Text) × (v : W) × (require_secret store session_signing_key w
                      ≡ (ok key, v)))
                  × ((secret : Text) × (u : W) × (v : W) × (require_secret store
                          google_client_secret u
                        ≡ (ok secret, v)))
                  × (t.operator_email ≢ [])))
  unfolding lifespan create_secret_store table_service
  lifespan_sound identity_at from_connection_string s t h =
      let (vault_clear, tables_clear) = validate-eq_ok s h in
      let (store, made) = store_on-total t t.secret_store_backend vault_clear in
      (
        service_on-total identity_at from_connection_string t t.table_storage_backend tables_clear,
        (
          store,
          made,
          λ w w' run.
              let (store', w1, p1, k1) =
                bind-eq_ok (lift (create_secret_store file_at vault_at t)) _ w run in
              let (made', still) = lift-eq_ok (create_secret_store file_at vault_at t) w p1 in
              let alike : store' ≡ store = ok-injective (sym made' ∙ made) in
              let (key, w2, p2, k2) =
                bind-eq_ok (require_secret store' session_signing_key) _ w1 k1 in
              let (secret, w3, p3, k3) =
                bind-eq_ok (require_secret store' google_client_secret) _ w2 k2 in
              (
                (
                  key,
                  w2,
                  ap (λ (x : SecretStore W). require_secret x session_signing_key w) (sym alike)
                      ∙ ap (require_secret store' session_signing_key) still
                      ∙ p2,
                ),
                (
                  secret,
                  w2,
                  w3,
                  ap (λ (x : SecretStore W). require_secret x google_client_secret w2) (sym alike)
                      ∙ p3,
                ),
                require_operator_email-eq_ok t.operator_email w3 k3,
              ),
        ),
      )
