-- ===== src/Routes/Saved.antt =====
-- What a save of the settings has done: `save_trello_settings`, over any secret store and table service
-- that keep their promises and do not write each other's data.
use mathlib.Core.Path.{subst}
use claim_automation_cloud.Prelude.{
  ℕ, ◌≡◌, refl, sym, ap, ◌∙◌, inl, inr, Option, none, some, [], ◌∷◌, if◌then◌else◌,
}
use claim_automation_cloud.Text.{Text, codes, text_eq, nonempty, strip, Runtime}
use claim_automation_cloud.Exec.{Error, resource_not_found, Result, ok, Exec, ◌>>=◌, try_except}
use claim_automation_cloud.Exec.Inversion.{
  bind-eq_ok, pure-eq_ok, raise-ne_ok, call-eq_ok, ok-injective, try_except-cases,
}
use claim_automation_cloud.Exec.Effect.{
  Effect, Within, Within-bind, Within-pure, Within-raise, Within-lift, Within-if, Within-try_except,
}
use claim_automation_cloud.Records.{TrelloConfig}
use claim_automation_cloud.Tables.{
  text, Key, Props, Entity, TableService, trello_config_key, property, is_entity_missing,
}
use claim_automation_cloud.Tables.Laws.{TableLaws}
use claim_automation_cloud.Store.{
  get_entity_or_none, on_missing, config_of, read_trello_config, write_trello_config,
}
use claim_automation_cloud.Store.RoundTrip.{get_entity_or_none-row}
use claim_automation_cloud.Secrets.{SecretStore, trello_api_key, trello_token}
use claim_automation_cloud.Secrets.Spec.{SecretMap, update, IsSecretStore}
use claim_automation_cloud.Routes.{
  TrelloState, TrelloSettingsBody, is_stored, config_or_empty, trello_state, set_unless_blank,
  to_500, save_all, save_trello_settings,
}

module _ {W : Type 0} (service : TableService W) (laws : TableLaws service) where
  abbrev config_entity : TrelloConfig → ℕ → Entity
  config_entity config tag = record {
    props = (codes "board_id", text config.board_id) ∷ (codes "list_id", text config.list_id) ∷ [];
    etag = tag;
  }

  config_of-eq :
      (config : TrelloConfig) (tag : ℕ) (v : W)
      → config_of service (some (config_entity config tag)) v ≡ (ok (some config), v)
  unfolding property text_eq ◌>>=◌
  config_of-eq config tag v = refl

  -- The configuration that was written last is the one that is read.
  read_trello_config-write_trello_config :
      (config : TrelloConfig) (w w1 w2 : W) {u : Unit {0}} {o : Option TrelloConfig}
      → write_trello_config service config w ≡ (ok u, w1)
      → read_trello_config service w1 ≡ (ok o, w2)
      → o ≡ some config
  unfolding read_trello_config write_trello_config
  read_trello_config-write_trello_config config w w1 w2 {o = o} wrote read =
      let (tag, stored, others) = laws.upsert_ok trello_config_key _ w wrote in
      let (e, v, p, k) =
        bind-eq_ok (get_entity_or_none service trello_config_key) (config_of service) w1 read in
      let held = (get_entity_or_none-row service laws trello_config_key w1 p).0 ∙ stored in
      let (c, d) =
        call-eq_ok _ _
          (sym (config_of-eq config tag v) ∙ ap (λ x. config_of service x v) (sym held) ∙ k) in
      sym (ok-injective c)

-- What leaves the secrets as they are.
abbrev pub secrets_stay : {W : Type 0} {secrets : SecretStore W} → IsSecretStore secrets → Effect W
secrets_stay spec = record {
  rel = λ u v. spec.IsValid u → spec.IsValid v × (spec.view v ≡ spec.view u);
  still = λ w valid. (valid, refl);
  chain =
      λ p q valid. let (there, same) = p valid in let (end, alike) = q there in (end, alike ∙ same);
}

-- The map after `if value: secrets.set(name, value)`.
abbrev pub kept : Text → Text → SecretMap → SecretMap
kept name value f = if nonempty value then update f name value else f

module _ {W : Type 0} (secrets : SecretStore W) (service : TableService W)
    (spec : IsSecretStore secrets) (laws : TableLaws service)
    (reads : (k : Key) → Within (secrets_stay spec) (service.get_entity k))
    (writes : (k : Key) (p : Props) → Within (secrets_stay spec) (service.upsert_entity k p)) where
  set_unless_blank-view :
      (name value : Text) (w : W) {u : Unit {0}} {v : W}
      → spec.IsValid w
      → set_unless_blank secrets service name value w ≡ (ok u, v)
      → spec.IsValid v × (spec.view v ≡ kept name value (spec.view w))
  unfolding set_unless_blank
  set_unless_blank-view name [] w valid h =
      let (a, b) = pure-eq_ok tt w h in (subst spec.IsValid b valid, ap spec.view (sym b))
  set_unless_blank-view name (c ∷ s) w valid h = spec.set_ok name (c ∷ s) w valid h

  on_missing-Within : (e : Error) → Within (secrets_stay spec) (on_missing service e)
  on_missing-Within (resource_not_found code) =
      Within-if (is_entity_missing code) _ _ (Within-pure none) (Within-raise _)
  on_missing-Within e = Within-raise e

  config_of-Within : (e : Option Entity) → Within (secrets_stay spec) (config_of service e)
  config_of-Within none = Within-pure none
  config_of-Within (some e) =
      Within-bind _ _ (Within-lift _)
        (λ board_id. Within-bind _ _ (Within-lift _) (λ list_id. Within-pure _))

  read_trello_config-Within : Within (secrets_stay spec) (read_trello_config service)
  unfolding read_trello_config get_entity_or_none
  read_trello_config-Within =
      Within-bind _ _
        (Within-try_except _ _
          (Within-bind _ _ (reads trello_config_key) (λ e. Within-pure (some e))) on_missing-Within)
        config_of-Within

  write_trello_config-Within :
      (config : TrelloConfig) → Within (secrets_stay spec) (write_trello_config service config)
  unfolding write_trello_config
  write_trello_config-Within config = writes trello_config_key _

  stays :
      {A : Type 0} (m : Exec W A) (w : W) {r : Result A} {w' : W}
      → Within (secrets_stay spec) m
      → m w ≡ (r, w')
      → spec.IsValid w
      → spec.IsValid w' × (spec.view w' ≡ spec.view w)
  stays m w within h valid =
      subst (λ (x : Result _ × W). spec.IsValid x.1 × (spec.view x.1 ≡ spec.view w)) h
        (within.bound w valid)

  trello_state-view :
      (w : W) {st : TrelloState} {w' : W}
      → spec.IsValid w
      → trello_state secrets service w ≡ (ok st, w')
      → (spec.view w' ≡ spec.view w)
        × (st.api_key_stored ≡ is_stored (spec.view w trello_api_key))
        × (st.token_stored ≡ is_stored (spec.view w trello_token))
        × ((found : Option TrelloConfig) × (v : W) × (read_trello_config service w ≡ (ok found, v))
            × (st.board_id ≡ (config_or_empty found).board_id)
            × (st.list_id ≡ (config_or_empty found).list_id))
  unfolding trello_state
  trello_state-view w valid h =
      let (found, w1, p1, k1) = bind-eq_ok (read_trello_config service) _ w h in
      let (api_key, w2, p2, k2) = bind-eq_ok (secrets.get trello_api_key) _ w1 k1 in
      let (token, w3, p3, k3) = bind-eq_ok (secrets.get trello_token) _ w2 k2 in
      let (same, at_end) = pure-eq_ok _ w3 k3 in
      let (valid1, same1) =
        stays (read_trello_config service) w read_trello_config-Within p1 valid in
      let (held2, valid2, same2) = spec.get_ok trello_api_key w1 valid1 p2 in
      let (held3, valid3, same3) = spec.get_ok trello_token w2 valid2 p3 in
      (
        ap spec.view (sym at_end) ∙ same3 ∙ same2 ∙ same1,
        ap (λ (s : TrelloState). s.api_key_stored) (sym same)
            ∙ ap is_stored (held2 ∙ ap (λ (f : SecretMap). f trello_api_key) same1),
        ap (λ (s : TrelloState). s.token_stored) (sym same)
            ∙ ap is_stored (held3 ∙ ap (λ (f : SecretMap). f trello_token) (same2 ∙ same1)),
        (
          found,
          w1,
          p1,
          ap (λ (s : TrelloState). s.board_id) (sym same),
          ap (λ (s : TrelloState). s.list_id) (sym same),
        ),
      )

  save_all-view :
      (api_key token : Text) (config : TrelloConfig) (w : W) {u : Unit {0}} {w' : W}
      → spec.IsValid w
      → save_all secrets service api_key token config w ≡ (ok u, w')
      → spec.IsValid w'
        × (spec.view w' ≡ kept trello_token token (kept trello_api_key api_key (spec.view w)))
        × ((v : W) × (write_trello_config service config v ≡ (ok u, w')))
  unfolding save_all
  save_all-view api_key token config w valid h =
      let (u1, w1, p1, k1) =
        bind-eq_ok (set_unless_blank secrets service trello_api_key api_key) _ w h in
      let (u2, w2, p2, k2) =
        bind-eq_ok (set_unless_blank secrets service trello_token token) _ w1 k1 in
      let (valid1, same1) = set_unless_blank-view trello_api_key api_key w valid p1 in
      let (valid2, same2) = set_unless_blank-view trello_token token w1 valid1 p2 in
      let (valid3, same3) =
        stays (write_trello_config service config) w2 (write_trello_config-Within config) k2
          valid2 in
      (valid3, same3 ∙ same2 ∙ ap (kept trello_token token) same1, (w2, k2))

  -- Over a secret store and a table service that keep their promises and leave each other's data
  -- alone: a save that returns has put each field that is not blank in its secret and left the secret
  -- of a blank field, and every other secret, as it was; it answers whether the secrets are held after
  -- the writes, and with the identifiers as they were submitted, without the white space around them.
  pub save_trello_settings-settled :
      (py : Runtime) (body : TrelloSettingsBody) (w : W) {st : TrelloState} {w' : W}
      → spec.IsValid w
      → save_trello_settings secrets service py body w ≡ (ok st, w')
      → (spec.view w'
          ≡ kept trello_token
              (strip py.is_space body.token)
              (kept trello_api_key (strip py.is_space body.api_key) (spec.view w)))
        × (st.api_key_stored ≡ is_stored (spec.view w' trello_api_key))
        × (st.token_stored ≡ is_stored (spec.view w' trello_token))
        × (st.board_id ≡ strip py.is_space body.board_id)
        × (st.list_id ≡ strip py.is_space body.list_id)
  unfolding save_trello_settings
  save_trello_settings-settled py body w {st = st} {w' = w'} valid h =
      let trim = strip py.is_space in
      let config : TrelloConfig = record {
        board_id = trim body.board_id;
        list_id = trim body.list_id;
      } in
      let saving = save_all secrets service (trim body.api_key) (trim body.token) config in
      let (u, v, p, k) = bind-eq_ok (try_except saving (to_500 secrets service)) _ w h in
      let saved = unguarded saving w p in
      let (valid1, stored, (v', wrote)) =
        save_all-view (trim body.api_key) (trim body.token) config w valid saved in
      let (still, api_key, token, (found, v2, read, board_id, list_id)) =
        trello_state-view v valid1 k in
      let back = read_trello_config-write_trello_config service laws config v' v v2 wrote read in
      (
        still ∙ stored,
        api_key ∙ ap (λ (f : SecretMap). is_stored (f trello_api_key)) (sym still),
        token ∙ ap (λ (f : SecretMap). is_stored (f trello_token)) (sym still),
        board_id ∙ ap (λ (o : Option TrelloConfig). (config_or_empty o).board_id) back,
        list_id ∙ ap (λ (o : Option TrelloConfig). (config_or_empty o).list_id) back,
      )
    where
      unguarded :
          (m : Exec W (Unit {0})) (u : W) {x : Unit {0}} {v : W}
          → try_except m (to_500 secrets service) u ≡ (ok x, v)
          → m u ≡ (ok x, v)
      unguarded m u g = elim (try_except-cases m (to_500 secrets service) u) [
        | inl (a, v', p, q) ↦ p ∙ sym q ∙ g
        | inr (e, v', p, q) ↦ absurd (raise-ne_ok _ v' (sym q ∙ g))
      ]
