-- ===== src/Secrets/Vault.antt =====
-- The Key Vault store: `KeyVaultSecretStore`, and `require_secret` on either store.
use claim_automation_cloud.Prelude.{
  ℕ, ◌≡◌, ◌≢◌, sym, ap, ◌∙◌, ◌⊎◌, inl, inr, Option, none, some, List, [], ◌∷◌,
}
use claim_automation_cloud.Text.{Text}
use claim_automation_cloud.Exec.{Error, resource_not_found, ok, err, pure, ◌>>=◌}
use claim_automation_cloud.Exec.Inversion.{
  bind-eq_ok, bind_pure-eq_err, pure-eq_ok, raise-ne_ok, try_except-cases, ok-injective, call-eq_ok,
}
use claim_automation_cloud.Secrets.{
  VaultClient, none_if_missing, vault_get, vault_store, required, require_secret,
}
use claim_automation_cloud.Secrets.Spec.{
  SecretMap, update, IsSecretStore, Write, Replays, attempts, run_writes, run_writes-Replays,
}

-- What the store relies on of Key Vault: a get answers with the secret, or says that it is missing, or
-- fails; a set that fails may have taken place.
pub record VaultLaws {W : Type 0} (client : VaultClient W) : Type 0 where
  pub secrets : W → SecretMap
  pub found :
      (name : Text) (w : W) {value : Text} {w' : W}
      → client.get_secret name w ≡ (ok value, w')
      → (secrets w name ≡ some value) × (secrets w' ≡ secrets w)
  pub missing :
      (name code : Text) (w : W) {w' : W}
      → client.get_secret name w ≡ (err (resource_not_found code), w')
      → (secrets w name ≡ none) × (secrets w' ≡ secrets w)
  pub written :
      (name value : Text) (w : W) {u : Unit {0}} {w' : W}
      → client.set_secret name value w ≡ (ok u, w')
      → secrets w' ≡ update (secrets w) name value
  pub unwritten :
      (name value : Text) (w : W) {e : Error} {w' : W}
      → client.set_secret name value w ≡ (err e, w')
      → (secrets w' ≡ secrets w) ⊎ (secrets w' ≡ update (secrets w) name value)

module _ {W : Type 0} (client : VaultClient W) (laws : VaultLaws client) where
  vault_get-view :
      (name : Text) (w : W) {o : Option Text} {w' : W}
      → vault_get client name w ≡ (ok o, w')
      → (o ≡ laws.secrets w name) × (laws.secrets w' ≡ laws.secrets w)
  unfolding vault_get
  vault_get-view name w {o = o} {w' = w'} k =
      elim (try_except-cases (client.get_secret name >>= λ value. pure (some value))
        (none_if_missing client) w) [
          | inl (a, v, p, q) ↦
              let (value, u, got, answered) =
                bind-eq_ok (client.get_secret name) (λ x. pure (some x)) w p in
              let (same_value, same_world) = pure-eq_ok (some value) u answered in
              let (outcome, at_end) = call-eq_ok (ok a) v (sym q ∙ k) in
              let (held, kept) = laws.found name w got in
              (
                sym (held ∙ same_value ∙ ok-injective outcome),
                ap laws.secrets (sym at_end) ∙ ap laws.secrets (sym same_world) ∙ kept,
              )
          | inr (e, v, p, q) ↦ absent e v p (sym q ∙ k)
        ]
    where
      absent :
          (e : Error) (v : W)
          → (client.get_secret name >>= λ value. pure (some value)) w ≡ (err e, v)
          → none_if_missing client e v ≡ (ok o, w')
          → (o ≡ laws.secrets w name) × (laws.secrets w' ≡ laws.secrets w)
      absent (resource_not_found code) v p h =
          let (gone, kept) =
            laws.missing name code w
              (bind_pure-eq_err (client.get_secret name) (λ x. some x) w p) in
          let (q, at_end) = pure-eq_ok none v h in
          (sym q ∙ sym gone, ap laws.secrets (sym at_end) ∙ kept)
      absent e v p h = absurd (raise-ne_ok e v h)

  required-view :
      (name : Text) (w : W) {value : Text} {w' : W}
      → require_secret (vault_store client) name w ≡ (ok value, w')
      → (laws.secrets w name ≡ some value) × (value ≢ [])
  unfolding require_secret
  required-view name w {value = value} {w' = w'} k =
      let (o, v, got, answered) =
        bind-eq_ok (vault_get client name) (required (vault_store client) name) w k in
      let (same, whole) = found_of o v answered in (sym (vault_get-view name w got).0 ∙ same, whole)
    where
      filled : {c : ℕ} {s : Text} → c ∷ s ≡ [] → ⊥
      filled h = cc

      found_of :
          (o : Option Text) (v : W)
          → required (vault_store client) name o v ≡ (ok value, w')
          → (o ≡ some value) × (value ≢ [])
      found_of none v h = absurd (raise-ne_ok _ v h)
      found_of (some []) v h = absurd (raise-ne_ok _ v h)
      found_of (some (c ∷ s)) v h =
          let (p, q) = pure-eq_ok (c ∷ s) v h in (ap some p, λ x. filled (p ∙ x))

  abbrev vault_spec : IsSecretStore (vault_store client)
  vault_spec = record {
    IsValid = λ w. Unit {0};
    view = laws.secrets;
    get_ok = λ name w valid k. let (p, q) = vault_get-view name w k in (p, tt, q);
    set_ok = λ name value w valid k. (tt, laws.written name value w k);
    set_err = λ name value w valid k. (tt, laws.unwritten name value w k);
  }

  -- Where Key Vault answers as `VaultLaws` says: whatever writes the vault store takes, an answered
  -- get of a name afterwards gives what a map from names to secrets holds after the same writes, where
  -- only a write that raised may be left out; and a secret that `require_secret` returns is the one
  -- that the map holds, and is not empty.
  pub vault_store-Replays :
      (ws : List Write) (w : W)
      → (g : SecretMap) × Replays (attempts (vault_store client) ws w) (laws.secrets w) g
        × ((name : Text) (o : Option Text) (w' : W)
            → vault_get client name (run_writes (vault_store client) ws w) ≡ (ok o, w')
            → o ≡ g name)
        × ((name value : Text) (w' : W)
            → require_secret (vault_store client) name (run_writes (vault_store client) ws w)
              ≡ (ok value, w')
            → (g name ≡ some value) × (value ≢ []))
  vault_store-Replays ws w = (
    laws.secrets (run_writes (vault_store client) ws w),
    run_writes-Replays (vault_store client) vault_spec ws w tt,
    λ name o w' k. (vault_get-view name _ k).0,
    λ name value w' k. required-view name _ k,
  )
