-- ===== src/Store/RoundTrip.antt =====
-- Reading back what was written, over any table service with the laws of Tables/Laws.
use mathlib.Core.Option.{some-injective}
use claim_automation_cloud.Prelude.{
  ℕ, ◌≡◌, ◌≢◌, ◌∙◌, refl, sym, ap, Option, none, some, arith, Bool-cases, inl, inr,
}
use claim_automation_cloud.Text.{Text}
use claim_automation_cloud.Exec.{
  Error, Result, ok, err, pure, ◌>>=◌, try_except, resource_not_found,
}
use claim_automation_cloud.Exec.Inversion.{
  bind-eq_ok, call-eq_ok, pure-eq_ok, raise-ne_ok, ok-injective,
}
use claim_automation_cloud.Records.{Heartbeat, ClaimRecord}
use claim_automation_cloud.Tables.{
  Props, Key, Entity, TableService, claim_key, claim_props, heartbeat_key, heartbeat_props,
  is_entity_missing,
}
use claim_automation_cloud.Tables.Laws.{TableLaws, SameRows, Missing}
use claim_automation_cloud.Store.{
  get_entity_or_none, on_missing, record_claim, get_claim, claim_found, read_heartbeat,
  heartbeat_found, write_heartbeat, history_key,
}
use claim_automation_cloud.Store.Codec.{to_claim_record-claim_props, to_heartbeat-heartbeat_props}

same_props :
    {e : Entity} {p : Props} {tag : ℕ}
    → some e ≡ some (record { props = p; etag = tag })
    → e.props ≡ p
same_props q = ap (λ (e : Entity). e.props) (some-injective _ _ q)

module _ {W : Type 0} (service : TableService W) (laws : TableLaws service) where
  on_missing-eq_ok :
      (x : Error) (v : W) {o : Option Entity} {w' : W}
      → on_missing service x v ≡ (ok o, w')
      → Missing x × (o ≡ none) × (v ≡ w')
  on_missing-eq_ok (resource_not_found code) v {o = o} h =
      elim (Bool-cases (is_entity_missing code)) [
        | inl gone ↦
            let (p, q) = pure-eq_ok none v (rw (gone, on_missing) at h) in
            ((code, refl, gone), sym p, q)
        | inr other ↦ absurd (raise-ne_ok _ v (rw (other, on_missing) at h))
      ]
  on_missing-eq_ok _ v h = absurd (raise-ne_ok _ v h)

  -- The read of one row: what the tables hold, `none` for a missing entity.
  pub get_entity_or_none-row :
      (k : Key) (w : W) {o : Option Entity} {w' : W}
      → get_entity_or_none service k w ≡ (ok o, w')
      → (o ≡ laws.row w k) × SameRows laws.row w w'
  unfolding get_entity_or_none try_except ◌>>=◌
  get_entity_or_none-row k w {o = o} {w' = w'} h =
      go (service.get_entity k w).0 (service.get_entity k w).1 refl h
    where
      go :
          (r : Result Entity) (v : W)
          → service.get_entity k w ≡ (r, v)
          → try_except ((λ _. (r, v)) >>= λ e. pure (some e)) (on_missing service) w ≡ (ok o, w')
          → (o ≡ laws.row w k) × SameRows laws.row w w'
      go (ok e) v q p =
          let (held, same) = laws.get_ok k w q in
          let (a, b) = pure-eq_ok (some e) v p in
          (sym a ∙ sym held, λ j. ap (λ (u : W). laws.row u j) (sym b) ∙ same j)
      go (err x) v q p =
          let (absent, same) = laws.get_err k w q in
          let (gone, a, b) = on_missing-eq_ok x v p in
          (a ∙ sym (absent gone), λ j. ap (λ (u : W). laws.row u j) (sym b) ∙ same j)

  -- A claim that was recorded is found under its reference, field by field as it was recorded, as
  -- long as the row has not been written again.
  pub get_claim-record_claim :
      (r : ClaimRecord) (w w1 w2 w3 : W) {u : Unit {0}} {o : Option ClaimRecord}
      → record_claim service r w ≡ (ok u, w1)
      → laws.row w2 (claim_key r.claim_ref) ≡ laws.row w1 (claim_key r.claim_ref)
      → get_claim service r.claim_ref w2 ≡ (ok o, w3)
      → o ≡ some r
  unfolding record_claim get_claim
  get_claim-record_claim r w w1 w2 w3 {o = o} h same k =
      let (tag, stored, others) = laws.upsert_ok (claim_key r.claim_ref) (claim_props r) w h in
      let (e, v, read, rest) = bind-eq_ok _ _ w2 k in
      let (held, still) = get_entity_or_none-row (claim_key r.claim_ref) w2 read in
      found e v (held ∙ (same ∙ stored)) rest
    where
      found :
          (e : Option Entity) (v : W) {tag : ℕ}
          → e ≡ some (record { props = claim_props r; etag = tag })
          → claim_found service e v ≡ (ok o, w3)
          → o ≡ some r
      found none v q p = cc
      found (some e) v q p =
          let (x, v', e1, k1) = bind-eq_ok _ _ v p in
          let (a, b) = pure-eq_ok (some x) v' k1 in
          let pe : e.props ≡ claim_props r = same_props q in
          let (c, d) = call-eq_ok _ _ (sym (to_claim_record-claim_props v r) ∙ (rw pe at e1)) in
          sym a ∙ ap some (sym (ok-injective c))

  heartbeat-ne-history :
      (pad20 : ℕ → Text) (time_ns : ℕ) → heartbeat_key ≢ history_key service pad20 time_ns
  heartbeat-ne-history pad20 time_ns e = absurd (ground (arith, ap (λ (k : Key). k.partition) e))

  -- What `write_heartbeat` leaves in the row of the last run, whether or not the row of the history
  -- could be appended.
  write_heartbeat-row :
      (pad20 : ℕ → Text) (time_ns : ℕ) (h : Heartbeat) (w w1 : W) {u : Unit {0}}
      → write_heartbeat service pad20 time_ns h w ≡ (ok u, w1)
      → (tag : ℕ) × (laws.row w1 heartbeat_key
          ≡ some (record { props = heartbeat_props h; etag = tag }))
  unfolding write_heartbeat try_except
  write_heartbeat-row pad20 time_ns h w w1 {u = u} wrote =
      let (u', v, e1, k1) = bind-eq_ok _ _ w wrote in
      let (tag, stored, others) = laws.upsert_ok heartbeat_key (heartbeat_props h) w e1 in
      let key = history_key service pad20 time_ns in
      let props = heartbeat_props h in
      let kept =
        laws.create_others key props v heartbeat_key (heartbeat-ne-history pad20 time_ns) in
      (
        tag,
        ap (λ (x : W). laws.row x heartbeat_key)
              (appended (service.create_entity key props v).0 (service.create_entity key props v).1
                v k1)
            ∙ (kept ∙ stored),
      )
    where
      appended :
          (r : Result (Unit {0})) (x v : W)
          → try_except (λ _. (r, x)) (λ _. pure tt) v ≡ (ok u, w1)
          → w1 ≡ x
      appended (ok t) x v q = ap (λ (y : Result (Unit {0}) × W). y.1) (sym q)
      appended (err t) x v q = sym (pure-eq_ok tt x q).1

  -- The last heartbeat that was written is the one that is read, whether or not the row of the
  -- history could be appended.
  pub read_heartbeat-write_heartbeat :
      (pad20 : ℕ → Text) (time_ns : ℕ) (h : Heartbeat) (w w1 w2 w3 : W) {u : Unit {0}}
      {o : Option Heartbeat}
      → write_heartbeat service pad20 time_ns h w ≡ (ok u, w1)
      → laws.row w2 heartbeat_key ≡ laws.row w1 heartbeat_key
      → read_heartbeat service w2 ≡ (ok o, w3)
      → o ≡ some h
  unfolding read_heartbeat
  read_heartbeat-write_heartbeat pad20 time_ns h w w1 w2 w3 {o = o} wrote same k =
      let (tag, stored) = write_heartbeat-row pad20 time_ns h w w1 wrote in
      let (e, v, read, rest) = bind-eq_ok _ _ w2 k in
      let (held, still) = get_entity_or_none-row heartbeat_key w2 read in
      found e v (held ∙ (same ∙ stored)) rest
    where
      found :
          (e : Option Entity) (v : W) {tag : ℕ}
          → e ≡ some (record { props = heartbeat_props h; etag = tag })
          → heartbeat_found service e v ≡ (ok o, w3)
          → o ≡ some h
      found none v q p = cc
      found (some e) v q p =
          let (x, v', e1, k1) = bind-eq_ok _ _ v p in
          let (a, b) = pure-eq_ok (some x) v' k1 in
          let pe : e.props ≡ heartbeat_props h = same_props q in
          let (c, d) = call-eq_ok _ _ (sym (to_heartbeat-heartbeat_props v h) ∙ (rw pe at e1)) in
          sym a ∙ ap some (sym (ok-injective c))
