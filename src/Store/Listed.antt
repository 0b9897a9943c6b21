-- ===== src/Store/Listed.antt =====
-- The rows behind the claims that `list_claims` returns.
use mathlib.Core.List.{Perm}
use mathlib.Core.List.Perm
use mathlib.Core.Path.{subst}
use claim_automation_cloud.Prelude.{
  ℕ, ◌≡◌, arith, inl, inr, Option, none, some, List, [], ◌∷◌, leb, Bool-cases,
}
use claim_automation_cloud.Text.{Text, codes}
use claim_automation_cloud.Exec.{ok, map_exec}
use claim_automation_cloud.Exec.Inversion.{bind-eq_ok, pure-eq_ok, lift-eq_ok}
use claim_automation_cloud.Records.{ClaimRecord}
use claim_automation_cloud.Tables.{
  Value, text, time, Entity, TableService, claim_history_table, property, to_claim_record, time_of,
  text_of, optional_text,
}
use claim_automation_cloud.Store.{insert_newest, newest_first, list_claims}

-- The property that holds an optional text: absent, or the text.
abbrev pub held : Option Text → Option Value
held none = none
held (some s) = some (text s)

-- The row holds the record, property by property.
abbrev pub Holds : Entity → ClaimRecord → Type 0
Holds e r =
    (property (codes "at") e.props ≡ some (time r.at))
    × (property (codes "claim_ref") e.props ≡ some (text r.claim_ref))
    × (property (codes "subject") e.props ≡ some (text r.subject))
    × (property (codes "type") e.props ≡ some (text r.type))
    × (property (codes "town") e.props ≡ held r.town)
    × (property (codes "owner") e.props ≡ held r.owner)
    × (property (codes "card_url") e.props ≡ some (text r.card_url))

-- Two lists of one length, related place by place.
abbrev pub Pairwise : {A B : Type 0} → (A → B → Type 0) → List A → List B → Type 0
Pairwise R [] [] = Unit
Pairwise R (x ∷ xs) (y ∷ ys) = R x y × Pairwise R xs ys
Pairwise R _ _ = ⊥

time_of-eq_ok : (o : Option Value) {t : ℕ} → time_of o ≡ ok t → o ≡ some (time t)
time_of-eq_ok o h = ground arith

text_of-eq_ok : (o : Option Value) {t : Text} → text_of o ≡ ok t → o ≡ some (text t)
text_of-eq_ok o h = ground arith

optional_text-eq_ok : (o : Option Value) {t : Option Text} → optional_text o ≡ ok t → o ≡ held t
optional_text-eq_ok o h = ground arith

module _ {W : Type 0} where
  to_claim_record-Holds :
      (e : Entity) (w : W) {r : ClaimRecord} {v : W}
      → to_claim_record e.props w ≡ (ok r, v)
      → Holds e r
  unfolding to_claim_record
  to_claim_record-Holds e w h =
      let (at, v1, e1, k1) = bind-eq_ok _ _ w h in
      let (ref, v2, e2, k2) = bind-eq_ok _ _ v1 k1 in
      let (subject, v3, e3, k3) = bind-eq_ok _ _ v2 k2 in
      let (type, v4, e4, k4) = bind-eq_ok _ _ v3 k3 in
      let (town, v5, e5, k5) = bind-eq_ok _ _ v4 k4 in
      let (owner, v6, e6, k6) = bind-eq_ok _ _ v5 k5 in
      let (url, v7, e7, k7) = bind-eq_ok _ _ v6 k6 in
      let (used, v8, e8, k8) = bind-eq_ok _ _ v7 k7 in
      subst (Holds e) (pure-eq_ok _ v8 k8).0 (
        time_of-eq_ok _ (lift-eq_ok _ w e1).0,
        text_of-eq_ok _ (lift-eq_ok _ v1 e2).0,
        text_of-eq_ok _ (lift-eq_ok _ v2 e3).0,
        text_of-eq_ok _ (lift-eq_ok _ v3 e4).0,
        optional_text-eq_ok _ (lift-eq_ok _ v4 e5).0,
        optional_text-eq_ok _ (lift-eq_ok _ v5 e6).0,
        text_of-eq_ok _ (lift-eq_ok _ v6 e7).0,
      )

  records-Holds :
      (rows : List Entity) (w : W) {rs : List ClaimRecord} {v : W}
      → map_exec (λ (e : Entity). to_claim_record e.props) rows w ≡ (ok rs, v)
      → Pairwise Holds rows rs
  unfolding map_exec
  records-Holds [] w h = subst (Pairwise Holds []) (pure-eq_ok [] w h).0 tt
  records-Holds (e ∷ rows) w h =
      let (r, v, p, k) = bind-eq_ok (to_claim_record e.props) _ w h in
      let (rs, v', p', k') = bind-eq_ok (map_exec _ rows) _ v k in
      subst (Pairwise Holds (e ∷ rows)) (pure-eq_ok _ v' k').0
        (to_claim_record-Holds e w p, records-Holds rows v p')

module _ {W : Type 0} (service : TableService W) where
  insert_newest-perm :
      (r : ClaimRecord) (rs : List ClaimRecord) → Perm (insert_newest service r rs) (r ∷ rs)
  unfolding insert_newest
  insert_newest-perm r [] = Perm.refl (r ∷ [])
  insert_newest-perm r (x ∷ xs) = elim (Bool-cases (leb x.at r.at)) [
    | inl older ↦ rw older (Perm.refl (r ∷ x ∷ xs))
    | inr newer ↦ rw newer (Perm.trans (Perm.cons x (insert_newest-perm r xs)) (Perm.swap r x xs))
  ]

  newest_first-perm : (rs : List ClaimRecord) → Perm (newest_first service rs) rs
  unfolding newest_first
  newest_first-perm [] = Perm.refl []
  newest_first-perm (r ∷ rs) =
      Perm.trans (insert_newest-perm r (newest_first service rs))
        (Perm.cons r (newest_first-perm rs))

  -- The claims are the records that the rows hold, in some order.
  pub list_claims-Holds :
      (w : W) {claims : List ClaimRecord} {w' : W}
      → list_claims service w ≡ (ok claims, w')
      → (rows : List Entity) × (v : W) × (records : List ClaimRecord) × (service.query_partition
            claim_history_table
            (codes "claim")
            w
          ≡ (ok rows, v))
        × Pairwise Holds rows records
        × Perm claims records
  unfolding list_claims
  list_claims-Holds w h =
      let (rows, v, p, k) =
        bind-eq_ok (service.query_partition claim_history_table (codes "claim")) _ w h in
      let (records, v', p', k') = bind-eq_ok _ _ v k in
      (
        rows,
        v,
        records,
        p,
        records-Holds rows v p',
        subst (λ cs. Perm cs records) (pure-eq_ok _ v' k').0 (newest_first-perm records),
      )
