-- ===== src/Store/Newest.antt =====
-- The order and the number of the claims that `list_claims` returns.
use mathlib.Core.Path.{subst}
use claim_automation_cloud.Prelude.{
  ℕ, suc, ◌≤◌, ◌≡◌, refl, sym, ap, ◌∙◌, inl, inr, List, [], ◌∷◌, map, leb, leb→le, length,
  Bool-cases, arith,
}
use claim_automation_cloud.Text.{codes}
use claim_automation_cloud.Exec.{ok, Exec, map_exec}
use claim_automation_cloud.Exec.Inversion.{bind-eq_ok, pure-eq_ok}
use claim_automation_cloud.Records.{ClaimRecord}
use claim_automation_cloud.Tables.{Entity, TableService, claim_history_table}
use claim_automation_cloud.Store.{insert_newest, newest_first, list_claims}

-- Times that never rise.
abbrev pub IsFalling : List ℕ → Type 0
IsFalling [] = Unit {0}
IsFalling (t ∷ []) = Unit {0}
IsFalling (t ∷ u ∷ ts) = (u ≤ t) × IsFalling (u ∷ ts)

abbrev pub times : List ClaimRecord → List ℕ
times = map (λ (r : ClaimRecord). r.at)

abbrev HeadLe : ℕ → List ClaimRecord → Type 0
HeadLe t [] = Unit {0}
HeadLe t (x ∷ xs) = x.at ≤ t

cons-IsFalling :
    (r : ClaimRecord) (rs : List ClaimRecord)
    → HeadLe r.at rs
    → IsFalling (times rs)
    → IsFalling (times (r ∷ rs))
cons-IsFalling r [] h f = tt
cons-IsFalling r (x ∷ rs) h f = (h, f)

tail-IsFalling :
    (r : ClaimRecord) (rs : List ClaimRecord)
    → IsFalling (times (r ∷ rs))
    → HeadLe r.at rs × IsFalling (times rs)
tail-IsFalling r [] f = (tt, tt)
tail-IsFalling r (x ∷ rs) f = f

module _ {W : Type 0} (service : TableService W) where
  insert_newest-HeadLe :
      (t : ℕ) (r : ClaimRecord) (xs : List ClaimRecord)
      → r.at ≤ t
      → HeadLe t xs
      → HeadLe t (insert_newest service r xs)
  unfolding insert_newest
  insert_newest-HeadLe t r [] h k = h
  insert_newest-HeadLe t r (x ∷ xs) h k = elim (Bool-cases (leb x.at r.at)) [
    | inl older ↦ rw older h
    | inr newer ↦ rw newer k
  ]

  insert_newest-IsFalling :
      (r : ClaimRecord) (xs : List ClaimRecord)
      → IsFalling (times xs)
      → IsFalling (times (insert_newest service r xs))
  unfolding insert_newest
  insert_newest-IsFalling r [] f = tt
  insert_newest-IsFalling r (x ∷ xs) f = elim (Bool-cases (leb x.at r.at)) [
    | inl older ↦ rw older (leb→le x.at r.at older, f)
    | inr newer ↦
        let (h, rest) = tail-IsFalling x xs f in
        rw newer (
          cons-IsFalling x (insert_newest service r xs)
            (insert_newest-HeadLe x.at r xs (ground arith) h) (insert_newest-IsFalling r xs rest))
  ]

  length-insert_newest :
      (r : ClaimRecord) (xs : List ClaimRecord)
      → length (insert_newest service r xs) ≡ suc (length xs)
  unfolding insert_newest
  length-insert_newest r [] = refl
  length-insert_newest r (x ∷ xs) = ground (arith, length-insert_newest r xs)

  newest_first-IsFalling : (rs : List ClaimRecord) → IsFalling (times (newest_first service rs))
  unfolding newest_first
  newest_first-IsFalling [] = tt
  newest_first-IsFalling (r ∷ rs) =
      insert_newest-IsFalling r (newest_first service rs) (newest_first-IsFalling rs)

  length-newest_first : (rs : List ClaimRecord) → length (newest_first service rs) ≡ length rs
  unfolding newest_first
  length-newest_first [] = refl
  length-newest_first (r ∷ rs) =
      length-insert_newest r (newest_first service rs) ∙ ap suc (length-newest_first rs)

length-map_exec :
    {W A B : Type 0} (f : A → Exec W B) (xs : List A) (w : W) {ys : List B} {w' : W}
    → map_exec f xs w ≡ (ok ys, w')
    → length ys ≡ length xs
unfolding map_exec
length-map_exec f [] w h = ap length (sym (pure-eq_ok [] w h).0)
length-map_exec f (x ∷ xs) w h =
    let (y, v, p, k) = bind-eq_ok (f x) _ w h in
    let (ys', v', p', k') = bind-eq_ok (map_exec f xs) _ v k in
    ap length (sym (pure-eq_ok _ v' k').0) ∙ ap suc (length-map_exec f xs v p')

module _ {W : Type 0} (service : TableService W) where
  pub list_claims-newest :
      (w : W) {rs : List ClaimRecord} {w' : W}
      → list_claims service w ≡ (ok rs, w')
      → IsFalling (times rs)
        × ((rows : List Entity) × (v : W) × (service.query_partition claim_history_table
                (codes "claim")
                w
              ≡ (ok rows, v))
            × (length rs ≡ length rows))
  unfolding list_claims
  list_claims-newest w h =
      let (rows, v, p, k) =
        bind-eq_ok (service.query_partition claim_history_table (codes "claim")) _ w h in
      let (records, v', p', k') = bind-eq_ok _ _ v k in
      let (same, at_end) = pure-eq_ok _ v' k' in
      (
        subst (λ rs. IsFalling (times rs)) same (newest_first-IsFalling service records),
        (
          rows,
          v,
          p,
          ap length (sym same) ∙ length-newest_first service records ∙ length-map_exec _ rows v p',
        ),
      )
