-- ===== src/Routes/Dashboard.antt =====
-- What the dashboard is answered: `metrics`.
use mathlib.Core.List.{Perm}
use mathlib.Core.List.Perm
use mathlib.Core.Path.{subst}
use claim_automation_cloud.Prelude.{ℕ, ◌≡◌, refl, sym, ap, ◌∙◌, some, List, [], ◌∷◌, map, length}
use claim_automation_cloud.Text.{codes}
use claim_automation_cloud.Exec.{ok}
use claim_automation_cloud.Exec.Inversion.{bind-eq_ok, pure-eq_ok, call-eq_ok, ok-injective}
use claim_automation_cloud.Records.{ClaimRecord, HistoryTotals, ErrorRun}
use claim_automation_cloud.Tables.{text, time, property, Entity, TableService, claim_history_table}
use claim_automation_cloud.Store.Listed.{held, Holds, Pairwise, list_claims-Holds}
use claim_automation_cloud.Store.{list_claims, history_totals, list_error_runs}
use claim_automation_cloud.Store.Newest.{IsFalling, times, list_claims-newest}
use claim_automation_cloud.Routes.{ClaimOut, claim_out, MetricsResponse, metrics}

abbrev pub out_times : List ClaimOut → List ℕ
out_times = map (λ (c : ClaimOut). c.at)

out_times-claim_out : (rs : List ClaimRecord) → out_times (map claim_out rs) ≡ times rs
out_times-claim_out [] = refl
out_times-claim_out (r ∷ rs) = ap (λ (ts : List ℕ). r.at ∷ ts) (out_times-claim_out rs)

-- A claim on the dashboard shows what its row holds, property by property.
abbrev pub Shows : Entity → ClaimOut → Type 0
Shows e c =
    (property (codes "at") e.props ≡ some (time c.at))
    × (property (codes "claim_ref") e.props ≡ some (text c.claim_ref))
    × (property (codes "type") e.props ≡ some (text c.type))
    × (property (codes "town") e.props ≡ held c.town)
    × (property (codes "owner") e.props ≡ held c.owner)
    × (property (codes "card_url") e.props ≡ some (text c.card_url))

claim_out-Shows : (e : Entity) (r : ClaimRecord) → Holds e r → Shows e (claim_out r)
claim_out-Shows e r (at, ref, subject, type, town, owner, url) = (at, ref, type, town, owner, url)

all-Shows :
    (rows : List Entity) (rs : List ClaimRecord)
    → Pairwise Holds rows rs
    → Pairwise Shows rows (map claim_out rs)
all-Shows [] [] h = tt
all-Shows (e ∷ rows) (r ∷ rs) h = (claim_out-Shows e r h.0, all-Shows rows rs h.1)
all-Shows [] (r ∷ rs) h = absurd h
all-Shows (e ∷ rows) [] h = absurd h

abbrev answer : List ClaimRecord → HistoryTotals → List ErrorRun → MetricsResponse
answer claims totals runs = record {
  emails_processed = totals.emails_processed;
  cards_created = length claims;
  emails_failed = totals.emails_failed;
  failed_runs = totals.failed_runs;
  error_runs = runs;
  claims = map claim_out claims;
}

-- What the dashboard answers about the claims: those of the rows, newest first, and their number.
abbrev pub Lists : List Entity → MetricsResponse → Type 0
Lists rows m =
    IsFalling (out_times m.claims)
    × ((listed : List ClaimOut) × Pairwise Shows rows listed × Perm m.claims listed)
    × (m.cards_created ≡ length rows)

module _ {W : Type 0} (service : TableService W) where
  same_rows :
      {w v v' : W} {rows rows' : List Entity}
      → service.query_partition claim_history_table (codes "claim") w ≡ (ok rows', v')
      → service.query_partition claim_history_table (codes "claim") w ≡ (ok rows, v)
      → length rows' ≡ length rows
  same_rows p q = ap length (ok-injective (call-eq_ok _ _ (sym p ∙ q)).0)

  list_claims-Lists :
      (w w' : W) (claims : List ClaimRecord) (totals : HistoryTotals) (runs : List ErrorRun)
      → list_claims service w ≡ (ok claims, w')
      → (rows : List Entity) × (v : W) × (service.query_partition claim_history_table
            (codes "claim")
            w
          ≡ (ok rows, v))
        × Lists rows (answer claims totals runs)
  list_claims-Lists w w' claims totals runs p =
      let (falling, (rows', v', p', count)) = list_claims-newest service w p in
      let (rows, v, records, q, hold, perm) = list_claims-Holds service w p in
      (
        rows,
        v,
        q,
        (
          subst IsFalling (sym (out_times-claim_out claims)) falling,
          (map claim_out records, all-Shows rows records hold, Perm.map claim_out perm),
          count ∙ same_rows p' q,
        ),
      )

  -- A dashboard that is answered has queried the ledger's partition, and its claims are the rows of
  -- the answer: up to the order one claim for each row, with the row's time, reference, type, town,
  -- owner and address of the card. They come newest first, and the number of cards created is that
  -- of the rows.
  pub metrics-newest :
      (w : W) {m : MetricsResponse} {w' : W}
      → metrics service w ≡ (ok m, w')
      → (rows : List Entity) × (v : W) × (service.query_partition claim_history_table
            (codes "claim")
            w
          ≡ (ok rows, v))
        × Lists rows m
  unfolding metrics
  metrics-newest w h =
      let (claims, w1, p1, k1) = bind-eq_ok (list_claims service) _ w h in
      let (totals, w2, p2, k2) = bind-eq_ok (history_totals service) _ w1 k1 in
      let (runs, w3, p3, k3) = bind-eq_ok (list_error_runs service) _ w2 k2 in
      let (rows, v, q, lists) = list_claims-Lists w w1 claims totals runs p1 in
      (rows, v, q, subst (Lists rows) (pure-eq_ok _ w3 k3).0 lists)
