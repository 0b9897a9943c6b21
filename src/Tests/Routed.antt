-- ===== src/Tests/Routed.antt =====
-- The routes over a memory of rows beside a map of secrets.
use claim_automation_cloud.Prelude.{◌≡◌, refl, sym, ap, true, false, Option, none, List, [], ◌∷◌}
use claim_automation_cloud.Text.{Text, codes, strip, lstrip, text_eq}
use claim_automation_cloud.Exec.{Error, Result, ok, err, Exec, ◌>>=◌, try_except, map_exec}
use claim_automation_cloud.Tables.{
  text, time, property, to_claim_record, Props, Entity, TableService, claim_history_table,
}
use claim_automation_cloud.Tables.Laws.{TableLaws}
use claim_automation_cloud.Tables.Memory.{Memory, memory, memory-TableLaws, empty_memory}
use claim_automation_cloud.Secrets.{SecretStore, trello_api_key, trello_token}
use claim_automation_cloud.Secrets.Spec.{SecretMap, update, IsSecretStore}
use claim_automation_cloud.Store.{
  get_entity_or_none, read_trello_config, write_trello_config, list_claims, newest_first,
  history_totals, list_error_runs,
}
use claim_automation_cloud.Routes.{
  TrelloState, TrelloSettingsBody, MetricsResponse, is_stored, save_trello_settings, metrics,
}
use claim_automation_cloud.Routes.Saved.{kept, save_trello_settings-settled}
use claim_automation_cloud.Routes.Dashboard.{Lists, metrics-newest}
use claim_automation_cloud.Tests.{ascii}

record Both : Type 0 where
  rows : Memory
  secrets : SecretMap

abbrev beside : {A : Type 0} → SecretMap → Result A × Memory → Result A × Both
beside f (r, m) = (r, record { rows = m; secrets = f })

abbrev on_rows : {A : Type 0} → Exec Memory A → Exec Both A
on_rows m w = beside w.secrets (m w.rows)

abbrev both_tables : TableService Both
both_tables = record {
  create_table = λ name. on_rows (memory.create_table name);
  get_entity = λ k. on_rows (memory.get_entity k);
  upsert_entity = λ k p. on_rows (memory.upsert_entity k p);
  create_entity = λ k p. on_rows (memory.create_entity k p);
  update_entity = λ k p tag. on_rows (memory.update_entity k p tag);
  delete_entity = λ k. on_rows (memory.delete_entity k);
  query_partition = λ table partition. on_rows (memory.query_partition table partition);
}

rows_of :
    {A : Type 0} (m : Exec Memory A) (w : Both) {r : Result A} {w' : Both}
    → on_rows m w ≡ (r, w')
    → m w.rows ≡ (r, w'.rows)
rows_of m w h = ap (λ (x : Result _ × Both). (x.0, x.1.rows)) h

abbrev both_laws : TableLaws both_tables
both_laws = record {
  row = λ w k. memory-TableLaws.row w.rows k;
  get_ok = λ k w h. memory-TableLaws.get_ok k w.rows (rows_of (memory.get_entity k) w h);
  get_err = λ k w h. memory-TableLaws.get_err k w.rows (rows_of (memory.get_entity k) w h);
  upsert_ok =
      λ k p w h. memory-TableLaws.upsert_ok k p w.rows (rows_of (memory.upsert_entity k p) w h);
  create_others = λ k p w j ne. memory-TableLaws.create_others k p w.rows j ne;
}

abbrev both_secrets : SecretStore Both
both_secrets = record {
  get = λ name w. (ok (w.secrets name), w);
  set = λ name value w. (ok tt, record { rows = w.rows; secrets = update w.secrets name value });
}

ok-ne_err :
    {A : Type 0} (a : A) {e : Error} {v w : Both}
    → ◌≡◌ {A = Result A × Both} (ok a, v) (err e, w)
    → ⊥
ok-ne_err a h = cc

both_got :
    (name : Text) (w : Both) {o : Option Text} {w' : Both}
    → both_secrets.get name w ≡ (ok o, w')
    → (o ≡ w.secrets name) × (w'.secrets ≡ w.secrets)
both_got name w h = (cc, ap (λ (x : Result (Option Text) × Both). x.1.secrets) (sym h))

abbrev both_spec : IsSecretStore both_secrets
both_spec = record {
  IsValid = λ w. Unit {0};
  view = λ w. w.secrets;
  get_ok = λ name w valid h. let (p, q) = both_got name w h in (p, tt, q);
  set_ok = λ name value w valid h. (tt, ap (λ (x : Result (Unit {0}) × Both). x.1.secrets) (sym h));
  set_err = λ name value w valid h. absurd (ok-ne_err tt h);
}

abbrev at_start : Both
at_start = record { rows = empty_memory; secrets = λ name. none }

abbrev submitted : TrelloSettingsBody
submitted = record {
  api_key = codes " k ";
  token = codes " ";
  board_id = codes " b";
  list_id = codes "l";
}

abbrev outcome : Result TrelloState × Both
outcome = save_trello_settings both_secrets both_tables ascii submitted at_start

abbrev answered : TrelloState
answered = record {
  api_key_stored = true;
  token_stored = false;
  board_id = codes "b";
  list_id = codes "l";
}

saved : outcome ≡ (ok answered, outcome.1)
unfolding save_trello_settings try_except ◌>>=◌ read_trello_config write_trello_config
    get_entity_or_none property strip lstrip text_eq
saved = refl

save_trello_settings-settled_example :
    (outcome.1.secrets
      ≡ kept trello_token
          (strip ascii.is_space submitted.token)
          (kept trello_api_key (strip ascii.is_space submitted.api_key) at_start.secrets))
    × (answered.api_key_stored ≡ is_stored (outcome.1.secrets trello_api_key))
    × (answered.token_stored ≡ is_stored (outcome.1.secrets trello_token))
    × (answered.board_id ≡ strip ascii.is_space submitted.board_id)
    × (answered.list_id ≡ strip ascii.is_space submitted.list_id)
save_trello_settings-settled_example =
    save_trello_settings-settled both_secrets both_tables both_spec both_laws
      (λ k. record { bound = λ w valid. (tt, refl) })
      (λ k p. record { bound = λ w valid. (tt, refl) }) ascii submitted at_start tt saved

abbrev one_claim : Props
one_claim =
    (codes "at", time 3)
    ∷ (codes "claim_ref", text (codes "2026/1"))
    ∷ (codes "subject", text (codes "s"))
    ∷ (codes "type", text (codes "t"))
    ∷ (codes "card_url", text (codes "u"))
    ∷ []

abbrev one_row : TableService Memory
one_row = record memory {
  query_partition = λ table partition m. (ok (record { props = one_claim; etag = 0 } ∷ []), m);
}

abbrev shown : MetricsResponse
shown = record {
  emails_processed = 0;
  cards_created = 1;
  emails_failed = 0;
  failed_runs = 0;
  error_runs = [];
  claims =
      record {
        at = 3;
        claim_ref = codes "2026/1";
        type = codes "t";
        town = none;
        owner = none;
        card_url = codes "u";
      }
      ∷ [];
}

listed : metrics one_row empty_memory ≡ (ok shown, empty_memory)
unfolding metrics list_claims map_exec ◌>>=◌ newest_first history_totals list_error_runs property
    text_eq to_claim_record
listed = refl

metrics-newest_example :
    (rows : List Entity) × (v : Memory) × (one_row.query_partition claim_history_table
        (codes "claim")
        empty_memory
      ≡ (ok rows, v))
    × Lists rows shown
metrics-newest_example = metrics-newest one_row empty_memory listed
