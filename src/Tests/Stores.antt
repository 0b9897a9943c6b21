-- ===== src/Tests/Stores.antt =====
-- A disk and a vault, and writes on them.
use claim_automation_cloud.Prelude.{
  ℕ, zero, suc, ◌≡◌, ◌≢◌, refl, sym, ap, ◌∙◌, Bool, true, false, Option, none, some, List, [], ◌∷◌,
  ◌++◌, map,
}
use claim_automation_cloud.Text.{Text, codes}
use claim_automation_cloud.Exec.{Error, other_error, resource_not_found, Result, ok, err}
use claim_automation_cloud.Secrets.{
  trello_api_key, gmail_refresh_token, Dict, FileSystem, JsonText, VaultClient, file_get,
  file_store, vault_get, vault_store, require_secret,
}
use claim_automation_cloud.Secrets.Spec.{SecretMap, update, Write, Replays, attempts, run_writes}
use claim_automation_cloud.Secrets.Files.{FileLaws, file_view, file_store-Replays}
use claim_automation_cloud.Secrets.Vault.{VaultLaws, vault_store-Replays}

-- Texts in one text: each character up by one, and a zero after each text.
abbrev join_texts : List Text → Text
join_texts [] = []
join_texts (t ∷ ts) = map suc t ++ (0 ∷ join_texts ts)

abbrev onto : ℕ → List Text → List Text
onto c [] = (c ∷ []) ∷ []
onto c (t ∷ ts) = (c ∷ t) ∷ ts

unfoldable split_texts : Text → List Text
split_texts [] = []
split_texts (zero ∷ s) = [] ∷ split_texts s
split_texts (suc c ∷ s) = onto c (split_texts s)

split-join_one : (t rest : Text) → split_texts (map suc t ++ (0 ∷ rest)) ≡ t ∷ split_texts rest
unfolding split_texts
split-join_one [] rest = refl
split-join_one (c ∷ t) rest = ap (onto c) (split-join_one t rest)

split_texts-join_texts : (ts : List Text) → split_texts (join_texts ts) ≡ ts
unfolding split_texts
split_texts-join_texts [] = refl
split_texts-join_texts (t ∷ ts) =
    split-join_one t (join_texts ts) ∙ ap (λ (us : List Text). t ∷ us) (split_texts-join_texts ts)

abbrev flat : Dict → List Text
flat [] = []
flat ((key, value) ∷ d) = key ∷ value ∷ flat d

abbrev pairs : List Text → Dict
pairs (key ∷ value ∷ ts) = (key, value) ∷ pairs ts
pairs ts = []

pairs-flat : (d : Dict) → pairs (flat d) ≡ d
pairs-flat [] = refl
pairs-flat ((key, value) ∷ d) = ap (λ (e : Dict). (key, value) ∷ e) (pairs-flat d)

abbrev zero_ended : JsonText
zero_ended = record { dumps = λ d. join_texts (flat d); loads = λ t. ok (pairs (split_texts t)) }

record Disk : Type 0 where
  main : Option Text
  tmp : Option Text

abbrev is_there : Option Text → Bool
is_there none = false
is_there (some t) = true

abbrev text_of : Option Text → Result Text
text_of none = err (other_error (codes "no such file"))
text_of (some t) = ok t

abbrev disk_files : FileSystem Disk
disk_files = record {
  exists = λ w. (ok (is_there w.main), w);
  read_text = λ w. (text_of w.main, w);
  write_tmp = λ t w. (ok tt, record { main = w.main; tmp = some t });
  replace = λ w. (ok tt, record { main = w.tmp; tmp = none });
}

ok-ne_err :
    {W A : Type 0} (a : A) {e : Error} {v w : W} → ◌≡◌ {A = Result A × W} (ok a, v) (err e, w) → ⊥
ok-ne_err a h = cc

abbrev disk_laws : FileLaws disk_files zero_ended
disk_laws = record {
  content = λ w. w.main;
  staged = λ w. w.tmp;
  exists_none = λ w e. ap (λ (c : Option Text). (ok (is_there c), w)) e;
  exists_some = λ w t e. ap (λ (c : Option Text). (ok (is_there c), w)) e;
  read_ok = λ w t e. ap (λ (c : Option Text). (text_of c, w)) e;
  write_keeps = λ t w. refl;
  write_ok = λ t w k. ap (λ (r : Result (Unit {0}) × Disk). r.1.tmp) (sym k);
  replace_ok = λ w k. ap (λ (r : Result (Unit {0}) × Disk). r.1.main) (sym k);
  replace_err = λ w k. absurd (ok-ne_err tt k);
  loads-dumps = λ d.
      ap (λ (ts : List Text). ok (pairs ts)) (split_texts-join_texts (flat d))
      ∙ ap ok (pairs-flat d);
}

abbrev key_writes : List Write
key_writes =
    (trello_api_key, codes "k")
    ∷ (gmail_refresh_token, codes "r")
    ∷ (trello_api_key, codes "k2")
    ∷ []

file_store-Replays_example :
    (g : SecretMap) × Replays
      (attempts (file_store disk_files zero_ended) key_writes (record { main = none; tmp = none }))
      (file_view disk_files zero_ended disk_laws (record { main = none; tmp = none }))
      g
    × ((name : Text)
        → file_get disk_files zero_ended name (
            run_writes
              (file_store disk_files zero_ended)
              key_writes
              (record { main = none; tmp = none }))
          ≡ (
            ok (g name),
            run_writes
                (file_store disk_files zero_ended)
                key_writes
                (record { main = none; tmp = none }),
          ))
file_store-Replays_example =
    file_store-Replays disk_files zero_ended disk_laws key_writes
      (record { main = none; tmp = none }) ([], refl)

-- A vault is the map itself.
abbrev answer : Option Text → Result Text
answer none = err (resource_not_found (codes "SecretNotFound"))
answer (some value) = ok value

abbrev pub map_client : VaultClient SecretMap
map_client = record {
  get_secret = λ name f. (answer (f name), f);
  set_secret = λ name value f. (ok tt, update f name value);
}

answer-eq_ok : (o : Option Text) {value : Text} → answer o ≡ ok value → o ≡ some value
answer-eq_ok none h = cc
answer-eq_ok (some x) h = cc

answer-eq_missing :
    (o : Option Text) {code : Text} → answer o ≡ err (resource_not_found code) → o ≡ none
answer-eq_missing none h = refl
answer-eq_missing (some x) h = cc

abbrev map_laws : VaultLaws map_client
map_laws = record {
  secrets = λ f. f;
  found = λ name f k. (
    answer-eq_ok (f name) (ap (λ (r : Result Text × SecretMap). r.0) k),
    ap (λ (r : Result Text × SecretMap). r.1) (sym k),
  );
  missing = λ name code f k. (
    answer-eq_missing (f name) (ap (λ (r : Result Text × SecretMap). r.0) k),
    ap (λ (r : Result Text × SecretMap). r.1) (sym k),
  );
  written = λ name value f k. ap (λ (r : Result (Unit {0}) × SecretMap). r.1) (sym k);
  unwritten = λ name value f k. absurd (ok-ne_err tt k);
}

abbrev no_secrets : SecretMap
no_secrets = λ name. none

vault_store-Replays_example :
    (g : SecretMap) × Replays (attempts (vault_store map_client) key_writes no_secrets) no_secrets g
    × ((name : Text) (o : Option Text) (w' : SecretMap)
        → vault_get map_client name (run_writes (vault_store map_client) key_writes no_secrets)
          ≡ (ok o, w')
        → o ≡ g name)
    × ((name value : Text) (w' : SecretMap)
        → require_secret
            (vault_store map_client)
            name
            (run_writes (vault_store map_client) key_writes no_secrets)
          ≡ (ok value, w')
        → (g name ≡ some value) × (value ≢ []))
vault_store-Replays_example = vault_store-Replays map_client map_laws key_writes no_secrets
