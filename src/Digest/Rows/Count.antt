-- ===== src/Digest/Rows/Count.antt =====
-- The heartbeats that `_heartbeat_count` reads.
use mathlib.Core.Path.{subst}
use claim_automation_cloud.Prelude.{ℕ, suc, ◌≡◌, sym, ap, ◌∙◌, inl, inr, none, some, List}
use claim_automation_cloud.Text.{Text, codes}
use claim_automation_cloud.Exec.{ok}
use claim_automation_cloud.Exec.Inversion.{ok-injective}
use claim_automation_cloud.Json.{
  Json, number, Items, no_items, item, no_fields, iterate, get_item, item_list,
}
use claim_automation_cloud.Digest.Rows.{
  ◌>=>◌, map_result, rows_as_dicts, heartbeat_count, int_of, as_dict, count_in_first,
}
use claim_automation_cloud.Digest.Rows.Shape.{
  >=>-eq_ok, IsTable, IsCell, name_of, found-eq_ok, int_of-eq_ok, zip_fields-IsCell,
  rows_as_dicts-IsTable,
}

-- A heartbeat query's answer that counts a positive number: it has a first row, and that has the
-- number in a column with the name `Count`.
abbrev pub HasCount : Json → ℕ → Type 0
HasCount query count =
    (columns : List Json) × (row : Json) × (rows : Items) × (values : List Json) × IsTable query
      columns (item row rows)
    × (iterate row ≡ ok values)
    × IsCell (codes "Count") (number count) columns values

-- A first row's dictionary whose count was read has it in a column.
as_dict-IsCell :
    (columns : List Json) (names : List Text) (row dict : Json) (n : ℕ)
    → map_result name_of columns ≡ ok names
    → as_dict names row ≡ ok dict
    → (get_item (codes "Count") dict >=> int_of) ≡ ok n
    → (values : List Json) × (iterate row ≡ ok values)
      × IsCell (codes "Count") (number n) columns values
as_dict-IsCell columns names row dict n named e k =
    let (values, p, q) = >=>-eq_ok (iterate row) _ e in
    let (cell, l, m) = >=>-eq_ok (get_item (codes "Count") dict) _ k in
    let l' = subst (λ j. get_item (codes "Count") j ≡ ok cell) (sym (ok-injective q)) l in
    let here = found-eq_ok _ l' ∙ ap some (int_of-eq_ok cell m) in
    (
      values,
      p,
      elim (zip_fields-IsCell (codes "Count") (number n) columns values names no_fields named
          here) [ inl found_there ↦ found_there | inr nowhere ↦ absurd (none_ne nowhere) ],
    )
  where
    none_ne : {v : Json} → none ≡ some v → ⊥
    none_ne h = cc

count_in_first-HasCount :
    (query : Json) (count : ℕ) (columns : List Json) (names : List Text) (rows : Items)
    (dicts : List Json)
    → IsTable query columns rows
    → map_result name_of columns ≡ ok names
    → map_result (as_dict names) (item_list rows) ≡ ok dicts
    → count_in_first dicts ≡ ok (suc count)
    → HasCount query (suc count)
unfolding map_result
count_in_first-HasCount query count columns names no_items dicts table named read k =
    absurd (zero_ne (rw (← ok-injective read) at k))
  where
    zero_ne : ok 0 ≡ ok (suc count) → ⊥
    zero_ne h = cc
count_in_first-HasCount query count columns names (item row rows) dicts table named read k =
    let (dict, e, l) = >=>-eq_ok (as_dict names row) _ read in
    let (others, q, m) = >=>-eq_ok (map_result (as_dict names) (item_list rows)) _ l in
    let (values, p, cell) =
      as_dict-IsCell columns names row dict (suc count) named e
        (subst (λ ds. count_in_first ds ≡ ok (suc count)) (sym (ok-injective m)) k) in
    (columns, row, rows, values, table, p, cell)

pub heartbeat_count-HasCount :
    (query : Json) (count : ℕ) → heartbeat_count query ≡ ok (suc count) → HasCount query (suc count)
unfolding heartbeat_count
heartbeat_count-HasCount query count h =
    let (dicts, e, k) = >=>-eq_ok (rows_as_dicts query) _ h in
    let (columns, rows, names, table, named, read) = rows_as_dicts-IsTable query dicts e in
    count_in_first-HasCount query count columns names rows dicts table named read k
