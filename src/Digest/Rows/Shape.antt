-- ===== src/Digest/Rows/Shape.antt =====
-- The shapes of the query's answers that `_rows_as_dicts` and `_heartbeat_count` accept.
use mathlib.Core.Option.{some-injective}
use mathlib.Core.Path.{subst}
use claim_automation_cloud.Prelude.{
  ℕ, ◌≡◌, refl, sym, ap, ◌∙◌, ◌⊎◌, inl, inr, Option, none, some, List, [], ◌∷◌, Bool-cases,
}
use claim_automation_cloud.Text.{Text, codes, text_eq, text_eq_iff}
use claim_automation_cloud.Exec.{Result, ok, err}
use claim_automation_cloud.Exec.Inversion.{ok-injective}
use claim_automation_cloud.Json.{
  Json, null, string, number, array, object, Items, no_items, item, Fields, field, lookup, iterate,
  get_item, get_or, item_list, found, found_or,
}
use claim_automation_cloud.Digest.Rows.{
  ◌>=>◌, map_result, rows_as_dicts, first_table, row_list, text_of_name, int_of, zip_fields,
  as_dict,
}

pub >=>-eq_ok :
    {A B : Type 0} (m : Result A) (f : A → Result B) {b : B}
    → (m >=> f) ≡ ok b
    → (a : A) × (m ≡ ok a) × (f a ≡ ok b)
>=>-eq_ok (ok a) f h = (a, refl, h)
>=>-eq_ok (err e) f h = cc

-- A query's answer: an object whose `tables` starts with an object that has the given columns and
-- the given array of rows.
abbrev pub IsTable : Json → List Json → Items → Type 0
IsTable query columns rows =
    (top : Fields) × (table : Fields) × (others : Items) × (named : Json) × (query ≡ object top)
    × (lookup (codes "tables") top ≡ some (array (item (object table) others)))
    × (lookup (codes "rows") table ≡ some (array rows))
    × (lookup (codes "columns") table ≡ some named)
    × (iterate named ≡ ok columns)

-- The value stands in the row under a column of the given name.
abbrev pub IsCell : Text → Json → List Json → List Json → Type 0
IsCell name value (column ∷ columns) (x ∷ xs) =
    ((get_item (codes "name") column ≡ ok (string name)) × (x ≡ value))
    ⊎ IsCell name value columns xs
IsCell name value columns xs = ⊥

first_table-eq_ok :
    (j : Json) {t : Json} → first_table j ≡ ok t → (others : Items) × (j ≡ array (item t others))
first_table-eq_ok (array (item table tables)) h =
    (tables, ap (λ (x : Json). array (item x tables)) (ok-injective h))
first_table-eq_ok _ h = cc

row_list-eq_ok :
    (j : Json) {rows : List Json}
    → row_list j ≡ ok rows
    → (items : Items) × (j ≡ array items) × (item_list items ≡ rows)
row_list-eq_ok (array items) h = (items, refl, ok-injective h)
row_list-eq_ok _ h = cc

null_or_some : (o : Option Json) {v : Json} → found_or null o ≡ v → (v ≡ null → ⊥) → o ≡ some v
null_or_some none h k = absurd (k (sym h))
null_or_some (some x) h k = ap some h

get_or-eq_ok :
    (name : Text) (j : Json) {v : Json}
    → get_or name null j ≡ ok v
    → (v ≡ null → ⊥)
    → (fields : Fields) × (j ≡ object fields) × (lookup name fields ≡ some v)
get_or-eq_ok name (object fields) h k =
    (fields, refl, null_or_some (lookup name fields) (ok-injective h) k)
get_or-eq_ok name _ h k = cc

pub found-eq_ok : (o : Option Json) {v : Json} → found o ≡ ok v → o ≡ some v
found-eq_ok none h = cc
found-eq_ok (some x) h = ap some (ok-injective h)

abbrev pub name_of : Json → Result Text
name_of column = get_item (codes "name") column >=> text_of_name

text_of_name-eq_ok : (j : Json) {s : Text} → text_of_name j ≡ ok s → j ≡ string s
text_of_name-eq_ok (string s) h = ap string (ok-injective h)
text_of_name-eq_ok _ h = cc

pub int_of-eq_ok : (j : Json) {n : ℕ} → int_of j ≡ ok n → j ≡ number n
int_of-eq_ok (number n) h = ap number (ok-injective h)
int_of-eq_ok _ h = cc

array_ne : {items : Items} → array items ≡ null → ⊥
array_ne h = cc

lookup_field :
    (key name : Text) (x v : Json) (rest : Fields)
    → lookup name (field key x rest) ≡ some v
    → ((key ≡ name) × (x ≡ v)) ⊎ (lookup name rest ≡ some v)
lookup_field key name x v rest h = elim (Bool-cases (text_eq key name)) [
  | inl same ↦ inl ((text_eq_iff key name).0 same, some-injective _ _ (rw same at h))
  | inr apart ↦ inr (rw apart at h)
]

name_of-eq_ok :
    (column : Json) {s : Text}
    → name_of column ≡ ok s
    → get_item (codes "name") column ≡ ok (string s)
name_of-eq_ok column h =
    let (j, e, k) = >=>-eq_ok (get_item (codes "name") column) _ h in
    e ∙ ap ok (text_of_name-eq_ok j k)

-- What a row's dictionary holds under a name stands in a column of that name.
pub zip_fields-IsCell :
    (name : Text) (v : Json) (columns xs : List Json) (names : List Text) (fields : Fields)
    → map_result name_of columns ≡ ok names
    → lookup name (zip_fields names xs fields) ≡ some v
    → IsCell name v columns xs ⊎ (lookup name fields ≡ some v)
unfolding map_result
zip_fields-IsCell name v [] xs names fields e h =
    inr (subst (λ ns. lookup name (zip_fields ns xs fields) ≡ some v) (sym (ok-injective e)) h)
zip_fields-IsCell name v (c ∷ cs) xs names fields e h =
    let (key, p, k) = >=>-eq_ok (name_of c) _ e in
    let (keys, q, l) = >=>-eq_ok (map_result name_of cs) _ k in
    go key keys xs (λ ys fs g. zip_fields-IsCell name v cs ys keys fs q g) (name_of-eq_ok c p)
      (subst (λ ns. lookup name (zip_fields ns xs fields) ≡ some v) (sym (ok-injective l)) h)
  where
    go :
        (key : Text) (keys : List Text) (ys : List Json)
        → ((zs : List Json) (fs : Fields)
            → lookup name (zip_fields keys zs fs) ≡ some v
            → IsCell name v cs zs ⊎ (lookup name fs ≡ some v))
        → get_item (codes "name") c ≡ ok (string key)
        → lookup name (zip_fields (key ∷ keys) ys fields) ≡ some v
        → IsCell name v (c ∷ cs) ys ⊎ (lookup name fields ≡ some v)
    go key keys [] deeper p g = inr g
    go key keys (y ∷ ys) deeper p g = elim (deeper ys (field key y fields) g) [
      | inl cell ↦ inl (inr cell)
      | inr here ↦ elim (lookup_field key name y v fields here) [
        | inl (same, value) ↦ inl (inl (p ∙ ap (λ (s : Text). ok (string s)) same, value))
        | inr before ↦ inr before
      ]
    ]

-- What a query went through whose rows were read.
pub rows_as_dicts-IsTable :
    (query : Json) (dicts : List Json)
    → rows_as_dicts query ≡ ok dicts
    → (columns : List Json) × (rows : Items) × (names : List Text) × IsTable query columns rows
      × (map_result name_of columns ≡ ok names)
      × (map_result (as_dict names) (item_list rows) ≡ ok dicts)
unfolding rows_as_dicts
rows_as_dicts-IsTable query dicts h =
    let (tables, e1, k1) = >=>-eq_ok (get_or (codes "tables") null query) _ h in
    let (table, e2, k2) = >=>-eq_ok (first_table tables) _ k1 in
    let (rows, e3, k3) = >=>-eq_ok (get_or (codes "rows") null table >=> row_list) _ k2 in
    let (names, e4, k4) = >=>-eq_ok _ _ k3 in
    let (listed, e5, k5) = >=>-eq_ok (get_or (codes "rows") null table) _ e3 in
    let (columns, e6, k6) = >=>-eq_ok (get_item (codes "columns") table >=> iterate) _ e4 in
    let (named, e7, k7) = >=>-eq_ok (get_item (codes "columns") table) _ e6 in
    let (others, p2) = first_table-eq_ok tables e2 in
    let (items, p5, q5) = row_list-eq_ok listed k5 in
    let (top, p1, l1) = get_or-eq_ok _ query e1 (λ n. array_ne (sym p2 ∙ n)) in
    let (fields, p3, l3) = get_or-eq_ok _ table e5 (λ n. array_ne (sym p5 ∙ n)) in
    let l7 =
      found-eq_ok (lookup (codes "columns") fields)
        (subst (λ j. get_item (codes "columns") j ≡ ok named) p3 e7) in
    (
      columns,
      items,
      names,
      (
        top,
        fields,
        others,
        named,
        p1,
        l1 ∙ ap some (p2 ∙ ap (λ (j : Json). array (item j others)) p3),
        l3 ∙ ap some p5,
        l7,
        k7,
      ),
      k6,
      subst (λ rs. map_result (as_dict names) rs ≡ ok dicts) (sym q5) k4,
    )

-- A query whose rows were read and are none holds an empty array of rows.
pub rows_as_dicts-empty :
    (query : Json)
    → rows_as_dicts query ≡ ok []
    → (columns : List Json) × IsTable query columns no_items
unfolding map_result
rows_as_dicts-empty query h =
    let (columns, rows, names, table, e, k) = rows_as_dicts-IsTable query [] h in
    (columns, go columns names rows table k)
  where
    go :
        (columns : List Json) (names : List Text) (rows : Items)
        → IsTable query columns rows
        → map_result (as_dict names) (item_list rows) ≡ ok []
        → IsTable query columns no_items
    go columns names no_items table k = table
    go columns names (item row rows) table k =
        let (dict, e, l) = >=>-eq_ok (as_dict names row) _ k in
        let (dicts, q, m) = >=>-eq_ok (map_result (as_dict names) (item_list rows)) _ l in
        absurd (cons_ne (ok-injective m))
      where
        cons_ne : {d : Json} {ds : List Json} → d ∷ ds ≡ [] → ⊥
        cons_ne p = cc
