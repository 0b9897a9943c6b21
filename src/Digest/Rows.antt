-- ===== src/Digest/Rows.antt =====
-- The query's rows and the issue: `_rows_as_dicts`, `_heartbeat_count` and `build_result`. The columns
-- are taken to have the types that the query gives them; any other value raises.
pub mod Quiet
pub mod Shape
pub mod Count
use claim_automation_cloud.Prelude.{
  ℕ, Bool, true, false, Option, none, some, List, [], ◌∷◌, ◌++◌, ◌==◌, if◌then◌else◌, length,
}
use claim_automation_cloud.Text.{Text, codes}
use claim_automation_cloud.Exec.{Result, ok, err, type_error, value_error}
use claim_automation_cloud.Json.{
  Json, null, number, string, array, object, Fields, no_fields, field, no_items, item, get_item,
  get_or, iterate,
}
use claim_automation_cloud.Digest.{Row, group_rows}
use claim_automation_cloud.Digest.Body.{render_body}

infixl 5 ◌>=>◌
abbrev pub ◌>=>◌ : {A B : Type 0} → Result A → (A → Result B) → Result B
ok a >=> f = f a
err e >=> f = err e

unfoldable pub map_result : {A B : Type 0} → (A → Result B) → List A → Result (List B)
map_result f [] = ok []
map_result f (x ∷ xs) = f x >=> λ y. map_result f xs >=> λ ys. ok (y ∷ ys)

abbrev shape_error : Json → Result (List Json)
shape_error j = err (value_error (codes "unexpected az query result shape"))

-- The first table, or the error of a query that has none.
abbrev pub first_table : Json → Result Json
first_table (array (item table tables)) = ok table
first_table j = err (value_error (codes "unexpected az query result shape (no tables)"))

abbrev pub row_list : Json → Result (List Json)
row_list (array items) = iterate (array items)
row_list j = shape_error j

abbrev pub text_of_name : Json → Result Text
text_of_name (string s) = ok s
text_of_name j = err type_error

-- `dict(zip(names, row))`: of two columns with one name the later counts, which stands in front.
abbrev pub zip_fields : List Text → List Json → Fields → Fields
zip_fields (name ∷ names) (value ∷ values) fields =
    zip_fields names values (field name value fields)
zip_fields names values fields = fields

abbrev pub as_dict : List Text → Json → Result Json
as_dict names row = iterate row >=> λ values. ok (object (zip_fields names values no_fields))

unfoldable pub rows_as_dicts : Json → Result (List Json)
unfolding map_result
rows_as_dicts query = get_or (codes "tables") null query >=> λ tables.
    first_table tables >=> λ table. get_or (codes "rows") null table >=> row_list >=> λ rows.
    get_item (codes "columns") table
    >=> iterate
    >=> map_result (λ column. get_item (codes "name") column >=> text_of_name)
    >=> λ names. map_result (as_dict names) rows

-- `int(value)`
abbrev pub int_of : Json → Result ℕ
int_of (number n) = ok n
int_of j = err type_error

abbrev pub count_in_first : List Json → Result ℕ
count_in_first [] = ok 0
count_in_first (row ∷ rows) = get_item (codes "Count") row >=> int_of

unfoldable pub heartbeat_count : Json → Result ℕ
unfolding rows_as_dicts
heartbeat_count query = rows_as_dicts query >=> count_in_first

abbrev optional_text : Json → Result (Option Text)
optional_text null = ok none
optional_text (string s) = ok (some s)
optional_text j = err type_error

-- `value or ""`
abbrev text_or_empty : Json → Result Text
text_or_empty null = ok []
text_or_empty (string s) = ok s
text_or_empty j = err type_error

abbrev optional_number : Json → Result (Option ℕ)
optional_number null = ok none
optional_number (number n) = ok (some n)
optional_number j = err type_error

-- What `_group` reads of a row's dictionary.
unfoldable pub to_row : Json → Result Row
to_row j = get_or (codes "itemType") null j >=> optional_text >=> λ item_type.
    get_or (codes "severityLevel") null j >=> optional_number >=> λ severity.
    get_or (codes "message") null j >=> text_or_empty >=> λ message.
    get_item (codes "timestamp") j >=> text_of_name >=> λ timestamp.
    get_or (codes "details") null j >=> text_or_empty >=> λ details. ok (record {
      item_type = item_type;
      severity_level = severity;
      message = message;
      timestamp = timestamp;
      details = details;
    })

pub data Action : Type 0 where
  none_needed digest telemetry_silent : Action

pub record Issue : Type 0 where
  pub action : Action
  pub title : Option Text
  pub body : Option Text

module _ (normalize : Text → Text) (str : ℕ → Text) where
  abbrev silent_issue : Text → Issue
  silent_issue date = record {
    action = telemetry_silent;
    title = some (codes "[auto] Telemetry silent " ++ date);
    body = some (
        codes "No failure rows AND no worker heartbeat traces on "
        ++ (date
            ++ codes
                " (UTC). A quiet night is only a clean night if the worker's wake logs are visible — telemetry may be dead (broken connection string, recreated App Insights resource, stopped app)."));
  }

  abbrev no_issue : Issue
  no_issue = record { action = none_needed; title = none; body = none }

  abbrev digest_issue : Text → List Row → Bool → Issue
  digest_issue date rows heartbeat_missing = record {
    action = digest;
    title = some (
        codes "[auto] Backend failures "
        ++ (date ++ (codes " (" ++ (str (length rows) ++ codes " events)"))));
    body = some (render_body str (group_rows normalize rows) heartbeat_missing);
  }

  abbrev pub issue_for : Text → List Json → Bool → Result Issue
  issue_for date [] true = ok (silent_issue date)
  issue_for date [] false = ok no_issue
  issue_for date (row ∷ rows) heartbeat_missing =
      map_result to_row (row ∷ rows) >=> λ read. ok (digest_issue date read heartbeat_missing)

  unfoldable pub build_result : Json → Json → Text → Result Issue
  unfolding rows_as_dicts heartbeat_count map_result to_row
  build_result failures heartbeat_query date = rows_as_dicts failures >=> λ rows.
      heartbeat_count heartbeat_query >=> λ count. issue_for date rows (count == 0)
