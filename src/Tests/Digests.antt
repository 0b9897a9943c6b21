-- ===== src/Tests/Digests.antt =====
-- Rows of a failure query, and what the digest makes of them.
use claim_automation_cloud.Prelude.{
  ℕ, ◌≤◌, ◌≡◌, refl, true, false, none, some, List, [], ◌∷◌, length, arith,
}
use claim_automation_cloud.Text.{Text, codes, contains, starts_with, is_ascii_digit}
use claim_automation_cloud.Json.{
  Json, number, string, array, object, no_fields, field, no_items, item,
}
use claim_automation_cloud.Digest.{Row, GroupKey, group_rows, key_of}
use claim_automation_cloud.Digest.Counts.{counted, groups_of, rows_of, group_rows-counts}
use claim_automation_cloud.Digest.Ranks.{IsRanked, group_rows-IsRanked}
use claim_automation_cloud.Digest.Body.{body_limit, backticks, fence, render_body}
use claim_automation_cloud.Digest.Limit.{render_body-le-limit}
use claim_automation_cloud.Digest.Fences.{fence-not_contained}
use claim_automation_cloud.Digest.Rows.{Issue, none_needed}
use claim_automation_cloud.Digest.Normalize.{normalize_message}
use claim_automation_cloud.Digest.Normalize.Http.{http_line, normalize_message-http}
use claim_automation_cloud.Tests.{ascii}

abbrev same_text : Text → Text
same_text message = message

abbrev seven : ℕ → Text
seven n = codes "7"

abbrev failure : Text → Text → Row
failure message timestamp = record {
  item_type = some (codes "trace");
  severity_level = some 3;
  message = message;
  timestamp = timestamp;
  details = codes "Traceback";
}

abbrev failures : List Row
failures =
    failure (codes "boom") (codes "2026-01-02T00:00:01Z")
    ∷ failure (codes "bang") (codes "2026-01-02T00:00:02.5Z")
    ∷ failure (codes "boom") (codes "2026-01-02T00:00:00.25Z")
    ∷ []

abbrev boom_key : GroupKey
boom_key = key_of same_text (failure (codes "boom") [])

group_rows-counts_example :
    (counted boom_key (group_rows same_text failures) ≡ rows_of same_text boom_key failures)
    × (groups_of boom_key (group_rows same_text failures) ≤ 1)
group_rows-counts_example = group_rows-counts same_text boom_key failures

group_rows-IsRanked_example : IsRanked (group_rows same_text failures)
group_rows-IsRanked_example = group_rows-IsRanked same_text failures

render_body-le-limit_example :
    length (render_body seven (group_rows same_text failures) true) ≤ body_limit
render_body-le-limit_example =
    render_body-le-limit seven (group_rows same_text failures) true (omega arith)

fence-not_contained_example :
    (contains (fence (codes "a ```` b")) (codes "a ```` b") ≡ false)
    × (starts_with (backticks 3) (fence (codes "a ```` b")) ≡ true)
fence-not_contained_example = fence-not_contained (codes "a ```` b")

abbrev query : Text → Json → Json
query column rows = object (
    field (codes "tables")
      (array (
        item
          (object (
            field (codes "columns")
              (array (item (object (field (codes "name") (string column) no_fields)) no_items))
              (field (codes "rows") rows no_fields)))
          no_items))
      no_fields)

abbrev no_failures : Json
no_failures = query (codes "message") (array no_items)

abbrev one_beat : Json
one_beat = query (codes "Count") (array (item (array (item (number 72) no_items)) no_items))

abbrev nothing : Issue
nothing = record { action = none_needed; title = none; body = none }

normalize_message-http_example :
    normalize_message ascii is_ascii_digit (
      http_line ascii is_ascii_digit refl refl refl
        (codes "429")
        (codes "7")
        (codes "https://a/1")
        b' '
        (codes "slow down"))
    ≡ normalize_message ascii is_ascii_digit (
        http_line ascii is_ascii_digit refl refl refl
          (codes "429")
          (codes "7")
          (codes "https://b/2")
          b' '
          [])
normalize_message-http_example =
    normalize_message-http ascii is_ascii_digit refl refl refl (codes "429") (codes "7") b'h'
      (codes "ttps://a/1") (codes "slow down") b'h' (codes "ttps://b/2") [] refl refl refl refl refl
      refl refl
