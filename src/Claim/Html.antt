-- ===== src/Claim/Html.antt =====
-- `ClaimData._html_to_plain` of backend/pipeline/claim_data.py, substitution by substitution.
use claim_automation_cloud.Prelude.{
  ℕ, Bool, ◌||◌, ◌&&◌, none, some, [], ◌∷◌, map, ◌==◌, if◌then◌else◌,
}
use claim_automation_cloud.Text.{Text, codes, replace, strip, split_on, join, Runtime}
use claim_automation_cloud.Text.Regex.{
  Pattern, sub, and_then, skip_while, one, optional, some_of, literal_ci, after_ci, to_close,
  is_ascii_letter,
}

abbrev pub newline : ℕ
newline = 10

abbrev is_blank : ℕ → Bool
is_blank c = c == 32 || c == 9

abbrev is_tag_mark : ℕ → Bool
is_tag_mark c = c == b'/' || (c == b'!' || c == b'?')

-- `\n{3,}`
unfoldable pub newline_run : Pattern
newline_run (a ∷ b ∷ c ∷ s) =
    if a == newline && (b == newline && c == newline)
    then some (skip_while (λ d. d == newline) s)
    else none
newline_run _ = none

module _ (py : Runtime) where
  -- `<NAME[^>]*>.*?</NAME>`, for the opening `<NAME` and the closing `</NAME>`.
  unfoldable pub block : Text → Text → Pattern
  block opening closing s =
      and_then (and_then (literal_ci py.eq_ignore_case opening s) to_close)
        (after_ci py.eq_ignore_case closing)

  -- `<br\s*/?>`
  unfoldable pub line_break : Pattern
  line_break s =
      and_then (literal_ci py.eq_ignore_case (codes "<br") s)
        (λ t. one (λ c. c == b'>') (optional (λ c. c == b'/') (skip_while py.is_space t)))

  -- `</p\s*>`
  unfoldable pub paragraph_end : Pattern
  paragraph_end s =
      and_then (literal_ci py.eq_ignore_case (codes "</p") s)
        (λ t. one (λ c. c == b'>') (skip_while py.is_space t))

  -- `\s*<[/!?]?[a-zA-Z][^>]*>\s*`
  unfoldable pub tag : Pattern
  tag s =
      and_then
        (and_then
          (and_then (one (λ c. c == b'<') (skip_while py.is_space s))
            (λ t. one is_ascii_letter (optional is_tag_mark t)))
          to_close)
        (λ t. some (skip_while py.is_space t))

  -- The tags and entities go, the breaks stay as newlines.
  unfoldable pub strip_markup : Text → Text
  unfolding block line_break paragraph_end tag
  strip_markup text =
      let t1 = sub (block (codes "<head") (codes "</head>")) [] text in
      let t2 = sub (block (codes "<style") (codes "</style>")) [] t1 in
      let t3 = sub (block (codes "<script") (codes "</script>")) [] t2 in
      let t4 = sub line_break (1 ∷ []) t3 in
      let t5 = sub paragraph_end (2 ∷ []) t4 in
      let t6 = py.unescape (sub tag (32 ∷ []) t5) in
      replace (replace t6 (1 ∷ []) (newline ∷ [])) (2 ∷ []) (newline ∷ newline ∷ [])

  -- Spaces and tabs collapse, each line is trimmed, a run of blank lines becomes one.
  unfoldable pub tidy : Text → Text
  unfolding newline_run
  tidy text =
      let t1 = sub (some_of is_blank) (32 ∷ []) text in
      let t2 = join (newline ∷ []) (map (strip py.is_space) (split_on newline t1)) in
      strip py.is_space (sub newline_run (newline ∷ newline ∷ []) t2)

  unfoldable pub html_to_plain : Text → Text
  unfolding strip_markup tidy
  html_to_plain text = tidy (strip_markup text)
