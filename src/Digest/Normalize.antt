-- ===== src/Digest/Normalize.antt =====
-- The key of a message: `normalize_message`. `is_word` is the `\w` of `re`, which rests on the Unicode
-- tables. The patterns are read without backtracking: each class ends where what follows it begins.
pub mod Http
use claim_automation_cloud.Prelude.{
  ℕ, zero, suc, ◌-◌, Bool, true, false, not, ◌&&◌, ◌||◌, Option, none, some, List, [], ◌∷◌, ◌++◌,
  ◌==◌, leb, any, if◌then◌else◌, length, take,
}
use claim_automation_cloud.Text.{Text, codes, contains, join, span, is_ascii_digit, Runtime}
use claim_automation_cloud.Text.Regex.{
  Pattern, sub, sub_at, exactly, times, at_least, some_of, one, optional, and_then, skip_while,
  is_ascii_letter,
}

abbrev is_hex : ℕ → Bool
is_hex c = is_ascii_digit c || ((leb b'a' c && leb c b'f') || (leb b'A' c && leb c b'F'))

abbrev is_capital : ℕ → Bool
is_capital c = leb b'A' c && leb c b'Z'

abbrev dash : ℕ → Bool
dash c = c == b'-'

-- `x{1,n}`, where the class ends before what follows it.
unfoldable pub up_to : ℕ → (ℕ → Bool) → Text → Text
up_to zero p s = s
up_to (suc n) p [] = []
up_to (suc n) p (c ∷ s) = if p c then up_to n p s else c ∷ s

abbrev some_up_to : ℕ → (ℕ → Bool) → Pattern
some_up_to n p s = elim (times 1 p s) [ none ↦ none | some rest ↦ some (up_to (n - 1) p rest) ]

-- `s.split()`; `word` is the word so far.
abbrev push_word : Text → List Text → List Text
push_word [] ws = ws
push_word (c ∷ w) ws = (c ∷ w) ∷ ws

unfoldable pub words_from : (ℕ → Bool) → Text → Text → List Text
words_from space word [] = push_word word []
words_from space word (c ∷ s) =
    let rest = words_from space (if space c then [] else word ++ (c ∷ [])) s in
    if space c then push_word word rest else rest

-- Whether the run that `\S+:` takes ends in a colon that is not its first character.
unfoldable pub ends_in_colon : Text → Bool
ends_in_colon [] = false
ends_in_colon (c ∷ []) = false
ends_in_colon (c ∷ d ∷ []) = d == b':'
ends_in_colon (c ∷ d ∷ e ∷ s) = ends_in_colon (d ∷ e ∷ s)

module _ (py : Runtime) (is_word : ℕ → Bool) where
  abbrev pub not_space : ℕ → Bool
  not_space c = not (py.is_space c)

  -- `\b` behind a word character.
  abbrev word_ends : Pattern
  word_ends [] = some []
  word_ends (c ∷ s) = if is_word c then none else some (c ∷ s)

  -- `_EMAIL_RE`
  abbrev email_pattern : Pattern
  email_pattern s =
      and_then
        (and_then
          (and_then
            (and_then (some_up_to 64 (λ c. is_word c || (c == b'.' || (c == b'+' || c == b'-'))) s)
              (one (λ c. c == b'@')))
            (some_of (λ c. is_word c || c == b'-')))
          (one (λ c. c == b'.')))
        (some_of (λ c. is_word c || (c == b'.' || c == b'-')))

  -- `_UUID_RE`
  abbrev group_of_four : Pattern
  group_of_four s = and_then (times 4 is_hex s) (one dash)

  abbrev uuid_pattern : Bool → Pattern
  uuid_pattern true s = none
  uuid_pattern false s =
      and_then
        (and_then
          (and_then
            (and_then (and_then (and_then (times 8 is_hex s) (one dash)) group_of_four)
              group_of_four)
            group_of_four)
          (times 12 is_hex))
        word_ends

  -- The lookahead of `_HEX_ID_RE`: hexadecimal characters, then a digit.
  unfoldable pub digit_ahead : Text → Bool
  digit_ahead [] = false
  digit_ahead (c ∷ s) = let later = digit_ahead s in py.is_digit c || (is_hex c && later)

  abbrev hex_id_pattern : Bool → Pattern
  hex_id_pattern true s = none
  hex_id_pattern false s = if digit_ahead s then and_then (at_least 12 is_hex s) word_ends else none

  -- `_URL_RE`
  abbrev url_pattern : Pattern
  url_pattern s =
      and_then
        (and_then (exactly (codes "http") s)
          (λ t. exactly (codes "://") (optional (λ c. c == b's') t)))
        (some_of not_space)

  -- `_REF_RE`
  abbrev ref_pattern : Bool → Pattern
  ref_pattern true s = none
  ref_pattern false s =
      and_then (and_then (and_then (at_least 2 is_capital s) (one dash)) (at_least 3 py.is_digit))
        word_ends

  -- The group of `_HTTP_BODY_RE`: what is left behind it.
  unfoldable pub http_head : Pattern
  unfolding exactly
  http_head s =
      and_then
        (and_then
          (and_then (and_then (exactly (codes "HTTP ") s) (some_of py.is_digit))
            (exactly (codes " from ")))
          (some_of is_word))
        (exactly (codes " "))

  -- `\S+:\s` behind the group.
  abbrev pub has_body : Text × Text → Bool
  has_body (run, []) = false
  has_body (run, c ∷ s) = ends_in_colon run

  -- The group where the whole pattern matches; the rest of the text then belongs to the match.
  unfoldable pub http_group : Text → Option Text
  unfolding http_head ends_in_colon span
  http_group s = elim (http_head s) [
    | none ↦ none
    | some rest ↦
        if has_body (span not_space rest) then some (take (length s - length rest) s) else none
  ]

  unfoldable pub sub_http : Text → Text
  unfolding http_group
  sub_http [] = []
  sub_http (c ∷ s) = elim (http_group (c ∷ s)) [
    | some group ↦ group ++ codes "<url>: <body>"
    | none ↦ c ∷ sub_http s
  ]

  abbrev sub_email : Text → Text
  sub_email s = if contains (codes "@") s then sub email_pattern (codes "<email>") s else s

  -- `normalize_message`
  unfoldable pub normalize_message : Text → Text
  unfolding sub_http words_from
  normalize_message message =
      let s1 = sub_email (sub_http message) in
      let s2 = sub_at is_word uuid_pattern (codes "<id>") false 0 s1 in
      let s3 = sub_at is_word hex_id_pattern (codes "<id>") false 0 s2 in
      let s4 = sub url_pattern (codes "<url>") s3 in
      let s5 = sub_at is_word ref_pattern (codes "<ref>") false 0 s4 in
      join (codes " ") (words_from py.is_space [] s5)
