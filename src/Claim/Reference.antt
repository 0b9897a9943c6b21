-- ===== src/Claim/Reference.antt =====
-- The claim reference in a subject: `parse_claim_ref` of backend/pipeline/claim_data.py, its two
-- regular expressions written as functions on the text at a position.
pub mod Sound
use claim_automation_cloud.Prelude.{
  ℕ, Bool, true, false, not, ◌&&◌, ◌||◌, Option, none, some, [], ◌∷◌, length, ◌==◌, leb,
  if◌then◌else◌,
}
use claim_automation_cloud.Text.{Text, Runtime, span, lstrip, is_ascii_digit}
use claim_automation_cloud.Text.Regex.{is_ascii_letter}

-- The two groups of a match.
abbrev pub Reference : Type 0
Reference = Text × Text

-- `(\d+)`: the group is not empty.
abbrev pub number_group : Text → Text × Text → Option Reference
number_group year ([], rest) = none
number_group year (n ∷ ns, rest) = some (year, n ∷ ns)

-- `(\d{4})/(\d+)` at a position.
unfoldable pub slashed_at : (ℕ → Bool) → Text → Option Reference
unfolding span
slashed_at digit (a ∷ b ∷ c ∷ d ∷ e ∷ s) =
    if digit a && (digit b && (digit c && (digit d && e == b'/')))
    then number_group (a ∷ b ∷ c ∷ d ∷ []) (span digit s)
    else none
slashed_at digit _ = none

unfoldable pub search_slashed : (ℕ → Bool) → Text → Option Reference
search_slashed digit [] = none
search_slashed digit (c ∷ s) =
    let later = search_slashed digit s in
    elim (slashed_at digit (c ∷ s)) [ some found ↦ some found | none ↦ later ]

-- A word character under `re.ASCII`.
abbrev pub is_word : ℕ → Bool
is_word c = is_ascii_letter c || (is_ascii_digit c || c == b'_')

abbrev pub starts_word : Text → Bool
starts_word [] = false
starts_word (c ∷ s) = is_word c

abbrev long_group : Text → Text × Text → Option Reference
long_group year (n, rest) =
    if leb 6 (length n) && not (starts_word rest) then some (year, n) else none

-- `(20\d\d)(\d{6,})\b` at a position: the greedy run of digits must end at a word boundary.
unfoldable pub slashless_at : Text → Option Reference
unfolding span
slashless_at (a ∷ b ∷ c ∷ d ∷ s) =
    if a == b'2' && (b == b'0' && (is_ascii_digit c && is_ascii_digit d))
    then long_group (a ∷ b ∷ c ∷ d ∷ []) (span is_ascii_digit s)
    else none
slashless_at _ = none

-- The search for it, with the word boundary in front: `inside` says that the character before the
-- position is a word character.
unfoldable pub search_slashless : Bool → Text → Option Reference
search_slashless inside [] = none
search_slashless inside (c ∷ s) =
    let later = search_slashless (is_word c) s in
    elim (if inside then none else slashless_at (c ∷ s)) [ some found ↦ some found | none ↦ later ]

abbrev pub is_zero_char : ℕ → Bool
is_zero_char c = c == b'0'

-- `match.group(2).lstrip("0")`, if anything is left of it.
abbrev pub drop_zeros : Option Reference → Option Reference
drop_zeros none = none
drop_zeros (some (year, n)) = elim (lstrip is_zero_char n) [
  | [] ↦ none
  | d ∷ ds ↦ some (year, d ∷ ds)
]

module _ (py : Runtime) where
  unfoldable pub parse_claim_ref : Text → Bool → Option Reference
  unfolding search_slashed slashed_at search_slashless slashless_at lstrip
  parse_claim_ref subject slashless = elim (search_slashed py.is_digit subject) [
    | some found ↦ some found
    | none ↦ if slashless then drop_zeros (search_slashless false subject) else none
  ]
