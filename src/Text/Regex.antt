-- ===== src/Text/Regex.antt =====
-- `re.sub` with a literal replacement. A pattern is a function from the text at a position to what
-- is left behind its match, `none` where it does not match there; no pattern matches the empty text.
use claim_automation_cloud.Prelude.{
  ℕ, zero, suc, ◌-◌, Bool, ◌&&◌, ◌||◌, Option, none, some, [], ◌∷◌, ◌++◌, ◌==◌, leb, if◌then◌else◌,
  length,
}
use claim_automation_cloud.Text.{Text}

abbrev pub Pattern : Type 0
Pattern = Text → Option Text

-- How many characters a match passes.
abbrev matched : Text → Option Text → Option ℕ
matched s none = none
matched s (some rest) = some (length s - length rest)

abbrev emit : ℕ → Text → Option ℕ → Text → Text
emit c new none rest = c ∷ rest
emit c new (some n) rest = new ++ rest

abbrev to_skip : Option ℕ → ℕ
to_skip none = 0
to_skip (some n) = n - 1

-- The leftmost matches that do not overlap; `skip` characters of a match are still to be passed.
unfoldable pub sub_from : Pattern → Text → ℕ → Text → Text
sub_from m new skip [] = []
sub_from m new (suc k) (c ∷ s) = sub_from m new k s
sub_from m new zero (c ∷ s) =
    let hit = matched (c ∷ s) (m (c ∷ s)) in emit c new hit (sub_from m new (to_skip hit) s)

unfoldable pub sub : Pattern → Text → Text → Text
unfolding sub_from
sub m new s = sub_from m new 0 s

abbrev pub and_then : Option Text → Pattern → Option Text
and_then none m = none
and_then (some s) m = m s

-- `x*`, which is greedy
unfoldable pub skip_while : (ℕ → Bool) → Text → Text
skip_while p [] = []
skip_while p (c ∷ s) = if p c then skip_while p s else c ∷ s

-- One character that passes the test.
abbrev pub one : (ℕ → Bool) → Pattern
one p [] = none
one p (c ∷ s) = if p c then some s else none

-- `x?`, which is greedy
abbrev pub optional : (ℕ → Bool) → Text → Text
optional p [] = []
optional p (c ∷ s) = if p c then s else c ∷ s

-- `x+`
abbrev pub some_of : (ℕ → Bool) → Pattern
some_of p [] = none
some_of p (c ∷ s) = if p c then some (skip_while p s) else none

-- A literal, under `re.IGNORECASE`.
unfoldable pub literal_ci : (ℕ → ℕ → Bool) → Text → Pattern
literal_ci eq [] s = some s
literal_ci eq (p ∷ ps) [] = none
literal_ci eq (p ∷ ps) (c ∷ s) = if eq p c then literal_ci eq ps s else none

-- `.*?` and a literal, under `re.DOTALL`: what is behind the first place where it stands.
unfoldable pub after_ci : (ℕ → ℕ → Bool) → Text → Pattern
unfolding literal_ci
after_ci eq w [] = literal_ci eq w []
after_ci eq w (c ∷ s) =
    let later = after_ci eq w s in
    elim (literal_ci eq w (c ∷ s)) [ some rest ↦ some rest | none ↦ later ]

-- `[^>]*>`
unfoldable pub to_close : Pattern
to_close [] = none
to_close (c ∷ s) = if c == b'>' then some s else to_close s

abbrev pub is_ascii_letter : ℕ → Bool
is_ascii_letter c = (leb b'a' c && leb c b'z') || (leb b'A' c && leb c b'Z')

-- `re.sub` for a pattern that begins with `\b`: it is told whether a word character stands before it.
unfoldable pub sub_at : (ℕ → Bool) → (Bool → Pattern) → Text → Bool → ℕ → Text → Text
sub_at is_word m new before skip [] = []
sub_at is_word m new before (suc k) (c ∷ s) = sub_at is_word m new (is_word c) k s
sub_at is_word m new before zero (c ∷ s) =
    let hit = matched (c ∷ s) (m before (c ∷ s)) in
    emit c new hit (sub_at is_word m new (is_word c) (to_skip hit) s)

-- A literal, letter by letter.
unfoldable pub exactly : Text → Pattern
exactly [] s = some s
exactly (p ∷ ps) [] = none
exactly (p ∷ ps) (c ∷ s) = if p == c then exactly ps s else none

-- `x{n}`
unfoldable pub times : ℕ → (ℕ → Bool) → Pattern
times zero p s = some s
times (suc n) p [] = none
times (suc n) p (c ∷ s) = if p c then times n p s else none

-- `x{n,}`, which is greedy, where what follows it in the pattern cannot match inside the run.
abbrev pub at_least : ℕ → (ℕ → Bool) → Pattern
at_least n p s = elim (times n p s) [ none ↦ none | some rest ↦ some (skip_while p rest) ]
