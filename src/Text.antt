-- ===== src/Text.antt =====
-- Python's `str` as a list of code points, with the methods that the program calls.
pub mod Search
pub mod Regex
use Prim.Native.Char.{code}
use mathlib.Core.List.{reverse}
use claim_automation_cloud.Prelude.{
  ℕ, zero, suc, ◌-◌, String, ◌≡◌, refl, ◌↔◌, Bool, true, false, ◌&&◌, ◌||◌, List, [], ◌∷◌, ◌++◌,
  Option, none, some, arith, ◌==◌, leb, if◌then◌else◌, length,
}

abbrev pub Text : Type 0
Text = List ℕ

-- A literal's code points.
abbrev pub codes : String → Text
codes String.[] = []
codes (String.◌∷◌ c s) = code c ∷ codes s

-- `s == t`
unfoldable pub text_eq : Text → Text → Bool
text_eq [] [] = true
text_eq (x ∷ xs) (y ∷ ys) = x == y && text_eq xs ys
text_eq _ _ = false

pub text_eq_iff : (s t : Text) → (text_eq s t ≡ true) ↔ (s ≡ t)
unfolding text_eq
text_eq_iff [] [] = ground arith
text_eq_iff [] (y ∷ ys) = ground arith
text_eq_iff (x ∷ xs) [] = ground arith
text_eq_iff (x ∷ xs) (y ∷ ys) = ground (arith, text_eq_iff xs ys)

pub text_eq_refl : (s : Text) → text_eq s s ≡ true
text_eq_refl s = (text_eq_iff s s).1 refl

-- `bool(s)`
abbrev pub nonempty : Text → Bool
nonempty [] = false
nonempty (c ∷ s) = true

-- `s.startswith(p)`
unfoldable pub starts_with : Text → Text → Bool
starts_with [] s = true
starts_with (p ∷ ps) [] = false
starts_with (p ∷ ps) (c ∷ s) = p == c && starts_with ps s

-- `p in s`
unfoldable pub contains : Text → Text → Bool
unfolding starts_with
contains p [] = starts_with p []
contains p (c ∷ s) = starts_with p (c ∷ s) || contains p s

-- `s.replace(old, new)` for a non-empty `old`; `skip` characters of a match are still to be passed.
unfoldable pub replace_from : ℕ → Text → Text → Text → Text
unfolding starts_with
replace_from skip old new [] = []
replace_from (suc k) old new (c ∷ s) = replace_from k old new s
replace_from zero old new (c ∷ s) =
    let hit = starts_with old (c ∷ s) in
    let rest = replace_from (if hit then length old - 1 else 0) old new s in
    if hit then new ++ rest else c ∷ rest

unfoldable pub replace : Text → Text → Text → Text
unfolding replace_from
replace s old new = replace_from 0 old new s

-- Strips the characters that pass the test, as `lstrip`, `rstrip` and `strip` do.
unfoldable pub lstrip : (ℕ → Bool) → Text → Text
lstrip p [] = []
lstrip p (c ∷ s) = if p c then lstrip p s else c ∷ s

unfoldable pub strip : (ℕ → Bool) → Text → Text
unfolding lstrip
strip p s = reverse (lstrip p (reverse (lstrip p s)))

-- `s.split(sep)` for a separator of one character.
abbrev push_head : ℕ → List Text → List Text
push_head c [] = (c ∷ []) ∷ []
push_head c (w ∷ ws) = (c ∷ w) ∷ ws

unfoldable pub split_on : ℕ → Text → List Text
split_on sep [] = [] ∷ []
split_on sep (c ∷ s) = let rest = split_on sep s in if c == sep then [] ∷ rest else push_head c rest

-- `sep.join(parts)`
unfoldable pub join : Text → List Text → Text
join sep [] = []
join sep (w ∷ []) = w
join sep (w ∷ v ∷ ws) = w ++ (sep ++ join sep (v ∷ ws))

-- The longest prefix whose characters pass the test, and what is left.
abbrev cons_fst : ℕ → Text × Text → Text × Text
cons_fst c (a, b) = (c ∷ a, b)

unfoldable pub span : (ℕ → Bool) → Text → Text × Text
span p [] = ([], [])
span p (c ∷ s) = if p c then cons_fst c (span p s) else ([], c ∷ s)

-- An ASCII decimal digit.
abbrev pub is_ascii_digit : ℕ → Bool
is_ascii_digit c = leb b'0' c && leb c b'9'

-- `s.split(sep, 1)[0]`: the text before the first `sep`, the whole text without one.
unfoldable pub before_first : Text → Text → Text
before_first sep [] = []
before_first sep (c ∷ s) = if starts_with sep (c ∷ s) then [] else c ∷ before_first sep s

-- `str(x)` of an optional text in an f-string.
abbrev pub show_option : Option Text → Text
show_option none = codes "None"
show_option (some s) = s

-- The parts of the Python runtime that rest on the Unicode tables or on codecs: the tests behind
-- `str.isspace`, the `\d` of `re` and `re.IGNORECASE`, the case conversions, `html.unescape`, and
-- base64 with UTF-8, which raises on malformed input; and the address that `email.utils.parseaddr`
-- finds in a header.
pub record Runtime : Type 0 where
  pub is_space : ℕ → Bool
  pub is_digit : ℕ → Bool
  pub eq_ignore_case : ℕ → ℕ → Bool
  pub lower : Text → Text
  pub upper : Text → Text
  pub unescape : Text → Text
  pub decode_base64 : Text → Option Text
  pub parse_address : Text → Text
