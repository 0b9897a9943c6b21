-- ===== src/Claim/Reference/Sound.antt =====
-- What a parsed reference is: where its two parts stand in the subject, and of which characters.
use claim_automation_cloud.Prelude.{
  ℕ, ◌+◌, ◌≤◌, ◌≡◌, ◌≢◌, ◌∙◌, refl, sym, append_assoc, length-append, ap, ◌⊎◌, inl, inr, Bool, true,
  false, Option, none, some, [], ◌∷◌, ◌++◌, length, arith, all, Bool-cases, Option-cases,
  if◌then◌else◌,
}
use claim_automation_cloud.Text.{Text, codes, starts_with, Runtime, span, lstrip, is_ascii_digit}
use claim_automation_cloud.Text.Search.{span-append}
use claim_automation_cloud.Claim.Reference.{
  Reference, slashed_at, search_slashed, slashless_at, search_slashless, is_zero_char, drop_zeros,
  parse_claim_ref, is_word, starts_word,
}

abbrev pub starts_with_digit : (ℕ → Bool) → Text → Bool
starts_with_digit digit [] = false
starts_with_digit digit (c ∷ s) = digit c

-- `r` stands in the subject as four digits, a slash and a whole run of digits.
pub record IsSlashed (digit : ℕ → Bool) (subject : Text) (r : Reference) : Type 0 where
  pub before : Text
  pub after : Text
  pub place : subject ≡ before ++ (r.0 ++ (b'/' ∷ (r.1 ++ after)))
  pub year_length : length r.0 ≡ 4
  pub year_digits : all digit r.0 ≡ true
  pub number_nonempty : r.1 ≢ []
  pub number_digits : all digit r.1 ≡ true
  pub number_whole : starts_with_digit digit after ≡ false

pub span-all : (p : ℕ → Bool) (s : Text) → all p (span p s).0 ≡ true
unfolding span
span-all p [] = refl
span-all p (c ∷ s) = ground (arith, span-all p s)

pub span-rest : (p : ℕ → Bool) (s : Text) → starts_with_digit p (span p s).1 ≡ false
unfolding span
span-rest p [] = refl
span-rest p (c ∷ s) = ground (arith, span-rest p s)

slashed_at-IsSlashed :
    (digit : ℕ → Bool) (s : Text) (r : Reference)
    → slashed_at digit s ≡ some r
    → IsSlashed digit s r
unfolding slashed_at
slashed_at-IsSlashed digit (a ∷ b ∷ c ∷ d ∷ e ∷ s) r h = record {
  before = [];
  after = (span digit s).1;
  place = ground (arith, span-append digit s);
  year_length = ground arith;
  year_digits = ground arith;
  number_nonempty = ground arith;
  number_digits = ground (arith, span-all digit s);
  number_whole = ground (arith, span-rest digit s);
}
slashed_at-IsSlashed digit _ r h = cc

IsSlashed-cons :
    (digit : ℕ → Bool) (c : ℕ) (s : Text) (r : Reference)
    → IsSlashed digit s r
    → IsSlashed digit (c ∷ s) r
IsSlashed-cons digit c s r h = record {
  before = c ∷ h.before;
  after = h.after;
  place = ap (λ (t : Text). c ∷ t) h.place;
  year_length = h.year_length;
  year_digits = h.year_digits;
  number_nonempty = h.number_nonempty;
  number_digits = h.number_digits;
  number_whole = h.number_whole;
}

search_slashed-IsSlashed :
    (digit : ℕ → Bool) (s : Text) (r : Reference)
    → search_slashed digit s ≡ some r
    → IsSlashed digit s r
unfolding search_slashed
search_slashed-IsSlashed digit [] r h = cc
search_slashed-IsSlashed digit (c ∷ s) r h = elim (Option-cases (slashed_at digit (c ∷ s))) [
  | inl miss ↦
      IsSlashed-cons digit c s r
        (search_slashed-IsSlashed digit s r (rw (miss, search_slashed) at h))
  | inr (q, hit) ↦ slashed_at-IsSlashed digit (c ∷ s) r (hit ∙ (rw (hit, search_slashed) at h))
]

-- Whether the last character before a position is a word character.
abbrev pub ends_word : Bool → Text → Bool
ends_word inside [] = inside
ends_word inside (c ∷ s) = ends_word (is_word c) s

-- A match of the form without a slash: between word boundaries, a year of this century with a run
-- of six digits or more behind it.
record IsRun (inside : Bool) (subject : Text) (r : Reference) : Type 0 where
  before : Text
  after : Text
  place : subject ≡ before ++ (r.0 ++ (r.1 ++ after))
  year_length : length r.0 ≡ 4
  year_century : starts_with (codes "20") r.0 ≡ true
  year_digits : all is_ascii_digit r.0 ≡ true
  number_digits : all is_ascii_digit r.1 ≡ true
  number_long : 6 ≤ length r.1
  word_start : ends_word inside before ≡ false
  word_end : starts_word after ≡ false

slashless_at-IsRun : (s : Text) (r : Reference) → slashless_at s ≡ some r → IsRun false s r
unfolding slashless_at starts_with
slashless_at-IsRun (a ∷ b ∷ c ∷ d ∷ s) r h = record {
  before = [];
  after = (span is_ascii_digit s).1;
  place = ground (arith, span-append is_ascii_digit s);
  year_length = ground arith;
  year_century = ground arith;
  year_digits = ground arith;
  number_digits = ground (arith, span-all is_ascii_digit s);
  number_long = ground arith;
  word_start = refl;
  word_end = ground arith;
}
slashless_at-IsRun _ r h = cc

IsRun-cons :
    (inside : Bool) (c : ℕ) (s : Text) (r : Reference)
    → IsRun (is_word c) s r
    → IsRun inside (c ∷ s) r
IsRun-cons inside c s r h = record {
  before = c ∷ h.before;
  after = h.after;
  place = ap (λ (t : Text). c ∷ t) h.place;
  year_length = h.year_length;
  year_century = h.year_century;
  year_digits = h.year_digits;
  number_digits = h.number_digits;
  number_long = h.number_long;
  word_start = h.word_start;
  word_end = h.word_end;
}

search_slashless-IsRun :
    (inside : Bool) (s : Text) (r : Reference)
    → search_slashless inside s ≡ some r
    → IsRun inside s r
unfolding search_slashless
search_slashless-IsRun inside [] r h = cc
search_slashless-IsRun true (c ∷ s) r h =
    IsRun-cons true c s r (search_slashless-IsRun (is_word c) s r h)
search_slashless-IsRun false (c ∷ s) r h = elim (Option-cases (slashless_at (c ∷ s))) [
  | inl miss ↦
      IsRun-cons false c s r
        (search_slashless-IsRun (is_word c) s r (rw (miss, search_slashless) at h))
  | inr (q, hit) ↦ slashless_at-IsRun (c ∷ s) r (hit ∙ (rw (hit, search_slashless) at h))
]

-- `r` stands in the subject as a year of this century, a run of zeros, and a number that does not
-- begin with a zero; the zeros and the number are six digits or more, and no word character touches
-- the whole on either side.
pub record IsSlashless (subject : Text) (r : Reference) : Type 0 where
  pub before : Text
  pub zeros : Text
  pub after : Text
  pub place : subject ≡ before ++ (r.0 ++ (zeros ++ (r.1 ++ after)))
  pub year_length : length r.0 ≡ 4
  pub year_century : starts_with (codes "20") r.0 ≡ true
  pub year_digits : all is_ascii_digit r.0 ≡ true
  pub zeros_zero : all is_zero_char zeros ≡ true
  pub number_nonempty : r.1 ≢ []
  pub number_no_zero : starts_with_digit is_zero_char r.1 ≡ false
  pub number_digits : all is_ascii_digit r.1 ≡ true
  pub long : 6 ≤ length zeros + length r.1
  pub word_start : ends_word false before ≡ false
  pub word_end : starts_word after ≡ false

abbrev Stripped : (ℕ → Bool) → Text → Text → Type 0
Stripped p s t = (z : Text) × (s ≡ z ++ t) × (all p z ≡ true) × (starts_with_digit p t ≡ false)

lstrip-Stripped : (p : ℕ → Bool) (s : Text) → Stripped p s (lstrip p s)
unfolding lstrip
lstrip-Stripped p [] = ([], refl, refl, refl)
lstrip-Stripped p (c ∷ s) = elim (Bool-cases (p c)) [
  | inl pass ↦
      let (z, e, a, f) = lstrip-Stripped p s in
      (c ∷ z, rw pass (ap (λ (t : Text). c ∷ t) e), ground arith, rw pass f)
  | inr stop ↦ ([], rw stop, refl, rw stop stop)
]

all-append : (p : ℕ → Bool) (s t : Text) → all p (s ++ t) ≡ true → all p t ≡ true
all-append p [] t h = h
all-append p (c ∷ s) t h = all-append p s t (ground arith)

drop_zeros-eq :
    (y n : Text) (r : Reference)
    → drop_zeros (some (y, n)) ≡ some r
    → (r.0 ≡ y) × (r.1 ≡ lstrip is_zero_char n) × (r.1 ≢ [])
drop_zeros-eq y n r h = ground arith

place-split :
    (a y n b y' z m : Text)
    → y' ≡ y
    → n ≡ z ++ m
    → a ++ (y ++ (n ++ b)) ≡ a ++ (y' ++ (z ++ (m ++ b)))
place-split a y n b y' z m ey en = rw (ey, en, append_assoc)

fallback-eq :
    (slashless : Bool) (o : Option Reference) (r : Reference)
    → (if slashless then drop_zeros o else none) ≡ some r
    → (slashless ≡ true) × ((q : Reference) × (o ≡ some q) × (drop_zeros (some q) ≡ some r))
fallback-eq false o r h = cc
fallback-eq true none r h = cc
fallback-eq true (some q) r h = (refl, (q, refl, h))

drop_zeros-IsSlashless :
    (subject : Text) (q r : Reference)
    → IsRun false subject q
    → drop_zeros (some q) ≡ some r
    → IsSlashless subject r
drop_zeros-IsSlashless subject q r run h =
    let (ey, en, full) = drop_zeros-eq q.0 q.1 r h in
    let (z, e, zz, nz) = lstrip-Stripped is_zero_char q.1 in
    let split : q.1 ≡ z ++ r.1 = e ∙ ap (λ (t : Text). z ++ t) (sym en) in
    record {
      before = run.before;
      zeros = z;
      after = run.after;
      place = run.place ∙ place-split run.before q.0 q.1 run.after r.0 z r.1 ey split;
      year_length = rw ey run.year_length;
      year_century = rw ey run.year_century;
      year_digits = rw ey run.year_digits;
      zeros_zero = zz;
      number_nonempty = full;
      number_no_zero = rw en nz;
      number_digits = all-append is_ascii_digit z r.1 (rw split at run.number_digits);
      long = omega (arith, length-append z r.1, ap length split, run.number_long);
      word_start = run.word_start;
      word_end = run.word_end;
    }

module _ (py : Runtime) (subject : Text) (slashless : Bool) (r : Reference) where
  -- A parsed reference stands in the subject in one of two forms: as four digits, a slash and a
  -- whole run of digits; or, where the form without a slash is allowed and nothing in the subject
  -- has the first form, as a year of this century, zeros and the number that is left without them.
  pub parse_claim_ref_sound :
      parse_claim_ref py subject slashless ≡ some r
      → IsSlashed py.is_digit subject r
        ⊎ ((slashless ≡ true) × (search_slashed py.is_digit subject ≡ none) × IsSlashless subject r)
  unfolding parse_claim_ref
  parse_claim_ref_sound h = elim (Option-cases (search_slashed py.is_digit subject)) [
    | inl miss ↦
        let (allowed, (q, found, kept)) =
          fallback-eq slashless (search_slashless false subject) r
            (rw (miss, parse_claim_ref) at h) in
        inr (
          allowed,
          miss,
          drop_zeros-IsSlashless subject q r (search_slashless-IsRun false subject q found) kept,
        )
    | inr (q, hit) ↦
        inl
          (search_slashed-IsSlashed py.is_digit subject r (hit ∙ (rw (hit, parse_claim_ref) at h)))
  ]
