-- ===== src/Trello/Boundary.antt =====
-- The claim reference in a card's name: the boundary of `find_card_by_claim_ref`.
use claim_automation_cloud.Prelude.{
  ℕ, ◌≡◌, refl, ◌↔◌, ap, Bool, true, [], ◌∷◌, ◌++◌, arith, inl, inr, Bool-cases,
}
use claim_automation_cloud.Text.{Text}
use claim_automation_cloud.Trello.Lookup.{matches_at, ref_search, no_digit_ahead}

-- The reference stands in the name, and no digit follows it there.
abbrev pub IsMentioned : (ℕ → Bool) → Text → Text → Type 0
IsMentioned is_digit ref name =
    (a : Text) × (b : Text) × (name ≡ a ++ (ref ++ b)) × (no_digit_ahead is_digit b ≡ true)

matches_at_sound :
    (d : ℕ → Bool) (ref s : Text)
    → matches_at d ref s ≡ true
    → (b : Text) × (s ≡ ref ++ b) × (no_digit_ahead d b ≡ true)
unfolding matches_at
matches_at_sound d [] s h = (s, refl, h)
matches_at_sound d (p ∷ ps) [] h = cc
matches_at_sound d (p ∷ ps) (c ∷ s) h =
    let (b, e, n) = matches_at_sound d ps s (ground arith) in (b, ground (arith, e), n)

matches_at-append :
    (d : ℕ → Bool) (ref b : Text) → no_digit_ahead d b ≡ true → matches_at d ref (ref ++ b) ≡ true
unfolding matches_at
matches_at-append d [] b h = h
matches_at-append d (p ∷ ps) b h = ground (arith, matches_at-append d ps b h)

ref_search_sound :
    (d : ℕ → Bool) (ref name : Text) → ref_search d ref name ≡ true → IsMentioned d ref name
unfolding ref_search
ref_search_sound d ref [] h = let (b, e, n) = matches_at_sound d ref [] h in ([], b, e, n)
ref_search_sound d ref (c ∷ s) h = elim (Bool-cases (matches_at d ref (c ∷ s))) [
  | inl hit ↦ let (b, e, n) = matches_at_sound d ref (c ∷ s) hit in ([], b, e, n)
  | inr miss ↦
      let (a, b, e, n) = ref_search_sound d ref s (ground arith) in (c ∷ a, b, ap (λ t. c ∷ t) e, n)
]

ref_search_complete :
    (d : ℕ → Bool) (ref a b : Text)
    → no_digit_ahead d b ≡ true
    → ref_search d ref (a ++ (ref ++ b)) ≡ true
unfolding ref_search
ref_search_complete d ref [] b h = start (ref ++ b) (matches_at-append d ref b h)
  where
    start : (s : Text) → matches_at d ref s ≡ true → ref_search d ref s ≡ true
    start [] m = m
    start (c ∷ s) m = ground arith
ref_search_complete d ref (x ∷ a) b h = ground (arith, ref_search_complete d ref a b h)

-- The pattern finds a claim reference in a card's name exactly when the reference stands in the name
-- with no digit behind it.
pub ref_search_iff :
    (d : ℕ → Bool) (ref name : Text) → (ref_search d ref name ≡ true) ↔ IsMentioned d ref name
ref_search_iff d ref name = (
  ref_search_sound d ref name,
  λ m. let (a, b, e, n) = m in rw (e, ref_search_complete d ref a b n),
)
