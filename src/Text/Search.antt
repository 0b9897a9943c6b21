-- ===== src/Text/Search.antt =====
-- What a substring test and a prefix test find.
use claim_automation_cloud.Prelude.{
  ℕ, ◌≡◌, refl, ap, Bool, true, [], ◌∷◌, ◌++◌, arith, inl, inr, Bool-cases,
}
use claim_automation_cloud.Text.{Text, starts_with, contains, span}

pub starts_with_sound : (p s : Text) → starts_with p s ≡ true → (r : Text) × (s ≡ p ++ r)
unfolding starts_with
starts_with_sound [] s h = (s, refl)
starts_with_sound (p ∷ ps) [] h = cc
starts_with_sound (p ∷ ps) (c ∷ s) h =
    let (r, e) = starts_with_sound ps s (ground arith) in (r, ground (arith, e))

pub starts_with-append : (p r : Text) → starts_with p (p ++ r) ≡ true
unfolding starts_with
starts_with-append [] r = refl
starts_with-append (p ∷ ps) r = ground (arith, starts_with-append ps r)

pub contains_sound :
    (p s : Text) → contains p s ≡ true → (a : Text) × (b : Text) × (s ≡ a ++ (p ++ b))
unfolding contains
contains_sound p [] h = let (r, e) = starts_with_sound p [] h in ([], r, e)
contains_sound p (c ∷ s) h = elim (Bool-cases (starts_with p (c ∷ s))) [
  | inl hit ↦ let (r, e) = starts_with_sound p (c ∷ s) hit in ([], r, e)
  | inr miss ↦ let (a, b, e) = contains_sound p s (ground arith) in (c ∷ a, b, ap (λ t. c ∷ t) e)
]

pub contains-append : (a p b : Text) → contains p (a ++ (p ++ b)) ≡ true
unfolding contains
contains-append [] [] [] = refl
contains-append [] [] (x ∷ b) = refl
contains-append [] (p ∷ ps) b = rw (starts_with-append (p ∷ ps) b)
contains-append (x ∷ a) p b = ground (arith, contains-append a p b)

pub span-append : (p : ℕ → Bool) (s : Text) → (span p s).0 ++ (span p s).1 ≡ s
unfolding span
span-append p [] = refl
span-append p (c ∷ s) = ground (arith, span-append p s)
