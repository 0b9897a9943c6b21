-- ===== src/Digest/Fences.antt =====
-- The fences round the details: `_render_group`.
use claim_automation_cloud.Prelude.{
  ℕ, zero, suc, ◌+◌, ◌≤◌, ◌≡◌, refl, inl, inr, true, false, List, [], ◌∷◌, Bool-cases, arith,
}
use claim_automation_cloud.Text.{Text, starts_with, contains}
use claim_automation_cloud.Digest.Body.{runs_from, greatest, backticks, fence, max, emit_run}

emit_run-le : (n : ℕ) (rest : List ℕ) → n ≤ greatest (emit_run n rest)
unfolding greatest
emit_run-le zero rest = omega arith
emit_run-le (suc n) rest = ground arith

emit_run-rest : (n : ℕ) (rest : List ℕ) → greatest rest ≤ greatest (emit_run n rest)
unfolding greatest
emit_run-rest zero rest = omega arith
emit_run-rest (suc n) rest = ground arith

-- The run so far is part of a run that is found.
current-le : (current : ℕ) (s : Text) → current ≤ greatest (runs_from current s)
unfolding runs_from
current-le current [] = emit_run-le current []
current-le current (c ∷ s) =
    ground (arith, current-le (current + 1) s, emit_run-le current (runs_from 0 s))

-- A run of backticks that starts here is part of a run that is found.
starts_with-le :
    (n current : ℕ) (s : Text)
    → starts_with (backticks n) s ≡ true
    → current + n ≤ greatest (runs_from current s)
unfolding starts_with runs_from
starts_with-le zero current s h = omega (arith, current-le current s)
starts_with-le (suc n) current [] h = cc
starts_with-le (suc n) current (c ∷ s) h = ground (arith, starts_with-le n (current + 1) s)

contains-le :
    (n current : ℕ) (s : Text)
    → contains (backticks n) s ≡ true
    → n ≤ greatest (runs_from current s)
unfolding contains runs_from
contains-le n current [] h = omega (arith, starts_with-le n current [] h)
contains-le n current (c ∷ s) h = elim (Bool-cases (starts_with (backticks n) (c ∷ s))) [
  | inl here ↦ omega (arith, starts_with-le n current (c ∷ s) here)
  | inr later ↦ ground (
    arith,
    contains-le n (current + 1) s,
    contains-le n 0 s,
    emit_run-rest current (runs_from 0 s),
  )
]

starts_with-backticks : (n : ℕ) → 3 ≤ n → starts_with (backticks 3) (backticks n) ≡ true
unfolding starts_with
starts_with-backticks (suc (suc (suc n))) h = refl
starts_with-backticks zero h = absurd (omega arith)
starts_with-backticks (suc zero) h = absurd (omega arith)
starts_with-backticks (suc (suc zero)) h = absurd (omega arith)

max-le-left : (a b : ℕ) → a ≤ max a b
max-le-left a b = ground arith

max_not_le : (n : ℕ) → max 3 (n + 1) ≤ n → ⊥
max_not_le n h = ground arith

-- The fence does not occur in the details that it stands round, so that no line of them ends the
-- block; and it has the three backticks that a fence needs.
pub fence-not_contained :
    (details : Text)
    → (contains (fence details) details ≡ false)
      × (starts_with (backticks 3) (fence details) ≡ true)
unfolding fence
fence-not_contained details =
    let longest = greatest (runs_from 0 details) in
    (
      elim (Bool-cases (contains (fence details) details)) [
        | inl inside ↦
            absurd (max_not_le longest (contains-le (max 3 (longest + 1)) 0 details inside))
        | inr outside ↦ outside
      ],
      starts_with-backticks (max 3 (longest + 1)) (max-le-left 3 (longest + 1)),
    )
