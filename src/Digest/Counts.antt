-- ===== src/Digest/Counts.antt =====
-- What the groups count: `_group`.
use claim_automation_cloud.Prelude.{
  ℕ, ◌+◌, ◌≤◌, ◌≡◌, refl, ap, ◌↔◌, inl, inr, Bool, true, ◌&&◌, Option, none, some, List, [], ◌∷◌,
  ◌==◌, if◌then◌else◌, Bool-cases, sum_by, arith,
}
use claim_automation_cloud.Text.{Text, text_eq_iff}
use claim_automation_cloud.Digest.{
  Row, GroupKey, Group, type_eq, group_key_eq, key_of, add_row, add_rows, insert_ranked, rank,
  group_rows,
}

type_eq_iff : (s t : Option Text) → (type_eq s t ≡ true) ↔ (s ≡ t)
type_eq_iff none none = ground arith
type_eq_iff none (some t) = ground arith
type_eq_iff (some s) none = ground arith
type_eq_iff (some s) (some t) = ground (arith, text_eq_iff s t)

pub group_key_eq_iff : (a b : GroupKey) → (group_key_eq a b ≡ true) ↔ (a ≡ b)
group_key_eq_iff a b =
    ground (arith, type_eq_iff a.item_type b.item_type, text_eq_iff a.message b.message)

-- The occurrences that the groups of a key count, the groups of a key, and the rows of a key.
abbrev pub one_if : Bool → ℕ
one_if b = if b then 1 else 0

abbrev pub counted : GroupKey → List Group → ℕ
counted k = sum_by (λ (g : Group). if group_key_eq g.key k then g.count else 0)

abbrev pub groups_of : GroupKey → List Group → ℕ
groups_of k = sum_by (λ (g : Group). one_if (group_key_eq g.key k))

module _ (normalize : Text → Text) where
  abbrev pub rows_of : GroupKey → List Row → ℕ
  rows_of k = sum_by (λ (row : Row). one_if (group_key_eq (key_of normalize row) k))

  counted-add_row :
      (k : GroupKey) (row : Row) (gs : List Group)
      → counted k (add_row normalize row gs)
        ≡ one_if (group_key_eq (key_of normalize row) k) + counted k gs
  unfolding add_row
  counted-add_row k row [] = ground arith
  counted-add_row k row (g ∷ gs) = elim (Bool-cases (group_key_eq g.key (key_of normalize row))) [
    | inl same ↦
        let e = (group_key_eq_iff g.key (key_of normalize row)).0 same in
        rw same (rw (ap (λ q. group_key_eq q k) e) (ground arith))
    | inr other ↦ rw other (omega (arith, counted-add_row k row gs))
  ]

  groups_of-add_row :
      (k : GroupKey) (row : Row) (gs : List Group)
      → groups_of k (add_row normalize row gs) ≡ (
          if group_key_eq (key_of normalize row) k && groups_of k gs == 0
          then 1
          else groups_of k gs)
  unfolding add_row
  groups_of-add_row k row [] = ground arith
  groups_of-add_row k row (g ∷ gs) = elim (Bool-cases (group_key_eq g.key (key_of normalize row))) [
    | inl same ↦
        let e = (group_key_eq_iff g.key (key_of normalize row)).0 same in
        rw same (rw (ap (λ q. group_key_eq q k) e) (ground arith))
    | inr other ↦ rw other (
        ground (
          arith,
          groups_of-add_row k row gs,
          group_key_eq_iff g.key (key_of normalize row),
          group_key_eq_iff g.key k,
          group_key_eq_iff (key_of normalize row) k,
        ))
  ]

  counted-add_rows :
      (k : GroupKey) (rows : List Row) (gs : List Group)
      → counted k (add_rows normalize rows gs) ≡ rows_of k rows + counted k gs
  unfolding add_rows
  counted-add_rows k [] gs = omega arith
  counted-add_rows k (row ∷ rows) gs =
      omega (arith, counted-add_rows k rows (add_row normalize row gs), counted-add_row k row gs)

  groups_of-add_rows :
      (k : GroupKey) (rows : List Row) (gs : List Group)
      → groups_of k gs ≤ 1
      → groups_of k (add_rows normalize rows gs) ≤ 1
  unfolding add_rows
  groups_of-add_rows k [] gs h = h
  groups_of-add_rows k (row ∷ rows) gs h =
      groups_of-add_rows k rows (add_row normalize row gs)
        (ground (arith, groups_of-add_row k row gs))

  sum_by-insert_ranked :
      (f : Group → ℕ) (g : Group) (hs : List Group)
      → sum_by f (insert_ranked normalize g hs) ≡ f g + sum_by f hs
  unfolding insert_ranked
  sum_by-insert_ranked f g [] = refl
  sum_by-insert_ranked f g (h ∷ hs) = ground (arith, sum_by-insert_ranked f g hs)

  sum_by-rank : (f : Group → ℕ) (gs : List Group) → sum_by f (rank normalize gs) ≡ sum_by f gs
  unfolding rank
  sum_by-rank f [] = refl
  sum_by-rank f (g ∷ gs) =
      omega (arith, sum_by-insert_ranked f g (rank normalize gs), sum_by-rank f gs)

  -- For every key there is at most one group, and its count is the number of the rows with that key;
  -- a key that no row has is counted nowhere.
  pub group_rows-counts :
      (k : GroupKey) (rows : List Row)
      → (counted k (group_rows normalize rows) ≡ rows_of k rows)
        × (groups_of k (group_rows normalize rows) ≤ 1)
  unfolding group_rows
  group_rows-counts k rows = (
    omega (
      arith,
      sum_by-rank (λ (g : Group). if group_key_eq g.key k then g.count else 0)
          (add_rows normalize rows []),
      counted-add_rows k rows [],
    ),
    omega (
      arith,
      sum_by-rank (λ (g : Group). one_if (group_key_eq g.key k)) (add_rows normalize rows []),
      groups_of-add_rows k rows [] (omega arith),
    ),
  )
