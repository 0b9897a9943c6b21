-- ===== src/Digest/Ranks.antt =====
-- The order of the groups: the `sorted` of `_group`.
use claim_automation_cloud.Prelude.{
  ◌<◌, ◌≤◌, ◌≡◌, ◌⊎◌, inl, inr, true, false, List, [], ◌∷◌, Bool-cases, All, arith,
}
use claim_automation_cloud.Text.{Text}
use claim_automation_cloud.Digest.{Row, Group, add_rows, outranks, insert_ranked, rank, group_rows}

-- A group that may stand behind another: it is less severe, or as severe and no more frequent.
abbrev pub MayFollow : Group → Group → Type 0
MayFollow g h =
    (h.key.severity < g.key.severity) ⊎ ((h.key.severity ≡ g.key.severity) × (h.count ≤ g.count))

-- Each group may follow every group in front of it.
abbrev pub IsRanked : List Group → Type 0
IsRanked [] = Unit
IsRanked (g ∷ gs) = All (MayFollow g) gs × IsRanked gs

module _ (normalize : Text → Text) where
  -- No group stands behind one that it comes before.
  abbrev Unbeaten : List Group → Type 0
  Unbeaten [] = Unit
  Unbeaten (g ∷ gs) = All (λ h. outranks normalize h g ≡ false) gs × Unbeaten gs

  outranks-asym : (g h : Group) → outranks normalize h g ≡ true → outranks normalize g h ≡ false
  outranks-asym g h e = ground arith

  outranks_trans :
      (g h x : Group)
      → outranks normalize h g ≡ false
      → outranks normalize x h ≡ false
      → outranks normalize x g ≡ false
  outranks_trans g h x e f = ground arith

  All-below :
      (g h : Group) (gs : List Group)
      → outranks normalize h g ≡ false
      → All (λ x. outranks normalize x h ≡ false) gs
      → All (λ x. outranks normalize x g ≡ false) gs
  All-below g h [] e a = tt
  All-below g h (x ∷ gs) e a = (outranks_trans g h x e a.0, All-below g h gs e a.1)

  All-insert_ranked :
      (x g : Group) (gs : List Group)
      → outranks normalize g x ≡ false
      → All (λ h. outranks normalize h x ≡ false) gs
      → All (λ h. outranks normalize h x ≡ false) (insert_ranked normalize g gs)
  unfolding insert_ranked
  All-insert_ranked x g [] e a = (e, tt)
  All-insert_ranked x g (h ∷ hs) e a = elim (Bool-cases (outranks normalize h g)) [
    | inl before ↦ rw before (a.0, All-insert_ranked x g hs e a.1)
    | inr behind ↦ rw behind (e, a)
  ]

  insert_ranked-Unbeaten :
      (g : Group) (gs : List Group) → Unbeaten gs → Unbeaten (insert_ranked normalize g gs)
  unfolding insert_ranked
  insert_ranked-Unbeaten g [] r = (tt, tt)
  insert_ranked-Unbeaten g (h ∷ hs) r = elim (Bool-cases (outranks normalize h g)) [
    | inl before ↦
        rw before
          (All-insert_ranked h g hs (outranks-asym g h before) r.0, insert_ranked-Unbeaten g hs r.1)
    | inr behind ↦ rw behind ((behind, All-below g h hs behind r.0), r)
  ]

  rank-Unbeaten : (gs : List Group) → Unbeaten (rank normalize gs)
  unfolding rank
  rank-Unbeaten [] = tt
  rank-Unbeaten (g ∷ gs) = insert_ranked-Unbeaten g (rank normalize gs) (rank-Unbeaten gs)

  MayFollow-unbeaten : (g h : Group) → outranks normalize h g ≡ false → MayFollow g h
  MayFollow-unbeaten g h e = ground arith

  All-MayFollow :
      (g : Group) (gs : List Group)
      → All (λ h. outranks normalize h g ≡ false) gs
      → All (MayFollow g) gs
  All-MayFollow g [] a = tt
  All-MayFollow g (h ∷ hs) a = (MayFollow-unbeaten g h a.0, All-MayFollow g hs a.1)

  Unbeaten-IsRanked : (gs : List Group) → Unbeaten gs → IsRanked gs
  Unbeaten-IsRanked [] r = tt
  Unbeaten-IsRanked (g ∷ gs) r = (All-MayFollow g gs r.0, Unbeaten-IsRanked gs r.1)

  -- The groups come by falling severity, and those of one severity by falling count.
  pub group_rows-IsRanked : (rows : List Row) → IsRanked (group_rows normalize rows)
  unfolding group_rows
  group_rows-IsRanked rows =
      Unbeaten-IsRanked (group_rows normalize rows) (rank-Unbeaten (add_rows normalize rows []))
