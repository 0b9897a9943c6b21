-- ===== src/Digest/Limit.antt =====
-- The bound on the issue's body: `_render_body`.
use claim_automation_cloud.Prelude.{
  ℕ, zero, suc, ◌+◌, ◌≤◌, ◌≡◌, inl, inr, Bool, true, false, List, [], ◌∷◌, ◌++◌, leb, leb→le,
  if◌then◌else◌, length, take, length-append, Bool-cases, none, some, arith,
}
use claim_automation_cloud.Text.{Text, codes, join}
use claim_automation_cloud.Digest.{Group}
use claim_automation_cloud.Digest.Body.{
  body_limit, top_groups, details_cap, heartbeat_part, dropped_part, cut_body, full_body,
  drop_trailing, render_body, truncation_mark,
}

module _ (str : ℕ → Text) where
  length-dropped_part : (n : ℕ) → length (dropped_part str n) ≡ length (str n) + 22
  length-dropped_part n =
      omega (arith, length-append {0} (str n) (codes " groups " ++ truncation_mark))

  floor-le :
      (b : Bool) (n : ℕ)
      → length (join (codes "\n\n") (heartbeat_part b ++ dropped_part str n ∷ []))
        ≤ length (str n) + 200
  unfolding join
  floor-le true n = omega (arith, length-dropped_part n)
  floor-le false n = omega (arith, length-dropped_part n)

  if_fits :
      (b : Text) (other : Text)
      → length other ≤ body_limit
      → length (if leb (length b) body_limit then b else other) ≤ body_limit
  if_fits b other h = elim (Bool-cases (leb (length b) body_limit)) [
    | inl fits ↦ rw fits (leb→le (length b) body_limit fits)
    | inr over ↦ rw over h
  ]

  drop_trailing-le :
      (b : Bool) (groups : List Group) (keep : ℕ)
      → length (str (length groups)) + 200 ≤ body_limit
      → length (drop_trailing str b groups keep) ≤ body_limit
  unfolding drop_trailing
  drop_trailing-le b groups zero h = omega (arith, floor-le b (length groups), h)
  drop_trailing-le b groups (suc keep) h =
      if_fits (cut_body str b groups keep) (drop_trailing str b groups keep)
        (drop_trailing-le b groups keep h)

  -- The body is within GitHub's limit, whatever the groups hold, as long as the number of the groups
  -- prints in 65336 characters.
  pub render_body-le-limit :
      (groups : List Group) (heartbeat_missing : Bool)
      → length (str (length groups)) + 200 ≤ body_limit
      → length (render_body str groups heartbeat_missing) ≤ body_limit
  unfolding render_body
  render_body-le-limit groups b h = if_fits (full_body str b groups none) _ (
      if_fits (full_body str b groups (some details_cap)) _ (
        if_fits (full_body str b groups (some 500)) _
          (drop_trailing-le b groups (length (take top_groups groups)) h)))
