-- ===== src/Digest/Body.antt =====
-- The issue's body: `_render_group` and `_render_body`.
use claim_automation_cloud.Prelude.{
  ℕ, zero, suc, ◌+◌, ◌-◌, Bool, Option, none, some, List, [], ◌∷◌, ◌++◌, ◌==◌, ltb, leb,
  if◌then◌else◌, length, take, map,
}
use claim_automation_cloud.Text.{Text, codes, join}
use claim_automation_cloud.Digest.{Group}

abbrev pub body_limit : ℕ
body_limit = 65536

abbrev pub top_groups : ℕ
top_groups = 20

abbrev pub details_cap : ℕ
details_cap = 4000

abbrev pub message_cap : ℕ
message_cap = 300

abbrev pub truncation_mark : Text
truncation_mark = codes "… [truncated]"

abbrev newline : Text
newline = codes "\n"

abbrev blank_line : Text
blank_line = codes "\n\n"

abbrev pub max : ℕ → ℕ → ℕ
max a b = if ltb a b then b else a

abbrev pub emit_run : ℕ → List ℕ → List ℕ
emit_run zero rest = rest
emit_run (suc n) rest = suc n ∷ rest

-- The lengths of the runs of backticks, as `finditer` finds them; `current` is the run so far.
unfoldable pub runs_from : ℕ → Text → List ℕ
runs_from current [] = emit_run current []
runs_from current (c ∷ s) =
    let tick = c == b'`' in
    let rest = runs_from (if tick then current + 1 else 0) s in
    if tick then rest else emit_run current rest

unfoldable pub greatest : List ℕ → ℕ
greatest [] = 0
greatest (n ∷ ns) = max n (greatest ns)

abbrev pub backticks : ℕ → Text
backticks zero = []
backticks (suc n) = b'`' ∷ backticks n

unfoldable pub fence : Text → Text
unfolding runs_from greatest
fence details = backticks (max 3 (greatest (runs_from 0 details) + 1))

abbrev cap_message : Text → Text
cap_message message =
    if ltb message_cap (length message)
    then take message_cap message ++ truncation_mark
    else message

-- The details, cut at the budget if there is one.
abbrev pub cap_details : Option ℕ → Text → Text
cap_details none details = details
cap_details (some cap) details =
    if ltb cap (length details) then take cap details ++ (newline ++ truncation_mark) else details

abbrev fenced : Text → Text
fenced details = fence details ++ (newline ++ (details ++ (newline ++ fence details)))

abbrev details_lines : Option ℕ → Text → List Text
details_lines cap [] = []
details_lines cap (c ∷ s) = fenced (cap_details cap (c ∷ s)) ∷ []

abbrev heartbeat_warning : Text
heartbeat_warning =
    codes
      "**⚠ No worker heartbeat in the window** — the 20-min timer logged nothing; investigate scheduler health alongside the failures below."

abbrev pub heartbeat_part : Bool → List Text
heartbeat_part heartbeat_missing = if heartbeat_missing then heartbeat_warning ∷ [] else []

module _ (str : ℕ → Text) where
  -- `_render_group`
  unfoldable pub render_group : Option ℕ → Group → Text
  unfolding fence
  render_group cap group = join newline (
      (codes "### "
        ++ (group.label
            ++ (codes " x" ++ (str group.count ++ (codes " — " ++ cap_message group.key.message)))))
      ∷ (codes "- first: `"
          ++ (group.first ++ (codes "` — last: `" ++ (group.last ++ codes "` (UTC)"))))
      ∷ details_lines cap group.details)

  abbrev hidden_part : ℕ → List Text
  hidden_part zero = []
  hidden_part (suc n) =
      (codes "…and " ++ (str (suc n) ++ codes " more groups (see App Insights for the rest).")) ∷ []

  -- The body with the groups' details under one budget.
  unfoldable pub full_body : Bool → List Group → Option ℕ → Text
  unfolding render_group
  full_body heartbeat_missing groups cap =
      let shown = take top_groups groups in
      join blank_line (
        heartbeat_part heartbeat_missing
        ++ (map (render_group cap) shown ++ hidden_part (length groups - length shown)))

  abbrev pub dropped_part : ℕ → Text
  dropped_part n = codes "…" ++ (str n ++ (codes " groups " ++ truncation_mark))

  -- The body with the first `keep` groups and the number of the others.
  unfoldable pub cut_body : Bool → List Group → ℕ → Text
  unfolding render_group
  cut_body heartbeat_missing groups keep = join blank_line (
      heartbeat_part heartbeat_missing
      ++ (map (render_group (some 500)) (take keep groups)
          ++ dropped_part (length groups - keep) ∷ []))

  -- The last resort, with `keep` counted down.
  unfoldable pub drop_trailing : Bool → List Group → ℕ → Text
  unfolding cut_body
  drop_trailing heartbeat_missing groups zero =
      join blank_line (heartbeat_part heartbeat_missing ++ dropped_part (length groups) ∷ [])
  drop_trailing heartbeat_missing groups (suc keep) =
      let fewer = drop_trailing heartbeat_missing groups keep in
      let body = cut_body heartbeat_missing groups keep in
      if leb (length body) body_limit then body else fewer

  -- `_render_body`
  unfoldable pub render_body : List Group → Bool → Text
  unfolding full_body drop_trailing
  render_body groups heartbeat_missing =
      let whole = full_body heartbeat_missing groups none in
      let shorter = full_body heartbeat_missing groups (some details_cap) in
      let shortest = full_body heartbeat_missing groups (some 500) in
      if leb (length whole) body_limit
      then whole
      else if leb (length shorter) body_limit
      then shorter
      else if leb (length shortest) body_limit
      then shortest
      else drop_trailing heartbeat_missing groups (length (take top_groups groups))
