-- ===== src/Tests/References.antt =====
-- References in subjects.
use claim_automation_cloud.Prelude.{◌≡◌, refl, ◌⊎◌, true, false, none, some}
use claim_automation_cloud.Text.{codes, is_ascii_digit}
use claim_automation_cloud.Claim.Reference.{parse_claim_ref, search_slashed}
use claim_automation_cloud.Claim.Reference.Sound.{IsSlashed, IsSlashless, parse_claim_ref_sound}
use claim_automation_cloud.Tests.{ascii}

slashed :
    parse_claim_ref ascii (codes "Siniestro 12026/0417 (urgente)") false
    ≡ some (codes "2026", codes "0417")
unfolding parse_claim_ref
slashed = refl

slashless :
    parse_claim_ref ascii (codes "Gestión 2026000417.") true ≡ some (codes "2026", codes "417")
unfolding parse_claim_ref
slashless = refl

phone_shaped : parse_claim_ref ascii (codes "Tfno 202600041") true ≡ none
unfolding parse_claim_ref
phone_shaped = refl

parse_claim_ref_sound_example :
    IsSlashed is_ascii_digit (codes "Gestión 2026000417.") (codes "2026", codes "417")
    ⊎ ((true ≡ true)
        × (search_slashed is_ascii_digit (codes "Gestión 2026000417.") ≡ none)
        × IsSlashless (codes "Gestión 2026000417.") (codes "2026", codes "417"))
parse_claim_ref_sound_example =
    parse_claim_ref_sound ascii (codes "Gestión 2026000417.") true (codes "2026", codes "417")
      slashless
