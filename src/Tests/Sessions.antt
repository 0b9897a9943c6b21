-- ===== src/Tests/Sessions.antt =====
-- A CSRF state made and verified.
use claim_automation_cloud.Prelude.{ℕ, ◌+◌, ◌-◌, ◌≡◌, refl, true, Option, none, some, [], ◌∷◌}
use claim_automation_cloud.Text.{Text, codes, split_on, text_eq}
use claim_automation_cloud.Exec.{ok}
use claim_automation_cloud.Security.{Codec, make_state, verify_state, state_mac}
use claim_automation_cloud.Security.State.{verify_state-make_state, verify_state_sound}

abbrev read_digit : Text → Option ℕ
read_digit (d ∷ []) = some (d - 48)
read_digit _ = none

abbrev pub toy_codec : Codec
toy_codec = record { mac = λ key t. codes "mac"; str = λ n. (48 + n) ∷ []; int = read_digit }

verify_state-make_state_example :
    verify_state toy_codec
      (make_state toy_codec (codes "key") (codes "nonce") 2000000)
      (codes "key")
      5000000
    ≡ ok true
verify_state-make_state_example =
    verify_state-make_state toy_codec (codes "key") (codes "nonce") 2000000 5000000 refl refl refl
      refl

abbrev pub toy_state : Text
toy_state = codes "nonce.2.mac"

toy_accepted : verify_state toy_codec toy_state (codes "key") 5000000 ≡ ok true
unfolding verify_state split_on text_eq
toy_accepted = refl

verify_state_sound_example :
    (nonce : Text) × (timestamp : Text) × (split_on b'.' toy_state
      ≡ nonce ∷ timestamp ∷ state_mac toy_codec (codes "key") nonce timestamp ∷ [])
verify_state_sound_example =
    verify_state_sound toy_codec (codes "key") toy_state 5000000 toy_accepted
