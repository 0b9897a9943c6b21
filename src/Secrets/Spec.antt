-- ===== src/Secrets/Spec.antt =====
-- What a secret store promises: a map from names to secrets, on which a failed write either took place
-- or did not.
use mathlib.Core.Path.{subst}
use claim_automation_cloud.Prelude.{
  Bool, true, false, ◌≡◌, refl, ◌⊎◌, inl, inr, Option, some, List, [], ◌∷◌, if◌then◌else◌,
}
use claim_automation_cloud.Text.{Text, text_eq}
use claim_automation_cloud.Exec.{Error, Result, ok, err}
use claim_automation_cloud.Secrets.{SecretStore}

abbrev pub SecretMap : Type 0
SecretMap = Text → Option Text

abbrev pub update : SecretMap → Text → Text → SecretMap
update f name value other = if text_eq name other then some value else f other

-- The store over the worlds that are valid, seen as a map.
pub record IsSecretStore {W : Type 0} (store : SecretStore W) : Type 1 where
  pub IsValid : W → Type 0
  pub view : W → SecretMap
  pub get_ok :
      (name : Text) (w : W) {o : Option Text} {w' : W}
      → IsValid w
      → store.get name w ≡ (ok o, w')
      → (o ≡ view w name) × IsValid w' × (view w' ≡ view w)
  pub set_ok :
      (name value : Text) (w : W) {u : Unit {0}} {w' : W}
      → IsValid w
      → store.set name value w ≡ (ok u, w')
      → IsValid w' × (view w' ≡ update (view w) name value)
  pub set_err :
      (name value : Text) (w : W) {e : Error} {w' : W}
      → IsValid w
      → store.set name value w ≡ (err e, w')
      → IsValid w' × ((view w' ≡ view w) ⊎ (view w' ≡ update (view w) name value))

abbrev pub Write : Type 0
Write = Text × Text

-- A write with whether it was answered.
pub record Attempt : Type 0 where
  pub name : Text
  pub value : Text
  pub answered : Bool

-- The attempts on the map: what was answered has taken place, and what failed may have.
pub data Replays : List Attempt → SecretMap → SecretMap → Type 0 where
  finished : {f : SecretMap} → Replays [] f f
  done :
      {a : Attempt} {rest : List Attempt} {f g : SecretMap}
      → Replays rest (update f a.name a.value) g
      → Replays (a ∷ rest) f g
  lost :
      {a : Attempt} {rest : List Attempt} {f g : SecretMap}
      → a.answered ≡ false
      → Replays rest f g
      → Replays (a ∷ rest) f g

abbrev is_ok : Result (Unit {0}) → Bool
is_ok (ok u) = true
is_ok (err e) = false

module _ {W : Type 0} (store : SecretStore W) where
  -- The world after the writes, and how each was answered.
  unfoldable pub run_writes : List Write → W → W
  run_writes [] w = w
  run_writes ((name, value) ∷ ws) w = run_writes ws (store.set name value w).1

  unfoldable pub attempts : List Write → W → List Attempt
  attempts [] w = []
  attempts ((name, value) ∷ ws) w =
      let (r, w') = store.set name value w in
      record { name = name; value = value; answered = is_ok r } ∷ attempts ws w'

module _ {W : Type 0} (store : SecretStore W) (spec : IsSecretStore store) where
  -- Any writes on a store that keeps the promise end as their attempts on the map, where only a write
  -- that failed may be lost.
  pub run_writes-Replays :
      (ws : List Write) (w : W)
      → spec.IsValid w
      → Replays (attempts store ws w) (spec.view w) (spec.view (run_writes store ws w))
  unfolding run_writes attempts
  run_writes-Replays [] w v = finished
  run_writes-Replays ((name, value) ∷ ws) w v =
      go (store.set name value w).0 (store.set name value w).1 refl (run_writes-Replays ws)
    where
      go :
          (r : Result (Unit {0})) (w' : W)
          → store.set name value w ≡ (r, w')
          → ((u : W)
              → spec.IsValid u
              → Replays (attempts store ws u) (spec.view u) (spec.view (run_writes store ws u)))
          → Replays
              (record { name = name; value = value; answered = is_ok r } ∷ attempts store ws w')
              (spec.view w)
              (spec.view (run_writes store ws w'))
      go (ok u) w' e rest =
          let (valid, same) = spec.set_ok name value w v e in
          done (
            subst (λ f. Replays (attempts store ws w') f (spec.view (run_writes store ws w'))) same
              (rest w' valid))
      go (err x) w' e rest =
          let (valid, either) = spec.set_err name value w v e in
          elim either [
            | inl same ↦ lost refl (
                subst (λ f. Replays (attempts store ws w') f (spec.view (run_writes store ws w')))
                  same (rest w' valid))
            | inr same ↦ done (
                subst (λ f. Replays (attempts store ws w') f (spec.view (run_writes store ws w')))
                  same (rest w' valid))
          ]

  -- The world after the writes is valid again.
  pub run_writes-valid :
      (ws : List Write) (w : W) → spec.IsValid w → spec.IsValid (run_writes store ws w)
  unfolding run_writes
  run_writes-valid [] w v = v
  run_writes-valid ((name, value) ∷ ws) w v =
      go (store.set name value w).0 (store.set name value w).1 refl (run_writes-valid ws)
    where
      go :
          (r : Result (Unit {0})) (w' : W)
          → store.set name value w ≡ (r, w')
          → ((u : W) → spec.IsValid u → spec.IsValid (run_writes store ws u))
          → spec.IsValid (run_writes store ws w')
      go (ok u) w' e rest = rest w' (spec.set_ok name value w v e).0
      go (err x) w' e rest = rest w' (spec.set_err name value w v e).0
