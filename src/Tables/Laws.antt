-- ===== src/Tables/Laws.antt =====
-- What the store relies on of the table service. Every law is about a call that was answered, so a
-- service that fails at any call satisfies them.
use claim_automation_cloud.Prelude.{ℕ, ◌≡◌, ◌≢◌, true, Option, none, some}
use claim_automation_cloud.Text.{Text}
use claim_automation_cloud.Exec.{Error, resource_not_found, ok, err}
use claim_automation_cloud.Tables.{Props, Key, Entity, TableService, is_entity_missing}

-- The service reports that the entity is missing.
abbrev pub Missing : Error → Type 0
Missing e = (code : Text) × (e ≡ resource_not_found code) × (is_entity_missing code ≡ true)

module _ {W : Type 0} where
  abbrev pub SameRows : (W → Key → Option Entity) → W → W → Type 0
  SameRows row w w' = (k : Key) → row w' k ≡ row w k

  pub record TableLaws (service : TableService W) : Type 0 where
    -- What the tables hold.
    pub row : W → Key → Option Entity
    pub get_ok :
        (k : Key) (w : W) {e : Entity} {w' : W}
        → service.get_entity k w ≡ (ok e, w')
        → (row w k ≡ some e) × SameRows row w w'
    pub get_err :
        (k : Key) (w : W) {x : Error} {w' : W}
        → service.get_entity k w ≡ (err x, w')
        → (Missing x → row w k ≡ none) × SameRows row w w'
    pub upsert_ok :
        (k : Key) (p : Props) (w : W) {u : Unit {0}} {w' : W}
        → service.upsert_entity k p w ≡ (ok u, w')
        → (tag : ℕ) × (row w' k ≡ some (record { props = p; etag = tag }))
          × ((j : Key) → j ≢ k → row w' j ≡ row w j)
    -- An insertion, also one that fails, touches no other row.
    pub create_others :
        (k : Key) (p : Props) (w : W) (j : Key)
        → j ≢ k
        → row (service.create_entity k p w).1 j ≡ row w j
