-- ===== src/Gmail/Labels.antt =====
-- The label cache: `get_or_create_label_id`.
use claim_automation_cloud.Prelude.{◌≡◌, refl, ap, sym, ◌∙◌, Option, none, some, List}
use claim_automation_cloud.Text.{Text, text_eq_refl}
use claim_automation_cloud.Exec.{Error, Result, ok, err}
use claim_automation_cloud.Exec.Inversion.{ok-injective}
use claim_automation_cloud.Gmail.{
  GmailApi, Cache, remember, after_create, look_again, after_list, look_up, remember_all,
  get_or_create_label_id,
}

module _ {W : Type 0} (lower : Text → Text) (api : GmailApi W) where
  abbrev Answer : Type 0
  Answer = Result Text × (Cache × W)

  kept :
      (name : Text) (cache : Cache) (w : W) (x id : Text) (s : Cache × W)
      → cache (lower name) ≡ some x
      → ◌≡◌ {A = Answer} (ok x, (cache, w)) (ok id, s)
      → s.0 (lower name) ≡ some id
  kept name cache w x id s p h =
      sym (ap (λ (y : Answer). y.1.0 (lower name)) h)
      ∙ (p ∙ ap some (ok-injective (ap (λ (y : Answer). y.0) h)))

  err-ne_ok : {e : Error} {u v : Cache × W} {id : Text} → ◌≡◌ {A = Answer} (err e, u) (ok id, v) → ⊥
  err-ne_ok h = cc

  created_known :
      (name : Text) (cache : Cache) (r : Result Text × W) (id : Text) (s : Cache × W)
      → after_create lower api name cache r ≡ (ok id, s)
      → s.0 (lower name) ≡ some id
  created_known name cache (ok x, w) id s h =
      kept name (remember (lower name) x cache) w x id s (rw (text_eq_refl (lower name))) h
  created_known name cache (err e, w) id s h = absurd (err-ne_ok h)

  again_known :
      (name : Text) (cache : Cache) (o : Option Text) (w : W) (id : Text) (s : Cache × W)
      → cache (lower name) ≡ o
      → look_again lower api name cache o w ≡ (ok id, s)
      → s.0 (lower name) ≡ some id
  again_known name cache (some x) w id s p h = kept name cache w x id s p h
  again_known name cache none w id s p h = created_known name cache (api.create_label name w) id s h

  listed_known :
      (name : Text) (cache : Cache) (r : Result (List (Text × Text)) × W) (id : Text)
      (s : Cache × W)
      → after_list lower api name cache r ≡ (ok id, s)
      → s.0 (lower name) ≡ some id
  listed_known name cache (err e, w) id s h = absurd (err-ne_ok h)
  listed_known name cache (ok labels, w) id s h =
      let known = remember_all lower api labels cache in
      again_known name known (known (lower name)) w id s refl h

  look_up_known :
      (name : Text) (cache : Cache) (o : Option Text) (w : W) (id : Text) (s : Cache × W)
      → cache (lower name) ≡ o
      → look_up lower api name cache o w ≡ (ok id, s)
      → s.0 (lower name) ≡ some id
  look_up_known name cache (some x) w id s p h = kept name cache w x id s p h
  look_up_known name cache none w id s p h = listed_known name cache (api.list_labels w) id s h

  -- Once a label's id has been found or the label made, asking for a name that is the same but for its
  -- case gives that id again, with no call and no change of the cache.
  pub get_or_create_label_id-cached :
      (name other id : Text) (s s' : Cache × W)
      → get_or_create_label_id lower api name s ≡ (ok id, s')
      → lower other ≡ lower name
      → get_or_create_label_id lower api other s' ≡ (ok id, s')
  unfolding get_or_create_label_id
  get_or_create_label_id-cached name other id (cache, w) (cache', w') h same =
      rw (same, look_up_known name cache (cache (lower name)) w id (cache', w') refl h)
