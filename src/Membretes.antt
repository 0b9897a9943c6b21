-- ===== src/Membretes.antt =====
-- The letterheads' source: `BlobMembreteSource.get` of backend/pipeline/membrete_source.py, with its cache
-- beside the world. The blob container is the parameter `download`; the lock is left out.
use claim_automation_cloud.Prelude.{◌≡◌, refl, ap, sym, ◌∙◌, Option, none, some, if◌then◌else◌}
use claim_automation_cloud.Text.{Text, text_eq, text_eq_refl}
use claim_automation_cloud.Exec.{Error, Result, ok, err, Exec}
use claim_automation_cloud.Exec.Inversion.{ok-injective}
use claim_automation_cloud.Pdf.{Bytes}

-- `self._cache`
abbrev pub BlobCache : Type 0
BlobCache = Text → Option Bytes

abbrev pub store_blob : Text → Bytes → BlobCache → BlobCache
store_blob name blob cache key = if text_eq key name then some blob else cache key

module _ {W : Type 0} (download : Text → Exec W Bytes) where
  abbrev Fetched : Type 0
  Fetched = Result Bytes × (BlobCache × W)

  abbrev after_download : Text → BlobCache → Result Bytes × W → Fetched
  after_download name cache (ok blob, w) = (ok blob, (store_blob name blob cache, w))
  after_download name cache (err e, w) = (err e, (cache, w))

  abbrev cached_or : Text → BlobCache → Option Bytes → W → Fetched
  cached_or name cache (some blob) w = (ok blob, (cache, w))
  cached_or name cache none w = after_download name cache (download name w)

  unfoldable pub get_membrete : Text → Exec (BlobCache × W) Bytes
  get_membrete name (cache, w) = cached_or name cache (cache name) w

  held_blob :
      (name : Text) (cache : BlobCache) (w : W) (b blob : Bytes) (s : BlobCache × W)
      → cache name ≡ some b
      → ◌≡◌ {A = Fetched} (ok b, (cache, w)) (ok blob, s)
      → s.0 name ≡ some blob
  held_blob name cache w b blob s p h =
      sym (ap (λ (y : Fetched). y.1.0 name) h)
      ∙ (p ∙ ap some (ok-injective (ap (λ (y : Fetched). y.0) h)))

  err-ne_ok :
      {e : Error} {u v : BlobCache × W} {b : Bytes} → ◌≡◌ {A = Fetched} (err e, u) (ok b, v) → ⊥
  err-ne_ok h = cc

  downloaded_blob :
      (name : Text) (cache : BlobCache) (r : Result Bytes × W) (blob : Bytes) (s : BlobCache × W)
      → after_download name cache r ≡ (ok blob, s)
      → s.0 name ≡ some blob
  downloaded_blob name cache (ok b, w) blob s h =
      held_blob name (store_blob name b cache) w b blob s (rw (text_eq_refl name)) h
  downloaded_blob name cache (err e, w) blob s h = absurd (err-ne_ok h)

  cached_blob :
      (name : Text) (cache : BlobCache) (o : Option Bytes) (w : W) (blob : Bytes)
      (s : BlobCache × W)
      → cache name ≡ o
      → cached_or name cache o w ≡ (ok blob, s)
      → s.0 name ≡ some blob
  cached_blob name cache (some b) w blob s p h = held_blob name cache w b blob s p h
  cached_blob name cache none w blob s p h = downloaded_blob name cache (download name w) blob s h

  -- A letterhead that was once returned is returned again as it was, with no further download and no
  -- change of the cache.
  pub get_membrete-cached :
      (name : Text) (blob : Bytes) (s s' : BlobCache × W)
      → get_membrete name s ≡ (ok blob, s')
      → get_membrete name s' ≡ (ok blob, s')
  unfolding get_membrete
  get_membrete-cached name blob (cache, w) (cache', w') h =
      rw (cached_blob name cache (cache name) w blob (cache', w') refl h)
