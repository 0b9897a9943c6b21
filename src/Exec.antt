-- ===== src/Exec.antt =====
-- Python actions that change the outside world and may raise. The state comes back beside an
-- exception too, since what was done before a raise stays done.
-- The exception classes are those of backend/core/exceptions.py, of the libraries the program
-- calls, and of Python itself, one constructor for each class that some handler tells apart.
pub mod Effect
pub mod Inversion
use claim_automation_cloud.Prelude.{ℕ, Option, none, some, List, [], ◌∷◌}
use claim_automation_cloud.Text.{Text}

pub data Error : Type 0 where
  -- core.exceptions.RunBusyError
  run_busy : Error
  -- core.exceptions.NoAccessError: the subclass's name and the reason
  no_access : Text → Text → Error
  value_error runtime_error : Text → Error
  type_error attribute_error key_error assertion_error : Error
  -- httpx.HTTPStatusError with the status, and every other httpx.HTTPError
  http_status : ℕ → Error
  http_error : Error
  -- azure.core.exceptions; a missing resource carries the service's error code
  resource_exists resource_modified : Error
  resource_not_found : Text → Error
  -- fastapi.HTTPException: the status and the detail
  http_exception : ℕ → Text → Error
  other_error : Text → Error

pub data Result {ℓ} (A : Type ℓ) : Type ℓ where
  ok : A → Result A
  err : Error → Result A

abbrev pub Exec : Type 0 → Type 0 → Type 0
Exec W A = W → Result A × W

module _ {W A : Type 0} where
  pub pure : A → Exec W A
  pure a w = (ok a, w)

  pub raise : Error → Exec W A
  raise e w = (err e, w)

  pub lift : Result A → Exec W A
  lift r w = (r, w)

  pub or_raise : Option A → Error → Exec W A
  unfolding pure raise
  or_raise none e = raise e
  or_raise (some a) e = pure a

module _ {W A B : Type 0} where
  abbrev continue : Result A → (A → Exec W B) → Exec W B
  continue (ok a) f w = f a w
  continue (err e) f w = (err e, w)

  infixl 5 ◌>>=◌ ◌>>◌
  -- Opening this opens `pure`, `raise`, `lift` and `or_raise` too.
  unfoldable pub ◌>>=◌ : Exec W A → (A → Exec W B) → Exec W B
  unfolding pure raise lift or_raise
  ◌>>=◌ m f w = let (r, w') = m w in continue r f w'

  abbrev pub ◌>>◌ : Exec W A → Exec W B → Exec W B
  m >> k = m >>= λ _. k

abbrev settle : {A : Type 0} → Result A → Result (Unit {0}) → Result A
settle r (ok u) = r
settle r (err e) = err e

module _ {W A : Type 0} where
  abbrev handle : Result A → (Error → Exec W A) → Exec W A
  handle (ok a) h w = (ok a, w)
  handle (err e) h w = h e w

  -- `try: m` with `except Exception as e: h(e)`.
  unfoldable pub try_except : Exec W A → (Error → Exec W A) → Exec W A
  try_except m h w = let (r, w') = m w in handle r h w'

  -- `try: m` with `finally: k`: what `k` raises replaces the outcome of `m`.
  unfoldable pub finally : Exec W A → Exec W (Unit {0}) → Exec W A
  finally m k w = let (r, w') = m w in let (c, w'') = k w' in (settle r c, w'')

-- An action for each item of a list in order, with the results; the first exception ends it.
unfoldable pub map_exec : {W A B : Type 0} → (A → Exec W B) → List A → Exec W (List B)
map_exec f [] = pure []
map_exec f (x ∷ xs) = f x >>= λ y. map_exec f xs >>= λ ys. pure (y ∷ ys)
