-- ===== src/Exec/Inversion.antt =====
-- What an action that returned went through, one lemma for each way to build an action.
use claim_automation_cloud.Prelude.{
  ◌≡◌, refl, ap, sym, ◌∙◌, ◌⊎◌, inl, inr, Option, none, some, arith,
}
use claim_automation_cloud.Exec.{
  Error, Result, ok, err, Exec, pure, raise, lift, or_raise, ◌>>=◌, continue, try_except, handle,
}

pub ok-injective : {A : Type 0} {a b : A} → ok a ≡ ok b → a ≡ b
ok-injective h = cc

module _ {W A : Type 0} where
  pub pure-eq_ok : (a : A) (w : W) {b : A} {v : W} → pure a w ≡ (ok b, v) → (a ≡ b) × (w ≡ v)
  unfolding pure
  pure-eq_ok a w h = ground arith

  pub lift-eq_ok :
      (r : Result A) (w : W) {b : A} {v : W} → lift r w ≡ (ok b, v) → (r ≡ ok b) × (w ≡ v)
  unfolding lift
  lift-eq_ok r w h = ground arith

  pub or_raise-eq_ok :
      (o : Option A) (e : Error) (w : W) {b : A} {v : W}
      → or_raise o e w ≡ (ok b, v)
      → (o ≡ some b) × (w ≡ v)
  unfolding or_raise
  or_raise-eq_ok none e w h = ground arith
  or_raise-eq_ok (some a) e w h = ground arith

  pub raise-ne_ok : (e : Error) (w : W) {b : A} {v : W} → raise e w ≡ (ok b, v) → ⊥
  unfolding raise
  raise-ne_ok e w h = ground arith

  pub call-eq_ok :
      (r : Result A) (w : W) {b : A} {v : W}
      → ◌≡◌ {A = Result A × W} (r, w) (ok b, v)
      → (r ≡ ok b) × (w ≡ v)
  call-eq_ok r w h = ground arith

module _ {W A B : Type 0} where
  -- What a sequence that returned went through.
  pub bind-eq_ok :
      (m : Exec W A) (f : A → Exec W B) (w : W) {b : B} {w' : W}
      → (m >>= f) w ≡ (ok b, w')
      → (a : A) × (v : W) × (m w ≡ (ok a, v)) × (f a v ≡ (ok b, w'))
  unfolding ◌>>=◌
  bind-eq_ok m f w {b = b} {w' = w'} h = go (m w).0 (m w).1 refl h
    where
      go :
          (r : Result A) (v : W)
          → m w ≡ (r, v)
          → continue r f v ≡ (ok b, w')
          → (a : A) × (u : W) × (m w ≡ (ok a, u)) × (f a u ≡ (ok b, w'))
      go (ok a) v e k = (a, v, e, k)
      go (err x) v e k = cc

  -- How a sequence runs: its first part raises and that is all, or the rest goes on from there.
  pub bind-cases :
      (m : Exec W A) (f : A → Exec W B) (w : W)
      → ((e : Error) × (v : W) × (m w ≡ (err e, v)) × ((m >>= f) w ≡ (err e, v)))
        ⊎ ((a : A) × (v : W) × (m w ≡ (ok a, v)) × ((m >>= f) w ≡ f a v))
  unfolding ◌>>=◌
  bind-cases m f w = go (m w).0 (m w).1 refl
    where
      go :
          (r : Result A) (v : W)
          → m w ≡ (r, v)
          → ((e : Error) × (u : W) × (m w ≡ (err e, u)) × ((m >>= f) w ≡ (err e, u)))
            ⊎ ((a : A) × (u : W) × (m w ≡ (ok a, u)) × ((m >>= f) w ≡ f a u))
      go (ok a) v e = inr (a, v, e, ap (λ (x : Result A × W). continue x.0 f x.1) e)
      go (err x) v e = inl (x, v, e, ap (λ (x : Result A × W). continue x.0 f x.1) e)

  -- A sequence whose first part returned goes on from there.
  pub bind_after :
      (m : Exec W A) (f : A → Exec W B) (w : W) {a : A} {v : W}
      → m w ≡ (ok a, v)
      → (m >>= f) w ≡ f a v
  unfolding ◌>>=◌
  bind_after m f w h = ap (λ (x : Result A × W). continue x.0 f x.1) h

  same_error :
      {x e : Error} {v w : W}
      → ◌≡◌ {A = Result B × W} (err x, v) (err e, w)
      → ◌≡◌ {A = Result A × W} (err x, v) (err e, v)
  same_error h = cc

  -- What a sequence raised that goes on with a value only.
  pub bind_pure-eq_err :
      (m : Exec W A) (f : A → B) (w : W) {e : Error} {w' : W}
      → (m >>= λ a. pure (f a)) w ≡ (err e, w')
      → m w ≡ (err e, w')
  unfolding ◌>>=◌
  bind_pure-eq_err m f w {e = e} {w' = w'} h = go (m w).0 (m w).1 refl h
    where
      go :
          (r : Result A) (v : W)
          → m w ≡ (r, v)
          → continue r (λ a. pure (f a)) v ≡ (err e, w')
          → m w ≡ (err e, w')
      go (ok a) v p k = cc
      go (err x) v p k = p ∙ raised k
        where
          raised :
              ◌≡◌ {A = Result B × W} (err x, v) (err e, w')
              → ◌≡◌ {A = Result A × W} (err x, v) (err e, w')
          raised q = cc

  -- What a sequence that raised went through.
  pub bind-eq_err :
      (m : Exec W A) (f : A → Exec W B) (w w' : W) (e : Error)
      → (m >>= f) w ≡ (err e, w')
      → ((v : W) × (m w ≡ (err e, v)))
        ⊎ ((a : A) × (v : W) × (m w ≡ (ok a, v)) × (f a v ≡ (err e, w')))
  bind-eq_err m f w w' e h = elim (bind-cases m f w) [
    | inl (x, v, p, q) ↦ inl (v, p ∙ same_error (sym q ∙ h))
    | inr (a, v, p, q) ↦ inr (a, v, p, sym q ∙ h)
  ]

module _ {W A : Type 0} where
  -- How a guarded action runs: it returns and that is all, or the handler goes on from its error.
  pub try_except-cases :
      (m : Exec W A) (h : Error → Exec W A) (w : W)
      → ((a : A) × (v : W) × (m w ≡ (ok a, v)) × (try_except m h w ≡ (ok a, v)))
        ⊎ ((e : Error) × (v : W) × (m w ≡ (err e, v)) × (try_except m h w ≡ h e v))
  unfolding try_except
  try_except-cases m h w = go (m w).0 (m w).1 refl
    where
      go :
          (r : Result A) (v : W)
          → m w ≡ (r, v)
          → ((a : A) × (u : W) × (m w ≡ (ok a, u)) × (try_except m h w ≡ (ok a, u)))
            ⊎ ((e : Error) × (u : W) × (m w ≡ (err e, u)) × (try_except m h w ≡ h e u))
      go (ok a) v e = inl (a, v, e, ap (λ (x : Result A × W). handle x.0 h x.1) e)
      go (err x) v e = inr (x, v, e, ap (λ (x : Result A × W). handle x.0 h x.1) e)
