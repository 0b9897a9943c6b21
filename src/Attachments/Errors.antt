-- ===== src/Attachments/Errors.antt =====
-- The exceptions that leave the download route: `except httpx.HTTPError` of `download_claim_attachments`.
use mathlib.Core.Path.{subst}
use claim_automation_cloud.Prelude.{
  ℕ, ◌+◌, ◌≡◌, refl, ap, sym, ◌∙◌, inl, inr, false, List, Bool-cases,
}
use claim_automation_cloud.Text.{Text}
use claim_automation_cloud.Exec.{Error, Result, ok, err, Exec, pure, ◌>>=◌, try_except, finally}
use claim_automation_cloud.Exec.Inversion.{bind-eq_err, try_except-cases}
use claim_automation_cloud.Pdf.{Bytes}
use claim_automation_cloud.Attachments.{
  TrelloClient, is_http_error, http_to_502, collect, download_claim_attachments, download_deadline,
}

module _ {W : Type 0} (str : ℕ → Text) (trello : TrelloClient W) where
  abbrev Entries : Type 0
  Entries = List (Text × Bytes)

  err-injective :
      {A : Type 0} {x y : Error} {v w : W} → ◌≡◌ {A = Result A × W} (err x, v) (err y, w) → x ≡ y
  err-injective h = cc

  ok-ne_err :
      {A : Type 0} {a : A} {y : Error} {v w : W} → ◌≡◌ {A = Result A × W} (ok a, v) (err y, w) → ⊥
  ok-ne_err h = cc

  pure-ne_err : {A : Type 0} (a : A) {e : Error} (v : W) {w : W} → pure a v ≡ (err e, w) → ⊥
  unfolding ◌>>=◌
  pure-ne_err a v h = cc

  mapped-safe :
      (x e : Error) (v w : W) → http_to_502 str trello x v ≡ (err e, w) → is_http_error e ≡ false
  unfolding ◌>>=◌
  mapped-safe x e v w h = elim (Bool-cases (is_http_error x)) [
    | inl http ↦ subst (λ y. is_http_error y ≡ false) (err-injective (rw http at h)) refl
    | inr other ↦ subst (λ y. is_http_error y ≡ false) (err-injective (rw other at h)) other
  ]

  guarded-safe :
      (m : Exec W Entries) (e : Error) (u w : W)
      → try_except m (http_to_502 str trello) u ≡ (err e, w)
      → is_http_error e ≡ false
  guarded-safe m e u w h = elim (try_except-cases m (http_to_502 str trello) u) [
    | inl (a, v, p, q) ↦ absurd (ok-ne_err (sym q ∙ h))
    | inr (x, v, p, q) ↦ mapped-safe x e v w (sym q ∙ h)
  ]

  finally-result :
      (m : Exec W Entries) (u : W)
      → ((v : W) → (trello.close v).0 ≡ ok tt)
      → (finally m trello.close u).0 ≡ (m u).0
  unfolding finally
  finally-result m u closes = rw (closes (m u).1)

  finally-safe :
      (m : Exec W Entries) (e : Error) (u w : W)
      → ((v : W) → (trello.close v).0 ≡ ok tt)
      → finally (try_except m (http_to_502 str trello)) trello.close u ≡ (err e, w)
      → is_http_error e ≡ false
  finally-safe m e u w closes h =
      let guarded = try_except m (http_to_502 str trello) in
      let raised = sym (finally-result guarded u closes) ∙ ap (λ (x : Result Entries × W). x.0) h in
      guarded-safe m e u (guarded u).1 (ap (λ (r : Result Entries). (r, (guarded u).1)) raised)

  ok-ne_err_result : {A : Type 0} {a : A} {e : Error} → ok a ≡ err e → ⊥
  ok-ne_err_result h = cc

  -- No exception of httpx leaves the route: whatever fails is a status of the application, or an
  -- exception that is not httpx's. The clock and the closing are taken not to raise.
  pub download_claim_attachments-NoHttpError :
      (year number : Text) (u w : W) (e : Error)
      → ((v : W) → (n : ℕ) × ((trello.monotonic v).0 ≡ ok n))
      → ((v : W) → (trello.close v).0 ≡ ok tt)
      → download_claim_attachments str trello year number u ≡ (err e, w)
      → is_http_error e ≡ false
  unfolding download_claim_attachments
  download_claim_attachments-NoHttpError year number u w e ticks closes h =
      elim (bind-eq_err _ _ u w e h) [
        | inl (v, p) ↦
            let (n, t) = ticks u in
            absurd (ok-ne_err_result (sym t ∙ ap (λ (x : Result ℕ × W). x.0) p))
        | inr (n, v, p, k) ↦ elim (bind-eq_err _ _ v w e k) [
          | inl (x, q) ↦
              finally-safe (collect str trello year number (n + download_deadline)) e v x closes q
          | inr (entries, x, q, r) ↦ absurd (pure-ne_err _ x r)
        ]
      ]
