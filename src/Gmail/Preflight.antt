-- ===== src/Gmail/Preflight.antt =====
-- When a wake is skipped for want of access to Gmail: `preflight`.
use claim_automation_cloud.Prelude.{
  ◌≡◌, refl, sym, ap, ◌∙◌, ◌⊎◌, inl, inr, Bool, true, false, Option, none, some, [], ◌∷◌,
  Bool-cases,
}
use claim_automation_cloud.Text.{Text, codes}
use claim_automation_cloud.Exec.{Error, no_access, Result, ok, err, Exec, raise, lift, ◌>>=◌}
use claim_automation_cloud.Exec.Inversion.{bind-cases}
use claim_automation_cloud.Config.{is_set}
use claim_automation_cloud.Gmail.{
  TokenAnswer, GmailApi, is_definitive, gmail_no_access, require_secret, on_answer, with_token,
  preflight,
}

abbrev is_no_access : Error → Bool
is_no_access (no_access source reason) = true
is_no_access e = false

-- The outcome is not the loss of access.
abbrev pub OtherThanNoAccess : {A : Type 0} → Result A → Type 0
OtherThanNoAccess (ok a) = Unit {0}
OtherThanNoAccess (err e) = is_no_access e ≡ false

-- What the preflight relies on: neither the secret store nor httpx raises the class of the preflight.
pub record OnlyPreflight {W : Type 0} (api : GmailApi W) : Type 0 where
  pub secrets : (name : Text) (w : W) → OtherThanNoAccess (api.secret name w).0
  pub posts : (token secret : Text) (w : W) → OtherThanNoAccess (api.post_token token secret w).0
  pub answers :
      (token secret : Text) (w : W) {answer : TokenAnswer} {v : W}
      → api.post_token token secret w ≡ (ok answer, v)
      → OtherThanNoAccess answer.raised × OtherThanNoAccess answer.access_token

module _ {W : Type 0} (lower : Text → Text) (api : GmailApi W) (laws : OnlyPreflight api) where
  same_error :
      {B : Type 0} {e e' : Error} {v w' : W}
      → ◌≡◌ {A = Result B × W} (err e, v) (err e', w')
      → e ≡ e'
  same_error h = cc

  same_reason : {r r' : Text} → gmail_no_access r ≡ gmail_no_access r' → r ≡ r'
  same_reason h = cc

  other_error :
      {A : Type 0} (r : Result A) {e : Error} {reason : Text}
      → OtherThanNoAccess r
      → r ≡ err e
      → e ≡ gmail_no_access reason
      → ⊥
  other_error (ok a) h p q = cc
  other_error (err x) h p q = cc

  -- A sequence whose first part cannot lose access lost it in the second.
  through :
      {A B : Type 0} (m : Exec W A) (f : A → Exec W B) (w : W) {reason : Text} {w' : W}
      → OtherThanNoAccess (m w).0
      → (m >>= f) w ≡ (err (gmail_no_access reason), w')
      → (a : A) × (v : W) × (m w ≡ (ok a, v)) × (f a v ≡ (err (gmail_no_access reason), w'))
  through m f w other h = elim (bind-cases m f w) [
    | inl (e, v, p, q) ↦
        absurd
          (other_error (m w).0 other (ap (λ (x : Result _ × W). x.0) p) (same_error (sym q ∙ h)))
    | inr (a, v, p, q) ↦ (a, v, p, sym q ∙ h)
  ]

  lifted_other :
      {A : Type 0} (r : Result A) (v : W) {reason : Text} {w' : W}
      → OtherThanNoAccess r
      → lift r v ≡ (err (gmail_no_access reason), w')
      → ⊥
  unfolding ◌>>=◌
  lifted_other r v {reason = reason} other h =
      other_error r other (ap (λ (x : Result _ × W). x.0) h) refl

  raise_reason :
      {A : Type 0} (r : Text) (v : W) {reason : Text} {w' : W}
      → raise {A = A} (gmail_no_access r) v ≡ (err (gmail_no_access reason), w')
      → reason ≡ r
  unfolding ◌>>=◌
  raise_reason r v h = sym (same_reason (same_error h))

  abbrev Rejected : Text → Type 0
  Rejected reason =
      (reason ≡ codes "token_rejected")
      × ((token : Text) × (secret : Text) × (u : W) × (v : W) × (answer : TokenAnswer)
          × (api.post_token token secret u ≡ (ok answer, v))
          × (is_definitive answer ≡ true))

  on_answer-Rejected :
      (token secret : Text) (u v : W) (answer : TokenAnswer) {reason : Text} {w' : W}
      → api.post_token token secret u ≡ (ok answer, v)
      → on_answer lower api answer v ≡ (err (gmail_no_access reason), w')
      → Rejected reason
  unfolding ◌>>=◌
  on_answer-Rejected token secret u v answer p h =
      let (raised, access) = laws.answers token secret u p in
      elim (Bool-cases (is_definitive answer)) [
        | inl definitive ↦ (
          raise_reason (codes "token_rejected") v (rw definitive at h),
          (token, secret, u, v, answer, p, definitive),
        )
        | inr other ↦
            let (t, v', q, k) =
              through (lift answer.raised) (λ _. lift answer.access_token) v raised
                (rw other at h) in
            absurd (lifted_other answer.access_token v' access k)
      ]

  secret_other :
      (found : Option Text) (v : W) → OtherThanNoAccess (require_secret lower api found v).0
  unfolding ◌>>=◌
  secret_other none v = refl
  secret_other (some []) v = refl
  secret_other (some (c ∷ s)) v = tt

  -- Where neither the secret store nor httpx raises the preflight's own class: access to Gmail counts
  -- as lost only where it is: the refresh token is missing or empty, or the token endpoint answered
  -- 400 or 401 with one of the definitive codes. Any other failure of the preflight is another
  -- exception.
  pub preflight-no_access :
      (w : W) {reason : Text} {w' : W}
      → preflight lower api w ≡ (err (gmail_no_access reason), w')
      → ((reason ≡ codes "missing_token")
          × ((o : Option Text) × (v : W) × (api.secret (codes "gmail-refresh-token") w ≡ (ok o, v))
              × (is_set o ≡ false)))
        ⊎ ((reason ≡ codes "token_rejected")
            × ((token : Text) × (secret : Text) × (u : W) × (v : W) × (answer : TokenAnswer)
                × (api.post_token token secret u ≡ (ok answer, v))
                × (is_definitive answer ≡ true)))
  unfolding preflight
  preflight-no_access w {reason = reason} {w' = w'} h =
      let (o, v, p, k) =
        through (api.secret (codes "gmail-refresh-token")) (with_token lower api) w
          (laws.secrets _ w) h in
      go o v p k
    where
      go :
          (o : Option Text) (v : W)
          → api.secret (codes "gmail-refresh-token") w ≡ (ok o, v)
          → with_token lower api o v ≡ (err (gmail_no_access reason), w')
          → ((reason ≡ codes "missing_token")
              × ((o : Option Text) × (v : W) × (api.secret (codes "gmail-refresh-token") w
                    ≡ (ok o, v))
                  × (is_set o ≡ false)))
            ⊎ Rejected reason
      go none v p k = inl (raise_reason (codes "missing_token") v k, (none, v, p, refl))
      go (some []) v p k = inl (raise_reason (codes "missing_token") v k, (some [], v, p, refl))
      go (some (c ∷ s)) v p k =
          let (found, v1, p1, k1) =
            through (api.secret (codes "google-client-secret")) _ v (laws.secrets _ v) k in
          let (secret, v2, p2, k2) =
            through (require_secret lower api found) _ v1 (secret_other found v1) k1 in
          let (answer, v3, p3, k3) =
            through (api.post_token (c ∷ s) secret) (on_answer lower api) v2 (laws.posts _ _ v2)
              k2 in
          inr (on_answer-Rejected (c ∷ s) secret v2 v3 answer p3 k3)
