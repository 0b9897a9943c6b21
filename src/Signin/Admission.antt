-- ===== src/Signin/Admission.antt =====
-- Whom the callback lets in: `callback`.
use mathlib.Core.Path.{subst}
use claim_automation_cloud.Prelude.{◌≡◌, refl, sym, inl, inr, List, ◌++◌}
use claim_automation_cloud.Text.{Text, codes}
use claim_automation_cloud.Exec.{Error, Result, ok, err, lift, ◌>>=◌}
use claim_automation_cloud.Exec.Inversion.{bind-cases, bind_after}
use claim_automation_cloud.Exec.Effect.{Effect, Within, Within-bind, Within-pure}
use claim_automation_cloud.Json.{null, get_or}
use claim_automation_cloud.Config.{Settings}
use claim_automation_cloud.Security.{Codec, Jwt}
use claim_automation_cloud.Signin.{
  Outside, Query, Step, next, refuse, Admitted, gate, conclude, callback,
}
use claim_automation_cloud.Signin.Refusals.{gate-Within}
use claim_automation_cloud.Signin.Checks.{lifted, IsOperator, gate-eq_next}

module _ {W : Type 0} (c : Codec) (jwt : Jwt) (outside : Outside W) (settings : Settings) where
  -- How the callback ends, where `f` is what the secrets' `get`, the clock and the exchange may do.
  pub data Verdict (f : Effect W) (query : Query) (w : W) : Result Text → W → Type 0 where
    refused :
        (kind : Text) {w' : W}
        → f.rel w w'
        → Verdict f query w (ok (settings.frontend_base_url ++ (codes "#error=" ++ kind))) w'
    failed : {e : Error} {w' : W} → f.rel w w' → Verdict f query w (err e) w'
    admitted :
        {a : Admitted} {v : W} {r : Result Text} {w' : W}
        → IsOperator c jwt outside settings query a
        → f.rel w v
        → conclude c jwt outside settings (next a) v ≡ (r, w')
        → (get_or (codes "refresh_token") null a.payload ≡ ok null → f.rel w w')
        → Verdict f query w r w'

module _ {W : Type 0} (c : Codec) (jwt : Jwt) (outside : Outside W) (settings : Settings)
    (f : Effect W) (gets : (name : Text) → Within f (outside.store.get name))
    (clock : Within f outside.time)
    (posts : (url : Text) (form : List (Text × Text)) → Within f (outside.post url form)) where
  settled :
      (query : Query) (w : W) {r : Result Text} {w' : W}
      → callback c jwt outside settings query w ≡ (r, w')
      → Verdict c jwt outside settings f query w r w'
      → Verdict c jwt outside settings f query w
          (callback c jwt outside settings query w).0
          (callback c jwt outside settings query w).1
  settled query w q verdict =
      subst (λ (x : Result Text × W). Verdict c jwt outside settings f query w x.0 x.1) (sym q)
        verdict

  reached :
      (query : Query) (w : W) {r : Result (Step Admitted)} {v : W}
      → gate c jwt outside settings query w ≡ (r, v)
      → f.rel w v
  reached query w p =
      subst (λ (x : Result (Step Admitted) × W). f.rel w x.1) p
        ((gate-Within c jwt outside settings f gets clock posts query).bound w)

  conclude-keeps :
      (a : Admitted) (v : W)
      → get_or (codes "refresh_token") null a.payload ≡ ok null
      → f.rel v (conclude c jwt outside settings (next a) v).1
  conclude-keeps a v h =
      subst (λ (x : Result Text × W). f.rel v x.1) (sym (bind_after (lift _) _ v (lifted h)))
        ((Within-bind _ _ (Within-pure tt)
            (λ _. Within-bind _ _ clock (λ now. Within-pure _))).bound
          v)

  -- Nothing is stored and no session is minted unless the query's state verifies under the signing key
  -- and the identity token from the exchange of its code names the operator: any other end is a redirect
  -- to an error or an exception, and has done no more to the world than the secrets' `get`, the clock and
  -- the exchange do. Where the exchange gives no refresh token, the end of an admission has done no more
  -- either: the stored token stays.
  pub callback-Verdict :
      (query : Query) (w : W)
      → Verdict c jwt outside settings f query w
          (callback c jwt outside settings query w).0
          (callback c jwt outside settings query w).1
  unfolding callback ◌>>=◌
  callback-Verdict query w =
      elim (bind-cases (gate c jwt outside settings query) (conclude c jwt outside settings) w) [
        | inl (e, v, p, q) ↦ settled query w q (failed (reached query w p))
        | inr (a, v, p, q) ↦ go a v p q
      ]
    where
      go :
          (a : Step Admitted) (v : W)
          → gate c jwt outside settings query w ≡ (ok a, v)
          → callback c jwt outside settings query w ≡ conclude c jwt outside settings a v
          → Verdict c jwt outside settings f query w
              (callback c jwt outside settings query w).0
              (callback c jwt outside settings query w).1
      go (refuse kind) v p q = settled query w q (refused kind (reached query w p))
      go (next a) v p q = settled query w q (
          admitted (gate-eq_next c jwt outside settings query w p) (reached query w p) refl
            (λ none_given. f.chain (reached query w p) (conclude-keeps a v none_given)))
