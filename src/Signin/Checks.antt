-- ===== src/Signin/Checks.antt =====
-- What an admission of the callback went through: `gate`.
use mathlib.Core.Path.{subst}
use claim_automation_cloud.Prelude.{
  ℕ, ◌≡◌, refl, ap, ◌∙◌, Bool, true, false, Option, none, some, [], ◌∷◌, any,
}
use claim_automation_cloud.Text.{Text, codes, text_eq, text_eq_iff}
use claim_automation_cloud.Exec.{Result, ok, Exec, lift, ◌>>=◌}
use claim_automation_cloud.Exec.Inversion.{bind-eq_ok, pure-eq_ok, lift-eq_ok}
use claim_automation_cloud.Json.{Json, null, get_or}
use claim_automation_cloud.Config.{Settings, is_set}
use claim_automation_cloud.Security.{Codec, Jwt, verify_state}
use claim_automation_cloud.Secrets.{session_signing_key, require_secret}
use claim_automation_cloud.Signin.{
  google_issuers, IdClaims, Outside, Query, Step, next, refuse, follow, ◌>?>◌, login_failed,
  unauthorized, unless, wanted_if, Admitted, wanted, check_state, exchange, claims_or_refuse,
  identify, gate,
}

next-injective : {A : Type 0} {a b : A} → next a ≡ next b → a ≡ b
next-injective h = cc

refuse-ne_next : {A : Type 0} {kind : Text} {a : A} → refuse kind ≡ next a → ⊥
refuse-ne_next h = cc

pub lifted : {W A : Type 0} {r : Result A} {a : A} {v : W} → r ≡ ok a → lift r v ≡ (ok a, v)
unfolding ◌>>=◌
lifted {v = v} h = ap (λ x. (x, v)) h

module _ {W A B : Type 0} where
  -- What a step that went on went through.
  follow-eq_next :
      (m : Exec W (Step A)) (f : A → Exec W (Step B)) (w : W) {b : B} {w' : W}
      → (m >?> f) w ≡ (ok (next b), w')
      → (a : A) × (v : W) × (m w ≡ (ok (next a), v)) × (f a v ≡ (ok (next b), w'))
  unfolding ◌>?>◌
  follow-eq_next m f w {b = b} {w' = w'} h =
      let (s, v, p, q) = bind-eq_ok m (follow f) w h in go s v p q
    where
      go :
          (s : Step A) (v : W)
          → m w ≡ (ok s, v)
          → follow f s v ≡ (ok (next b), w')
          → (a : A) × (u : W) × (m w ≡ (ok (next a), u)) × (f a u ≡ (ok (next b), w'))
      go (next a) v p q = (a, v, p, q)
      go (refuse kind) v p q = absurd (refuse-ne_next (pure-eq_ok (refuse kind) v q).0)

unless-eq_next :
    {W : Type 0} (holds : Bool) (kind : Text) (w : W) {u : Unit {0}} {w' : W}
    → unless holds kind w ≡ (ok (next u), w')
    → holds ≡ true
unless-eq_next true kind w h = refl
unless-eq_next false kind w h = absurd (refuse-ne_next (pure-eq_ok (refuse kind) w h).0)

wanted_if-eq_next :
    (error : Bool) (code state : Option Text) {a : Text × Text}
    → wanted_if error code state ≡ next a
    → (error ≡ false) × (code ≡ some a.0) × (state ≡ some a.1)
wanted_if-eq_next true code state h = absurd (refuse-ne_next h)
wanted_if-eq_next false none state h = absurd (refuse-ne_next h)
wanted_if-eq_next false (some []) state h = absurd (refuse-ne_next h)
wanted_if-eq_next false (some (x ∷ code)) none h = absurd (refuse-ne_next h)
wanted_if-eq_next false (some (x ∷ code)) (some []) h = absurd (refuse-ne_next h)
wanted_if-eq_next false (some (x ∷ code)) (some (y ∷ state)) {a = a} h =
    let e = next-injective h in
    (refl, ap (λ (p : Text × Text). some p.0) e, ap (λ (p : Text × Text). some p.1) e)

module _ {W : Type 0} (c : Codec) (jwt : Jwt) (outside : Outside W) (settings : Settings) where
  -- What stands behind an admission: the query's code and state, a state that the signing key made, and
  -- an identity token of Google's, from the exchange of the code, that names the operator.
  pub record IsOperator (query : Query) (admitted : Admitted) : Type 0 where
    pub code : Text
    pub state : Text
    pub no_error : is_set query.error ≡ false
    pub asked_code : query.code ≡ some code
    pub asked_state : query.state ≡ some state
    pub signed :
        (u : W) × (v : W) × (require_secret outside.store session_signing_key u
          ≡ (ok admitted.signing_key, v))
    pub fresh : (now : ℕ) × (verify_state c state admitted.signing_key now ≡ ok true)
    pub exchanged :
        (u : W) × (v : W) × (exchange c jwt outside settings code u
          ≡ (ok (next admitted.payload), v))
    pub id_token : Json
    pub claims : IdClaims
    pub carried : get_or (codes "id_token") null admitted.payload ≡ ok id_token
    pub decoded :
        (now : ℕ) × (outside.decode_id_token id_token settings.google_client_id now ≡ some claims)
    pub from_google : any (text_eq claims.iss) google_issuers ≡ true
    pub named : admitted.email ≡ claims.email
    pub operator : admitted.email ≡ settings.operator_email

  identify-eq_next :
      (payload : Json) (w : W) {claims : IdClaims} {w' : W}
      → identify c jwt outside settings payload w ≡ (ok (next claims), w')
      → (id_token : Json) × (get_or (codes "id_token") null payload ≡ ok id_token)
        × ((now : ℕ) × (outside.decode_id_token id_token settings.google_client_id now
              ≡ some claims))
  unfolding identify
  identify-eq_next payload w {claims = claims} {w' = w'} h =
      let (id_token, v, p, k) = bind-eq_ok _ _ w h in
      let (u, v', p', k') = follow-eq_next _ _ v k in
      let (now, v2, p2, k2) = bind-eq_ok outside.time _ v' k' in
      (
        id_token,
        (lift-eq_ok _ w p).0,
        (now, decoded (outside.decode_id_token id_token settings.google_client_id now) v2 k2),
      )
    where
      decoded :
          (o : Option IdClaims) (v : W)
          → claims_or_refuse c jwt outside settings o v ≡ (ok (next claims), w')
          → o ≡ some claims
      decoded none v k = absurd (refuse-ne_next (pure-eq_ok _ v k).0)
      decoded (some x) v k = ap some (next-injective (pure-eq_ok (next x) v k).0)

  check_state-eq_next :
      (state key : Text) (w : W) {u : Unit {0}} {w' : W}
      → check_state c jwt outside settings state key w ≡ (ok (next u), w')
      → (now : ℕ) × (verify_state c state key now ≡ ok true)
  check_state-eq_next state key w h =
      let (now, v, p, k) = bind-eq_ok outside.time _ w h in
      let (accepted, v', p', k') = bind-eq_ok (lift (verify_state c state key now)) _ v k in
      (now, (lift-eq_ok _ v p').0 ∙ ap ok (unless-eq_next accepted login_failed v' k'))

  pub gate-eq_next :
      (query : Query) (w : W) {a : Admitted} {w' : W}
      → gate c jwt outside settings query w ≡ (ok (next a), w')
      → IsOperator query a
  unfolding gate
  gate-eq_next query w {a = a} h =
      let (asked, w1, p1, k1) = follow-eq_next _ _ w h in
      let (key, w2, p2, k2) =
        bind-eq_ok (require_secret outside.store session_signing_key) _ w1 k1 in
      let (u3, w3, p3, k3) = follow-eq_next _ _ w2 k2 in
      let (payload, w4, p4, k4) =
        follow-eq_next (exchange c jwt outside settings asked.0) _ w3 k3 in
      let (claims, w5, p5, k5) = follow-eq_next (identify c jwt outside settings payload) _ w4 k4 in
      let (u6, w6, p6, k6) = follow-eq_next _ _ w5 k5 in
      let (u7, w7, p7, k7) = follow-eq_next _ _ w6 k6 in
      let same = next-injective (pure-eq_ok _ w7 k7).0 in
      let (no_error, asked_code, asked_state) =
        wanted_if-eq_next (is_set query.error) query.code query.state
          (pure-eq_ok (wanted query) w p1).0 in
      let (id_token, carried, decoded) = identify-eq_next payload w4 p5 in
      subst (IsOperator query) same (record {
        code = asked.0;
        state = asked.1;
        no_error = no_error;
        asked_code = asked_code;
        asked_state = asked_state;
        signed = (w1, w2, p2);
        fresh = check_state-eq_next asked.1 key w2 p3;
        exchanged = (w3, w4, p4);
        id_token = id_token;
        claims = claims;
        carried = carried;
        decoded = decoded;
        from_google = unless-eq_next (any (text_eq claims.iss) google_issuers) login_failed w5 p6;
        named = refl;
        operator =
            (text_eq_iff claims.email settings.operator_email).0
              (unless-eq_next (text_eq claims.email settings.operator_email) unauthorized w6 p7);
      })
