-- ===== src/Signin/Guard.antt =====
-- The guard of the protected routes: `require_operator` of backend/app/security.py.
use claim_automation_cloud.Prelude.{
  ℕ, ◌≡◌, ◌≢◌, refl, sym, ap, ◌∙◌, inl, inr, Bool, true, false, not, ◌||◌, Option, none, some, [],
  ◌∷◌, ◌++◌, ◌==◌, if◌then◌else◌, Bool-cases, arith,
}
use claim_automation_cloud.Text.{Text, codes, text_eq, text_eq_iff, nonempty, span, Runtime}
use claim_automation_cloud.Exec.{http_exception, ok, Exec, pure, raise, ◌>>=◌}
use claim_automation_cloud.Exec.Inversion.{bind-eq_ok, pure-eq_ok, raise-ne_ok}
use claim_automation_cloud.Security.{SessionClaims, email_of, Jwt, operator_of, verify_session_jwt}
use claim_automation_cloud.Secrets.{SecretStore, session_signing_key, require_secret}

-- `text.partition(" ")` without the separator.
abbrev pub behind_separator : Text × Text → Text × Text
behind_separator (head, []) = (head, [])
behind_separator (head, c ∷ tail) = (head, tail)

unfoldable pub partition_space : Text → Text × Text
unfolding span
partition_space s = behind_separator (span (λ c. not (c == b' ')) s)

abbrev header_or_empty : Option Text → Text
header_or_empty none = []
header_or_empty (some s) = s

email_of-eq_some :
    (operator_email : Text) (o : Option Text) {email : Text}
    → email_of operator_email o ≡ some email
    → (o ≡ some email) × (email ≡ operator_email) × (email ≢ [])
email_of-eq_some operator_email none h = cc
email_of-eq_some operator_email (some []) h = cc
email_of-eq_some operator_email (some (c ∷ s)) {email = email} h =
    elim (Bool-cases (text_eq (c ∷ s) operator_email)) [
      | inl same ↦
          let e : c ∷ s ≡ email = taken (rw same at h) in
          (ap some e, sym e ∙ (text_eq_iff (c ∷ s) operator_email).0 same, λ x. filled (e ∙ x))
      | inr other ↦ refused (rw other at h)
    ]
  where
    taken : some (c ∷ s) ≡ some email → c ∷ s ≡ email
    taken k = cc

    filled : c ∷ s ≡ [] → ⊥
    filled k = cc

    refused : {A : Type 0} → ◌≡◌ {A = Option Text} none (some email) → A
    refused k = cc

span_back : (p : ℕ → Bool) (s : Text) → (span p s).0 ++ (span p s).1 ≡ s
unfolding span
span_back p [] = refl
span_back p (c ∷ s) = elim (Bool-cases (p c)) [
  | inl on ↦ rw on (ap (λ (t : Text). c ∷ t) (span_back p s))
  | inr off ↦ rw off refl
]

span_stops : (p : ℕ → Bool) (s : Text) (c : ℕ) (rest : Text) → (span p s).1 ≡ c ∷ rest → p c ≡ false
unfolding span
span_stops p [] c rest h = cc
span_stops p (x ∷ s) c rest h = elim (Bool-cases (p x)) [
  | inl on ↦ span_stops p s c rest (rw on at h)
  | inr off ↦ same_head off (rw off at h)
]
  where
    same_head : {y : ℕ} → p y ≡ false → y ∷ s ≡ c ∷ rest → p c ≡ false
    same_head k e = cc

-- A part behind the separator stands in the text behind a space.
partition_space_back :
    (s : Text)
    → nonempty (partition_space s).1 ≡ true
    → s ≡ (partition_space s).0 ++ (b' ' ∷ (partition_space s).1)
unfolding partition_space
partition_space_back s h =
    go (span (λ c. not (c == b' ')) s).0 (span (λ c. not (c == b' ')) s).1 (span_back _ s)
      (λ c rest e. spaced c (span_stops _ s c rest e)) h
  where
    spaced : (c : ℕ) → not (c == b' ') ≡ false → c ≡ b' '
    spaced c e = ground arith

    go :
        (head tail : Text)
        → head ++ tail ≡ s
        → ((c : ℕ) (rest : Text) → tail ≡ c ∷ rest → c ≡ b' ')
        → nonempty (behind_separator (head, tail)).1 ≡ true
        → s ≡ (behind_separator (head, tail)).0 ++ (b' ' ∷ (behind_separator (head, tail)).1)
    go head [] e k h = cc
    go head (c ∷ rest) e k h = sym e ∙ ap (λ (x : ℕ). head ++ (x ∷ rest)) (k c rest refl)

module _ {W : Type 0} (py : Runtime) (jwt : Jwt) (store : SecretStore W) (time : Exec W ℕ)
    (operator_email : Text) where
  abbrev email_or_401 : Option Text → Exec W Text
  email_or_401 none = raise (http_exception 401 (codes "Not authenticated"))
  email_or_401 (some email) = pure email

  abbrev with_bearer : Text × Text → Exec W Text
  with_bearer (scheme, token) =
      if not (text_eq (py.lower scheme) (codes "bearer")) || not (nonempty token)
      then raise (http_exception 401 (codes "Not authenticated"))
      else require_secret store session_signing_key >>= λ key.
          time >>= λ now. email_or_401 (verify_session_jwt jwt token key operator_email now)

  -- `authorization` is the header.
  unfoldable pub require_operator : Option Text → Exec W Text
  unfolding partition_space verify_session_jwt
  require_operator authorization = with_bearer (partition_space (header_or_empty authorization))

  operator_of-eq_some :
      (o : Option SessionClaims) {email : Text}
      → operator_of jwt operator_email o ≡ some email
      → (claims : SessionClaims) × (o ≡ some claims)
        × (claims.email ≡ some email)
        × (email ≡ operator_email)
        × (email ≢ [])
  operator_of-eq_some none h = cc
  operator_of-eq_some (some claims) h =
      let (named, operator, whole) = email_of-eq_some operator_email claims.email h in
      (claims, refl, named, operator, whole)

  -- A request passes only with a header of two words, of which the first reads `bearer` in lower case and
  -- the second is a token that decodes under the signing key to claims that name the operator; what the
  -- guard returns is the operator's email, which is not empty.
  pub require_operator_sound :
      (authorization : Option Text) (w : W) {email : Text} {w' : W}
      → require_operator authorization w ≡ (ok email, w')
      → (scheme : Text) × (token : Text) × (key : Text) × (now : ℕ) × (claims : SessionClaims)
        × (authorization ≡ some (scheme ++ (b' ' ∷ token)))
        × (py.lower scheme ≡ codes "bearer")
        × ((u : W) × (v : W) × (require_secret store session_signing_key u ≡ (ok key, v)))
        × (jwt.decode token key now ≡ some claims)
        × (claims.email ≡ some email)
        × (email ≡ operator_email)
        × (email ≢ [])
  unfolding require_operator verify_session_jwt
  require_operator_sound none w h = elim (Bool-cases (text_eq (py.lower []) (codes "bearer"))) [
    | inl bearer ↦ absurd (raise-ne_ok _ w (rw bearer at h))
    | inr other ↦ absurd (raise-ne_ok _ w (rw other at h))
  ]
  require_operator_sound (some s) w {email = email} {w' = w'} h =
      elim (Bool-cases (text_eq (py.lower (partition_space s).0) (codes "bearer"))) [
        | inl bearer ↦ elim (Bool-cases (nonempty (partition_space s).1)) [
          | inl given ↦
              let (key, v, p, k) =
                bind-eq_ok (require_secret store session_signing_key) _ w
                  (rw (bearer, given) at h) in
              let (now, v', p', k') = bind-eq_ok time _ v k in
              let (claims, decoded, named, operator, whole) =
                operator_of-eq_some (jwt.decode (partition_space s).1 key now) (
                  answered
                    (operator_of jwt operator_email (jwt.decode (partition_space s).1 key now)) v'
                    k') in
              (
                (partition_space s).0,
                (partition_space s).1,
                key,
                now,
                claims,
                ap some (partition_space_back s given),
                (text_eq_iff (py.lower (partition_space s).0) (codes "bearer")).0 bearer,
                (w, v, p),
                decoded,
                named,
                operator,
                whole,
              )
          | inr blank ↦ absurd (raise-ne_ok _ w (rw (bearer, blank) at h))
        ]
        | inr other ↦ absurd (raise-ne_ok _ w (rw other at h))
      ]
    where
      answered : (o : Option Text) (v : W) → email_or_401 o v ≡ (ok email, w') → o ≡ some email
      answered none v k = absurd (raise-ne_ok _ v k)
      answered (some x) v k = ap some (pure-eq_ok x v k).0
