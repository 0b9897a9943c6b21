-- ===== src/Digest/Normalize/Http.antt =====
-- What the key of a failed HTTP call forgets: `_HTTP_BODY_RE` of `normalize_message`.
use claim_automation_cloud.Prelude.{
  ℕ, ◌-◌, ◌≡◌, refl, ap, Bool, true, false, some, [], ◌∷◌, ◌++◌, append_assoc, all, length, take,
  length-append, arith,
}
use claim_automation_cloud.Text.{Text, codes, nonempty, span, Runtime}
use claim_automation_cloud.Text.Regex.{some_of, skip_while}
use claim_automation_cloud.Digest.Normalize.{
  not_space, ends_in_colon, http_head, has_body, http_group, sub_http, normalize_message,
}

skip_while-append :
    (p : ℕ → Bool) (w : Text) (c : ℕ) (s : Text)
    → all p w ≡ true
    → p c ≡ false
    → skip_while p (w ++ (c ∷ s)) ≡ c ∷ s
unfolding skip_while
skip_while-append p [] c s h e = rw e
skip_while-append p (x ∷ w) c s h e = ground (arith, skip_while-append p w c s)

some_of-append :
    (p : ℕ → Bool) (w : Text) (c : ℕ) (s : Text)
    → nonempty w ≡ true
    → all p w ≡ true
    → p c ≡ false
    → some_of p (w ++ (c ∷ s)) ≡ some (c ∷ s)
some_of-append p [] c s n h e = cc
some_of-append p (x ∷ w) c s n h e = ground (arith, skip_while-append p w c s)

span-append :
    (p : ℕ → Bool) (w : Text) (c : ℕ) (s : Text)
    → all p w ≡ true
    → p c ≡ false
    → span p (w ++ (c ∷ s)) ≡ (w, c ∷ s)
unfolding span
span-append p [] c s h e = rw e
span-append p (x ∷ w) c s h e = ground (arith, span-append p w c s)

take-append : (a b : Text) → take (length (a ++ b) - length b) (a ++ b) ≡ a
take-append a b =
    let e : length (a ++ b) - length b ≡ length a = omega (arith, length-append {0} a b) in
    rw e (go a b)
  where
    go : (a b : Text) → take (length a) (a ++ b) ≡ a
    go [] b = refl
    go (x ∷ a) b = ap (λ (t : Text). x ∷ t) (go a b)

ends_in_colon-append : (c : ℕ) (w : Text) → ends_in_colon (c ∷ (w ++ codes ":")) ≡ true
unfolding ends_in_colon
ends_in_colon-append c [] = refl
ends_in_colon-append c (d ∷ []) = refl
ends_in_colon-append c (d ∷ e ∷ w) = ends_in_colon-append d (e ∷ w)

module _ (py : Runtime) (is_word : ℕ → Bool) (word_space : is_word b' ' ≡ false)
    (digit_space : py.is_digit b' ' ≡ false) (colon_stays : py.is_space b':' ≡ false) where
  abbrev head : Text → Text → Text
  head code verb = codes "HTTP " ++ (code ++ (codes " from " ++ (verb ++ codes " ")))

  -- The log line of a failed call: status, method, address and the answer's body.
  abbrev pub http_line : Text → Text → Text → ℕ → Text → Text
  http_line code verb url space body = head code verb ++ ((url ++ codes ":") ++ (space ∷ body))

  http_head-append :
      (code verb rest : Text)
      → nonempty code ≡ true
      → all py.is_digit code ≡ true
      → nonempty verb ≡ true
      → all is_word verb ≡ true
      → http_head py is_word
          (codes "HTTP " ++ (code ++ (codes " from " ++ (verb ++ (codes " " ++ rest)))))
        ≡ some rest
  unfolding http_head
  http_head-append code verb rest nc ac nv av = rw (
    some_of-append py.is_digit code b' ' (codes "from " ++ (verb ++ (codes " " ++ rest))) nc ac
        digit_space,
    some_of-append is_word verb b' ' rest nv av word_space,
  )

  all-append_colon :
      (w : Text)
      → all (not_space py is_word) w ≡ true
      → all (not_space py is_word) (w ++ codes ":") ≡ true
  all-append_colon [] h = rw colon_stays
  all-append_colon (x ∷ w) h = ground (arith, all-append_colon w)

  line_assoc :
      (code verb rest : Text)
      → head code verb ++ rest
        ≡ codes "HTTP " ++ (code ++ (codes " from " ++ (verb ++ (codes " " ++ rest))))
  line_assoc code verb rest = simp append_assoc

  http_group_lem :
      (s g rest : Text)
      → s ≡ g ++ rest
      → http_head py is_word s ≡ some rest
      → has_body py is_word (span (not_space py is_word) rest) ≡ true
      → http_group py is_word s ≡ some g
  unfolding http_group
  http_group_lem s g rest e h b = rw (h, b, e, take-append g rest)

  sub_http-group :
      (c : ℕ) (s g : Text)
      → http_group py is_word (c ∷ s) ≡ some g
      → sub_http py is_word (c ∷ s) ≡ g ++ codes "<url>: <body>"
  unfolding sub_http
  sub_http-group c s g h = rw (h, sub_http)

  sub_http-line :
      (code verb : Text) (c : ℕ) (url : Text) (space : ℕ) (body : Text)
      → nonempty code ≡ true
      → all py.is_digit code ≡ true
      → nonempty verb ≡ true
      → all is_word verb ≡ true
      → all (not_space py is_word) (c ∷ url) ≡ true
      → py.is_space space ≡ true
      → sub_http py is_word (http_line code verb (c ∷ url) space body)
        ≡ head code verb ++ codes "<url>: <body>"
  sub_http-line code verb c url space body nc ac nv av au sp =
      let rest = ((c ∷ url) ++ codes ":") ++ (space ∷ body) in
      sub_http-group b'H' _ (head code verb) (
        http_group_lem (http_line code verb (c ∷ url) space body) (head code verb) rest refl
          (rw (line_assoc code verb rest) (http_head-append code verb rest nc ac nv av))
          (rw (
            span-append (not_space py is_word) ((c ∷ url) ++ codes ":") space body
                (all-append_colon (c ∷ url) au) (rw sp),
            ends_in_colon-append c url,
          )))

  -- Two failed calls with the same status and method have the same key, whatever the addresses and the
  -- answers' bodies: the addresses hold no white space, and the bodies may hold anything.
  pub normalize_message-http :
      (code verb : Text) (c : ℕ) (url body : Text) (c' : ℕ) (url' body' : Text)
      → nonempty code ≡ true
      → all py.is_digit code ≡ true
      → nonempty verb ≡ true
      → all is_word verb ≡ true
      → all (not_space py is_word) (c ∷ url) ≡ true
      → all (not_space py is_word) (c' ∷ url') ≡ true
      → py.is_space b' ' ≡ true
      → normalize_message py is_word (http_line code verb (c ∷ url) b' ' body)
        ≡ normalize_message py is_word (http_line code verb (c' ∷ url') b' ' body')
  unfolding normalize_message
  normalize_message-http code verb c url body c' url' body' nc ac nv av au au' sp = rw (
    sub_http-line code verb c url b' ' body nc ac nv av au sp,
    sub_http-line code verb c' url' b' ' body' nc ac nv av au' sp,
  )
