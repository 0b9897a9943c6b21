-- ===== src/Security/State.antt =====
-- The round trip of the CSRF state: `make_state` and `verify_state`.
use Prim.Native.Nat.{◌/◌}
use claim_automation_cloud.Prelude.{
  ℕ, ◌+◌, ◌*◌, ◌≡◌, refl, ap, ◌∙◌, Bool, true, false, ◌&&◌, some, List, [], ◌∷◌, ◌++◌, ◌==◌, leb,
  any, inl, inr, Bool-cases, arith,
}
use claim_automation_cloud.Text.{Text, text_eq, text_eq_iff, text_eq_refl, split_on}
use claim_automation_cloud.Exec.{Result, ok}
use claim_automation_cloud.Security.{
  Codec, state_mac, make_state, verify_parts, verify_state, second, state_ttl_seconds,
}

abbrev pub has_dot : Text → Bool
has_dot s = any (λ c. c == b'.') s

split_on-last : (s : Text) → has_dot s ≡ false → split_on b'.' s ≡ s ∷ []
unfolding split_on
split_on-last [] h = refl
split_on-last (c ∷ s) h = ground (arith, split_on-last s)

split_on-first :
    (s rest : Text)
    → has_dot s ≡ false
    → split_on b'.' (s ++ (b'.' ∷ rest)) ≡ s ∷ split_on b'.' rest
unfolding split_on
split_on-first [] rest h = refl
split_on-first (c ∷ s) rest h = ground (arith, split_on-first s rest)

refused : ◌≡◌ {A = Result Bool} (ok false) (ok true) → ⊥
refused h = cc

module _ (c : Codec) where
  split_state :
      (key nonce : Text) (now : ℕ)
      → has_dot nonce ≡ false
      → has_dot (c.str (now / second)) ≡ false
      → has_dot (state_mac c key nonce (c.str (now / second))) ≡ false
      → split_on b'.' (make_state c key nonce now)
        ≡ nonce ∷ c.str (now / second) ∷ state_mac c key nonce (c.str (now / second)) ∷ []
  unfolding make_state
  split_state key nonce now hn ht hm =
      split_on-first nonce _ hn
      ∙ ap (λ (l : List Text). nonce ∷ l)
          (split_on-first (c.str (now / second)) _ ht
            ∙ ap (λ (l : List Text). c.str (now / second) ∷ l) (split_on-last _ hm))

  -- A state is accepted with the key that made it from the second of its making, rounded down, to ten
  -- minutes after that, and at no other time; nonce, timestamp and MAC are taken to hold no dot, and
  -- the timestamp to be read as it was printed.
  pub verify_state-make_state :
      (key nonce : Text) (now later : ℕ)
      → has_dot nonce ≡ false
      → has_dot (c.str (now / second)) ≡ false
      → has_dot (state_mac c key nonce (c.str (now / second))) ≡ false
      → c.int (c.str (now / second)) ≡ some (now / second)
      → let made = now / second * second in
        verify_state c (make_state c key nonce now) key later
        ≡ ok (leb made later && leb later (made + state_ttl_seconds * second))
  unfolding verify_state
  verify_state-make_state key nonce now later hn ht hm hi = rw (
    split_state key nonce now hn ht hm,
    text_eq_refl (state_mac c key nonce (c.str (now / second))),
    hi,
  )

  parts_sound :
      (key : Text) (now : ℕ) (parts : List Text)
      → verify_parts c key now parts ≡ ok true
      → (nonce : Text) × (timestamp : Text) × (parts
          ≡ nonce ∷ timestamp ∷ state_mac c key nonce timestamp ∷ [])
  parts_sound key now (nonce ∷ timestamp ∷ mac ∷ []) h =
      elim (Bool-cases (text_eq mac (state_mac c key nonce timestamp))) [
        | inl same ↦ (
          nonce,
          timestamp,
          ap (λ (m : Text). nonce ∷ timestamp ∷ m ∷ []) ((text_eq_iff mac _).0 same),
        )
        | inr other ↦ absurd (refused (rw other at h))
      ]
  parts_sound key now [] h = absurd (refused h)
  parts_sound key now (a ∷ []) h = absurd (refused h)
  parts_sound key now (a ∷ b ∷ []) h = absurd (refused h)
  parts_sound key now (a ∷ b ∷ d ∷ e ∷ rest) h = absurd (refused h)

  -- An accepted state, whoever made it, has three parts, and the third is the MAC of the other two
  -- under the key.
  pub verify_state_sound :
      (key state : Text) (now : ℕ)
      → verify_state c state key now ≡ ok true
      → (nonce : Text) × (timestamp : Text) × (split_on b'.' state
          ≡ nonce ∷ timestamp ∷ state_mac c key nonce timestamp ∷ [])
  unfolding verify_state
  verify_state_sound key state now h = parts_sound key now (split_on b'.' state) h
