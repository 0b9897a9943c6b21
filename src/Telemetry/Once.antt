-- ===== src/Telemetry/Once.antt =====
-- How often telemetry is installed: `setup_telemetry`.
use mathlib.Core.Path.{subst}
use claim_automation_cloud.Prelude.{
  ℕ, suc, ◌≡◌, refl, sym, ap, ◌∙◌, inl, inr, Bool, true, false, Option, none, some, List, [], ◌∷◌,
  if◌then◌else◌, All,
}
use claim_automation_cloud.Text.{Text}
use claim_automation_cloud.Exec.{Result, ok, err, Exec, pure, ◌>>=◌, try_except}
use claim_automation_cloud.Exec.Effect.{Effect, Within, Within-bind, Within-pure}
use claim_automation_cloud.Exec.Inversion.{ok-injective, bind-cases}
use claim_automation_cloud.Telemetry.{
  recorded, Event, handler_added, Log, fresh_process, Process, Call, perform, perform_all,
  set_providers, set_installed, wiring, install, install_or_not, from_environment, if_absent,
  setup_telemetry, after_setups,
}

abbrev is_handler : Event → Bool
is_handler handler_added = true
is_handler e = false

-- How many handlers were added to the root logger.
abbrev pub handlers : Log → ℕ
handlers [] = 0
handlers (e ∷ log) = let rest = handlers log in if is_handler e then suc rest else rest

-- Telemetry that is not installed has no handler, and telemetry that is has one.
abbrev pub IsConsistent : Process → Type 0
IsConsistent p = handlers p.log ≡ (if p.installed then 1 else 0)

-- What leaves the flag and the handlers as they are.
abbrev no_handler : Effect Process
no_handler = record {
  rel = λ p q. (q.installed ≡ p.installed) × (handlers q.log ≡ handlers p.log);
  still = λ p. (refl, refl);
  chain = λ a b. (b.0 ∙ a.0, b.1 ∙ a.1);
}

module _ (attempt : Log → Event → Result (Unit {0})) where
  perform-Within : (e : Event) → is_handler e ≡ false → Within no_handler (perform attempt e)
  unfolding perform
  perform-Within e h = record { bound = λ p. go p (attempt p.log e) }
    where
      go : (p : Process) (r : Result (Unit {0})) → no_handler.rel p (recorded attempt r e p).1
      go p (ok u) = (refl, rw h refl)
      go p (err x) = (refl, refl)

  perform_all-Within :
      (es : List Event)
      → All (λ e. is_handler e ≡ false) es
      → Within no_handler (perform_all attempt es)
  unfolding perform_all
  perform_all-Within [] h = Within-pure tt
  perform_all-Within (e ∷ es) (h, hs) =
      Within-bind _ _ (perform-Within e h) (λ _. perform_all-Within es hs)

  -- What `_install` leaves: on an error the flag and the handlers as they were, else one handler more.
  abbrev Outcome : Process → Result (Unit {0}) → Process → Type 0
  Outcome p (err e) q = no_handler.rel p q
  Outcome p (ok u) q = (q.installed ≡ p.installed) × (handlers q.log ≡ suc (handlers p.log))

  abbrev Ends : Process → Result (Unit {0}) × Process → Type 0
  Ends p x = Outcome p x.0 x.1

  abbrev last_steps : Exec Process (Unit {0})
  last_steps = perform attempt handler_added >>= λ _. set_providers attempt

  last_steps-Ends : (p : Process) → Ends p (last_steps p)
  unfolding perform ◌>>=◌
  last_steps-Ends p = go (attempt p.log handler_added)
    where
      go :
          (r : Result (Unit {0}))
          → Ends p (((λ q. recorded attempt r handler_added q) >>= λ _. set_providers attempt) p)
      go (ok u) = (refl, refl)
      go (err x) = (refl, refl)

  later :
      (p v : Process) (r : Result (Unit {0})) (q : Process)
      → no_handler.rel p v
      → Outcome v r q
      → Outcome p r q
  later p v (ok u) q (a, b) (c, d) = (c ∙ a, d ∙ ap (λ (n : ℕ). suc n) b)
  later p v (err e) q (a, b) (c, d) = (c ∙ a, d ∙ b)

  install-Ends : (conn : Option Text) (p : Process) → Ends p (install attempt conn p)
  unfolding install
  install-Ends conn p =
      let wired =
        (perform_all-Within (wiring attempt conn) (refl, (refl, (refl, (refl, (refl, tt)))))).bound
          p in
      elim (bind-cases (perform_all attempt (wiring attempt conn)) (λ _. last_steps) p) [
        | inl (e, v, h, q) ↦
            subst (Ends p) (sym q)
              (subst (λ (x : Result (Unit {0}) × Process). no_handler.rel p x.1) h wired)
        | inr (a, v, h, q) ↦ subst (Ends p) (sym q) (
            later p v (last_steps v).0 (last_steps v).1
              (subst (λ (x : Result (Unit {0}) × Process). no_handler.rel p x.1) h wired)
              (last_steps-Ends v))
      ]

  -- What the `try` leaves, as its answer says.
  abbrev Settled : Result Bool × Process → Type 0
  Settled x = (x.0 ≡ ok x.1.installed) × IsConsistent x.1

  install_or_not-Settled :
      (conn : Option Text) (p : Process)
      → p.installed ≡ false
      → IsConsistent p
      → Settled (install_or_not attempt conn p)
  unfolding install_or_not try_except ◌>>=◌
  install_or_not-Settled conn p off consistent =
      go (install attempt conn p).0 (install attempt conn p).1 (install-Ends conn p)
    where
      none_yet : handlers p.log ≡ 0
      none_yet = rw off at consistent

      go :
          (r : Result (Unit {0})) (q : Process)
          → Outcome p r q
          → Settled (try_except ((λ _. (r, q)) >>= λ _. set_installed attempt) (λ e. pure false) p)
      go (ok u) q (a, b) = (refl, b ∙ ap (λ (n : ℕ). suc n) none_yet)
      go (err e) q (a, b) = (rw (a, off) refl, rw (a, off) (b ∙ none_yet))

  -- What one call leaves: it raises and changes nothing, or its answer is whether telemetry is installed.
  abbrev Answers : Process → Result Bool × Process → Type 0
  Answers p (err e, q) = q ≡ p
  Answers p (ok b, q) = (b ≡ q.installed) × IsConsistent q

  answers_of : (p : Process) (x : Result Bool × Process) → Settled x → Answers p x
  answers_of p (ok b, q) (e, c) = (ok-injective e, c)
  answers_of p (err x, q) (e, c) = absurd (err-ne_ok e)
    where
      err-ne_ok : err x ≡ ok q.installed → ⊥
      err-ne_ok h = cc

  from_environment-Settled :
      (conn : Option Text) (p : Process)
      → p.installed ≡ false
      → IsConsistent p
      → Settled (from_environment attempt conn p)
  unfolding ◌>>=◌
  from_environment-Settled none p off c = (ap ok (sym off), c)
  from_environment-Settled (some []) p off c = (ap ok (sym off), c)
  from_environment-Settled (some (x ∷ s)) p off c = install_or_not-Settled (some (x ∷ s)) p off c

  setup_telemetry-Answers :
      (call : Call) (p : Process) → IsConsistent p → Answers p (setup_telemetry attempt call p)
  unfolding setup_telemetry ◌>>=◌
  setup_telemetry-Answers call p c = go call.span_exporter call.log_exporter p.installed refl
    where
      go :
          (span log b : Bool)
          → p.installed ≡ b
          → Answers p (
              if_absent attempt
                (record {
                  span_exporter = span;
                  log_exporter = log;
                  connection_string = call.connection_string;
                })
                b
                p)
      go span log true e = (sym e, c)
      go true true false e = answers_of p _ (install_or_not-Settled none p e c)
      go true false false e = refl
      go false true false e = refl
      go false false false e =
          answers_of p _ (from_environment-Settled call.connection_string p e c)

  after_setups-IsConsistent :
      (calls : List Call) (p : Process)
      → IsConsistent p
      → IsConsistent (after_setups attempt calls p)
  unfolding after_setups
  after_setups-IsConsistent [] p c = c
  after_setups-IsConsistent (call ∷ calls) p c =
      after_setups-IsConsistent calls (setup_telemetry attempt call p).1
        (kept (setup_telemetry attempt call p) (setup_telemetry-Answers call p c))
    where
      kept : (x : Result Bool × Process) → Answers p x → IsConsistent x.1
      kept (ok b, q) (e, k) = k
      kept (err e, q) h = subst IsConsistent (sym h) c

  -- However the calls before it went, and whichever step of whichever of them failed, a call that answers
  -- says whether telemetry is installed after it, and the root logger then has one handler if it is and
  -- none if it is not.
  pub setup_telemetry-answer :
      (calls : List Call) (call : Call) {b : Bool} {q : Process}
      → setup_telemetry attempt call (after_setups attempt calls fresh_process) ≡ (ok b, q)
      → (b ≡ q.installed) × (handlers q.log ≡ (if b then 1 else 0))
  setup_telemetry-answer calls call {b = b} {q = q} h =
      let p = after_setups attempt calls fresh_process in
      let (e, c) =
        subst (Answers p) h
          (setup_telemetry-Answers call p (after_setups-IsConsistent calls fresh_process refl)) in
      (e, rw e c)
