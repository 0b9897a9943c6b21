-- ===== src/Trello/Retry.antt =====
-- The bounded retry of `_request`, over a connection that records its requests and its pauses.
use mathlib.Core.Path.{subst}
use claim_automation_cloud.Prelude.{
  ℕ, zero, suc, ◌≤◌, ◌≡◌, refl, sym, ap, ◌∙◌, Bool, true, false, if◌then◌else◌, Option, List, ◌∷◌,
  ◌==◌, arith, inl, inr, Bool-cases,
}
use claim_automation_cloud.Text.{Text}
use claim_automation_cloud.Exec.{Result, ok, err, Exec, pure, ◌>>=◌}
use claim_automation_cloud.Exec.Inversion.{bind-cases}
use claim_automation_cloud.Trello.{Request, Response, Http, attempt, retry_backoff}

pub data Step : Type 0 where
  sent : Request → Step
  slept : ℕ → Step

abbrev pub Log : Type 0
Log = List Step

module _ (answer : Log → Option Text → Request → Result Response)
    (raise_for_status : Response → Result (Unit {0})) where
  -- The connection answers by what it has seen; a pause always ends.
  abbrev pub recorded : Http Log
  recorded = record {
    request = λ auth r log. (answer log auth r, sent r ∷ log);
    sleep = λ n log. (ok tt, slept n ∷ log);
    raise_for_status = raise_for_status;
  }

  -- The request sent once, and `n` times more, each time after a pause.
  abbrev pub rounds : ℕ → Request → Log → Log
  rounds zero r log = sent r ∷ log
  rounds (suc n) r log = rounds n r (slept retry_backoff ∷ sent r ∷ log)

  -- The `n` first answers were all 429.
  abbrev pub Limited : ℕ → Option Text → Request → Log → Type 0
  Limited zero auth r log = Unit
  Limited (suc n) auth r log =
      (response : Response) × (answer log auth r ≡ ok response)
      × ((response.status == 429) ≡ true)
      × Limited n auth r (slept retry_backoff ∷ sent r ∷ log)

  -- A response is final: it is not a 429, or no try was left.
  abbrev is_final : ℕ → ℕ → Result Response → Bool
  is_final n k (err e) = true
  is_final n k (ok response) = if response.status == 429 then n == k else true

  abbrev pub Sending : ℕ → Option Text → Request → Log → Result Response × Log → Type 0
  Sending k auth r log out =
      (n : ℕ) × (n ≤ k)
      × Limited n auth r log
      × (out.1 ≡ rounds n r log)
      × (is_final n k out.0 ≡ true)

  abbrev after_answer : ℕ → Option Text → Request → Response → Exec Log Response
  after_answer k auth r response =
      if response.status == 429
      then (recorded.sleep retry_backoff >>= λ _. attempt recorded k auth r)
      else pure response

  is_final-last : (response : Response) → is_final 0 0 (ok response) ≡ true
  is_final-last response = elim (Bool-cases (response.status == 429)) [
    | inl limited ↦ rw limited
    | inr fine ↦ rw fine
  ]

  final_at_once :
      (k : ℕ) (auth : Option Text) (r : Request) (log : Log) (res : Result Response)
      → is_final 0 k res ≡ true
      → Sending k auth r log (res, sent r ∷ log)
  final_at_once k auth r log res h = (0, omega arith, tt, refl, h)

  last_try :
      (auth : Option Text) (r : Request) (log : Log) (res : Result Response)
      → Sending 0 auth r log (res, sent r ∷ log)
  last_try auth r log (ok response) =
      final_at_once 0 auth r log (ok response) (is_final-last response)
  last_try auth r log (err e) = final_at_once 0 auth r log (err e) refl

  final_suc :
      (n k : ℕ) (res : Result Response)
      → is_final n k res ≡ true
      → is_final (suc n) (suc k) res ≡ true
  final_suc n k (err e) h = refl
  final_suc n k (ok response) h = ground arith

  one_more :
      (k : ℕ) (auth : Option Text) (r : Request) (log : Log) (response : Response)
      (out : Result Response × Log)
      → answer log auth r ≡ ok response
      → (response.status == 429) ≡ true
      → Sending k auth r (slept retry_backoff ∷ sent r ∷ log) out
      → Sending (suc k) auth r log out
  one_more k auth r log response out p limited rest =
      let (n, le, all, steps, fin) = rest in
      (suc n, omega (arith, le), (response, p, limited, all), steps, final_suc n k out.0 fin)

  after_limited :
      (k : ℕ) (auth : Option Text) (r : Request) (response : Response) (log : Log)
      → (response.status == 429) ≡ true
      → after_answer k auth r response log ≡ attempt recorded k auth r (slept retry_backoff ∷ log)
  unfolding ◌>>=◌
  after_limited k auth r response log h = rw h

  after_fine :
      (k : ℕ) (auth : Option Text) (r : Request) (response : Response) (log : Log)
      → (response.status == 429) ≡ false
      → after_answer k auth r response log ≡ (ok response, log)
  unfolding ◌>>=◌
  after_fine k auth r response log h = rw h

  fine-is_final :
      (k : ℕ) (response : Response)
      → (response.status == 429) ≡ false
      → is_final 0 k (ok response) ≡ true
  fine-is_final k response h = rw h

  answered :
      (auth : Option Text) (r : Request) (log v : Log) (res : Result Response)
      → recorded.request auth r log ≡ (res, v)
      → (answer log auth r ≡ res) × (sent r ∷ log ≡ v)
  answered auth r log v res p =
      (ap (λ (x : Result Response × Log). x.0) p, ap (λ (x : Result Response × Log). x.1) p)

  -- With `k` retries left, a call sends its request at most `k + 1` times, with a pause before each
  -- repetition and nothing else; it repeats only after a 429, and what it ends with is an exception,
  -- an answer other than 429, or the answer of the last try.
  pub attempt-Sending :
      (k : ℕ) (auth : Option Text) (r : Request) (log : Log)
      → Sending k auth r log (attempt recorded k auth r log)
  unfolding attempt
  attempt-Sending zero auth r log = last_try auth r log (answer log auth r)
  attempt-Sending (suc k) auth r log =
      elim (bind-cases (recorded.request auth r) (after_answer k auth r) log) [
        | inl (e, v, p, q) ↦
            let (pa, pv) = answered auth r log v (err e) p in
            subst (Sending (suc k) auth r log) (sym q) (
              subst (λ w. Sending (suc k) auth r log (err e, w)) pv
                (final_at_once (suc k) auth r log (err e) refl))
        | inr (response, v, p, q) ↦ elim (Bool-cases (response.status == 429)) [
          | inl limited ↦
              let (pa, pv) = answered auth r log v (ok response) p in
              subst (Sending (suc k) auth r log)
                (sym (after_limited k auth r response (sent r ∷ log) limited)
                  ∙ (ap (after_answer k auth r response) pv ∙ sym q))
                (one_more k auth r log response
                  (attempt recorded k auth r (slept retry_backoff ∷ sent r ∷ log)) pa limited
                  (attempt-Sending k auth r (slept retry_backoff ∷ sent r ∷ log)))
          | inr fine ↦
              let (pa, pv) = answered auth r log v (ok response) p in
              subst (Sending (suc k) auth r log)
                (sym (after_fine k auth r response (sent r ∷ log) fine)
                  ∙ (ap (after_answer k auth r response) pv ∙ sym q))
                (final_at_once (suc k) auth r log (ok response)
                  (fine-is_final (suc k) response fine))
        ]
      ]
