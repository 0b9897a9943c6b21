-- ===== src/Mailbox/Run/Fetch.antt =====
-- What the fetch loop of `process_mailbox` has fetched.
use claim_automation_cloud.Prelude.{
  ℕ, ◌<◌, ◌≤◌, ◌≡◌, refl, ◌⊎◌, inl, inr, false, List, [], ◌∷◌, ltb, Bool-cases, arith,
}
use claim_automation_cloud.Text.{Text}
use claim_automation_cloud.Exec.{Error, Result, ok, err, ◌>>=◌}
use claim_automation_cloud.Claim.Message.{Message}
use claim_automation_cloud.Mailbox.Run.{fetch}
use claim_automation_cloud.Mailbox.Trace.{Call, Log, Services, gmail, clock}

module _ (sv : Services) (deadline : ℕ) where
  -- The messages that the service gives for the ids, in their order, up to the first id that the
  -- deadline has passed for; with the calls before and after.
  pub data Fetched : Log → List Text → List Message → Log → Type 0 where
    all_fetched : (log : Log) → Fetched log [] [] log
    too_late :
        (log : Log) (id : Text) (ids : List Text)
        → deadline < sv.monotonic log
        → Fetched log (id ∷ ids) [] (Call.monotonic ∷ log)
    got :
        {log log' : Log} {id : Text} {ids : List Text} {ms : List Message} (m : Message)
        → sv.monotonic log ≤ deadline
        → sv.get_message (Call.monotonic ∷ log) id ≡ ok m
        → Fetched (Call.get_message id ∷ Call.monotonic ∷ log) ids ms log'
        → Fetched log (id ∷ ids) (m ∷ ms) log'

  -- The error with which a message could not be fetched.
  pub data Unfetched : Log → List Text → Error → Type 0 where
    refused :
        {log : Log} {id : Text} {ids : List Text} {e : Error}
        → sv.monotonic log ≤ deadline
        → sv.get_message (Call.monotonic ∷ log) id ≡ err e
        → Unfetched log (id ∷ ids) e
    later :
        {log : Log} {id : Text} {ids : List Text} {e : Error} (m : Message)
        → sv.monotonic log ≤ deadline
        → sv.get_message (Call.monotonic ∷ log) id ≡ ok m
        → Unfetched (Call.get_message id ∷ Call.monotonic ∷ log) ids e
        → Unfetched log (id ∷ ids) e

  abbrev pub fetching : List Text → Log → Result (List Message) × Log
  fetching = fetch (clock sv) (gmail sv) deadline

  -- How the fetch loop ends.
  abbrev pub FetchEnds : List Text → Log → Type 0
  FetchEnds ids log =
      ((ms : List Message) × (v : Log) × Fetched log ids ms v × (fetching ids log ≡ (ok ms, v)))
      ⊎ ((e : Error) × (v : Log) × Unfetched log ids e × (fetching ids log ≡ (err e, v)))

  fetch_next :
      (id : Text) (ids : List Text) (log : Log)
      → ltb deadline (sv.monotonic log) ≡ false
      → (r : Result Message) → sv.get_message (Call.monotonic ∷ log) id ≡ r
      → FetchEnds ids (Call.get_message id ∷ Call.monotonic ∷ log)
      → FetchEnds (id ∷ ids) log
  unfolding fetch ◌>>=◌
  fetch_next id ids log early (err e) p rest =
      inr (e, Call.get_message id ∷ Call.monotonic ∷ log, refused (ground arith) p, rw (early, p))
  fetch_next id ids log early (ok m) p (inl (ms, v, f, q)) =
      inl (m ∷ ms, v, got m (ground arith) p f, rw (early, p, q))
  fetch_next id ids log early (ok m) p (inr (e, v, f, q)) =
      inr (e, v, later m (ground arith) p f, rw (early, p, q))

  pub fetch-FetchEnds : (ids : List Text) (log : Log) → FetchEnds ids log
  unfolding fetch ◌>>=◌
  fetch-FetchEnds [] log = inl ([], log, all_fetched log, refl)
  fetch-FetchEnds (id ∷ ids) log = elim (Bool-cases (ltb deadline (sv.monotonic log))) [
    | inl late ↦ inl ([], Call.monotonic ∷ log, too_late log id ids (ground arith), rw late)
    | inr early ↦
        fetch_next id ids log early (sv.get_message (Call.monotonic ∷ log) id) refl
          (fetch-FetchEnds ids (Call.get_message id ∷ Call.monotonic ∷ log))
  ]
