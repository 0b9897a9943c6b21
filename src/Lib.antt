-- ===== src/Lib.antt =====
-- A development about claim-automation-cloud, a Python service that reads an insurer's claim emails from
-- a mailbox, makes a Trello card with a letterhead PDF for each claim, comments on the cards that exist,
-- and keeps a ledger, a heartbeat and a run lease in Azure Table Storage.
--
-- Parts and files
-- - Exec: Python's exceptions and the outside world. An action takes a world and gives a result beside
--   the world after it, so that what was done before a raise stays done; Exec/Effect holds the rules on
--   what an action may do to the world, Exec/Inversion what an action that returned or raised went
--   through.
-- - Text, Text/Regex, Text/Search: `str` as code points, with the methods and the patterns in use. The
--   Unicode tables, base64, html.unescape and parseaddr are the record `Runtime`.
-- - Claim, Claim/Reference, Claim/Message, Claim/Html, Claim/Card: backend/pipeline/claim_data.py
--   (`ClaimType`, `parse_claim_ref`, `extract_subject`, `_decode_body`, `_html_to_plain`, the card's texts).
-- - Extraction: backend/pipeline/extraction.py (`RegexFieldExtractor`) and `ClaimData.from_msg_data`.
-- - Llm: backend/pipeline/llm_extraction.py (`build_user_message`, the validators, `classify_failure`,
--   `extract`). The agent's run is a parameter.
-- - Pdf: backend/pipeline/pdf_gen.py; PIL and reportlab are the record `Renderer`.
-- - Mailbox, Mailbox/Sender, Mailbox/Run: backend/pipeline/entry.py (`_process_one`, `process_mailbox`).
--   `process_one` is `admit_claim` and then `dispatch`, which posts a comment, skips, or goes on to
--   `create_card`. Mailbox/Trace is a world that records every call, newest first, whose answers are any
--   function of the calls so far. Mailbox/Run/Fetch says what the fetch loop fetches, Mailbox/Checkpoint what
--   the loop over the messages does to the labels, Mailbox/Labels what a whole run does.
-- - Gmail, Gmail/Requests: backend/pipeline/gmail_client.py; Gmail holds the preflight, the label cache and
--   the capped count over an interface that Gmail/Requests fills from httpx.
-- - Membretes: backend/pipeline/membrete_source.py.
-- - Trello, Trello/Lookup: backend/pipeline/trello_client.py; Trello/Sending and Trello/WholeCard are its
--   requests over a connection that records them; Json holds decoded bodies; httpx is the
--   record `Http`.
-- - Attachments: backend/app/attachments_routes.py; the zip is the list of its entries.
-- - Worker: backend/app/worker.py.
-- - Tables, Tables/Laws, Tables/Memory: the table service as an interface, what its documentation
--   promises as named laws, and an instance in memory that satisfies them.
-- - Mailbox/Compose: `run_pipeline`: the lease, the preflights, the run and the closings.
-- - Security: the tokens of backend/app/security.py; the MAC and JWT are parameters. Signin/Guard is its
--   `require_operator`.
-- - Signin: backend/app/auth_routes.py. `callback` is `gate`, the checks up to where the operator is
--   known, and then `conclude`, which stores the refresh token and mints the session; a `Step` is a value
--   or the `fail(kind)` that ends the request.
-- - Config, Config/Backends, Config/Startup: backend/core/config.py, the choice of the backends by the
--   settings, the start of backend/app/main.py and backend/app/version.py.
-- - Routes: backend/app/settings_routes.py, backend/app/metrics_routes.py, backend/app/worker_routes.py.
-- - Secrets, Secrets/Spec, Secrets/Files, Secrets/Vault: backend/core/secret_store.py: the two stores, and
--   what a store promises.
-- - Digest, Digest/Normalize, Digest/Rows (with Shape and Count, the shapes of the query's answers), Digest/Body: backend/scripts/failure_digest.py
--   (`_group`, `normalize_message`, `build_result`, `_render_body`).
-- - Records, Store, Store/Codec, Store/Newest, Store/Listed: backend/core/state_store.py.
-- - Lease, Lease/Machine, Lease/Recovery: the run lease of backend/core/state_store.py, as operations and as a machine of
--   processes whose steps are the single calls of the table service.
-- - Telemetry: backend/app/observability/setup.py; the SDK and the exporters are one function that decides
--   which event succeeds, and what is built before the commit block is one event.
-- - Tests: concrete inputs.
--
-- Bounds. Loops are structural recursion over the list they walk; the loops with a count recurse on it:
-- the retry of `_request` on the tries that are left (`max_429_retries` is 2), the last resort of
-- `_render_body` on the groups that are kept. Nothing runs on fuel.
-- Numbers are unbounded as in Python; times are ticks, of a microsecond in the lease.
--
-- The lease. `release_run_lease` deletes the row whoever wrote it, so exclusion needs that a release
-- comes within the window (RUN_LEASE_STALE_S) of its own row. Nothing in the code sees to that; it is
-- the host's limit on a function's time, and the machine has it as the condition `InTime` of a release.
--
-- Not modelled: log lines and spans, since no result depends on them; the in-process locks; the assembly
-- of the application from its routers; the front end.
pub mod Prelude
pub mod Text
pub mod Exec
pub mod Claim
pub mod Extraction
pub mod Records
pub mod Pdf
pub mod Json
pub mod Mailbox
pub mod Trello
pub mod Gmail
pub mod Membretes
pub mod Llm
pub mod Attachments
pub mod Security
pub mod Worker
pub mod Tables
pub mod Store
pub mod Routes
pub mod Secrets
pub mod Signin
pub mod Config
pub mod Digest
pub mod Lease
pub mod Telemetry
mod Tests
