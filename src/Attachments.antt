-- ===== src/Attachments.antt =====
-- The download of a claim's attachments: backend/app/attachments_routes.py. The zip is the list of its
-- entries; the path patterns of the route are the framework's check, and logs and spans are left out.
pub mod Names
pub mod Errors
use mathlib.Core.List.{reverse}
use claim_automation_cloud.Prelude.{
  ℕ, ◌+◌, Bool, true, false, not, ◌&&◌, Option, none, some, List, [], ◌∷◌, ◌++◌, ◌==◌, ltb, filter,
  map, if◌then◌else◌,
}
use claim_automation_cloud.Text.{Text, codes, text_eq, nonempty, split_on}
use claim_automation_cloud.Exec.{
  Error, no_access, http_status, http_error, http_exception, Exec, pure, raise, lift, or_raise,
  ◌>>=◌, ◌>>◌, try_except, finally,
}
use claim_automation_cloud.Claim.Card.{claim_ref, build_pdf_filename}
use claim_automation_cloud.Pdf.{Bytes}

pub record Attachment : Type 0 where
  pub id : Text
  pub name : Text
  pub is_upload : Bool

abbrev is_component : Text → Bool
is_component s = nonempty s && not (text_eq s (codes "."))

abbrev first_or_empty : List Text → Text
first_or_empty [] = []
first_or_empty (s ∷ ss) = s

-- `PurePosixPath(s).name`
unfoldable pub path_name : Text → Text
path_name s = first_or_empty (reverse (filter is_component (split_on b'/' s)))

-- A name cut at its last dot, with the dot in the second part; `none` without a dot.
abbrev cut_here : ℕ → Text → Option (Text × Text) → Option (Text × Text)
cut_here c s (some (a, b)) = some (c ∷ a, b)
cut_here c s none = if c == b'.' then some ([], c ∷ s) else none

unfoldable pub cut_last_dot : Text → Option (Text × Text)
cut_last_dot [] = none
cut_last_dot (c ∷ s) = cut_here c s (cut_last_dot s)

-- `path.stem` and `path.suffix`: a dot that begins or ends the name makes no suffix.
abbrev stem_suffix : Text → Option (Text × Text) → Text × Text
stem_suffix s none = (s, [])
stem_suffix s (some ([], b)) = (s, [])
stem_suffix s (some (x ∷ a, d ∷ [])) = (s, [])
stem_suffix s (some (x ∷ a, b)) = (x ∷ a, b)

unfoldable pub split_suffix : Text → Text × Text
unfolding cut_last_dot
split_suffix s = stem_suffix s (cut_last_dot s)

abbrev or_id : Text → Text → Text
or_id [] id = id
or_id (c ∷ s) id = c ∷ s

abbrev pub base_name : Attachment → Text
base_name attachment = or_id (path_name attachment.name) attachment.id

-- `dict[str, int]`, with 0 for a missing key.
abbrev pub Counts : Type 0
Counts = Text → ℕ

abbrev count_up : Counts → Text → Counts
count_up seen base key = if text_eq key base then seen base + 1 else seen key

module _ (str : ℕ → Text) where
  -- `f"{path.stem} ({count}){path.suffix}"`
  unfoldable pub numbered : Text → ℕ → Text
  unfolding split_suffix path_name
  numbered base count =
      let (stem, suffix) = split_suffix (path_name base) in
      stem ++ (codes " (" ++ (str count ++ (codes ")" ++ suffix)))

  unfoldable pub names_from : Counts → List Attachment → List Text
  unfolding numbered
  names_from seen [] = []
  names_from seen (attachment ∷ attachments) =
      let base = base_name attachment in
      let count = seen base + 1 in
      (if count == 1 then base else numbered base count)
      ∷ names_from (count_up seen base) attachments

  -- `_entry_names`
  unfoldable pub entry_names : List Attachment → List Text
  unfolding names_from
  entry_names attachments = names_from (λ key. 0) attachments

-- The client's methods that the route calls, and the clock.
pub record TrelloClient (W : Type 0) : Type 0 where
  pub preflight : Exec W (Unit {0})
  pub find_card_by_claim_ref : Text → Exec W (Option Text)
  pub list_attachments : Text → Exec W (List Attachment)
  pub download_attachment : Text → Text → Text → Exec W Bytes
  pub close : Exec W (Unit {0})
  pub monotonic : Exec W ℕ

pub record ZipResponse : Type 0 where
  pub entries : List (Text × Bytes)
  pub filename : Text

abbrev pub download_deadline : ℕ
download_deadline = 90

-- `except httpx.HTTPError`
abbrev pub is_http_error : Error → Bool
is_http_error (http_status n) = true
is_http_error http_error = true
is_http_error e = false

module _ {W : Type 0} (str : ℕ → Text) (trello : TrelloClient W) where
  abbrev no_access_to_503 : Error → Exec W (Unit {0})
  no_access_to_503 (no_access name reason) = raise (http_exception 503 (codes "trello_no_access"))
  no_access_to_503 e = raise e

  abbrev pub http_to_502 : Error → Exec W (List (Text × Bytes))
  http_to_502 e =
      if is_http_error e then raise (http_exception 502 (codes "trello_error")) else raise e

  -- The loop over the names and the attachments.
  unfoldable pub download_all :
      ℕ → Text → List Text → List Attachment → Exec W (List (Text × Bytes))
  download_all deadline card_id (name ∷ names) (attachment ∷ attachments) =
      trello.monotonic >>= λ now.
      if ltb deadline now
      then raise (http_exception 504 (codes "timeout"))
      else (trello.download_attachment card_id attachment.id attachment.name >>= λ content.
          download_all deadline card_id names attachments >>= λ rest. pure ((name, content) ∷ rest))
  download_all deadline card_id names attachments = pure []

  abbrev pub is_wanted : Text → Text → Attachment → Bool
  is_wanted year number attachment =
      attachment.is_upload && not (text_eq attachment.name (build_pdf_filename year number))

  abbrev unless_empty : ℕ → Text → List Attachment → Exec W (List (Text × Bytes))
  unless_empty deadline card_id [] = raise (http_exception 404 (codes "no_attachments"))
  unless_empty deadline card_id (a ∷ attachments) =
      download_all deadline card_id (entry_names str (a ∷ attachments)) (a ∷ attachments)

  unfoldable pub collect : Text → Text → ℕ → Exec W (List (Text × Bytes))
  unfolding entry_names download_all
  collect year number deadline = try_except trello.preflight no_access_to_503 >>= λ _.
      trello.find_card_by_claim_ref (claim_ref year number) >>= λ card.
      or_raise card (http_exception 404 (codes "card_not_found")) >>= λ card_id.
      trello.list_attachments card_id >>= λ attachments.
      unless_empty deadline card_id (filter (is_wanted year number) attachments)

  -- The route, behind the reading of the board's configuration.
  unfoldable pub download_claim_attachments : Text → Text → Exec W ZipResponse
  unfolding collect
  download_claim_attachments year number = trello.monotonic >>= λ started.
      finally (try_except (collect year number (started + download_deadline)) http_to_502)
        trello.close
      >>= λ entries.
          pure (record {
            entries = entries;
            filename = year ++ (codes "_" ++ (number ++ codes ".zip"));
          })
