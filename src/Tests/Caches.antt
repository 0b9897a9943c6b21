-- ===== src/Tests/Caches.antt =====
-- The label cache and the letterheads' cache at concrete services.
use mathlib.Core.Path.{subst}
use claim_automation_cloud.Prelude.{
  ℕ, ◌+◌, ◌≡◌, refl, ap, ◌⊎◌, true, false, Option, some, none, [], ◌∷◌,
}
use claim_automation_cloud.Text.{Text, codes, text_eq}
use claim_automation_cloud.Exec.{Result, ok, err, http_error, Exec, ◌>>=◌}
use claim_automation_cloud.Config.{is_set}
use claim_automation_cloud.Exec.Inversion.{ok-injective}
use claim_automation_cloud.Gmail.Preflight.{OtherThanNoAccess, OnlyPreflight, preflight-no_access}
use claim_automation_cloud.Gmail.{
  TokenAnswer, is_definitive, gmail_no_access, preflight, GmailApi, Cache, get_or_create_label_id,
}
use claim_automation_cloud.Gmail.Labels.{get_or_create_label_id-cached}
use claim_automation_cloud.Tests.{ascii}
use claim_automation_cloud.Pdf.{Bytes}
use claim_automation_cloud.Membretes.{BlobCache, get_membrete, get_membrete-cached}

-- The world counts the requests.
abbrev counted : GmailApi ℕ
counted = record {
  secret = λ name n. (ok none, n);
  post_token = λ token secret n. (err http_error, n);
  list_labels = λ n. (ok ((codes "Inbox", codes "L1") ∷ []), n + 1);
  create_label = λ name n. (ok (codes "L2"), n + 1);
  list_page = λ id n. (ok ([], none), n + 1);
}

abbrev first_lookup : Cache × ℕ
first_lookup = (get_or_create_label_id ascii.lower counted (codes "Failed") ((λ key. none), 0)).1

first_found :
    get_or_create_label_id ascii.lower counted (codes "Failed") ((λ key. none), 0)
    ≡ (ok (codes "L2"), first_lookup)
unfolding get_or_create_label_id text_eq
first_found = refl

get_or_create_label_id-cached_example :
    get_or_create_label_id ascii.lower counted (codes "failed") first_lookup
    ≡ (ok (codes "L2"), first_lookup)
get_or_create_label_id-cached_example =
    get_or_create_label_id-cached ascii.lower counted (codes "Failed") (codes "failed") (codes "L2")
      ((λ key. none), 0) first_lookup first_found refl

-- The world counts the downloads.
abbrev one_blob : Text → Exec ℕ Bytes
one_blob name n = (ok (7 ∷ []), n + 1)

abbrev first_fetch : BlobCache × ℕ
first_fetch = (get_membrete one_blob (codes "normal.png") ((λ key. none), 0)).1

first_fetched :
    get_membrete one_blob (codes "normal.png") ((λ key. none), 0) ≡ (ok (7 ∷ []), first_fetch)
unfolding get_membrete
first_fetched = refl

get_membrete-cached_example :
    get_membrete one_blob (codes "normal.png") first_fetch ≡ (ok (7 ∷ []), first_fetch)
get_membrete-cached_example =
    get_membrete-cached one_blob (codes "normal.png") (7 ∷ []) ((λ key. none), 0) first_fetch
      first_fetched

-- The token endpoint rejects the refresh token for good.
abbrev rejected : TokenAnswer
rejected = record {
  status = 400;
  raised = err http_error;
  error_code = codes "invalid_grant";
  access_token = err http_error;
}

abbrev rejecting : GmailApi ℕ
rejecting = record {
  secret = λ name n. (ok (some (codes "t")), n);
  post_token = λ token secret n. (ok rejected, n + 1);
  list_labels = λ n. (ok [], n);
  create_label = λ name n. (ok name, n);
  list_page = λ id n. (ok ([], none), n);
}

rejected_answer :
    {answer : TokenAnswer} {m n : ℕ}
    → ◌≡◌ {A = Result TokenAnswer × ℕ} (ok rejected, m) (ok answer, n)
    → rejected ≡ answer
rejected_answer h = ok-injective (ap (λ (x : Result TokenAnswer × ℕ). x.0) h)

abbrev rejecting_laws : OnlyPreflight rejecting
rejecting_laws = record {
  secrets = λ name n. tt;
  posts = λ token secret n. tt;
  answers = λ token secret n h.
      subst (λ (a : TokenAnswer). OtherThanNoAccess a.raised × OtherThanNoAccess a.access_token)
        (rejected_answer h) (refl, refl);
}

turned_away :
    preflight ascii.lower rejecting 0 ≡ (err (gmail_no_access (codes "token_rejected")), 1)
unfolding preflight text_eq ◌>>=◌
turned_away = refl

preflight-no_access_example :
    ((codes "token_rejected" ≡ codes "missing_token")
      × ((o : Option Text) × (v : ℕ) × (rejecting.secret (codes "gmail-refresh-token") 0
            ≡ (ok o, v))
          × (is_set o ≡ false)))
    ⊎ ((codes "token_rejected" ≡ codes "token_rejected")
        × ((token : Text) × (secret : Text) × (u : ℕ) × (v : ℕ) × (answer : TokenAnswer)
            × (rejecting.post_token token secret u ≡ (ok answer, v))
            × (is_definitive answer ≡ true)))
preflight-no_access_example = preflight-no_access ascii.lower rejecting rejecting_laws 0 turned_away
