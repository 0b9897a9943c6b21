-- ===== src/Store/Codec.antt =====
-- What is written as an entity's properties is read back.
use claim_automation_cloud.Prelude.{ℕ, ◌≡◌, refl, Option, none, some}
use claim_automation_cloud.Text.{Text, text_eq}
use claim_automation_cloud.Exec.{ok, ◌>>=◌}
use claim_automation_cloud.Records.{
  HeartbeatStatus, skipped_disabled, ran, failed, skipped_no_access, skipped_busy, status_value,
  Heartbeat, ClaimRecord,
}
use claim_automation_cloud.Tables.{
  property, claim_props, heartbeat_props, to_claim_record, to_heartbeat, parse_status,
}

module _ {W : Type 0} (w : W) where
  claim_codec :
      (at : ℕ) (ref subject type url : Text) (town owner used : Option Text)
      → let r : ClaimRecord = record {
        at = at;
        claim_ref = ref;
        subject = subject;
        type = type;
        town = town;
        owner = owner;
        card_url = url;
        extractor_used = used;
      } in
        to_claim_record (claim_props r) w ≡ (ok r, w)
  unfolding to_claim_record claim_props ◌>>=◌ text_eq
  claim_codec at ref subject type url none none none = refl
  claim_codec at ref subject type url none none (some u) = refl
  claim_codec at ref subject type url none (some o) none = refl
  claim_codec at ref subject type url none (some o) (some u) = refl
  claim_codec at ref subject type url (some t) none none = refl
  claim_codec at ref subject type url (some t) none (some u) = refl
  claim_codec at ref subject type url (some t) (some o) none = refl
  claim_codec at ref subject type url (some t) (some o) (some u) = refl

  pub to_claim_record-claim_props :
      (r : ClaimRecord) → to_claim_record (claim_props r) w ≡ (ok r, w)
  to_claim_record-claim_props r =
      claim_codec r.at r.claim_ref r.subject r.type r.card_url r.town r.owner r.extractor_used

pub parse_status-status_value : (s : HeartbeatStatus) → parse_status (status_value s) ≡ ok s
unfolding parse_status status_value
parse_status-status_value skipped_disabled = refl
parse_status-status_value ran = refl
parse_status-status_value failed = refl
parse_status-status_value skipped_no_access = refl
parse_status-status_value skipped_busy = refl

module _ {W : Type 0} (w : W) where
  heartbeat_codec :
      (at : ℕ) (s : HeartbeatStatus) (a b c d : Option ℕ)
      → let h : Heartbeat = record {
        at = at;
        status = s;
        matched = a;
        processed = b;
        failed = c;
        failed_total = d;
      } in
        to_heartbeat (heartbeat_props h) w ≡ (ok h, w)
  unfolding to_heartbeat heartbeat_props ◌>>=◌ text_eq property
  heartbeat_codec at s none none none none = rw (parse_status-status_value s)
  heartbeat_codec at s none none none (some m) = rw (parse_status-status_value s)
  heartbeat_codec at s none none (some l) none = rw (parse_status-status_value s)
  heartbeat_codec at s none none (some l) (some m) = rw (parse_status-status_value s)
  heartbeat_codec at s none (some k) none none = rw (parse_status-status_value s)
  heartbeat_codec at s none (some k) none (some m) = rw (parse_status-status_value s)
  heartbeat_codec at s none (some k) (some l) none = rw (parse_status-status_value s)
  heartbeat_codec at s none (some k) (some l) (some m) = rw (parse_status-status_value s)
  heartbeat_codec at s (some j) none none none = rw (parse_status-status_value s)
  heartbeat_codec at s (some j) none none (some m) = rw (parse_status-status_value s)
  heartbeat_codec at s (some j) none (some l) none = rw (parse_status-status_value s)
  heartbeat_codec at s (some j) none (some l) (some m) = rw (parse_status-status_value s)
  heartbeat_codec at s (some j) (some k) none none = rw (parse_status-status_value s)
  heartbeat_codec at s (some j) (some k) none (some m) = rw (parse_status-status_value s)
  heartbeat_codec at s (some j) (some k) (some l) none = rw (parse_status-status_value s)
  heartbeat_codec at s (some j) (some k) (some l) (some m) = rw (parse_status-status_value s)

  pub to_heartbeat-heartbeat_props :
      (h : Heartbeat) → to_heartbeat (heartbeat_props h) w ≡ (ok h, w)
  to_heartbeat-heartbeat_props h =
      heartbeat_codec h.at h.status h.matched h.processed h.failed h.failed_total
