-- ===== src/Digest/Rows/Quiet.antt =====
-- When `build_result` reports nothing.
use claim_automation_cloud.Text.{Text}
use claim_automation_cloud.Json.{Json}
