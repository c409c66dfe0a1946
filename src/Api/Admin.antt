-- ===== src/Api/Admin.antt =====
-- src/api/admin.rs: POST /v1/admin/webhook/:event_id/redeliver. `Uuid::parse_str` is a parameter.
pub mod Outcome
use ctwatch.Base.{ℕ, Bool, true, false, Option, none, some, if◌then◌else◌}
use ctwatch.Base.Text.{Text, text}
use ctwatch.Api.{Handler, bad_request, not_found, respond, refuse, query, found_or, ◌>>=◌}
use ctwatch.Store.Outbox

-- 202, or an error
unfoldable pub redeliver : (Text → Option ℕ) → Text → Handler ℕ
redeliver parse_str event_id = do
  id ← found_or (bad_request (text "event_id must be a UUID")) (parse_str event_id)
  found ← query (Outbox.force_redeliver id)
  (if found then respond 202 else refuse (not_found (text "no such event")))
