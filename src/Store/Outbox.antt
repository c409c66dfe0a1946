-- ===== src/Store/Outbox.antt =====
-- src/store/outbox.rs: the table webhook_outbox.
use ctwatch.Base.{
  ℕ, ◌+◌, Bool, true, false, ◌&&◌, List, ◌∷◌, map, none, some, filter, any, length, take, ltb, leb,
  ◌==◌, if◌then◌else◌,
}
use ctwatch.Base.Sort.{sort_by}
use ctwatch.Base.Result.{ok, err, database_error}
use ctwatch.Base.Exec.{Exec}
use ctwatch.Store.Db.{Time, MatchBody, OutboxRow, Db, statement}

unfoldable pub new_row : ℕ → ℕ → MatchBody → Time → OutboxRow
new_row id event_id body now = record {
  id = id;
  event_id = event_id;
  body = body;
  attempts = 0;
  last_attempt = none;
  last_status = none;
  delivered_at = none;
  next_attempt = now;
}

-- The UUID that is drawn is an argument; event_id is UNIQUE.
unfoldable pub enqueue : ℕ → MatchBody → Exec Db ℕ
unfolding new_row
enqueue event_id body = statement λ db.
    if any (λ (r : OutboxRow). r.event_id == event_id) db.webhook_outbox
    then (err database_error, db)
    else (
      ok event_id,
      record db {
        webhook_outbox = new_row db.outbox_next_id event_id body db.clock ∷ db.webhook_outbox;
        outbox_next_id = db.outbox_next_id + 1;
      },
    )

-- delivered_at IS NULL
unfoldable pub is_pending : OutboxRow → Bool
is_pending r = elim r.delivered_at [ none ↦ true | some t ↦ false ]

unfoldable pub pending_count : Exec Db ℕ
unfolding is_pending
pending_count = statement λ db. (ok (length (filter is_pending db.webhook_outbox)), db)

unfoldable pub has_failed : ℕ → OutboxRow → Bool
unfolding is_pending
has_failed max_attempts r = is_pending r && leb max_attempts r.attempts

unfoldable pub failed_count : ℕ → Exec Db ℕ
unfolding has_failed
failed_count max_attempts =
    statement λ db. (ok (length (filter (has_failed max_attempts) db.webhook_outbox)), db)

unfoldable pub is_due : Time → OutboxRow → Bool
unfolding is_pending
is_due now r = is_pending r && leb r.next_attempt now

-- ORDER BY next_attempt ASC
abbrev pub is_later_row : OutboxRow → OutboxRow → Bool
is_later_row r s = ltb s.next_attempt r.next_attempt

unfoldable pub due : ℕ → Exec Db (List OutboxRow)
unfolding is_due
due limit =
    statement λ db.
      (ok (take limit (sort_by is_later_row (filter (is_due db.clock) db.webhook_outbox))), db)

-- UPDATE … WHERE id = $1
unfoldable pub update_id : ℕ → (OutboxRow → OutboxRow) → OutboxRow → OutboxRow
update_id id f r = if r.id == id then f r else r

unfoldable pub attempted : ℕ → Time → Time → OutboxRow → OutboxRow
attempted status next_attempt now r = record r {
  attempts = r.attempts + 1;
  last_attempt = some now;
  last_status = some status;
  next_attempt = next_attempt;
}

unfoldable pub mark_attempt : ℕ → ℕ → Time → Exec Db (Unit {0})
unfolding update_id attempted
mark_attempt id status next_attempt = statement λ db. (
  ok tt,
  record db {
    webhook_outbox = map (update_id id (attempted status next_attempt db.clock)) db.webhook_outbox;
  },
)

unfoldable pub delivered : ℕ → Time → OutboxRow → OutboxRow
delivered status now r = record r {
  attempts = r.attempts + 1;
  last_attempt = some now;
  last_status = some status;
  delivered_at = some now;
}

unfoldable pub mark_delivered : ℕ → ℕ → Exec Db (Unit {0})
unfolding update_id delivered
mark_delivered id status = statement λ db. (
  ok tt,
  record db { webhook_outbox = map (update_id id (delivered status db.clock)) db.webhook_outbox },
)

unfoldable pub redelivered : ℕ → Time → OutboxRow → OutboxRow
redelivered event_id now r =
    if r.event_id == event_id then record r { delivered_at = none; next_attempt = now } else r

unfoldable pub force_redeliver : ℕ → Exec Db Bool
unfolding redelivered
force_redeliver event_id = statement λ db. (
  ok (length (filter (λ (r : OutboxRow). r.event_id == event_id) db.webhook_outbox) == 1),
  record db { webhook_outbox = map (redelivered event_id db.clock) db.webhook_outbox },
)
