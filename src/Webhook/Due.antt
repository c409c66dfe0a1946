-- ===== src/Webhook/Due.antt =====
-- src/webhook.rs: when a message that has been tried is due again.
use ctwatch.Base.{
  ℕ, ◌<◌, ◌≡◌, refl, sym, ◌∙◌, false≢true, true, false, Bool-cases, inl, inr, List, [], ◌∷◌, ◌++◌,
  map, Option, none, some, arith, ◌==◌, All,
}
use ctwatch.Base.Text.{Text}
use ctwatch.Base.Exec.{◌>>=◌}
use ctwatch.Store.Db.{Time, MatchBody, OutboxRow, Db, answered, statement}
use ctwatch.Store.Outbox.{
  is_due, is_pending, update_id, attempted, delivered, mark_attempt, mark_delivered,
}
use ctwatch.Webhook
use ctwatch.Webhook.Retry.{later_than_now}

-- No row with that id is due.
abbrev pub IsSettled : ℕ → Time → List OutboxRow → Type 0
IsSettled id now rows = All (λ (r : OutboxRow). (r.id == id) ≡ true → is_due now r ≡ false) rows

update_id-IsSettled :
    (id : ℕ) (now : Time) (f : OutboxRow → OutboxRow) (rows : List OutboxRow)
    → ((r : OutboxRow) → is_due now (f r) ≡ false)
    → IsSettled id now (map (update_id id f) rows)
unfolding update_id
update_id-IsSettled id now f [] h = tt
update_id-IsSettled id now f (r ∷ rows) h = (
  elim (Bool-cases (r.id == id)) [
    | inl e ↦ rw e (λ _. h r)
    | inr e ↦ rw e (λ k. absurd (false≢true (sym e ∙ k)))
  ],
  update_id-IsSettled id now f rows h,
)

attempted-not_due :
    (status : ℕ) (next now : Time)
    → now < next
    → (r : OutboxRow) → is_due now (attempted status next now r) ≡ false
unfolding is_due is_pending attempted
attempted-not_due status next now h r = ground arith

mark_attempt-IsSettled :
    (id status : ℕ) (next : Time) (db : Db)
    → answered db.answers ≡ true
    → db.clock < next
    → IsSettled id db.clock (mark_attempt id status next db).1.webhook_outbox
unfolding mark_attempt statement
mark_attempt-IsSettled id status next db a h = rw a (
    update_id-IsSettled id db.clock (attempted status next db.clock) db.webhook_outbox
      (attempted-not_due status next db.clock h))

mark_delivered-IsSettled :
    (id status : ℕ) (db : Db)
    → answered db.answers ≡ true
    → IsSettled id db.clock (mark_delivered id status db).1.webhook_outbox
unfolding mark_delivered statement is_due is_pending delivered
mark_delivered-IsSettled id status db a =
    rw a (update_id-IsSettled id db.clock (delivered status db.clock) db.webhook_outbox (λ r. refl))

module _ (mac : List ℕ → List ℕ → List ℕ) (encode : List ℕ → Text) (to_vec : MatchBody → List ℕ)
    (cfg : Webhook.WebhookCfg) where
  schedule_retry-IsSettled :
      (row : OutboxRow) (status : ℕ) (w : Webhook.Hooks)
      → answered w.db.answers ≡ true
      → IsSettled row.id w.db.clock
          (Webhook.schedule_retry cfg row.id row.attempts status w).1.db.webhook_outbox
  unfolding Webhook.schedule_retry ◌>>=◌ Webhook.on_db
  schedule_retry-IsSettled row status w a =
      mark_attempt-IsSettled row.id status (Webhook.retry_at cfg row.attempts w.db.clock) w.db a
        (later_than_now cfg row.attempts w.db.clock)

  IsSettled-by_answer :
      (row : OutboxRow) (r : Option ℕ) (w : Webhook.Hooks)
      → answered w.db.answers ≡ true
      → IsSettled row.id w.db.clock
          (Webhook.answered mac encode to_vec cfg row r w).1.db.webhook_outbox
  unfolding Webhook.answered ◌>>=◌ Webhook.on_db
  IsSettled-by_answer row none w a = schedule_retry-IsSettled row 0 w a
  IsSettled-by_answer row (some status) w a = elim (Bool-cases (Webhook.is_success status)) [
    | inl e ↦ rw e (mark_delivered-IsSettled row.id status w.db a)
    | inr e ↦ rw e (schedule_retry-IsSettled row status w a)
  ]

  -- Where the database answers the statement that records the attempt, a message that has been tried is
  -- not due any more at that time, whatever the receiver answered: it is delivered, or its next
  -- attempt is in the future.
  pub deliver_one-IsSettled :
      (server : Webhook.Request → Option ℕ) (row : OutboxRow) (w : Webhook.Hooks)
      → answered w.db.answers ≡ true
      → IsSettled row.id w.db.clock
          (Webhook.deliver_one mac encode to_vec cfg server row w).1.db.webhook_outbox
  unfolding Webhook.deliver_one ◌>>=◌
  deliver_one-IsSettled server row w a =
      IsSettled-by_answer row (server (Webhook.request mac encode to_vec cfg row))
        (record w { posted = w.posted ++ Webhook.request mac encode to_vec cfg row ∷ [] }) a
