-- ===== src/Api/Admin/Outcome.antt =====
-- What the handler of src/api/admin.rs answers, and what it leaves in the outbox.
use ctwatch.Base.{
  ℕ, ◌≡◌, ◌≢◌, refl, ◌≤◌, ◌⊎◌, inl, inr, Bool, true, false, Option, none, some, List, [], ◌∷◌, map,
  arith, length, filter, ◌==◌, if◌then◌else◌, Bool-cases,
}
use ctwatch.Base.Result.{database_error}
use ctwatch.Base.Text.{Text, text}
use ctwatch.Api.{
  ApiResult, success, failure, internal, bad_request, not_found, answer, query, then_with, respond,
  refuse, ◌>>=◌,
}
use ctwatch.Api.Admin.{redeliver}
use ctwatch.Store.Db.{Time, OutboxRow, Db, answered, later, statement-cases}
use ctwatch.Store.Outbox.{force_redeliver, redelivered, is_due, is_pending}

abbrev pub is_event : ℕ → OutboxRow → Bool
is_event id r = r.event_id == id

-- UNIQUE on event_id
abbrev pub IsUnique : List OutboxRow → Type 0
IsUnique rows = (id : ℕ) → length (filter (is_event id) rows) ≤ 1

-- A message with another identifier stays; one with this identifier is due, and keeps its attempts.
abbrev pub IsRedelivered : ℕ → Time → List OutboxRow → List OutboxRow → Type 0
IsRedelivered id now [] [] = Unit
IsRedelivered id now [] (s ∷ ss) = ⊥
IsRedelivered id now (r ∷ rs) [] = ⊥
IsRedelivered id now (r ∷ rs) (s ∷ ss) =
    (((r.event_id ≢ id) × (s ≡ r))
      ⊎ ((r.event_id ≡ id)
          × (is_due now s ≡ true)
          × (s.id ≡ r.id)
          × (s.body ≡ r.body)
          × (s.attempts ≡ r.attempts)))
    × IsRedelivered id now rs ss

map-redelivered-IsRedelivered :
    (id : ℕ) (now : Time) (rows : List OutboxRow)
    → IsRedelivered id now rows (map (redelivered id now) rows)
unfolding redelivered is_due is_pending
map-redelivered-IsRedelivered id now [] = tt
map-redelivered-IsRedelivered id now (r ∷ rows) = elim (Bool-cases (r.event_id == id)) [
  | inl e ↦ rw e (
    inr (ground arith, ground arith, refl, refl, refl),
    map-redelivered-IsRedelivered id now rows,
  )
  | inr e ↦ rw e (inl (ground arith, refl), map-redelivered-IsRedelivered id now rows)
]

map-redelivered_none :
    (id : ℕ) (now : Time) (rows : List OutboxRow)
    → length (filter (is_event id) rows) ≡ 0
    → map (redelivered id now) rows ≡ rows
unfolding redelivered
map-redelivered_none id now [] h = refl
map-redelivered_none id now (r ∷ rows) h = ground (arith, map-redelivered_none id now rows)

-- 202, 400, 404 or 500, with the outbox that is left
abbrev pub RedeliverOutcome : Option ℕ → Db → ApiResult ℕ × Db → Type 0
RedeliverOutcome none db (r, db') =
    (r ≡ failure (bad_request (text "event_id must be a UUID"))) × (db' ≡ db)
RedeliverOutcome (some id) db (success status, db') =
    (status ≡ 202)
    × (length (filter (is_event id) db.webhook_outbox) ≡ 1)
    × IsRedelivered id db.clock db.webhook_outbox db'.webhook_outbox
    × (db' ≡ record db { webhook_outbox = db'.webhook_outbox; answers = later db.answers })
RedeliverOutcome (some id) db (failure e, db') =
    (((length (filter (is_event id) db.webhook_outbox) ≡ 0)
        × (e ≡ not_found (text "no such event")))
      ⊎ ((e ≡ internal database_error) × (answered db.answers ≡ false)))
    × (db' ≡ record db { answers = later db.answers })

module _ (parse_str : Text → Option ℕ) where
  -- Where no identifier stands twice in the outbox, POST /v1/admin/webhook/:event_id/redeliver answers 202
  -- if the outbox has the message, which is then due at once and keeps its body and its attempts, while no
  -- other message changes; 400 if the identifier is none, 404 if the outbox has no such message and 500 if
  -- the database failed, and then nothing changes.
  pub redeliver-RedeliverOutcome :
      (event_id : Text) (db : Db)
      → IsUnique db.webhook_outbox
      → RedeliverOutcome (parse_str event_id) db (redeliver parse_str event_id db)
  unfolding redeliver query ◌>>=◌ force_redeliver
  redeliver-RedeliverOutcome event_id db h = go (parse_str event_id) refl
    where
      found :
          (id : ℕ) (b : Bool)
          → (length (filter (is_event id) db.webhook_outbox) == 1) ≡ b
          → RedeliverOutcome (some id) db (
              (if b then respond 202 else refuse (not_found (text "no such event"))) (record db {
                webhook_outbox = map (redelivered id db.clock) db.webhook_outbox;
                answers = later db.answers;
              }))
      found id true e =
          (refl, ground arith, map-redelivered-IsRedelivered id db.clock db.webhook_outbox, refl)
      found id false e =
          let zero_rows : length (filter (is_event id) db.webhook_outbox) ≡ 0 =
            ground (arith, h id) in
          (
            inl (zero_rows, refl),
            rw (map-redelivered_none id db.clock db.webhook_outbox zero_rows) refl,
          )

      go :
          (p : Option ℕ)
          → parse_str event_id ≡ p
          → RedeliverOutcome p db (redeliver parse_str event_id db)
      go none e = rw e (refl, refl)
      go (some id) e = rw e (
          statement-cases
            (λ r. RedeliverOutcome (some id) db (
              then_with (λ b. if b then respond 202 else refuse (not_found (text "no such event")))
                (answer r)))
            _ db (λ a. (inr (refl, a), refl)) (found id _ refl))
