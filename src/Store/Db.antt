-- ===== src/Store/Db.antt =====
-- The database: the tables of migrations/*.sql with the columns that the program reads, the clock that
-- `now()` reads, and, for each statement still to come, whether the server executes it. What follows
-- the listed answers succeeds. A statement that fails changes no row. The server also refuses a
-- statement for its parameters, such as a text with a NUL or a time out of its range: that is one that it
-- does not answer, like one that it cannot be reached for.
use ctwatch.Base.{ℕ, ◌≡◌, refl, Bool, true, false, Option, List, [], ◌∷◌, if◌then◌else◌}
use ctwatch.Base.Int.{ℤ}
use ctwatch.Base.Text.{Text}
use ctwatch.Base.Result.{Error, Result, ok, err, database_error}
use ctwatch.Base.Exec.{Exec}
use ctwatch.Stream.Event.{CertEventCert}

-- A point in time is a count of nanoseconds, from a start before any that occurs.
abbrev pub Time : Type 0
Time = ℕ

pub record CertRow : Type 0 where
  pub cert_hash : List ℕ
  pub issuer_hash : List ℕ
  pub issuer_cn : Text
  pub not_before : Time
  pub not_after : Time
  pub sans : List Text
  pub registered_domains : List Text

pub record CertName : Type 0 where
  pub name : Text
  pub registered_domain : Text
  pub cert_hash : List ℕ
  pub not_before : Time

pub record NameRow : Type 0 where
  pub name : Text
  pub registered_domain : Text
  pub first_seen : Time
  pub last_seen : Time
  pub cert_count : ℕ

pub record Cursor : Type 0 where
  pub log_id : List ℕ
  pub log_url : Text
  pub operator : Text
  pub last_tree_size : ℤ
  pub last_updated : Time
  pub state : Text

pub record WatchRow : Type 0 where
  pub domain : Text
  pub notes : Option Text

-- The JSON of a webhook message; its `event` is always "precert.match".
pub record MatchBody : Type 0 where
  pub event_id : ℕ
  pub matched_at : Time
  pub matched_watchlist_entries : List Text
  pub cert : CertEventCert

pub record OutboxRow : Type 0 where
  pub id : ℕ
  pub event_id : ℕ
  pub body : MatchBody
  pub attempts : ℕ
  pub last_attempt : Option Time
  pub last_status : Option ℕ
  pub delivered_at : Option Time
  pub next_attempt : Time

pub data JobStatus : Type 0 where
  running completed failed : JobStatus

pub record Job : Type 0 where
  pub id : ℕ
  pub log_id : List ℕ
  pub target_since : Time
  pub target_start_index : ℤ
  pub target_end_index : ℤ
  pub progress_index : ℤ
  pub status : JobStatus

pub record Db : Type 0 where
  pub certs : List CertRow
  pub cert_names : List CertName
  pub names_observed : List NameRow
  pub ingest_cursors : List Cursor
  pub watchlist : List WatchRow
  pub webhook_outbox : List OutboxRow
  pub outbox_next_id : ℕ
  pub backfill_jobs : List Job
  pub jobs_next_id : ℕ
  pub clock : Time
  pub answers : List Bool

-- Whether the next statement succeeds.
unfoldable pub answered : List Bool → Bool
answered [] = true
answered (b ∷ bs) = b

unfoldable pub later : List Bool → List Bool
later [] = []
later (b ∷ bs) = bs

module _ {A : Type 0} where
  -- One statement, which may itself be refused (a constraint).
  unfoldable pub statement : (Db → Result A × Db) → Exec Db A
  unfolding answered later
  statement run db =
      let db' = record db { answers = later db.answers } in
      if answered db.answers then run db' else (err database_error, db')

  -- A statement was not answered, or it ran.
  pub statement-elim :
      (P : Result A × Db → Type 0) (run : Db → Result A × Db) (db : Db)
      → P (err database_error, record db { answers = later db.answers })
      → P (run (record db { answers = later db.answers }))
      → P (statement run db)
  unfolding statement
  statement-elim P run db refused ran =
      elim (answered db.answers)
        as (λ b. P (
          if b
          then run (record db { answers = later db.answers })
          else (err database_error, record db { answers = later db.answers }))) [
            | true ↦ ran
            | false ↦ refused
          ]

  -- The same, where it matters whether the statement was answered.
  pub statement-answered :
      (P : Bool → Result A × Db → Type 0) (run : Db → Result A × Db) (db : Db)
      → P false (err database_error, record db { answers = later db.answers })
      → P true (run (record db { answers = later db.answers }))
      → P (answered db.answers) (statement run db)
  unfolding statement
  statement-answered P run db refused ran =
      elim (answered db.answers)
        as (λ b. P b (
          if b
          then run (record db { answers = later db.answers })
          else (err database_error, record db { answers = later db.answers }))) [
            | true ↦ ran
            | false ↦ refused
          ]

  -- The same, with the answer as an equation.
  pub statement-cases :
      (P : Result A × Db → Type 0) (run : Db → Result A × Db) (db : Db)
      → (answered db.answers ≡ false
          → P (err database_error, record db { answers = later db.answers }))
      → P (run (record db { answers = later db.answers }))
      → P (statement run db)
  statement-cases P run db refused ran =
      statement-answered (λ b r. answered db.answers ≡ b → P r) run db refused (λ h. ran) refl

  -- BEGIN, the body, COMMIT: a failure anywhere restores the tables.
  unfoldable pub restore : Db → Result A × Db → Result A × Db
  restore before (err e, db) = (err e, record before { answers = db.answers })
  restore before (ok a, db) =
      let db' = record db { answers = later db.answers } in
      if answered db.answers
      then (ok a, db')
      else (err database_error, record before { answers = later db.answers })

  unfoldable pub transaction : Exec Db A → Exec Db A
  unfolding restore answered later
  transaction body db =
      let db' = record db { answers = later db.answers } in
      if answered db.answers then restore db (body db') else (err database_error, db')

  -- A transaction failed and left the tables as they were, or its body ran and it was committed.
  pub transaction-elim :
      (P : Result A × Db → Type 0) (body : Exec Db A) (db : Db)
      → ((e : Error) (answers : List Bool) → P (err e, record db { answers = answers }))
      → ((a : A) (t : Db)
          → body (record db { answers = later db.answers }) ≡ (ok a, t)
          → P (ok a, record t { answers = later t.answers }))
      → P (transaction body db)
  unfolding transaction restore
  transaction-elim P body db undone committed =
      elim (answered db.answers)
        as (λ b. P (
          if b
          then restore db (body (record db { answers = later db.answers }))
          else (err database_error, record db { answers = later db.answers }))) [
            | true ↦ ended (body (record db { answers = later db.answers })) refl
            | false ↦ undone database_error (later db.answers)
          ]
    where
      ended :
          (r : Result A × Db)
          → body (record db { answers = later db.answers }) ≡ r
          → P (restore db r)
      ended (err e, t) h = undone e t.answers
      ended (ok a, t) h =
          elim (answered t.answers)
            as (λ b. P (
              if b
              then (ok a, record t { answers = later t.answers })
              else (err database_error, record db { answers = later t.answers }))) [
                | true ↦ committed a t h
                | false ↦ undone database_error (later t.answers)
              ]
