-- ===== src/Writer/Flush.antt =====
-- src/writer.rs: the loop that takes jobs in batches, and `flush_batch`. Parameters are what the
-- program takes from crates: SHA-256, the X.509 parser, the public suffix list, `from_timestamp` of
-- chrono, and the UUIDs that are drawn, in order.
pub mod Quiet
pub mod Outcome
pub mod Stored
pub mod Alerts
use ctwatch.Base.{
  ℕ, suc, ◌+◌, ◌-◌, ◌*◌, Bool, true, false, List, [], ◌∷◌, ◌++◌, Option, ◌==◌, length, take, drop,
  if◌then◌else◌,
}
use ctwatch.Base.Int.{ℤ, pos}
use ctwatch.Base.Text.{Text}
use ctwatch.Base.Result.{Result, ok, err}
use ctwatch.Base.Exec.{Exec, pure, modify, attempt, ◌>>=◌, ◌>>◌}
use ctwatch.Parse.Psl.{registered_or_name}
use ctwatch.Parse.X509.{FromDer}
use ctwatch.Stats
use ctwatch.Stats.{Counters}
use ctwatch.Store.Certs
use ctwatch.Store.Names
use ctwatch.Store.Outbox
use ctwatch.Store.Db.{Time, CertRow, MatchBody, Db}
use ctwatch.Stream.Event.{CertEvent}
use ctwatch.Watchlist.Matcher.{Matcher, matches}
use ctwatch.Writer.Prepare.{Prepared, dropped, expired, ready, prepared}
use ctwatch.Writer.Job.{WriterJob}

-- What `flush_batch` works on: `stream` is what has been broadcast, oldest first, and `drawn` counts
-- the UUIDs.
pub record Writer : Type 0 where
  pub db : Db
  pub counters : Counters
  pub stream : List CertEvent
  pub drawn : ℕ

abbrev put_db : {A : Type 0} → Writer → Result A × Db → Result A × Writer
put_db w (r, db) = (r, record w { db = db })

unfoldable pub on_db : {A : Type 0} → Exec Db A → Exec Writer A
on_db m w = put_db w (m w.db)

abbrev pub count : (Counters → Counters) → Exec Writer (Unit {0})
count f = modify λ w. record w { counters = f w.counters }

-- The batch that follows `first`, and what is left: at most 100 jobs with the first.
unfoldable pub next_batch : WriterJob → List WriterJob → List WriterJob × List WriterJob
next_batch first queue = (first ∷ take 99 queue, drop 99 queue)

module _ (sha256 : List ℕ → List ℕ) (from_der : FromDer) (domain : Text → Option Text)
    (from_timestamp : ℤ → Option Time) (now cutoff : Time) where
  -- The loop that fills `cert_rows` and `events`.
  unfoldable pub prepare : List WriterJob → Exec Writer (List CertRow × List CertEvent)
  prepare [] = pure ([], [])
  prepare (job ∷ batch) =
      let rest = prepare batch in
      elim (prepared sha256 from_der domain from_timestamp now cutoff job) [
        | dropped ↦ rest
        | expired ↦ count (Stats.incr_dups 1) >> rest
        | ready row evt ↦ rest >>= λ out. pure (row ∷ out.0, evt ∷ out.1)
      ]

module _ (domain : Text → Option Text) where
  -- An error is logged, and the loop goes on.
  unfoldable pub upsert_sans : Time → List Text → Exec Writer (Unit {0})
  upsert_sans not_before [] = pure tt
  upsert_sans not_before (name ∷ sans) =
      attempt (on_db (Names.upsert name (registered_or_name domain name) not_before)) >>= λ _.
      upsert_sans not_before sans

  unfoldable pub upsert_names : List CertRow → Exec Writer (Unit {0})
  upsert_names [] = pure tt
  upsert_names (row ∷ rows) = upsert_sans row.not_before row.sans >> upsert_names rows

module _ (uuid : ℕ → ℕ) where
  unfoldable pub draw : Exec Writer ℕ
  draw w = (ok (uuid w.drawn), record w { drawn = w.drawn + 1 })

  -- The body has a UUID of its own; `enqueue` draws another.
  unfoldable pub notify : CertEvent → List Text → Exec Writer (Unit {0})
  notify evt [] = pure tt
  notify evt (m ∷ ms) = do
    count Stats.incr_watchlist
    body_id ← draw
    row_id ← draw
    _ ← attempt (
        on_db (
          Outbox.enqueue row_id (record {
            event_id = body_id;
            matched_at = evt.observed_at;
            matched_watchlist_entries = m ∷ ms;
            cert = evt.cert;
          })))
    pure tt

  -- `cert_rows.iter().zip(events.iter())`
  unfoldable pub notify_all : Matcher → ℕ → List CertRow → List CertEvent → Exec Writer (Unit {0})
  notify_all matcher inserted [] events = pure tt
  notify_all matcher inserted (row ∷ rows) [] = pure tt
  notify_all matcher inserted (row ∷ rows) (evt ∷ events) =
      let rest = notify_all matcher inserted rows events in
      if inserted == 0 then pure tt else notify evt (matches matcher row.registered_domains) >> rest

-- `let _ = stream_tx.send(evt)`: it fails when nobody subscribes, and then nobody misses it.
unfoldable pub broadcast : List CertEvent → Exec Writer (Unit {0})
broadcast [] = pure tt
broadcast (evt ∷ events) = do
  modify λ w. record w { stream = w.stream ++ evt ∷ [] }
  count (Stats.incr_stream_sent 1)
  broadcast events

module _ (domain : Text → Option Text) (uuid : ℕ → ℕ) where
  unfoldable pub record_inserted :
      Matcher → List CertRow → List CertEvent → ℕ → Exec Writer (Unit {0})
  record_inserted matcher cert_rows events inserted = do
    count (Stats.incr_certs inserted)
    count (Stats.incr_dups (length cert_rows - inserted))
    upsert_names domain cert_rows
    notify_all uuid matcher inserted cert_rows events
    broadcast events

  -- what follows the loop over the batch
  unfoldable pub store : Matcher → List CertRow × List CertEvent → Exec Writer (Unit {0})
  store matcher (cert_rows, events) = do
    inserted ← on_db (Certs.insert_batch domain cert_rows)
    record_inserted matcher cert_rows events inserted

module _ (sha256 : List ℕ → List ℕ) (from_der : FromDer) (domain : Text → Option Text)
    (from_timestamp : ℤ → Option Time) (uuid : ℕ → ℕ) where
  -- A day has 86400 * 10^9 nanoseconds. The cutoff is one that chrono can hold: for a retention of more than
  -- 260000 years its subtraction panics.
  unfoldable pub flush_batch : Matcher → Time → ℕ → List WriterJob → Exec Writer (Unit {0})
  flush_batch matcher now retention_days_hot batch =
      prepare sha256 from_der domain from_timestamp now (now - retention_days_hot * 86400000000000)
        batch
      >>= store domain uuid matcher

  -- One turn of the loop that `spawn` starts: what is left in the channel, and the state.
  unfoldable pub turn :
      Matcher → Time → ℕ → WriterJob → List WriterJob → Writer → List WriterJob × Writer
  turn matcher now retention_days_hot first queue w =
      let (batch, queue') = next_batch first queue in
      let w' = record w { counters = Stats.set_queue_depth (pos (length queue')) w.counters } in
      let (r, w'') = flush_batch matcher now retention_days_hot batch w' in (queue', w'')
