-- ===== src/Writer/Loop/Stored.antt =====
-- The loop of src/writer.rs while the database answers: what the table and the stream then hold.
use ctwatch.Base.{
  ℕ, ◌≡◌, sym, ◌∙◌, ap, append_assoc, append-nil, true, List, [], ◌∷◌, ◌++◌, Option, All,
}
use ctwatch.Base.Int.{ℤ, pos}
use ctwatch.Base.Text.{Text}
use ctwatch.Base.Result.{Result, ok}
use ctwatch.Parse.X509.{FromDer}
use ctwatch.Stats.{set_queue_depth}
use ctwatch.Store.Answering.{IsAnswering}
use ctwatch.Store.Certs.Batch.{is_stored}
use ctwatch.Store.Db.{Time, CertRow}
use ctwatch.Stream.Event.{CertEvent}
use ctwatch.Writer.Flush.{Writer}
use ctwatch.Writer.Flush.Outcome.{rows_of, events_of, FlushOutcome, flush_batch-FlushOutcome}
use ctwatch.Writer.Flush.Stored.{prepared_jobs, flush_batch_keeps, flush_batch_succeeds}
use ctwatch.Writer.Prepare.{Prepared}
use ctwatch.Writer.Job.{WriterJob}
use ctwatch.Writer.Loop.{
  Turn, Batch, batches, jobs_of, arrivals_of, loop, flush_one, flush_all, loop-batches_at,
}

module _ (sha256 : List ℕ → List ℕ) (from_der : FromDer) (domain : Text → Option Text)
    (from_timestamp : ℤ → Option Time) (uuid : ℕ → ℕ) (retention_days_hot : ℕ) where
  -- what a batch is prepared to, at the time of its turn
  abbrev pub prepared_batch : Batch → List Prepared
  prepared_batch b =
      prepared_jobs sha256 from_der domain from_timestamp uuid b.at.matcher b.at.now
        retention_days_hot b.jobs

  abbrev pub events_of_all : List Batch → List CertEvent
  events_of_all [] = []
  events_of_all (b ∷ bs) = events_of (prepared_batch b) ++ events_of_all bs

  abbrev pub IsStored : Writer → Batch → Type 0
  IsStored w b = All (λ row. is_stored row w.db.certs ≡ true) (rows_of (prepared_batch b))

  abbrev flushed : Batch → Writer → Writer
  flushed b w = flush_one sha256 from_der domain from_timestamp uuid retention_days_hot b w

  abbrev flushed_all : List Batch → Writer → Writer
  flushed_all bs w = flush_all sha256 from_der domain from_timestamp uuid retention_days_hot bs w

  one_keeps :
      (b : Batch) (w : Writer) (row : CertRow)
      → is_stored row w.db.certs ≡ true
      → is_stored row (flushed b w).db.certs ≡ true
  one_keeps b w row h =
      flush_batch_keeps sha256 from_der domain from_timestamp uuid b.at.matcher b.at.now
        retention_days_hot b.jobs (record w { counters = set_queue_depth (pos _) w.counters }) row h

  all_keep :
      (bs : List Batch) (w : Writer) (row : CertRow)
      → is_stored row w.db.certs ≡ true
      → is_stored row (flushed_all bs w).db.certs ≡ true
  all_keep [] w row h = h
  all_keep (b ∷ bs) w row h = all_keep bs (flushed b w) row (one_keeps b w row h)

  rows_keep :
      (bs : List Batch) (w : Writer) (rows : List CertRow)
      → All (λ row. is_stored row w.db.certs ≡ true) rows
      → All (λ row. is_stored row (flushed_all bs w).db.certs ≡ true) rows
  rows_keep bs w [] h = tt
  rows_keep bs w (row ∷ rows) h = (all_keep bs w row h.0, rows_keep bs w rows h.1)

  one_stores :
      (b : Batch) (w : Writer)
      → IsAnswering w.db
      → IsStored (flushed b w) b
        × ((flushed b w).stream ≡ w.stream ++ events_of (prepared_batch b))
        × IsAnswering (flushed b w).db
  one_stores b w u =
      let before : Writer = record w { counters = set_queue_depth (pos _) w.counters } in
      let (w', e, v) =
        flush_batch_succeeds sha256 from_der domain from_timestamp uuid b.at.matcher b.at.now
          retention_days_hot b.jobs before u in
      let outcome =
        flush_batch-FlushOutcome sha256 from_der domain from_timestamp uuid b.at.matcher b.at.now
          retention_days_hot b.jobs before in
      let outcome' : FlushOutcome (prepared_batch b) before (ok tt, w') = rw e at outcome in
      let same : (flushed b w) ≡ w' = ap (λ (r : Result (Unit {0}) × Writer). r.1) e in
      rw same (outcome'.0, outcome'.1, v)

  flush_all_stores :
      (bs : List Batch) (w : Writer)
      → IsAnswering w.db
      → All (IsStored (flushed_all bs w)) bs
        × ((flushed_all bs w).stream ≡ w.stream ++ events_of_all bs)
  flush_all_stores [] w u = (tt, sym (append-nil w.stream))
  flush_all_stores (b ∷ bs) w u =
      let (stored, sent, v) = one_stores b w u in
      let (all, sent_all) = flush_all_stores bs (flushed b w) v in
      (
        (rows_keep bs (flushed b w) (rows_of (prepared_batch b)) stored, all),
        sent_all
            ∙ ap (λ s. s ++ events_of_all bs) sent
            ∙ append_assoc w.stream (events_of (prepared_batch b)) (events_of_all bs),
      )

  -- While the database answers, the loop takes the jobs out of the channel in their order, in batches,
  -- and after any number of turns every certificate of them that parses and was in retention at its turn
  -- is in the table, and their events have been broadcast in the order of the jobs, no other among them.
  pub loop_stores :
      (ts : List Turn) (queue : List WriterJob) (w : Writer)
      → IsAnswering w.db
      → let r = loop sha256 from_der domain from_timestamp uuid retention_days_hot ts queue w in
        (jobs_of (batches ts queue) ++ r.0 ≡ queue ++ arrivals_of ts)
        × All (IsStored r.1) (batches ts queue)
        × (r.1.stream ≡ w.stream ++ events_of_all (batches ts queue))
  loop_stores ts queue w u =
      let (jobs, _, same) =
        loop-batches_at sha256 from_der domain from_timestamp uuid retention_days_hot ts queue w in
      let (stored, sent) = flush_all_stores (batches ts queue) w u in rw same (jobs, stored, sent)
