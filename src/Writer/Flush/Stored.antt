-- ===== src/Writer/Flush/Stored.antt =====
-- What `flush_batch` of src/writer.rs keeps, and what it does while the database answers.
use ctwatch.Base.{ℕ, ◌≡◌, refl, sym, ◌∙◌, ap, subst, true, List, Option, map}
use ctwatch.Base.Int.{ℤ}
use ctwatch.Base.Text.{Text}
use ctwatch.Base.Result.{Result, ok, err}
use ctwatch.Base.Exec.{resume, ◌>>=◌}
use ctwatch.Parse.X509.{FromDer}
use ctwatch.Store.Answering.{IsAnswering, insert_batch-Succeeds}
use ctwatch.Store.Certs.{insert_batch}
use ctwatch.Store.Certs.Batch.{is_stored, BatchOutcome, insert_batch-BatchOutcome}
use ctwatch.Store.Db.{Time, CertRow, Db}
use ctwatch.Watchlist.Matcher.{Matcher}
use ctwatch.Writer.Flush.{Writer, on_db, record_inserted, store, flush_batch}
use ctwatch.Writer.Flush.Outcome.{rows_of, events_of, cutoff_of, record_inserted-ok, prepare-ok}
use ctwatch.Writer.Prepare.{Prepared, prepared}
use ctwatch.Writer.Job.{WriterJob}

insert_batch_keeps :
    (domain : Text → Option Text) (rows : List CertRow) (db : Db) (row : CertRow)
    → is_stored row db.certs ≡ true
    → is_stored row (insert_batch domain rows db).1.certs ≡ true
insert_batch_keeps domain rows db row h =
    go (insert_batch domain rows db) (insert_batch-BatchOutcome domain rows db)
  where
    go : (r : Result ℕ × Db) → BatchOutcome rows db r → is_stored row r.1.certs ≡ true
    go (ok n, db') o = o.1.2 row h
    go (err e, db') o = ap (λ (d : Db). is_stored row d.certs) o.1 ∙ h

module _ (sha256 : List ℕ → List ℕ) (from_der : FromDer) (domain : Text → Option Text)
    (from_timestamp : ℤ → Option Time) (uuid : ℕ → ℕ) (matcher : Matcher) (now : Time)
    (retention_days_hot : ℕ) where
  -- what the jobs of a batch are prepared to
  abbrev pub prepared_jobs : List WriterJob → List Prepared
  prepared_jobs batch =
      map (prepared sha256 from_der domain from_timestamp now (cutoff_of now retention_days_hot))
        batch

  -- after the insert, the certificates are not touched
  flush-certs :
      (batch : List WriterJob) (w : Writer)
      → (flush_batch sha256 from_der domain from_timestamp uuid matcher now retention_days_hot batch
          w).1.db.certs
        ≡ (insert_batch domain (rows_of (prepared_jobs batch)) w.db).1.certs
  unfolding flush_batch store ◌>>=◌ on_db
  flush-certs batch w =
      let (w₁, e, d, _, _, _) =
        prepare-ok sha256 from_der domain from_timestamp now (cutoff_of now retention_days_hot)
          batch w in
      rw (e, resume)
        (go w₁ (insert_batch domain (rows_of (prepared_jobs batch)) w₁.db)
          ∙ ap (λ (db : Db). (insert_batch domain (rows_of (prepared_jobs batch)) db).1.certs) d)
    where
      go :
          (w₁ : Writer) (r : Result ℕ × Db)
          → (resume
              (record_inserted domain uuid matcher
                (rows_of (prepared_jobs batch))
                (events_of (prepared_jobs batch)))
              (r.0, record w₁ { db = r.1 })).1.db.certs
            ≡ r.1.certs
      go w₁ (err e, db) = refl
      go w₁ (ok n, db) =
          let (w', e, same, _, _, _, _) =
            record_inserted-ok domain uuid matcher (rows_of (prepared_jobs batch))
              (events_of (prepared_jobs batch)) n (record w₁ { db = db }) in
          rw e same

  -- No certificate is lost, whether or not the flush succeeds.
  pub flush_batch_keeps :
      (batch : List WriterJob) (w : Writer) (row : CertRow)
      → is_stored row w.db.certs ≡ true
      → is_stored row
          (flush_batch sha256 from_der domain from_timestamp uuid matcher now retention_days_hot
            batch w).1.db.certs
        ≡ true
  flush_batch_keeps batch w row h =
      ap (λ c. is_stored row c) (flush-certs batch w)
      ∙ insert_batch_keeps domain (rows_of (prepared_jobs batch)) w.db row h

  -- While the database answers, a flush succeeds.
  pub flush_batch_succeeds :
      (batch : List WriterJob) (w : Writer)
      → IsAnswering w.db
      → (w' : Writer) × (flush_batch sha256 from_der domain from_timestamp uuid matcher now
            retention_days_hot batch w
          ≡ (ok tt, w'))
        × IsAnswering w'.db
  unfolding flush_batch store ◌>>=◌ on_db
  flush_batch_succeeds batch w u =
      let (w₁, e, d, _, _, _) =
        prepare-ok sha256 from_der domain from_timestamp now (cutoff_of now retention_days_hot)
          batch w in
      let (n, db, e', v) =
        (insert_batch-Succeeds domain (rows_of (prepared_jobs batch))).from w₁.db
          (subst IsAnswering (sym d) u) in
      let (w', e'', _, _, _, _, kept) =
        record_inserted-ok domain uuid matcher (rows_of (prepared_jobs batch))
          (events_of (prepared_jobs batch)) n (record w₁ { db = db }) in
      (w', rw (e, resume, e', e'') refl, kept v)
