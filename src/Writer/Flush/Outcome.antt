-- ===== src/Writer/Flush/Outcome.antt =====
-- What `flush_batch` of src/writer.rs leaves behind, whether or not the database fails.
use ctwatch.Base.{
  append_assoc, append-nil, ℕ, suc, ◌+◌, ◌-◌, ◌*◌, ◌%◌, ◌≤◌, ◌≡◌, refl, sym, ap, subst, ◌∙◌, ◌⊎◌,
  inl, inr, map, true, List, [], ◌∷◌, ◌++◌, Option, arith, length, All,
}
use ctwatch.Base.Int.{ℤ, u64_mod}
use ctwatch.Base.Text.{Text}
use ctwatch.Base.Result.{Result, ok, err}
use ctwatch.Base.Exec.{◌>>=◌, resume}
use ctwatch.Parse.X509.{FromDer}
use ctwatch.Stats.{incr_certs, incr_dups, incr_stream_sent}
use ctwatch.Store.Answering.{IsAnswering}
use ctwatch.Store.Certs.Batch.{is_stored, BatchOutcome, insert_batch-BatchOutcome}
use ctwatch.Store.Certs.{insert_batch}
use ctwatch.Store.Db.{Time, CertRow, Db}
use ctwatch.Stream.Event.{CertEvent}
use ctwatch.Watchlist.Matcher.{Matcher}
use ctwatch.Writer.Flush.{Writer, on_db, prepare, broadcast, record_inserted, store, flush_batch}
use ctwatch.Writer.Flush.Quiet.{upsert_names-IsQuiet, notify_all-IsQuiet}
use ctwatch.Writer.Prepare.{Prepared, dropped, expired, ready, prepared}
use ctwatch.Writer.Job.{WriterJob}

-- the certificates, the events, and the number of expired ones, of what the jobs are prepared to
abbrev pub rows_of : List Prepared → List CertRow
rows_of [] = []
rows_of (ready row evt ∷ ps) = row ∷ rows_of ps
rows_of (expired ∷ ps) = rows_of ps
rows_of (dropped ∷ ps) = rows_of ps

abbrev pub events_of : List Prepared → List CertEvent
events_of [] = []
events_of (ready row evt ∷ ps) = evt ∷ events_of ps
events_of (expired ∷ ps) = events_of ps
events_of (dropped ∷ ps) = events_of ps

abbrev pub expired_of : List Prepared → ℕ
expired_of [] = 0
expired_of (ready row evt ∷ ps) = expired_of ps
expired_of (expired ∷ ps) = suc (expired_of ps)
expired_of (dropped ∷ ps) = expired_of ps

Prepared-cases :
    (p : Prepared)
    → (p ≡ dropped) ⊎ (p ≡ expired) ⊎ ((row : CertRow) × (evt : CertEvent) × (p ≡ ready row evt))
Prepared-cases dropped = inl refl
Prepared-cases expired = inr (inl refl)
Prepared-cases (ready row evt) = inr (inr (row, evt, refl))

-- The certificates stay, the counters of certificates too, and the events are added to the stream.
record Sends (events : List CertEvent) (w w' : Writer) : Type 0 where
  pub database : w'.db ≡ w.db
  pub stream : w'.stream ≡ w.stream ++ events
  pub ingested : w'.counters.certs_ingested ≡ w.counters.certs_ingested
  pub duplicates : w'.counters.duplicates_dropped ≡ w.counters.duplicates_dropped

broadcast-Sends :
    (events : List CertEvent) (w : Writer)
    → (w' : Writer) × (broadcast events w ≡ (ok tt, w')) × Sends events w w'
unfolding broadcast ◌>>=◌ incr_stream_sent
broadcast-Sends [] w = (
  w,
  refl,
  record {
    database = refl;
    stream = sym (append-nil w.stream);
    ingested = refl;
    duplicates = refl;
  },
)
broadcast-Sends (evt ∷ events) w =
    let (w', e, s) =
      broadcast-Sends events
        (record w { stream = w.stream ++ evt ∷ []; counters = incr_stream_sent 1 w.counters }) in
    (
      w',
      e,
      record {
        database = s.database;
        stream = s.stream ∙ append_assoc w.stream (evt ∷ []) events;
        ingested = s.ingested;
        duplicates = s.duplicates;
      },
    )

wrap_suc : (a n : ℕ) → ((a + 1) % u64_mod + n) % u64_mod ≡ (a + suc n) % u64_mod
wrap_suc a n = omega arith

-- what the counters of certificates, taken together, count
abbrev pub counted : Writer → ℕ
counted w = w.counters.certs_ingested + w.counters.duplicates_dropped

module _ (domain : Text → Option Text) (uuid : ℕ → ℕ) (matcher : Matcher) where
  pub record_inserted-ok :
      (rows : List CertRow) (events : List CertEvent) (n : ℕ) (w : Writer)
      → (w' : Writer) × (record_inserted domain uuid matcher rows events n w ≡ (ok tt, w'))
        × (w'.db.certs ≡ w.db.certs)
        × (w'.stream ≡ w.stream ++ events)
        × (w'.counters.certs_ingested ≡ (w.counters.certs_ingested + n) % u64_mod)
        × (w'.counters.duplicates_dropped
            ≡ (w.counters.duplicates_dropped + (length rows - n)) % u64_mod)
        × (IsAnswering w.db → IsAnswering w'.db)
  unfolding record_inserted ◌>>=◌ incr_certs incr_dups
  record_inserted-ok rows events n w =
      let w₁ : Writer = record w {
        counters = incr_dups (length rows - n) (incr_certs n w.counters);
      } in
      let (_, w₂, e₂, q₂) = (upsert_names-IsQuiet domain rows).from w₁ in
      let (_, w₃, e₃, q₃) = (notify_all-IsQuiet uuid matcher n rows events).from w₂ in
      let (w₄, e₄, q₄) = broadcast-Sends events w₃ in
      (
        w₄,
        rw (e₂, e₃, e₄, resume),
        ap (λ (db : Db). db.certs) q₄.database ∙ q₃.certs ∙ q₂.certs,
        q₄.stream ∙ ap (λ s. s ++ events) (q₃.stream ∙ q₂.stream),
        q₄.ingested ∙ q₃.ingested ∙ q₂.ingested,
        q₄.duplicates ∙ q₃.dropped ∙ q₂.dropped,
        λ u. subst IsAnswering (sym q₄.database) (q₃.answering (q₂.answering u)),
      )

module _ (sha256 : List ℕ → List ℕ) (from_der : FromDer) (domain : Text → Option Text)
    (from_timestamp : ℤ → Option Time) (now cutoff : Time) where
  pub prepare-ok :
      (batch : List WriterJob) (w : Writer)
      → (w' : Writer) × (prepare sha256 from_der domain from_timestamp now cutoff batch w ≡ (
        ok (
          rows_of (map (prepared sha256 from_der domain from_timestamp now cutoff) batch),
          events_of (map (prepared sha256 from_der domain from_timestamp now cutoff) batch),
        ),
        w',
      ))
        × (w'.db ≡ w.db)
        × (w'.stream ≡ w.stream)
        × (w'.counters.certs_ingested ≡ w.counters.certs_ingested)
        × (w'.counters.duplicates_dropped % u64_mod
            ≡ (w.counters.duplicates_dropped
                + expired_of
                    (map (prepared sha256 from_der domain from_timestamp now cutoff) batch))
              % u64_mod)
  unfolding prepare ◌>>=◌ incr_dups
  prepare-ok [] w = (w, refl, refl, refl, refl, omega arith)
  prepare-ok (job ∷ batch) w =
      elim (Prepared-cases (prepared sha256 from_der domain from_timestamp now cutoff job)) [
        | inl e ↦
            let (w', e', d, s, i, c) = prepare-ok batch w in
            (w', rw (e, e', prepare), d, s, i, rw (e, c))
        | inr (inl e) ↦
            let (w', e', d, s, i, c) =
              prepare-ok batch (record w { counters = incr_dups 1 w.counters }) in
            (
              w',
              rw (e, e', prepare),
              d,
              s,
              i,
              rw (
                e,
                c
                    ∙ wrap_suc w.counters.duplicates_dropped (
                        expired_of
                          (map (prepared sha256 from_der domain from_timestamp now cutoff) batch)),
              ),
            )
        | inr (inr (row, evt, e)) ↦
            let (w', e', d, s, i, c) = prepare-ok batch w in
            (w', rw (e, e', resume, prepare), d, s, i, rw (e, c))
      ]

-- What a flush leaves. On success every certificate is in the table, the events are in the stream after
-- the others, and each certificate and each expired one is counted once, as new or as a duplicate. On
-- an error the database has failed, and the tables and the stream are as they were.
abbrev pub FlushOutcome : List Prepared → Writer → Result (Unit {0}) × Writer → Type 0
FlushOutcome ps w (ok _, w') =
    All (λ r. is_stored r w'.db.certs ≡ true) (rows_of ps)
    × (w'.stream ≡ w.stream ++ events_of ps)
    × (counted w' % u64_mod ≡ (counted w + length (rows_of ps) + expired_of ps) % u64_mod)
FlushOutcome ps w (err e, w') =
    (¬ IsAnswering w.db)
    × (w'.db ≡ record w.db { answers = w'.db.answers })
    × (w'.stream ≡ w.stream)

wrap_counts :
    (c d n k x c' d' e : ℕ)
    → n ≤ k
    → e % u64_mod ≡ (d + x) % u64_mod
    → c' ≡ (c + n) % u64_mod
    → d' ≡ (e + (k - n)) % u64_mod
    → (c' + d') % u64_mod ≡ (c + d + k + x) % u64_mod
wrap_counts c d n k x c' d' e h h₁ h₂ h₃ = omega arith

module _ (domain : Text → Option Text) (uuid : ℕ → ℕ) (matcher : Matcher) (ps : List Prepared)
    (w w₁ : Writer) (d : w₁.db ≡ w.db) (s : w₁.stream ≡ w.stream)
    (i : w₁.counters.certs_ingested ≡ w.counters.certs_ingested)
    (c : w₁.counters.duplicates_dropped % u64_mod
      ≡ (w.counters.duplicates_dropped + expired_of ps) % u64_mod) where
  store-FlushOutcome : FlushOutcome ps w (store domain uuid matcher (rows_of ps, events_of ps) w₁)
  unfolding store ◌>>=◌ on_db
  store-FlushOutcome =
      after (insert_batch domain (rows_of ps) w₁.db)
        (insert_batch-BatchOutcome domain (rows_of ps) w₁.db)
    where
      after :
          (r : Result ℕ × Db)
          → BatchOutcome (rows_of ps) w₁.db r
          → FlushOutcome ps w (
              resume
                (record_inserted domain uuid matcher (rows_of ps) (events_of ps))
                (r.0, record w₁ { db = r.1 }))
      after (err e, db) o = (
        λ u. o.0 (subst IsAnswering (sym d) u),
        o.1 ∙ ap (λ (b : Db). record b { answers = db.answers }) d,
        s,
      )
      after (ok n, db) (le, added, stored) =
          let (w', e, same, sent, ingested, duplicates, _) =
            record_inserted-ok domain uuid matcher (rows_of ps) (events_of ps) n
              (record w₁ { db = db }) in
          rw e (
            subst (λ certs. All (λ r. is_stored r certs ≡ true) (rows_of ps)) (sym same) stored,
            sent ∙ ap (λ z. z ++ events_of ps) s,
            wrap_counts w.counters.certs_ingested w.counters.duplicates_dropped n
                (length (rows_of ps)) (expired_of ps) w'.counters.certs_ingested
                w'.counters.duplicates_dropped w₁.counters.duplicates_dropped le c
                (ingested ∙ ap (λ z. (z + n) % u64_mod) i) duplicates,
          )

abbrev pub cutoff_of : Time → ℕ → Time
cutoff_of now retention_days_hot = now - retention_days_hot * 86400000000000

-- However the database answers, `flush_batch` leaves one of two outcomes. It succeeds, and then every
-- precertificate of the batch that parses and is in retention is in the table, its events are broadcast
-- in the order of the batch, and the two counters of certificates have grown together by the number
-- of certificates and expired ones, modulo 2 ^ 64. Or it fails, the database does not answer some statement,
-- no table has changed, and nothing is broadcast.
pub flush_batch-FlushOutcome :
    (sha256 : List ℕ → List ℕ) (from_der : FromDer) (domain : Text → Option Text)
    (from_timestamp : ℤ → Option Time) (uuid : ℕ → ℕ) (matcher : Matcher) (now : Time)
    (retention_days_hot : ℕ) (batch : List WriterJob) (w : Writer)
    → FlushOutcome
        (map
          (prepared sha256 from_der domain from_timestamp now (cutoff_of now retention_days_hot))
          batch)
        w
        (flush_batch sha256 from_der domain from_timestamp uuid matcher now retention_days_hot batch
          w)
unfolding flush_batch ◌>>=◌
flush_batch-FlushOutcome sha256 from_der domain from_timestamp uuid matcher now retention_days_hot
      batch w =
    let (w₁, e, d, s, i, c) =
      prepare-ok sha256 from_der domain from_timestamp now (cutoff_of now retention_days_hot) batch
        w in
    rw (e, resume)
      (store-FlushOutcome domain uuid matcher
        (map (prepared sha256 from_der domain from_timestamp now (cutoff_of now retention_days_hot))
          batch)
        w w₁ d s i c)
