-- ===== src/Api/Outcome.antt =====
-- The statements of src/stats/snapshot.rs and of src/api/logs.rs only read.
use ctwatch.Base.{ℕ, true, false, if◌then◌else◌, ◌≡◌, refl, ◌∙◌, ap, List, map, filter, length}
use ctwatch.Base.Result.{ok, err, database_error}
use ctwatch.Base.Exec.{Exec}
use ctwatch.Base.Text.{Text}
use ctwatch.Api.{ApiResult, success, failure, internal, answer, respond, then_with, query, ◌>>=◌}
use ctwatch.Api.Status.{logs}
use ctwatch.Stats.{Counters}
use ctwatch.Stats.Snapshot.{StatsJson, build, log_json, rate_per_sec, seconds_before, days_before}
use ctwatch.Store.Cursors
use ctwatch.Store.Db.{Time, Db}
use ctwatch.Store.BackfillJobs.{is_running, is_completed}
use ctwatch.Store.Outbox.{is_pending, has_failed}
use ctwatch.Store.Reads.{
  read, Reads, all_answered, left_after, bind-Reads, pure-Reads, certs_since, count_in_window-Reads,
  names-count-Reads, watchlist-count-Reads, pending_count-Reads, failed_count-Reads,
  active_count-Reads, completed_count-Reads, cursors-list-Reads,
}

-- A handler of `n` statements that read: the answer is `a` if the database answers all of them, and
-- status 500 if it does not. The tables stay as they are.
abbrev pub shown : {A : Type 0} → ℕ → A → Db → ApiResult A × Db
shown n a db = (
  if all_answered n db.answers then success a else failure (internal database_error),
  record db { answers = left_after n db.answers },
)

module _ {A : Type 0} where
  answer-read : (n : ℕ) (a : A) (db : Db) → answer (read n a db) ≡ shown n a db
  answer-read n a db =
      elim (all_answered n db.answers)
        as (λ b.
          answer (
            if b then ok a else err database_error,
            record db { answers = left_after n db.answers },
          )
          ≡ (
            if b then success a else failure (internal database_error),
            record db { answers = left_after n db.answers },
          )) [ true ↦ refl | false ↦ refl ]

  query-Reads :
      (n : ℕ) (f : Db → A) (m : Exec Db A)
      → Reads n f m
      → (db : Db) → query m db ≡ shown n (f db) db
  unfolding query
  query-Reads n f m r db = ap answer (r.from db) ∙ answer-read n (f db) db

  -- with what is computed from the value
  respond-shown :
      {B : Type 0} (g : A → B) (n : ℕ) (a : A) (db : Db)
      → then_with (λ b. respond (g b)) (shown n a db) ≡ shown n (g a) db
  respond-shown g n a db =
      elim (all_answered n db.answers)
        as (λ b.
          then_with (λ b. respond (g b))
            (
              if b then success a else failure (internal database_error),
              record db { answers = left_after n db.answers },
            )
          ≡ (
            if b then success (g a) else failure (internal database_error),
            record db { answers = left_after n db.answers },
          )) [ true ↦ refl | false ↦ refl ]

-- What `build` computes when no other task writes between its statements.
abbrev pub tables_json : (List ℕ → Text) → Counters → ℕ → Time → ℕ → ℕ → Db → StatsJson
tables_json encode counters retention_days_hot now instant elapsed db = record {
  since_process_start = seconds_before now elapsed;
  now = now;
  certs_in_window = length (certs_since (days_before now retention_days_hot) db);
  unique_names_400d = length db.names_observed;
  watchlist_size = length db.watchlist;
  webhook_outbox_pending = length (filter is_pending db.webhook_outbox);
  webhook_outbox_failed = length (filter (has_failed 7) db.webhook_outbox);
  precerts_per_sec_1m = rate_per_sec instant 60 counters.rb_certs;
  precerts_per_sec_5m = rate_per_sec instant 300 counters.rb_certs;
  precerts_per_sec_1h = rate_per_sec instant 3600 counters.rb_certs;
  duplicates_dropped_per_sec_5m = rate_per_sec instant 300 counters.rb_dups;
  writer_queue_depth = counters.writer_queue_depth;
  subscribers = counters.stream_subscribers;
  messages_sent_per_sec_5m = rate_per_sec instant 300 counters.rb_stream_msgs;
  subscribers_dropped_total = counters.stream_subscribers_dropped;
  logs = map (log_json encode) db.ingest_cursors;
  active_jobs = length (filter is_running db.backfill_jobs);
  completed_jobs_total = length (filter is_completed db.backfill_jobs);
}

module _ (encode : List ℕ → Text) (counters : Counters) (retention_days_hot : ℕ) (now : Time)
    (instant elapsed : ℕ) where
  pub build-Reads :
      Reads 8
        (tables_json encode counters retention_days_hot now instant elapsed)
        (build encode counters retention_days_hot now instant elapsed)
  unfolding build
  build-Reads =
      bind-Reads _ _ _ _ _ _ (count_in_window-Reads (days_before now retention_days_hot)) λ certs.
        bind-Reads _ _ _ _ _ _ names-count-Reads λ names.
          bind-Reads _ _ _ _ _ _ watchlist-count-Reads λ size.
            bind-Reads _ _ _ _ _ _ pending_count-Reads λ pending.
              bind-Reads _ _ _ _ _ _ (failed_count-Reads 7) λ failed.
                bind-Reads _ _ _ _ _ _ active_count-Reads λ active.
                  bind-Reads _ _ _ _ _ _ completed_count-Reads
                    λ completed. bind-Reads _ _ _ _ _ _ cursors-list-Reads λ cursors. pure-Reads _

-- GET /v1/logs lists every log that the table of cursors has, if the database answers its query.
logs_show :
    (encode : List ℕ → Text) (db : Db)
    → logs encode db ≡ shown 1 (map (log_json encode) db.ingest_cursors) db
unfolding logs ◌>>=◌
logs_show encode db =
    ap (then_with (λ c. respond (map (log_json encode) c)))
      (query-Reads 1 _ Cursors.list cursors-list-Reads db)
    ∙ respond-shown (map (log_json encode)) 1 db.ingest_cursors db
