-- ===== src/Stats/Snapshot.antt =====
-- src/stats/snapshot.rs, and the rates of src/stats/mod.rs. A rate is the sum over a window with the
-- seconds of the window, before their quotient. `now` is `Utc::now()`, `instant` is `Instant::now()`, and
-- `elapsed` is the time since the start; hex is a parameter.
use ctwatch.Base.{ℕ, ◌-◌, ◌*◌, List, map}
use ctwatch.Base.Int.{ℤ}
use ctwatch.Base.Text.{Text}
use ctwatch.Base.Exec.{Exec, pure, ◌>>=◌}
use ctwatch.Stats
use ctwatch.Stats.{Counters, RingBuf, in_window}
use ctwatch.Store.BackfillJobs.{active_count, completed_count}
use ctwatch.Store.Certs.{count_in_window}
use ctwatch.Store.Cursors
use ctwatch.Store.Db.{Time, Cursor, Db}
use ctwatch.Store.Names
use ctwatch.Store.Outbox.{pending_count, failed_count}
use ctwatch.Store.Watchlist

pub record LogJson : Type 0 where
  pub log_id : Text
  pub operator : Text
  pub url : Text
  pub state : Text
  pub cursor : ℤ

pub record Rate : Type 0 where
  pub sum : ℕ
  pub seconds : ℕ

-- `progress_pct` is always null.
pub record StatsJson : Type 0 where
  pub since_process_start : Time
  pub now : Time
  pub certs_in_window : ℕ
  pub unique_names_400d : ℕ
  pub watchlist_size : ℕ
  pub webhook_outbox_pending : ℕ
  pub webhook_outbox_failed : ℕ
  pub precerts_per_sec_1m : Rate
  pub precerts_per_sec_5m : Rate
  pub precerts_per_sec_1h : Rate
  pub duplicates_dropped_per_sec_5m : Rate
  pub writer_queue_depth : ℤ
  pub subscribers : ℤ
  pub messages_sent_per_sec_5m : Rate
  pub subscribers_dropped_total : ℕ
  pub logs : List LogJson
  pub active_jobs : ℕ
  pub completed_jobs_total : ℕ

-- `now - Duration::seconds(seconds)` and `now - Duration::days(days)`, for a result that chrono can hold:
-- it panics for one before its first year, more than 260000 years back.
abbrev pub seconds_before : Time → ℕ → Time
seconds_before now seconds = now - seconds * 1000000000

abbrev pub days_before : Time → ℕ → Time
days_before now days = seconds_before now (days * 86400)

unfoldable pub rate_per_sec : ℕ → ℕ → RingBuf → Rate
rate_per_sec instant seconds rb = record {
  sum = in_window instant (seconds * 1000000000) rb;
  seconds = seconds;
}

unfoldable pub rate_certs : ℕ → ℕ → Counters → Rate
rate_certs instant seconds c = rate_per_sec instant seconds c.rb_certs

unfoldable pub rate_dups : ℕ → ℕ → Counters → Rate
rate_dups instant seconds c = rate_per_sec instant seconds c.rb_dups

unfoldable pub rate_stream : ℕ → ℕ → Counters → Rate
rate_stream instant seconds c = rate_per_sec instant seconds c.rb_stream_msgs

module _ (encode : List ℕ → Text) where
  unfoldable pub log_json : Cursor → LogJson
  log_json c = record {
    log_id = encode c.log_id;
    operator = c.operator;
    url = c.log_url;
    state = c.state;
    cursor = c.last_tree_size;
  }

  -- The eight statements run one after the other, without a transaction; what other tasks write between
  -- them is not modelled here.
  unfoldable pub build : Counters → ℕ → Time → ℕ → ℕ → Exec Db StatsJson
  unfolding log_json rate_certs rate_dups rate_stream
  build counters retention_days_hot now instant elapsed = do
    total_certs ← count_in_window (days_before now retention_days_hot)
    total_names ← Names.count
    watchlist_size ← Watchlist.count
    outbox_pending ← pending_count
    outbox_failed ← failed_count 7
    active_backfill ← active_count
    completed_backfill ← completed_count
    cursors ← Cursors.list
    pure (record {
      since_process_start = seconds_before now elapsed;
      now = now;
      certs_in_window = total_certs;
      unique_names_400d = total_names;
      watchlist_size = watchlist_size;
      webhook_outbox_pending = outbox_pending;
      webhook_outbox_failed = outbox_failed;
      precerts_per_sec_1m = rate_certs instant 60 counters;
      precerts_per_sec_5m = rate_certs instant 300 counters;
      precerts_per_sec_1h = rate_certs instant 3600 counters;
      duplicates_dropped_per_sec_5m = rate_dups instant 300 counters;
      writer_queue_depth = Stats.queue_depth counters;
      subscribers = Stats.subscribers counters;
      messages_sent_per_sec_5m = rate_stream instant 300 counters;
      subscribers_dropped_total = Stats.stream_dropped counters;
      logs = map log_json cursors;
      active_jobs = active_backfill;
      completed_jobs_total = completed_backfill;
    })
