-- ===== src/Examples/Serve.antt =====
-- The properties of src/cmd/serve.rs, src/watchlist/mod.rs and the loop of src/writer.rs at one input each.
use ctwatch.Base.{
  ℕ, ◌≡◌, refl, true, not, ◌&&◌, ◌||◌, inl, inr, Option, none, some, List, [], ◌∷◌, ◌++◌, any,
  arith,
}
use ctwatch.Base.Exec.{Exec, pure}
use ctwatch.Base.Result.{ok}
use ctwatch.Base.Text.{Text, text, beq, beq_iff, contains, ends_with, IsDistinct}
use ctwatch.Cmd.Serve.{Ingest, refresh_tick, start_watchlist, run, Started}
use ctwatch.Cmd.Serve.Mode.{IsMisconfigured, WatchlistOutcome, start_watchlist-WatchlistOutcome}
use ctwatch.Cmd.Serve.Refresh.{IsSingle, ids_of, known, refresh_tick-IsSingle, refresh_tick-running}
use ctwatch.Cmd.Serve.Selection.{is_asked}
use ctwatch.Cmd.Serve.Startup.{IsConfigured, run_starts}
use ctwatch.Config.{Config}
use ctwatch.Examples.{db, matcher, job, certificate, seconds_to_time, writer}
use ctwatch.Ingest.LogList.{
  CtLog, RawList, Decoders, object, usable, is_usable, fetch_log_list, parse_log_list,
  parse_operators, parse_logs, parse_log, parse_state, with_slash,
}
use ctwatch.Store.Db.{Db, answered}
use ctwatch.Watchlist.Matcher.{watches}
use ctwatch.Watchlist.Sources.{
  load, fetch, file_reload, url_reload, db_reload, last_loaded, watched_by, watches-reload,
}
use ctwatch.Store.Watchlist.{list}
use ctwatch.Writer.Loop.{Turn, Batch, loop, arrivals_of, IsFlushed, loop-batches, loop_empties}

abbrev raw_list : RawList
raw_list = record {
  operators =
      record {
        name = text "op";
        logs =
            record {
              log_id = text "AQ==";
              url = text "https://log/";
              state = object (text "usable" ∷ []);
            }
            ∷ [];
      }
      ∷ [];
}

abbrev decoders : Decoders
decoders = record { from_str = λ s. some raw_list; decode = λ s. some (1 ∷ []) }

abbrev log : CtLog
log = record { log_id = 1 ∷ []; url = text "https://log/"; operator = text "op"; state = usable }

fetched : fetch_log_list decoders (some []) ≡ ok (log ∷ [])
unfolding fetch_log_list parse_log_list parse_operators parse_logs parse_log parse_state with_slash
    ends_with contains beq
fetched = refl

abbrev ingest : Ingest
ingest = record { db = db; running = [] }

ingest-IsSingle : IsSingle ingest
ingest-IsSingle = record { distinct = tt; rows = tt }

answers_first : answered db.answers ≡ true
unfolding answered
answers_first = refl

fetched-IsDistinct : IsDistinct (ids_of (fetch_log_list decoders (some [])))
unfolding contains
fetched-IsDistinct = rw fetched (refl, tt)

refresh_tick-IsSingle_example : IsSingle (refresh_tick decoders (text "*") true (some []) ingest)
refresh_tick-IsSingle_example =
    refresh_tick-IsSingle decoders (text "*") true (some []) ingest ingest-IsSingle answers_first
      fetched-IsDistinct

refresh_tick-running_example :
    contains (refresh_tick decoders (text "*") true (some []) ingest).running (1 ∷ []) ≡ (
      any
        (λ (l : CtLog).
          is_asked (text "*") l
          && (is_usable l && (not (contains (known db) l.log_id) && beq l.log_id (1 ∷ []))))
        (log ∷ [])
      || contains [] (1 ∷ []))
refresh_tick-running_example =
    refresh_tick-running decoders (text "*") (some []) ingest (log ∷ []) (1 ∷ []) fetched refl

abbrev pub config : Config
config = record {
  database_url = text "postgres://db";
  listen_addr = text "0.0.0.0:8080";
  log_list_url = text "https://list";
  log_operators = text "*";
  log_poll_interval = 30;
  log_entry_batch_size = 1000;
  retention_days_hot = 90;
  retention_days_cold = 400;
  watchlist_mode = text "file";
  stream_enabled = true;
  stream_max_lag = 64;
  stream_max_subscribers = 100;
  crtsh_base_url = text "https://crt.sh";
  metrics_enabled = true;
  log_level = text "info";
  webhook_url = some (text "https://hook/");
  webhook_hmac_secret = none;
  webhook_max_attempts = 7;
  watchlist_file = some (text "/list.yaml");
  watchlist_url = none;
  watchlist_refresh = 60;
}

start_watchlist-WatchlistOutcome_example : WatchlistOutcome config db (start_watchlist config db)
start_watchlist-WatchlistOutcome_example = start_watchlist-WatchlistOutcome config db

config-well : ¬ IsMisconfigured config
config-well (inl h) = cc
config-well (inr (inl h)) = ground (arith, h.0, beq_iff (text "file") (text "url"))
config-well (inr (inr h)) = h.1 refl

abbrev migrate : Exec Db (Unit {0})
migrate = pure tt

run_starts_example :
    (s : Started) × (t : Db) × (run
        (λ l. ok tt)
        (λ u. ok tt)
        migrate
        decoders
        (some [])
        (λ a. ok a)
        (ok config)
        db
      ≡ (ok s, t))
    × IsConfigured config (log ∷ []) s
run_starts_example =
    run_starts (λ l. ok tt) (λ u. ok tt) migrate decoders (some []) (λ a. ok a) config db db
      (log ∷ []) (text "0.0.0.0:8080") refl refl refl config-well fetched refl

abbrev from_str : Text → Option (List Text)
from_str raw = some (raw ∷ [])

abbrev reads : List (Text → Option Text)
reads = (λ p. some (text "a")) ∷ (λ p. none) ∷ []

abbrev gets : List (Text → Option (ℕ × Text))
gets = (λ u. some (200, text "b")) ∷ (λ u. some (404, text "c")) ∷ []

watches-reload_example :
    (watches (file_reload from_str (text "/f") reads matcher) (text "A")
      ≡ watched_by
          (last_loaded (λ read. load read from_str (text "/f")) none reads)
          matcher
          (text "A"))
    × (watches (url_reload from_str (text "https://u") gets matcher) (text "A")
        ≡ watched_by
            (last_loaded (λ get. fetch get from_str (text "https://u")) none gets)
            matcher
            (text "A"))
    × (watches (db_reload (db ∷ []) matcher) (text "A")
        ≡ watched_by (last_loaded (λ (d : Db). (list d).0) none (db ∷ [])) matcher (text "A"))
watches-reload_example =
    watches-reload matcher (text "A") from_str (text "/f") reads from_str (text "https://u") gets
      (db ∷ [])

abbrev quiet_turn : Turn
quiet_turn = record { arrivals = []; now = 5; matcher = matcher }

abbrev busy_turn : Turn
busy_turn = record { arrivals = job ∷ job ∷ []; now = 5; matcher = matcher }

loop-batches_example :
    (bs : List Batch) × IsFlushed
      (λ b. b)
      (λ der. some certificate)
      (λ d. some d)
      seconds_to_time
      (λ n. n)
      30
      ((job ∷ []) ++ arrivals_of (busy_turn ∷ quiet_turn ∷ []))
      writer
      (loop
        (λ b. b)
        (λ der. some certificate)
        (λ d. some d)
        seconds_to_time
        (λ n. n)
        30
        (busy_turn ∷ quiet_turn ∷ [])
        (job ∷ [])
        writer)
      bs
loop-batches_example =
    loop-batches (λ b. b) (λ der. some certificate) (λ d. some d) seconds_to_time (λ n. n) 30
      (busy_turn ∷ quiet_turn ∷ []) (job ∷ []) writer

loop_empties_example :
    (loop
      (λ b. b)
      (λ der. some certificate)
      (λ d. some d)
      seconds_to_time
      (λ n. n)
      30
      (quiet_turn ∷ [])
      (job ∷ job ∷ [])
      writer).0
    ≡ []
loop_empties_example =
    loop_empties (λ b. b) (λ der. some certificate) (λ d. some d) seconds_to_time (λ n. n) 30
      (quiet_turn ∷ []) (job ∷ job ∷ []) writer refl (omega arith)
