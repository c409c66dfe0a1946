-- ===== src/Cmd/Serve.antt =====
-- src/cmd/serve.rs: what the process starts, and its two periodic tasks. The log list server, the
-- migrations and the sockets are parameters; a task that is started is the data that it is started with.
pub mod Selection
pub mod Mode
pub mod Startup
pub mod Refresh
use ctwatch.Base.{
  ℕ, max, Bool, true, false, not, Option, none, some, List, [], ◌∷◌, map, filter, if◌then◌else◌,
}
use ctwatch.Base.Text.{Text, text, beq, contains}
use ctwatch.Base.Result.{Result, ok, err, config_error}
use ctwatch.Base.Exec.{Exec, pure, lift, raise, attempt, ◌>>=◌, ◌>>◌}
use ctwatch.Config.{Config}
use ctwatch.Ingest.LogList.{CtLog, Decoders, fetch_log_list, filter_operators, is_usable}
use ctwatch.Stats.Snapshot.{days_before}
use ctwatch.Store.Cursors
use ctwatch.Store.Db.{Time, Cursor, Db}
use ctwatch.Store.Names
use ctwatch.Store.Watchlist
use ctwatch.Watchlist.Matcher.{Matcher, new}
use ctwatch.Watchlist.Sources.{reload}
use ctwatch.Webhook.{WebhookCfg}

-- The reload loop that runs, with what it reads.
pub data Reloader : Type 0 where
  from_db : Reloader
  from_file from_url : Text → Reloader
  no_reload : Reloader

pub record WorkerCfg : Type 0 where
  pub poll_interval : ℕ
  pub batch_size : ℕ

-- `ok_or_else`, where a setting is missing
abbrev pub reloader_of : (Text → Reloader) → Option Text → Exec Db (Matcher × Reloader)
reloader_of from none = raise config_error
reloader_of from (some setting) = pure (new, from setting)

unfoldable pub start_watchlist : Config → Exec Db (Matcher × Reloader)
start_watchlist cfg =
    if beq cfg.watchlist_mode (text "db")
    then (attempt Watchlist.list >>= λ domains. pure (reload new domains, from_db))
    else if beq cfg.watchlist_mode (text "file")
    then reloader_of from_file cfg.watchlist_file
    else if beq cfg.watchlist_mode (text "url")
    then reloader_of from_url cfg.watchlist_url
    else if beq cfg.watchlist_mode (text "disabled")
    then pure (new, no_reload)
    else raise config_error

abbrev pub webhook_with : Config → Option Text → Option Text → Option WebhookCfg
webhook_with cfg (some url) (some secret) =
    some (record { url = url; hmac_secret = secret; max_attempts = cfg.webhook_max_attempts })
webhook_with cfg _ _ = none

unfoldable pub start_webhook : Config → Option WebhookCfg
start_webhook cfg = webhook_with cfg cfg.webhook_url cfg.webhook_hmac_secret

abbrev pub worker_cfg : Config → WorkerCfg
worker_cfg cfg = record {
  poll_interval = cfg.log_poll_interval;
  batch_size = cfg.log_entry_batch_size;
}

-- The first part of `spawn_ingest_workers`: the logs whose workers are started.
unfoldable pub start_ingest : Decoders → Option Text → Config → Exec Db (List (CtLog × WorkerCfg))
start_ingest d response cfg = lift (fetch_log_list d response) >>= λ logs. pure (
    map (λ log. (log, worker_cfg cfg)) (filter is_usable (filter_operators logs cfg.log_operators)))

pub record Started : Type 0 where
  pub stream_capacity : ℕ
  pub matcher : Matcher
  pub reloader : Reloader
  pub writer_capacity : ℕ
  pub webhook : Option WebhookCfg
  pub workers : List (CtLog × WorkerCfg)
  pub listener : Text

abbrev pub started_with : Config → Matcher × Reloader → List (CtLog × WorkerCfg) → Text → Started
started_with cfg watchlist workers listener = record {
  stream_capacity = max cfg.stream_max_lag 64;
  matcher = watchlist.0;
  reloader = watchlist.1;
  writer_capacity = 10000;
  webhook = start_webhook cfg;
  workers = workers;
  listener = listener;
}

-- `run` up to the serving of requests: an error ends the process. `init` sets up logging and metrics.
unfoldable pub run :
    (Text → Result (Unit {0}))
    → (Text → Result (Unit {0}))
    → Exec Db (Unit {0})
    → Decoders
    → Option Text
    → (Text → Result Text)
    → Result Config
    → Exec Db Started
run init pool migrate d response bind loaded = do
  cfg ← lift loaded
  lift (init cfg.log_level)
  lift (pool cfg.database_url)
  migrate
  watchlist ← start_watchlist cfg
  workers ← start_ingest d response cfg
  listener ← lift (bind cfg.listen_addr)
  pure (started_with cfg watchlist workers listener)

-- The database, and the logs that have a worker.
pub record Ingest : Type 0 where
  pub db : Db
  pub running : List (List ℕ)

abbrev pub launched : CtLog → List (List ℕ) → Result (Unit {0}) × Db → Ingest
launched log running (ok _, db) = record { db = db; running = log.log_id ∷ running }
launched log running (err e, db) = record { db = db; running = running }

-- `ingest_worker::spawn`, which first ensures the row of the cursor, and else starts nothing
unfoldable pub launch : CtLog → Ingest → Ingest
launch log s = launched log s.running (Cursors.upsert log.log_id log.url log.operator s.db)

unfoldable pub launch_all : List CtLog → Ingest → Ingest
launch_all [] s = s
launch_all (log ∷ logs) s = launch_all logs (launch log s)

-- `unwrap_or_default`, then the set of the log identifiers
abbrev pub existing_of : Result (List Cursor) → List (List ℕ)
existing_of (ok cursors) = map (λ (c : Cursor). c.log_id) cursors
existing_of (err e) = []

abbrev pub fresh : Text → List (List ℕ) → List CtLog → List CtLog
fresh operators existing logs =
    filter (λ (l : CtLog). not (contains existing l.log_id))
      (filter is_usable (filter_operators logs operators))

abbrev pub refreshed : Text → Result (List CtLog) → Ingest → Ingest
refreshed operators (err e) s = s
refreshed operators (ok logs) s =
    let (cursors, db) = Cursors.list s.db in
    launch_all (fresh operators (existing_of cursors) logs) (record s { db = db })

-- One turn of the refresh, every six hours: whether the client could be built, and the response.
unfoldable pub refresh_tick : Decoders → Text → Bool → Option Text → Ingest → Ingest
refresh_tick d operators built response s =
    if built then refreshed operators (fetch_log_list d response) s else s

-- One turn of `spawn_names_pruner`, every day: the error is logged.
unfoldable pub prune_tick : ℕ → Time → Exec Db (Result ℕ)
prune_tick retention_days now = attempt (Names.prune_older_than (days_before now retention_days))
