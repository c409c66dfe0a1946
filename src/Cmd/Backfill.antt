-- ===== src/Cmd/Backfill.antt =====
-- src/cmd/backfill.rs: the logs that a backfill runs over, and `run_many` of
-- src/ingest/backfill_worker.rs for what it starts. chrono's parser, hex and the sockets are parameters.
use ctwatch.Base.{ℕ, max, Option, none, some, List, filter}
use ctwatch.Base.Text.{Text, beq}
use ctwatch.Base.Result.{Result, ok, err, hex_error}
use ctwatch.Base.Exec.{Exec, pure, lift, ◌>>=◌, ◌>>◌}
use ctwatch.Config.{Config}
use ctwatch.Ingest.LogList.{CtLog, Decoders, fetch_log_list, filter_operators, is_usable}
use ctwatch.Store.Db.{Time, Db}

pub record BackfillArgs : Type 0 where
  pub since : Text
  pub log : Option Text
  pub concurrency : ℕ
  pub rate_limit_qps : ℕ

-- What `run_many` is called with: at most `permits` of the logs are walked at the same time.
pub record Backfill : Type 0 where
  pub logs : List CtLog
  pub since : Time
  pub permits : ℕ
  pub rate_limit_qps : ℕ
  pub batch_size : ℕ

module _ (d : Decoders) (decode : Text → Option (List ℕ)) (parse : Text → Result Time)
    (response : Option Text) where
  -- `if let Some(hex_log) = args.log`
  unfoldable pub retain : Option Text → List CtLog → Result (List CtLog)
  retain none logs = ok logs
  retain (some hex_log) logs = elim (decode hex_log) [
    | none ↦ err hex_error
    | some want ↦ ok (filter (λ (l : CtLog). beq l.log_id want) logs)
  ]

  -- The migrations run before the list of logs is fetched; `init` sets up logging and metrics.
  unfoldable pub run :
      (Text → Result (Unit {0}))
      → (Text → Result (Unit {0}))
      → Exec Db (Unit {0})
      → BackfillArgs
      → Result Config
      → Exec Db Backfill
  run init pool migrate args loaded = do
    cfg ← lift loaded
    lift (init cfg.log_level)
    since ← lift (parse args.since)
    lift (pool cfg.database_url)
    migrate
    all ← lift (fetch_log_list d response)
    logs ← lift (retain args.log (filter is_usable (filter_operators all cfg.log_operators)))
    pure (record {
      logs = logs;
      since = since;
      permits = max args.concurrency 1;
      rate_limit_qps = args.rate_limit_qps;
      batch_size = cfg.log_entry_batch_size;
    })
