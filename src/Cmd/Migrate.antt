-- ===== src/Cmd/Migrate.antt =====
-- src/cmd/migrate.rs. The logging, the connection and the migrations are parameters.
use ctwatch.Base.Text.{Text}
use ctwatch.Base.Result.{Result}
use ctwatch.Base.Exec.{Exec, lift, ◌>>=◌, ◌>>◌}
use ctwatch.Config.{Config}
use ctwatch.Store.Db.{Db}

unfoldable pub run :
    (Text → Result (Unit {0}))
    → (Text → Result (Unit {0}))
    → Exec Db (Unit {0})
    → Result Config
    → Exec Db (Unit {0})
run init_tracing pool migrate loaded = do
  cfg ← lift loaded
  lift (init_tracing cfg.log_level)
  lift (pool cfg.database_url)
  migrate
