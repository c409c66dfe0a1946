-- ===== src/Cmd/Serve/Startup.antt =====
-- What `run` of src/cmd/serve.rs starts for a configuration, or why it ends.
use ctwatch.Base.{
  ◌≡◌, refl, sym, ap, subst, ◌∙◌, ◌⊎◌, inl, inr, ◌≤◌, ◌&&◌, Option, none, some, List, map, arith,
  filter,
}
use ctwatch.Base.Text.{Text}
use ctwatch.Base.Result.{Result, ok, err}
use ctwatch.Base.Exec.{Exec, pure, lift, ◌>>=◌, >>=-inverts}
use ctwatch.Cmd.Serve.Selection.{is_asked, filter_operators-filter, filter-filter}
use ctwatch.Cmd.Serve.{
  Reloader, WorkerCfg, worker_cfg, start_watchlist, start_webhook, start_ingest, Started, run,
  webhook_with, started_with,
}
use ctwatch.Cmd.Serve.Mode.{
  IsChosen, IsMisconfigured, WatchlistOutcome, start_watchlist-WatchlistOutcome,
}
use ctwatch.Config.{Config}
use ctwatch.Ingest.LogList.{CtLog, Decoders, fetch_log_list, filter_operators, is_usable}
use ctwatch.Store.Db.{Db}
use ctwatch.Watchlist.Matcher.{Matcher}
use ctwatch.Webhook.{WebhookCfg}

-- The webhook dispatcher needs both settings.
abbrev pub WebhookOutcome : Config → Option WebhookCfg → Type 0
WebhookOutcome cfg (some w) =
    (cfg.webhook_url ≡ some w.url)
    × (cfg.webhook_hmac_secret ≡ some w.hmac_secret)
    × (w.max_attempts ≡ cfg.webhook_max_attempts)
WebhookOutcome cfg none = (cfg.webhook_url ≡ none) ⊎ (cfg.webhook_hmac_secret ≡ none)

start_webhook-WebhookOutcome : (cfg : Config) → WebhookOutcome cfg (start_webhook cfg)
unfolding start_webhook
start_webhook-WebhookOutcome cfg = go cfg.webhook_url cfg.webhook_hmac_secret refl refl
  where
    go :
        (url secret : Option Text)
        → cfg.webhook_url ≡ url
        → cfg.webhook_hmac_secret ≡ secret
        → WebhookOutcome cfg (webhook_with cfg url secret)
    go none secret e h = inl e
    go (some url) none e h = inr h
    go (some url) (some secret) e h = (e, h, refl)

-- one worker for each log that is asked for and usable
abbrev pub worker_list : Config → List CtLog → List (CtLog × WorkerCfg)
worker_list cfg logs =
    map (λ l. (l, worker_cfg cfg)) (filter (λ l. is_asked cfg.log_operators l && is_usable l) logs)

-- What the process has started.
pub record IsConfigured (cfg : Config) (logs : List CtLog) (s : Started) : Type 0 where
  pub chosen : IsChosen cfg s.reloader
  pub webhook : WebhookOutcome cfg s.webhook
  pub workers : s.workers ≡ worker_list cfg logs
  pub capacity : (64 ≤ s.stream_capacity) × (cfg.stream_max_lag ≤ s.stream_capacity)

pure_inverts : {A : Type 0} {a b : A} {s t : Db} → pure a s ≡ (ok b, t) → a ≡ b
pure_inverts h = cc

lift_inverts : {A : Type 0} {r : Result A} {a : A} {s t : Db} → lift r s ≡ (ok a, t) → r ≡ ok a
lift_inverts h = cc

asked_workers :
    (cfg : Config) (logs : List CtLog)
    → map (λ l. (l, worker_cfg cfg)) (filter is_usable (filter_operators logs cfg.log_operators))
      ≡ worker_list cfg logs
asked_workers cfg logs = ap (map (λ l. (l, worker_cfg cfg))) (
    ap (filter is_usable) (filter_operators-filter cfg.log_operators logs)
    ∙ filter-filter is_usable (is_asked cfg.log_operators) logs)

start_ingest_inverts :
    (d : Decoders) (response : Option Text) (cfg : Config) (db db' : Db)
    (workers : List (CtLog × WorkerCfg))
    → start_ingest d response cfg db ≡ (ok workers, db')
    → (logs : List CtLog) × (fetch_log_list d response ≡ ok logs) × (workers ≡ worker_list cfg logs)
unfolding start_ingest
start_ingest_inverts d response cfg db db' workers h =
    let (logs, db1, e, k) = >>=-inverts _ _ db h in
    (logs, lift_inverts e, sym (pure_inverts k) ∙ asked_workers cfg logs)

started_with-IsConfigured :
    (cfg : Config) (logs : List CtLog) (watchlist : Matcher × Reloader)
    (workers : List (CtLog × WorkerCfg)) (listener : Text)
    → IsChosen cfg watchlist.1
    → workers ≡ worker_list cfg logs
    → IsConfigured cfg logs (started_with cfg watchlist workers listener)
started_with-IsConfigured cfg logs watchlist workers listener chosen all = record {
  chosen = chosen;
  webhook = start_webhook-WebhookOutcome cfg;
  workers = all;
  capacity = (omega arith, omega arith);
}

module _ (init pool : Text → Result (Unit {0})) (migrate : Exec Db (Unit {0})) (d : Decoders)
    (response : Option Text) (bind : Text → Result Text) where
  -- If the process comes to serve requests, then the configuration was loaded and the list of logs was
  -- fetched, the watchlist comes from where the mode says, the webhook dispatcher runs if and only if both
  -- of its settings are there, and one worker was started for each log of the list whose operator is
  -- allowed and that is usable.
  run-IsConfigured :
      (loaded : Result Config) (db db' : Db) (s : Started)
      → run init pool migrate d response bind loaded db ≡ (ok s, db')
      → (cfg : Config) × (logs : List CtLog) × (loaded ≡ ok cfg)
        × (fetch_log_list d response ≡ ok logs)
        × IsConfigured cfg logs s
  unfolding run
  run-IsConfigured loaded db db' s h =
      let (cfg, db1, e1, h1) = >>=-inverts _ _ db h in
      let (_, db0, _, h0) = >>=-inverts _ _ db1 h1 in
      let (_, db2, _, h2) = >>=-inverts _ _ db0 h0 in
      let (_, db3, _, h3) = >>=-inverts _ _ db2 h2 in
      let (watchlist, db4, e4, h4) = >>=-inverts _ _ db3 h3 in
      let (workers, db5, e5, h5) = >>=-inverts _ _ db4 h4 in
      let (listener, db6, _, h6) = >>=-inverts _ _ db5 h5 in
      let (logs, fetched, all) = start_ingest_inverts d response cfg db4 db5 workers e5 in
      let chosen : WatchlistOutcome cfg db3 (ok watchlist, db4) =
        subst (WatchlistOutcome cfg db3) e4 (start_watchlist-WatchlistOutcome cfg db3) in
      (
        cfg,
        logs,
        lift_inverts e1,
        fetched,
        subst (IsConfigured cfg logs) (pure_inverts h6)
            (started_with-IsConfigured cfg logs watchlist workers listener chosen.0 all),
      )

  -- The process comes to serve requests if the configuration was loaded, its watchlist mode has the setting
  -- it needs, logging and metrics are set up, the database can be reached and migrated, the list of logs can be fetched and the address can
  -- be listened on; what it has then started is as configured.
  pub run_starts :
      (cfg : Config) (db db' : Db) (logs : List CtLog) (listener : Text)
      → init cfg.log_level ≡ ok tt
      → pool cfg.database_url ≡ ok tt
      → migrate db ≡ (ok tt, db')
      → ¬ IsMisconfigured cfg
      → fetch_log_list d response ≡ ok logs
      → bind cfg.listen_addr ≡ ok listener
      → (s : Started) × (t : Db) × (run init pool migrate d response bind (ok cfg) db ≡ (ok s, t))
        × IsConfigured cfg logs s
  unfolding run start_ingest ◌>>=◌
  run_starts cfg db db' logs listener i p m well f b =
      go (start_watchlist cfg db') refl (start_watchlist-WatchlistOutcome cfg db')
    where
      go :
          (r : Result (Matcher × Reloader) × Db)
          → start_watchlist cfg db' ≡ r
          → WatchlistOutcome cfg db' r
          → (s : Started) × (t : Db) × (run init pool migrate d response bind (ok cfg) db
              ≡ (ok s, t))
            × IsConfigured cfg logs s
      go (err e, t) h o = absurd (well o.1)
      go (ok watchlist, t) h o = (
        _,
        t,
        rw (i, p, m, h, f, b) refl,
        started_with-IsConfigured cfg logs watchlist _ listener o.0 (asked_workers cfg logs),
      )
