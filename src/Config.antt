-- ===== src/Config.antt =====
-- src/config.rs. figment, which merges the file that CTWATCH_CONFIG names and the environment, is the
-- parameter `values`: the value of each key. serde's reading of such a value as one type is `Decoders`.
pub mod Duration
use ctwatch.Base.{ℕ, Bool, true, Option, none, some, if◌then◌else◌}
use ctwatch.Base.Text.{Text, text}
use ctwatch.Base.Result.{Result, ok, err, config_error, ◌>>=◌}
use ctwatch.Config.Duration.{deserialize}

-- Durations are in seconds.
pub record Config : Type 0 where
  pub database_url : Text
  pub listen_addr : Text
  pub log_list_url : Text
  pub log_operators : Text
  pub log_poll_interval : ℕ
  pub log_entry_batch_size : ℕ
  pub retention_days_hot : ℕ
  pub retention_days_cold : ℕ
  pub watchlist_mode : Text
  pub stream_enabled : Bool
  pub stream_max_lag : ℕ
  pub stream_max_subscribers : ℕ
  pub crtsh_base_url : Text
  pub metrics_enabled : Bool
  pub log_level : Text
  pub webhook_url : Option Text
  pub webhook_hmac_secret : Option Text
  pub webhook_max_attempts : ℕ
  pub watchlist_file : Option Text
  pub watchlist_url : Option Text
  pub watchlist_refresh : ℕ

pub record Decoders (Value : Type 0) : Type 0 where
  pub string : Value → Result Text
  pub u32 : Value → Result ℕ
  pub usize : Value → Result ℕ
  pub boolean : Value → Result Bool
  pub is_null : Value → Bool

module _ {Value A : Type 0} where
  -- `#[serde(default = …)]`
  unfoldable pub field : A → (Value → Result A) → Option Value → Result A
  field default decode none = ok default
  field default decode (some v) = decode v

  unfoldable pub required : (Value → Result A) → Option Value → Result A
  required decode none = err config_error
  required decode (some v) = decode v

  -- an `Option`, for which null is `None`
  unfoldable pub optional : (Value → Bool) → (Value → Result A) → Option Value → Result (Option A)
  optional is_null decode none = ok none
  optional is_null decode (some v) = if is_null v then ok none else decode v >>= λ a. ok (some a)

module _ {Value : Type 0} (d : Decoders Value) (values : Text → Option Value) where
  abbrev duration : Value → Result ℕ
  duration v = d.string v >>= deserialize

  unfoldable pub load : Result Config
  load = do
    database_url ← required d.string (values (text "database_url"))
    listen_addr ← field (text "0.0.0.0:8080") d.string (values (text "listen_addr"))
    log_list_url ←
        field (text "https://www.gstatic.com/ct/log_list/v3/log_list.json") d.string
          (values (text "log_list_url"))
    log_operators ← field (text "*") d.string (values (text "log_operators"))
    log_poll_interval ← field 30 duration (values (text "log_poll_interval"))
    log_entry_batch_size ← field 1000 d.u32 (values (text "log_entry_batch_size"))
    retention_days_hot ← field 90 d.u32 (values (text "retention_days_hot"))
    retention_days_cold ← field 400 d.u32 (values (text "retention_days_cold"))
    watchlist_mode ← field (text "db") d.string (values (text "watchlist_mode"))
    stream_enabled ← field true d.boolean (values (text "stream_enabled"))
    stream_max_lag ← field 64 d.usize (values (text "stream_max_lag"))
    stream_max_subscribers ← field 100 d.usize (values (text "stream_max_subscribers"))
    crtsh_base_url ← field (text "https://crt.sh") d.string (values (text "crtsh_base_url"))
    metrics_enabled ← field true d.boolean (values (text "metrics_enabled"))
    log_level ← field (text "info") d.string (values (text "log_level"))
    webhook_url ← optional d.is_null d.string (values (text "webhook_url"))
    webhook_hmac_secret ← optional d.is_null d.string (values (text "webhook_hmac_secret"))
    webhook_max_attempts ← field 7 d.u32 (values (text "webhook_max_attempts"))
    watchlist_file ← optional d.is_null d.string (values (text "watchlist_file"))
    watchlist_url ← optional d.is_null d.string (values (text "watchlist_url"))
    watchlist_refresh ← field 60 duration (values (text "watchlist_refresh"))
    ok (record {
      database_url = database_url;
      listen_addr = listen_addr;
      log_list_url = log_list_url;
      log_operators = log_operators;
      log_poll_interval = log_poll_interval;
      log_entry_batch_size = log_entry_batch_size;
      retention_days_hot = retention_days_hot;
      retention_days_cold = retention_days_cold;
      watchlist_mode = watchlist_mode;
      stream_enabled = stream_enabled;
      stream_max_lag = stream_max_lag;
      stream_max_subscribers = stream_max_subscribers;
      crtsh_base_url = crtsh_base_url;
      metrics_enabled = metrics_enabled;
      log_level = log_level;
      webhook_url = webhook_url;
      webhook_hmac_secret = webhook_hmac_secret;
      webhook_max_attempts = webhook_max_attempts;
      watchlist_file = watchlist_file;
      watchlist_url = watchlist_url;
      watchlist_refresh = watchlist_refresh;
    })
