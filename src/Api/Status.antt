-- ===== src/Api/Status.antt =====
-- src/api/health.rs, src/api/logs.rs and src/api/stats.rs. hex and the version are parameters.
pub mod Health
use ctwatch.Base.{ℕ, Bool, List, [], map, filter, length, ltb}
use ctwatch.Base.Text.{Text, text, beq}
use ctwatch.Api.{Handler, respond, query, query_or, ◌>>=◌}
use ctwatch.Stats.{Counters}
use ctwatch.Stats.Snapshot.{LogJson, StatsJson, log_json, build, days_before}
use ctwatch.Store.Certs
use ctwatch.Store.Cursors
use ctwatch.Store.Db.{Time, Cursor}
use ctwatch.Store.Names

pub record HealthJson : Type 0 where
  pub ok : Bool
  pub version : Text
  pub total_certs : ℕ
  pub total_names : ℕ
  pub logs_usable : ℕ

abbrev pub is_usable : Cursor → Bool
is_usable c = beq c.state (text "usable")

abbrev pub health_json : Text → ℕ → ℕ → List Cursor → HealthJson
health_json version total_certs total_names cursors = record {
  ok = ltb 0 (length (filter is_usable cursors));
  version = version;
  total_certs = total_certs;
  total_names = total_names;
  logs_usable = length (filter is_usable cursors);
}

-- An error of the database counts as zero.
unfoldable pub health : Text → ℕ → Time → Handler HealthJson
health version retention_days_hot now = do
  total_certs ← query_or 0 (Certs.count_in_window (days_before now retention_days_hot))
  total_names ← query_or 0 Names.count
  cursors ← query_or [] Cursors.list
  respond (health_json version total_certs total_names cursors)

module _ (encode : List ℕ → Text) where
  unfoldable pub logs : Handler (List LogJson)
  logs = query Cursors.list >>= λ cursors. respond (map (log_json encode) cursors)

  unfoldable pub stats : Counters → ℕ → Time → ℕ → ℕ → Handler StatsJson
  stats counters retention_days_hot now instant elapsed =
      query (build encode counters retention_days_hot now instant elapsed)
