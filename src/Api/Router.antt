-- ===== src/Api/Router.antt =====
-- src/api/mod.rs, metrics.rs and stream.rs: the routes of the API, and what a request to each of them is
-- answered. That axum finds the route of a path, and decodes its parameters, is behind a `Call`.
pub mod Safe
pub mod Served
pub mod Handlers
pub mod Statuses
pub mod Contract
use ctwatch.Base.{ℕ, Bool, List, Option, none, some}
use ctwatch.Base.Text.{Text, text}
use ctwatch.Api.{ApiResult, success, failure, Handler, into_response, respond, ◌>>=◌}
use ctwatch.Api.Admin
use ctwatch.Api.Certs
use ctwatch.Api.Certs.{ListParams, CertJson, CertsJson, Passed}
use ctwatch.Api.Lookup
use ctwatch.Api.Lookup.{Params, LookupJson}
use ctwatch.Api.Status
use ctwatch.Api.Status.{HealthJson}
use ctwatch.Api.Watchlist
use ctwatch.Api.Watchlist.{AddBody, AddedJson}
use ctwatch.Config.{Config}
use ctwatch.Stats.{Counters}
use ctwatch.Stats.Snapshot.{LogJson, StatsJson}
use ctwatch.Store.Db.{Time, Db}
use ctwatch.Stream.Handler.{Upgrade, service_unavailable, too_many_requests, accepted, upgrade}

-- What the handlers share besides the database: the pool is the state that they work on.
pub record AppState : Type 0 where
  pub counters : Counters
  pub config : Config

-- What the handlers use of crates and of the system: hex, LIKE, the public suffix list, UUIDs, a request
-- to crt.sh, what the recorder of metrics renders, the version, the time, and the instants of the counters.
pub record Outside : Type 0 where
  pub encode : List ℕ → Text
  pub decode : Text → Option (List ℕ)
  pub like : Text → Text → Bool
  pub domain : Text → Option Text
  pub parse_str : Text → Option ℕ
  pub fetch : Text → Option (ℕ × List ℕ)
  pub render : Text
  pub version : Text
  pub now : Time
  pub instant : ℕ
  pub elapsed : ℕ

pub data Method : Type 0 where
  http_get http_post http_delete : Method

-- A request to one of the routes, with its parameters and its body.
pub data Call : Type 0 where
  healthz metrics logs stats watchlist : Call
  lookup : Params → Call
  certs : ListParams → Call
  cert cert_raw cert_observations : (hash_hex : Text) → Call
  add_domain : AddBody → Call
  remove_domain : (domain : Text) → Call
  redeliver : (event_id : Text) → Call
  stream : (domains : Option Text) → Call

unfoldable pub method_of : Call → Method
method_of (add_domain b) = http_post
method_of (remove_domain d) = http_delete
method_of (redeliver id) = http_post
method_of _ = http_get

pub data Body : Type 0 where
  health_body : HealthJson → Body
  logs_body : List LogJson → Body
  stats_body : StatsJson → Body
  domains_body : List Text → Body
  lookup_body : LookupJson → Body
  certs_body : CertsJson → Body
  cert_body : CertJson → Body
  passed_body : Passed → Body
  added_body : AddedJson → Body
  text_body : Text → Body
  error_body : (type message : Text) → Body
  no_body : Body

pub record Response : Type 0 where
  pub status : ℕ
  pub body : Body

-- A handler that gives no status of its own answers with 200.
abbrev pub json : {A : Type 0} → (A → Body) → Handler A → Handler (ℕ × Body)
json f m = m >>= λ a. respond (200, f a)

-- 101 is the answer to a WebSocket handshake.
unfoldable pub upgraded : Upgrade → ℕ × Body
upgraded service_unavailable = (503, text_body (text "stream disabled"))
upgraded too_many_requests = (429, text_body (text "subscriber cap reached"))
upgraded (accepted f) = (101, no_body)

unfoldable pub render_metrics : Text → Handler (ℕ × Body)
render_metrics rendered = respond (200, text_body rendered)

unfoldable pub handler_of : Outside → AppState → Call → Handler (ℕ × Body)
handler_of o s healthz =
    json health_body (Status.health o.version s.config.retention_days_hot o.now)
handler_of o s metrics = render_metrics o.render
handler_of o s logs = json logs_body (Status.logs o.encode)
handler_of o s stats =
    json stats_body
      (Status.stats o.encode s.counters s.config.retention_days_hot o.now o.instant o.elapsed)
handler_of o s watchlist = json domains_body (Watchlist.list s.config.watchlist_mode)
handler_of o s (lookup p) =
    json lookup_body (Lookup.handler o.like o.domain s.config.retention_days_cold o.now p)
handler_of o s (certs p) =
    json certs_body (Certs.list o.encode o.domain s.config.retention_days_hot o.now p)
handler_of o s (cert hash_hex) = json cert_body (Certs.one o.decode o.encode hash_hex)
handler_of o s (cert_raw hash_hex) =
    json passed_body (Certs.raw o.decode o.fetch s.config.crtsh_base_url hash_hex)
handler_of o s (cert_observations hash_hex) =
    json passed_body (Certs.observations o.decode o.fetch s.config.crtsh_base_url hash_hex)
handler_of o s (add_domain b) = Watchlist.add s.config.watchlist_mode o.domain b >>= λ added.
    respond (added.0, added_body added.1)
handler_of o s (remove_domain d) =
    Watchlist.remove s.config.watchlist_mode o.domain d >>= λ status. respond (status, no_body)
handler_of o s (redeliver event_id) =
    Admin.redeliver o.parse_str event_id >>= λ status. respond (status, no_body)
handler_of o s (stream domains) =
    respond (
      upgraded (upgrade s.config.stream_enabled s.config.stream_max_subscribers domains s.counters))

-- an error is a response too
unfoldable pub response_of : ApiResult (ℕ × Body) → Response
response_of (success (status, body)) = record { status = status; body = body }
response_of (failure e) =
    let (status, type, message) = into_response e in
    record { status = status; body = error_body type message }

unfoldable pub router : Outside → AppState → Call → Db → Response × Db
unfolding response_of
router o s call db = let (r, db') = handler_of o s call db in (response_of r, db')
