-- ===== src/Api/Router/Statuses.antt =====
-- The routes of src/api while the database and crt.sh answer: no response is status 500.
use ctwatch.Base.{ℕ, ◌≢◌, arith}
use ctwatch.Base.Text.{Text}
use ctwatch.Api.{
  ApiResult, success, failure, bad_request, not_found, internal, into_response, Handler, respond,
  ◌>>=◌,
}
use ctwatch.Api.Router.{
  AppState, Outside, Call, healthz, metrics, logs, stats, watchlist, lookup, certs, cert, cert_raw,
  cert_observations, add_domain, remove_domain, redeliver, stream, Body, json, upgraded,
  render_metrics, handler_of, response_of, router,
}
use ctwatch.Api.Router.Handlers.{
  IsPassed, health-IsServed, logs-IsServed, stats-IsServed, watchlist-IsServed, add-IsServed,
  remove-IsServed, redeliver-IsServed, lookup-IsServed, certs-IsServed, cert-IsServed, raw-IsServed,
  observations-IsServed,
}
use ctwatch.Api.Router.Served.{IsMeant, Any, IsServed, respond-IsServed, bind-IsServed}
use ctwatch.Store.Answering.{IsAnswering}
use ctwatch.Store.Db.{Db}
use ctwatch.Stream.Handler.{Upgrade, service_unavailable, too_many_requests, accepted}

abbrev IsFine : ℕ × Body → Type 0
IsFine a = a.0 ≢ 500

json-IsServed :
    {A : Type 0} (f : A → Body) (m : Handler A) → IsServed Any m → IsServed IsFine (json f m)
json-IsServed f m h = bind-IsServed IsFine Any _ _ h λ a _. respond-IsServed IsFine _ (omega arith)

status-IsServed :
    {A : Type 0} (P : A → Type 0) (f : A → ℕ × Body) (m : Handler A)
    → IsServed P m
    → ((a : A) → P a → IsFine (f a))
    → IsServed IsFine (m >>= λ a. respond (f a))
status-IsServed P f m h k =
    bind-IsServed IsFine P _ _ h λ a p. respond-IsServed IsFine (f a) (k a p)

upgraded-IsFine : (u : Upgrade) → IsFine (upgraded u)
unfolding upgraded
upgraded-IsFine service_unavailable = omega arith
upgraded-IsFine too_many_requests = omega arith
upgraded-IsFine (accepted f) = omega arith

module _ (o : Outside) (s : AppState) (passes : (url : Text) → IsPassed o.fetch url) where
  handler_of-IsServed : (call : Call) → IsServed IsFine (handler_of o s call)
  unfolding handler_of render_metrics
  handler_of-IsServed healthz = json-IsServed _ _ (health-IsServed o.version _ o.now)
  handler_of-IsServed metrics = respond-IsServed IsFine _ (omega arith)
  handler_of-IsServed logs = json-IsServed _ _ (logs-IsServed o.encode)
  handler_of-IsServed stats = json-IsServed _ _ (stats-IsServed o.encode s.counters _ o.now _ _)
  handler_of-IsServed watchlist = json-IsServed _ _ (watchlist-IsServed s.config.watchlist_mode)
  handler_of-IsServed (lookup p) = json-IsServed _ _ (lookup-IsServed o.domain o.like _ o.now p)
  handler_of-IsServed (certs p) = json-IsServed _ _ (certs-IsServed o.domain o.encode _ o.now p)
  handler_of-IsServed (cert hash_hex) = json-IsServed _ _ (cert-IsServed o.decode o.encode hash_hex)
  handler_of-IsServed (cert_raw hash_hex) =
      json-IsServed _ _ (raw-IsServed o.decode o.fetch passes s.config.crtsh_base_url hash_hex)
  handler_of-IsServed (cert_observations hash_hex) =
      json-IsServed _ _
        (observations-IsServed o.decode o.fetch passes s.config.crtsh_base_url hash_hex)
  handler_of-IsServed (stream domains) = respond-IsServed IsFine _ (upgraded-IsFine _)
  handler_of-IsServed (add_domain b) =
      status-IsServed _ _ _ (add-IsServed s.config.watchlist_mode o.domain b) λ a h. h
  handler_of-IsServed (remove_domain d) =
      status-IsServed _ _ _ (remove-IsServed s.config.watchlist_mode o.domain d) λ a h. h
  handler_of-IsServed (redeliver event_id) =
      status-IsServed _ _ _ (redeliver-IsServed o.parse_str event_id) λ a h. h

response_of_meant : (r : ApiResult (ℕ × Body)) → IsMeant IsFine r → (response_of r).status ≢ 500
unfolding response_of into_response
response_of_meant (success (status, body)) h = h
response_of_meant (failure (bad_request m)) h = omega arith
response_of_meant (failure (not_found m)) h = omega arith
response_of_meant (failure (internal e)) h = absurd h

-- Where a request to any route is answered with status 500, the database has not executed a statement or
-- crt.sh has not answered with a success: while both do, no request is answered with it. A statement that
-- the database refuses for the parameters of the request, such as a text with a NUL, counts among those
-- that it does not execute.
pub router_status :
    (o : Outside) (s : AppState) (call : Call) (db : Db)
    → ((url : Text) → IsPassed o.fetch url)
    → IsAnswering db
    → (router o s call db).0.status ≢ 500
unfolding router
router_status o s call db passes u =
    response_of_meant (handler_of o s call db).0 ((handler_of-IsServed o s passes call).from db u).0
