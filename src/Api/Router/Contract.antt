-- ===== src/Api/Router/Contract.antt =====
-- The statuses that each route of src/api answers with.
pub mod Routes
use ctwatch.Base.{
  ℕ, ◌≡◌, refl, sym, Bool, true, false, Option, none, some, List, [], ◌∷◌, ◌++◌, In, inl, inr, ◌⊎◌,
  if◌then◌else◌, ◌&&◌,
}
use ctwatch.Base.Result.{Result, ok, err}
use ctwatch.Base.Exec.{Exec}
use ctwatch.Base.Text.{Text, text}
use ctwatch.Api.{
  ApiResult, ApiError, success, failure, bad_request, not_found, internal, into_response, Handler,
  respond, refuse, answer, answer_or, query, query_or, found_or, ◌>>=◌, then_with,
}
use ctwatch.Api.Admin
use ctwatch.Api.Certs
use ctwatch.Api.Certs.{passed}
use ctwatch.Api.Lookup
use ctwatch.Api.Router.{
  AppState, Outside, Call, healthz, metrics, logs, stats, watchlist, lookup, certs, cert, cert_raw,
  cert_observations, add_domain, remove_domain, redeliver, stream, Body, json, upgraded,
  render_metrics, handler_of, response_of, router,
}
use ctwatch.Api.Router.Served.{Any}
use ctwatch.Api.Status
use ctwatch.Api.Watchlist
use ctwatch.Store.Db.{Db}
use ctwatch.Stream.Handler.{Upgrade, service_unavailable, too_many_requests, accepted}

-- What a route promises.
abbrev pub statuses_of : Call → List ℕ
statuses_of healthz = 200 ∷ []
statuses_of metrics = 200 ∷ []
statuses_of logs = 200 ∷ 500 ∷ []
statuses_of stats = 200 ∷ 500 ∷ []
statuses_of watchlist = 200 ∷ 400 ∷ 500 ∷ []
statuses_of (lookup p) = 200 ∷ 400 ∷ 500 ∷ []
statuses_of (certs p) = 200 ∷ 500 ∷ []
statuses_of (cert hash_hex) = 200 ∷ 400 ∷ 404 ∷ 500 ∷ []
statuses_of (cert_raw hash_hex) = 200 ∷ 400 ∷ 500 ∷ []
statuses_of (cert_observations hash_hex) = 200 ∷ 400 ∷ 500 ∷ []
statuses_of (add_domain b) = 200 ∷ 201 ∷ 400 ∷ 500 ∷ []
statuses_of (remove_domain d) = 204 ∷ 404 ∷ 400 ∷ 500 ∷ []
statuses_of (redeliver event_id) = 202 ∷ 400 ∷ 404 ∷ 500 ∷ []
statuses_of (stream domains) = 101 ∷ 429 ∷ 503 ∷ []

abbrev status_of_error : ApiError → ℕ
status_of_error (bad_request m) = 400
status_of_error (not_found m) = 404
status_of_error (internal e) = 500

module _ (statuses : List ℕ) where
  -- A success has the property, and a failure one of the statuses.
  abbrev Allowed : {A : Type 0} → (A → Type 0) → ApiResult A → Type 0
  Allowed P (success a) = P a
  Allowed P (failure e) = In (status_of_error e) statuses

  record Keeps {A : Type 0} (P : A → Type 0) (m : Handler A) : Type 0 where
    pub from : (db : Db) → Allowed P (m db).0

  module _ {A : Type 0} (P : A → Type 0) where
    respond-Keeps : (a : A) → P a → Keeps P (respond a)
    respond-Keeps a h = record { from = λ db. h }

    refuse-Keeps : (e : ApiError) → In (status_of_error e) statuses → Keeps P (refuse e)
    refuse-Keeps e h = record { from = λ db. h }

    if-Keeps : (b : Bool) (m n : Handler A) → Keeps P m → Keeps P n → Keeps P (if b then m else n)
    if-Keeps true m n h k = h
    if-Keeps false m n h k = k

    bind-Keeps :
        {B : Type 0} (Q : B → Type 0) (m : Handler B) (f : B → Handler A)
        → Keeps Q m
        → ((b : B) → Q b → Keeps P (f b))
        → Keeps P (m >>= f)
    unfolding ◌>>=◌
    bind-Keeps Q m f h k = record { from = λ db. after (m db) (h.from db) }
      where
        after : (r : ApiResult _ × Db) → Allowed Q r.0 → Allowed P (then_with f r).0
        after (success b, t) p = (k b p).from t
        after (failure e, t) p = p

  module _ {A : Type 0} where
    query-Keeps : (m : Exec Db A) → In 500 statuses → Keeps Any (query m)
    unfolding query
    query-Keeps m h = record { from = λ db. go (m db) }
      where
        go : (r : Result A × Db) → Allowed Any (answer r).0
        go (ok a, db) = tt
        go (err e, db) = h

    query_or-Keeps : (a : A) (m : Exec Db A) → Keeps Any (query_or a m)
    unfolding query_or
    query_or-Keeps a m = record { from = λ db. go (m db) }
      where
        go : (r : Result A × Db) → Allowed Any (answer_or a r).0
        go (ok b, db) = tt
        go (err e, db) = tt

    found_or-Keeps :
        (e : ApiError) (o : Option A) → In (status_of_error e) statuses → Keeps Any (found_or e o)
    found_or-Keeps e none h = refuse-Keeps Any e h
    found_or-Keeps e (some a) h = respond-Keeps Any a tt

  IsAllowed : ℕ × Body → Type 0
  IsAllowed a = In a.0 statuses

  json-Keeps :
      {A : Type 0} (f : A → Body) (m : Handler A)
      → In 200 statuses
      → Keeps Any m
      → Keeps IsAllowed (json f m)
  unfolding IsAllowed
  json-Keeps f m i h = bind-Keeps IsAllowed Any m _ h λ a _. respond-Keeps IsAllowed (200, f a) i

  response_of-Allowed :
      (r : ApiResult (ℕ × Body)) → Allowed IsAllowed r → In (response_of r).status statuses
  unfolding response_of into_response IsAllowed
  response_of-Allowed (success (status, body)) h = h
  response_of-Allowed (failure (bad_request m)) h = h
  response_of-Allowed (failure (not_found m)) h = h
  response_of-Allowed (failure (internal e)) h = h
