-- ===== src/Api/Router/Safe.antt =====
-- The routes of src/api that only read.
use ctwatch.Base.{
  ℕ, ◌≡◌, refl, ◌∙◌, ap, Bool, true, false, Option, none, some, List, [], ◌++◌, if◌then◌else◌,
}
use ctwatch.Base.Result.{Result, ok, err}
use ctwatch.Base.Exec.{Exec}
use ctwatch.Base.Text.{Text, text}
use ctwatch.Api.{
  ApiResult, ApiError, success, failure, Handler, respond, refuse, answer, query, query_or,
  found_or, ◌>>=◌, then_with,
}
use ctwatch.Api.Certs
use ctwatch.Api.Certs.{ListParams, passed}
use ctwatch.Api.Lookup
use ctwatch.Api.Lookup.{Params}
use ctwatch.Api.Outcome.{build-Reads}
use ctwatch.Api.Router.{
  AppState, Outside, Call, healthz, metrics, logs, stats, watchlist, lookup, certs, cert, cert_raw,
  cert_observations, add_domain, remove_domain, redeliver, stream, http_get, method_of, Body, json,
  render_metrics, handler_of, router,
}
use ctwatch.Api.Status
use ctwatch.Api.Status.Health.{query_or-Reads}
use ctwatch.Api.Watchlist
use ctwatch.Stats.{Counters}
use ctwatch.Store
use ctwatch.Store.Db.{Time, Db, later, statement, statement-elim}
use ctwatch.Store.Names
use ctwatch.Store.Reads.{
  Reads, left_after, count_in_window-Reads, names-count-Reads, cursors-list-Reads,
  watchlist-list-Reads,
}

-- Whatever it answers, it leaves the tables as they are, but for the answers of the database.
pub record IsSafe {A : Type 0} (m : Handler A) : Type 0 where
  pub from : (db : Db) → (answers : List Bool) × ((m db).1 ≡ record db { answers = answers })

module _ {A : Type 0} where
  respond-IsSafe : (a : A) → IsSafe (respond a)
  respond-IsSafe a = record { from = λ db. (db.answers, refl) }

  refuse-IsSafe : (e : ApiError) → IsSafe {A = A} (refuse e)
  refuse-IsSafe e = record { from = λ db. (db.answers, refl) }

  found_or-IsSafe : (e : ApiError) (o : Option A) → IsSafe (found_or e o)
  found_or-IsSafe e none = refuse-IsSafe e
  found_or-IsSafe e (some a) = respond-IsSafe a

  if-IsSafe : (b : Bool) (m n : Handler A) → IsSafe m → IsSafe n → IsSafe (if b then m else n)
  if-IsSafe true m n h k = h
  if-IsSafe false m n h k = k

  bind-IsSafe :
      {B : Type 0} (m : Handler B) (f : B → Handler A)
      → IsSafe m
      → ((b : B) → IsSafe (f b))
      → IsSafe (m >>= f)
  unfolding ◌>>=◌
  bind-IsSafe m f h k = record { from = λ db. after db (m db) (h.from db) }
    where
      after :
          (db : Db) (r : ApiResult _ × Db)
          → (answers : List Bool) × (r.1 ≡ record db { answers = answers })
          → (answers : List Bool) × ((then_with f r).1 ≡ record db { answers = answers })
      after db (failure e, t) p = p
      after db (success b, t) p =
          let (answers, e) = (k b).from t in
          (answers, e ∙ ap (λ (d : Db). record d { answers = answers }) p.1)

  query-IsSafe :
      (m : Exec Db A)
      → ((db : Db) → (answers : List Bool) × ((m db).1 ≡ record db { answers = answers }))
      → IsSafe (query m)
  unfolding query
  query-IsSafe m h = record { from = λ db. after db (m db) (h db) }
    where
      after :
          (db : Db) (r : Result A × Db)
          → (answers : List Bool) × (r.1 ≡ record db { answers = answers })
          → (answers : List Bool) × ((answer r).1 ≡ record db { answers = answers })
      after db (ok a, t) p = p
      after db (err e, t) p = p

  statement-IsSafe : (f : Db → Result A) → IsSafe (query (statement λ db. (f db, db)))
  statement-IsSafe f = query-IsSafe _ λ db.
      statement-elim (λ r. (answers : List Bool) × (r.1 ≡ record db { answers = answers }))
        (λ db. (f db, db)) db (_, refl) (_, refl)

  Reads-IsSafe : (n : ℕ) (f : Db → A) (m : Exec Db A) → Reads n f m → IsSafe (query m)
  Reads-IsSafe n f m r =
      query-IsSafe m λ db. (left_after n db.answers, ap (λ (x : Result A × Db). x.1) (r.from db))

  query_or-IsSafe : (f : Db → A) (m : Exec Db A) (a : A) → Reads 1 f m → IsSafe (query_or a m)
  query_or-IsSafe f m a r = record {
    from = λ db. (later db.answers, ap (λ (x : ApiResult A × Db). x.1) (query_or-Reads f m a r db));
  }

health-IsSafe :
    (version : Text) (retention_days_hot : ℕ) (now : Time)
    → IsSafe (Status.health version retention_days_hot now)
unfolding Status.health
health-IsSafe version retention_days_hot now =
    bind-IsSafe _ _ (query_or-IsSafe _ _ 0 (count_in_window-Reads _)) λ certs.
      bind-IsSafe _ _ (query_or-IsSafe _ _ 0 names-count-Reads) λ names.
        bind-IsSafe _ _ (query_or-IsSafe _ _ [] cursors-list-Reads) λ cursors. respond-IsSafe _

logs-IsSafe : (encode : List ℕ → Text) → IsSafe (Status.logs encode)
unfolding Status.logs
logs-IsSafe encode =
    bind-IsSafe _ _ (Reads-IsSafe 1 _ _ cursors-list-Reads) λ cursors. respond-IsSafe _

stats-IsSafe :
    (encode : List ℕ → Text) (counters : Counters) (retention_days_hot : ℕ) (now : Time)
    (instant elapsed : ℕ)
    → IsSafe (Status.stats encode counters retention_days_hot now instant elapsed)
unfolding Status.stats
stats-IsSafe encode counters retention_days_hot now instant elapsed =
    Reads-IsSafe 8 _ _ (build-Reads encode counters retention_days_hot now instant elapsed)

watchlist-IsSafe : (mode : Text) → IsSafe (Watchlist.list mode)
unfolding Watchlist.list
watchlist-IsSafe mode = if-IsSafe _ _ _ (Reads-IsSafe 1 _ _ watchlist-list-Reads) (refuse-IsSafe _)

module _ (domain : Text → Option Text) where
  lookup-IsSafe :
      (like : Text → Text → Bool) (retention_days_cold : ℕ) (now : Time) (p : Params)
      → IsSafe (Lookup.handler like domain retention_days_cold now p)
  unfolding Lookup.handler Lookup.lookup Names.list_by_registered_domain
  lookup-IsSafe like retention_days_cold now p =
      if-IsSafe _ _ _ (refuse-IsSafe _)
        (bind-IsSafe _ _ (statement-IsSafe _) λ rows. respond-IsSafe _)

  certs-IsSafe :
      (encode : List ℕ → Text) (retention_days_hot : ℕ) (now : Time) (p : ListParams)
      → IsSafe (Certs.list encode domain retention_days_hot now p)
  unfolding Certs.list Store.Certs.list_by_registered_domain
  certs-IsSafe encode retention_days_hot now p =
      bind-IsSafe _ _ (statement-IsSafe _) λ rows. respond-IsSafe _

module _ (decode : Text → Option (List ℕ)) where
  cert-IsSafe :
      (encode : List ℕ → Text) (hash_hex : Text) → IsSafe (Certs.one decode encode hash_hex)
  unfolding Certs.one Store.Certs.get_one
  cert-IsSafe encode hash_hex = bind-IsSafe _ _ (found_or-IsSafe _ (decode hash_hex)) λ hash.
      bind-IsSafe _ _ (statement-IsSafe _)
        λ found. bind-IsSafe _ _ (found_or-IsSafe _ found) λ row. respond-IsSafe _

  passed-IsSafe :
      (fetch : Text → Option (ℕ × List ℕ)) (content_type : Text) (o : Option (ℕ × List ℕ))
      → IsSafe (passed decode fetch content_type o)
  passed-IsSafe fetch content_type none = refuse-IsSafe _
  passed-IsSafe fetch content_type (some (status, body)) =
      if-IsSafe _ _ _ (respond-IsSafe _) (refuse-IsSafe _)

  raw-IsSafe :
      (fetch : Text → Option (ℕ × List ℕ)) (url hash_hex : Text)
      → IsSafe (Certs.raw decode fetch url hash_hex)
  unfolding Certs.raw
  raw-IsSafe fetch url hash_hex = bind-IsSafe _ _ (found_or-IsSafe _ (decode hash_hex)) λ hash.
      passed-IsSafe fetch (text "application/pkix-cert") (fetch (url ++ (text "/?d=" ++ hash_hex)))

  observations-IsSafe :
      (fetch : Text → Option (ℕ × List ℕ)) (url hash_hex : Text)
      → IsSafe (Certs.observations decode fetch url hash_hex)
  unfolding Certs.observations
  observations-IsSafe fetch url hash_hex =
      bind-IsSafe _ _ (found_or-IsSafe _ (decode hash_hex)) λ hash.
        passed-IsSafe fetch (text "application/json")
          (fetch (url ++ (text "/?q=" ++ (hash_hex ++ text "&output=json"))))

json-IsSafe : {A : Type 0} (f : A → Body) (m : Handler A) → IsSafe m → IsSafe (json f m)
json-IsSafe f m h = bind-IsSafe _ _ h λ a. respond-IsSafe _

handler_of-IsSafe :
    (o : Outside) (s : AppState) (call : Call)
    → method_of call ≡ http_get
    → IsSafe (handler_of o s call)
unfolding method_of handler_of render_metrics
handler_of-IsSafe o s healthz h = json-IsSafe _ _ (health-IsSafe o.version _ o.now)
handler_of-IsSafe o s metrics h = respond-IsSafe _
handler_of-IsSafe o s logs h = json-IsSafe _ _ (logs-IsSafe o.encode)
handler_of-IsSafe o s stats h = json-IsSafe _ _ (stats-IsSafe o.encode s.counters _ o.now _ _)
handler_of-IsSafe o s watchlist h = json-IsSafe _ _ (watchlist-IsSafe s.config.watchlist_mode)
handler_of-IsSafe o s (lookup p) h = json-IsSafe _ _ (lookup-IsSafe o.domain o.like _ o.now p)
handler_of-IsSafe o s (certs p) h = json-IsSafe _ _ (certs-IsSafe o.domain o.encode _ o.now p)
handler_of-IsSafe o s (cert hash_hex) h = json-IsSafe _ _ (cert-IsSafe o.decode o.encode hash_hex)
handler_of-IsSafe o s (cert_raw hash_hex) h =
    json-IsSafe _ _ (raw-IsSafe o.decode o.fetch s.config.crtsh_base_url hash_hex)
handler_of-IsSafe o s (cert_observations hash_hex) h =
    json-IsSafe _ _ (observations-IsSafe o.decode o.fetch s.config.crtsh_base_url hash_hex)
handler_of-IsSafe o s (stream domains) h = respond-IsSafe _
handler_of-IsSafe o s (add_domain b) h = absurd cc
handler_of-IsSafe o s (remove_domain d) h = absurd cc
handler_of-IsSafe o s (redeliver id) h = absurd cc

-- A GET request, to whichever route, never changes a table.
pub router_reads :
    (o : Outside) (s : AppState) (call : Call) (db : Db)
    → method_of call ≡ http_get
    → (answers : List Bool) × ((router o s call db).1 ≡ record db { answers = answers })
unfolding router
router_reads o s call db h = (handler_of-IsSafe o s call h).from db
