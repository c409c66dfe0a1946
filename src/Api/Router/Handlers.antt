-- ===== src/Api/Router/Handlers.antt =====
-- The handlers of src/api while the database and crt.sh answer.
use ctwatch.Base.{
  ℕ, ◌≡◌, ◌≢◌, refl, Bool, true, false, ◌&&◌, Option, some, List, [], ◌++◌, arith, leb, ltb,
  if◌then◌else◌,
}
use ctwatch.Base.Text.{Text, text}
use ctwatch.Api.Admin
use ctwatch.Api.Certs
use ctwatch.Api.Certs.{ListParams, passed}
use ctwatch.Api.Lookup
use ctwatch.Api.Lookup.{Params}
use ctwatch.Api.Outcome.{build-Reads}
use ctwatch.Api.Router.Served.{
  Any, IsServed, respond-IsServed, bad_request-IsServed, not_found-IsServed, if-IsServed,
  bind-IsServed, found_or-IsServed, query-IsServed, Reads-Succeeds, query_or-IsServed, selects,
}
use ctwatch.Api.Status
use ctwatch.Api.Watchlist
use ctwatch.Api.Watchlist.{AddBody}
use ctwatch.Stats.{Counters}
use ctwatch.Store
use ctwatch.Store.Answering.{statement-Succeeds, Ran-if}
use ctwatch.Store.Db.{Time}
use ctwatch.Store.Names
use ctwatch.Store.Outbox
use ctwatch.Store.Reads.{
  count_in_window-Reads, names-count-Reads, cursors-list-Reads, watchlist-list-Reads,
}

pub health-IsServed :
    (version : Text) (retention_days_hot : ℕ) (now : Time)
    → IsServed Any (Status.health version retention_days_hot now)
unfolding Status.health
health-IsServed version retention_days_hot now =
    bind-IsServed Any Any _ _
      (query_or-IsServed 0 _ (Reads-Succeeds 1 _ _ (count_in_window-Reads _)))
      λ certs _.
        bind-IsServed Any Any _ _ (query_or-IsServed 0 _ (Reads-Succeeds 1 _ _ names-count-Reads))
          λ names _.
            bind-IsServed Any Any _ _
              (query_or-IsServed [] _ (Reads-Succeeds 1 _ _ cursors-list-Reads))
              λ cursors _. respond-IsServed Any _ tt

pub logs-IsServed : (encode : List ℕ → Text) → IsServed Any (Status.logs encode)
unfolding Status.logs
logs-IsServed encode =
    bind-IsServed Any Any _ _ (query-IsServed _ (Reads-Succeeds 1 _ _ cursors-list-Reads))
      λ cursors _. respond-IsServed Any _ tt

pub stats-IsServed :
    (encode : List ℕ → Text) (counters : Counters) (retention_days_hot : ℕ) (now : Time)
    (instant elapsed : ℕ)
    → IsServed Any (Status.stats encode counters retention_days_hot now instant elapsed)
unfolding Status.stats
stats-IsServed encode counters retention_days_hot now instant elapsed =
    query-IsServed _
      (Reads-Succeeds 8 _ _ (build-Reads encode counters retention_days_hot now instant elapsed))

either : (b : Bool) (m n : ℕ) → m ≢ 500 → n ≢ 500 → (if b then m else n) ≢ 500
either true m n h k = h
either false m n h k = k

module _ (mode : Text) where
  pub watchlist-IsServed : IsServed Any (Watchlist.list mode)
  unfolding Watchlist.list
  watchlist-IsServed =
      if-IsServed Any _ _ _ (query-IsServed _ (Reads-Succeeds 1 _ _ watchlist-list-Reads))
        (bad_request-IsServed Any _)

  pub add-IsServed :
      (domain : Text → Option Text) (b : AddBody)
      → IsServed (λ a. a.0 ≢ 500) (Watchlist.add mode domain b)
  unfolding Watchlist.add Store.Watchlist.add
  add-IsServed domain b =
      if-IsServed _ _ _ _
        (bind-IsServed _ Any _ _
          (query-IsServed _ (
            statement-Succeeds _
              λ db. Ran-if db _ _ _ (false, db, refl, refl) (true, _, refl, refl)))
          λ added _. respond-IsServed _ _ (either added 201 200 (omega arith) (omega arith)))
        (bad_request-IsServed _ _)

  pub remove-IsServed :
      (domain : Text → Option Text) (d : Text)
      → IsServed (λ status. status ≢ 500) (Watchlist.remove mode domain d)
  unfolding Watchlist.remove Store.Watchlist.remove
  remove-IsServed domain d =
      if-IsServed _ _ _ _
        (bind-IsServed _ Any _ _ (query-IsServed _ (statement-Succeeds _ λ db. (_, _, refl, refl)))
          λ removed _. respond-IsServed _ _ (either removed 204 404 (omega arith) (omega arith)))
        (bad_request-IsServed _ _)

pub redeliver-IsServed :
    (parse_str : Text → Option ℕ) (event_id : Text)
    → IsServed (λ status. status ≢ 500) (Admin.redeliver parse_str event_id)
unfolding Admin.redeliver Outbox.force_redeliver
redeliver-IsServed parse_str event_id =
    bind-IsServed _ Any _ _ (found_or-IsServed _ (parse_str event_id) (bad_request-IsServed Any _))
      λ id _.
        bind-IsServed _ Any _ _ (query-IsServed _ (statement-Succeeds _ λ db. (_, _, refl, refl)))
          λ found _.
            if-IsServed _ found _ _ (respond-IsServed _ _ (omega arith)) (not_found-IsServed _ _)

module _ (domain : Text → Option Text) where
  pub lookup-IsServed :
      (like : Text → Text → Bool) (retention_days_cold : ℕ) (now : Time) (p : Params)
      → IsServed Any (Lookup.handler like domain retention_days_cold now p)
  unfolding Lookup.handler Lookup.lookup Names.list_by_registered_domain
  lookup-IsServed like retention_days_cold now p =
      if-IsServed Any _ _ _ (bad_request-IsServed Any _)
        (bind-IsServed Any Any _ _ (selects _) λ rows _. respond-IsServed Any _ tt)

  pub certs-IsServed :
      (encode : List ℕ → Text) (retention_days_hot : ℕ) (now : Time) (p : ListParams)
      → IsServed Any (Certs.list encode domain retention_days_hot now p)
  unfolding Certs.list Store.Certs.list_by_registered_domain
  certs-IsServed encode retention_days_hot now p =
      bind-IsServed Any Any _ _ (selects _) λ rows _. respond-IsServed Any _ tt

-- what crt.sh answers to a URL is a success
abbrev pub IsPassed : (Text → Option (ℕ × List ℕ)) → Text → Type 0
IsPassed fetch url =
    (status : ℕ) × (body : List ℕ) × (fetch url ≡ some (status, body))
    × ((leb 200 status && ltb status 300) ≡ true)

module _ (decode : Text → Option (List ℕ)) where
  pub cert-IsServed :
      (encode : List ℕ → Text) (hash_hex : Text) → IsServed Any (Certs.one decode encode hash_hex)
  unfolding Certs.one Store.Certs.get_one
  cert-IsServed encode hash_hex =
      bind-IsServed Any Any _ _ (found_or-IsServed _ (decode hash_hex) (bad_request-IsServed Any _))
        λ hash _. bind-IsServed Any Any _ _ (selects _) λ found _.
          bind-IsServed Any Any _ _ (found_or-IsServed _ found (not_found-IsServed Any _))
            λ row _. respond-IsServed Any _ tt

  module _ (fetch : Text → Option (ℕ × List ℕ)) (passes : (url : Text) → IsPassed fetch url) where
    passed-IsServed :
        (content_type url : Text) → IsServed Any (passed decode fetch content_type (fetch url))
    passed-IsServed content_type url =
        let (status, body, e, ok_status) = passes url in
        rw (e, ok_status) (respond-IsServed Any _ tt)

    pub raw-IsServed : (url hash_hex : Text) → IsServed Any (Certs.raw decode fetch url hash_hex)
    unfolding Certs.raw
    raw-IsServed url hash_hex =
        bind-IsServed Any Any _ _
          (found_or-IsServed _ (decode hash_hex) (bad_request-IsServed Any _))
          λ hash _.
            passed-IsServed (text "application/pkix-cert") (url ++ (text "/?d=" ++ hash_hex))

    pub observations-IsServed :
        (url hash_hex : Text) → IsServed Any (Certs.observations decode fetch url hash_hex)
    unfolding Certs.observations
    observations-IsServed url hash_hex =
        bind-IsServed Any Any _ _
          (found_or-IsServed _ (decode hash_hex) (bad_request-IsServed Any _))
          λ hash _.
            passed-IsServed (text "application/json")
              (url ++ (text "/?q=" ++ (hash_hex ++ text "&output=json")))
