-- ===== src/Api/Router/Contract/Routes.antt =====
-- The handlers of src/api, each with the statuses of its route.
use ctwatch.Base.{
  ℕ, ◌≡◌, refl, sym, Bool, true, false, Option, none, some, List, [], ◌∷◌, ◌++◌, In, inl, inr, ◌⊎◌,
  if◌then◌else◌,
}
use ctwatch.Base.Text.{Text, text}
use ctwatch.Api.Admin
use ctwatch.Api.Certs
use ctwatch.Api.Certs.{passed}
use ctwatch.Api.Lookup
use ctwatch.Api.Router.{
  AppState, Outside, Call, healthz, metrics, logs, stats, watchlist, lookup, certs, cert, cert_raw,
  cert_observations, add_domain, remove_domain, redeliver, stream, upgraded, render_metrics,
  handler_of, router,
}
use ctwatch.Api.Router.Served.{Any}
use ctwatch.Api.Status
use ctwatch.Api.Watchlist
use ctwatch.Store.Db.{Db}
use ctwatch.Stream.Handler.{Upgrade, service_unavailable, too_many_requests, accepted}
use ctwatch.Api.Router.Contract.{
  statuses_of, Keeps, respond-Keeps, refuse-Keeps, if-Keeps, bind-Keeps, query-Keeps,
  query_or-Keeps, found_or-Keeps, IsAllowed, json-Keeps, response_of-Allowed,
}

module _ (o : Outside) (s : AppState) where
  health-Keeps : Keeps (200 ∷ []) (IsAllowed (200 ∷ [])) (handler_of o s healthz)
  unfolding handler_of Status.health
  health-Keeps = json-Keeps _ _ _ (inl refl) (
      bind-Keeps _ _ Any _ _ (query_or-Keeps _ 0 _) λ certs _.
        bind-Keeps _ _ Any _ _ (query_or-Keeps _ 0 _) λ names _.
          bind-Keeps _ _ Any _ _ (query_or-Keeps _ [] _) λ cursors _. respond-Keeps _ Any _ tt)

  passed-Keeps :
      (statuses : List ℕ) (content_type : Text) (a : Option (ℕ × List ℕ))
      → In 500 statuses
      → Keeps statuses Any (passed o.decode o.fetch content_type a)
  passed-Keeps statuses content_type none h = refuse-Keeps _ Any _ h
  passed-Keeps statuses content_type (some (status, body)) h =
      if-Keeps _ Any _ _ _ (respond-Keeps _ Any _ tt) (refuse-Keeps _ Any _ h)

  either : (b : Bool) (m n : ℕ) → ((if b then m else n) ≡ m) ⊎ ((if b then m else n) ≡ n)
  either true m n = inl refl
  either false m n = inr refl

  upgraded_statuses : (u : Upgrade) → In (upgraded u).0 (101 ∷ 429 ∷ 503 ∷ [])
  unfolding upgraded
  upgraded_statuses service_unavailable = inr (inr (inl refl))
  upgraded_statuses too_many_requests = inr (inl refl)
  upgraded_statuses (accepted f) = inl refl

  handler_of-Keeps :
      (c : Call) → Keeps (statuses_of c) (IsAllowed (statuses_of c)) (handler_of o s c)
  unfolding handler_of render_metrics IsAllowed Status.logs Status.stats Watchlist.list
      Watchlist.add Watchlist.remove Lookup.handler Lookup.lookup Certs.list Certs.one Certs.raw
      Certs.observations Admin.redeliver
  handler_of-Keeps healthz = health-Keeps
  handler_of-Keeps metrics = respond-Keeps _ _ _ (inl refl)
  handler_of-Keeps logs = json-Keeps _ _ _ (inl refl) (
      bind-Keeps _ Any Any _ _ (query-Keeps _ _ (inr (inl refl)))
        λ cursors _. respond-Keeps _ Any _ tt)
  handler_of-Keeps stats = json-Keeps _ _ _ (inl refl) (query-Keeps _ _ (inr (inl refl)))
  handler_of-Keeps watchlist = json-Keeps _ _ _ (inl refl) (
      if-Keeps _ Any _ _ _ (query-Keeps _ _ (inr (inr (inl refl))))
        (refuse-Keeps _ Any _ (inr (inl refl))))
  handler_of-Keeps (lookup p) = json-Keeps _ _ _ (inl refl) (
      if-Keeps _ Any _ _ _ (refuse-Keeps _ Any _ (inr (inl refl))) (
        bind-Keeps _ Any Any _ _ (query-Keeps _ _ (inr (inr (inl refl))))
          λ rows _. respond-Keeps _ Any _ tt))
  handler_of-Keeps (certs p) = json-Keeps _ _ _ (inl refl) (
      bind-Keeps _ Any Any _ _ (query-Keeps _ _ (inr (inl refl)))
        λ rows _. respond-Keeps _ Any _ tt)
  handler_of-Keeps (cert hash_hex) = json-Keeps _ _ _ (inl refl) (
      bind-Keeps _ Any Any _ _ (found_or-Keeps _ _ (o.decode hash_hex) (inr (inl refl))) λ hash _.
        bind-Keeps _ Any Any _ _ (query-Keeps _ _ (inr (inr (inr (inl refl))))) λ found _.
          bind-Keeps _ Any Any _ _ (found_or-Keeps _ _ found (inr (inr (inl refl))))
            λ row _. respond-Keeps _ Any _ tt)
  handler_of-Keeps (cert_raw hash_hex) = json-Keeps _ _ _ (inl refl) (
      bind-Keeps _ Any Any _ _ (found_or-Keeps _ _ (o.decode hash_hex) (inr (inl refl))) λ hash _.
        passed-Keeps _ (text "application/pkix-cert")
          (o.fetch (s.config.crtsh_base_url ++ (text "/?d=" ++ hash_hex))) (inr (inr (inl refl))))
  handler_of-Keeps (cert_observations hash_hex) = json-Keeps _ _ _ (inl refl) (
      bind-Keeps _ Any Any _ _ (found_or-Keeps _ _ (o.decode hash_hex) (inr (inl refl))) λ hash _.
        passed-Keeps _ (text "application/json")
          (o.fetch (s.config.crtsh_base_url ++ (text "/?q=" ++ (hash_hex ++ text "&output=json"))))
          (inr (inr (inl refl))))
  handler_of-Keeps (add_domain b) =
      bind-Keeps _ _ (λ a. (a.0 ≡ 201) ⊎ (a.0 ≡ 200)) _ _
        (if-Keeps _ _ _ _ _
          (bind-Keeps _ _ Any _ _ (query-Keeps _ _ (inr (inr (inr (inl refl)))))
            λ added _. respond-Keeps _ _ _ (either added 201 200))
          (refuse-Keeps _ _ _ (inr (inr (inl refl)))))
        λ a h. respond-Keeps _ _ _ (elim h [ inl e ↦ inr (inl (sym e)) | inr e ↦ inl (sym e) ])
  handler_of-Keeps (remove_domain d) =
      bind-Keeps _ _ (λ a. (a ≡ 204) ⊎ (a ≡ 404)) _ _
        (if-Keeps _ _ _ _ _
          (bind-Keeps _ _ Any _ _ (query-Keeps _ _ (inr (inr (inr (inl refl)))))
            λ removed _. respond-Keeps _ _ _ (either removed 204 404))
          (refuse-Keeps _ _ _ (inr (inr (inl refl)))))
        λ a h. respond-Keeps _ _ _ (elim h [ inl e ↦ inl (sym e) | inr e ↦ inr (inl (sym e)) ])
  handler_of-Keeps (redeliver event_id) =
      bind-Keeps _ _ (λ a. a ≡ 202) _ _
        (bind-Keeps _ _ Any _ _ (found_or-Keeps _ _ (o.parse_str event_id) (inr (inl refl))) λ id _.
          bind-Keeps _ _ Any _ _ (query-Keeps _ _ (inr (inr (inr (inl refl))))) λ found _.
            if-Keeps _ _ found _ _ (respond-Keeps _ _ _ refl)
              (refuse-Keeps _ _ _ (inr (inr (inl refl)))))
        λ a h. respond-Keeps _ _ _ (inl (sym h))
  handler_of-Keeps (stream domains) = respond-Keeps _ _ _ (upgraded_statuses _)

  -- Each route answers with no status but its own: 200 and 500, or 200 alone for the health and the metrics;
  -- 400 where a parameter or the mode of the watchlist may not do, 404 where what is asked for may be
  -- missing, 201, 202 and 204 for what is added, put off to be sent again and removed; 101, 429 and 503
  -- for the stream. ARCHITECTURE.md names other statuses in three places, which the code never answers
  -- with: 405 for a write outside db mode, 503 where crt.sh fails, and 503 of the health.
  pub router_statuses : (c : Call) (db : Db) → In (router o s c db).0.status (statuses_of c)
  unfolding router
  router_statuses c db =
      response_of-Allowed (statuses_of c) (handler_of o s c db).0 ((handler_of-Keeps c).from db)
