-- ===== src/Examples/Api.antt =====
-- The properties of src/api, src/store and src/config.rs at one input each.
use ctwatch.Base.{
  ◌*◌, ◌%◌, ◌≡◌, ◌≢◌, refl, true, false, none, some, List, [], ◌∷◌, ◌++◌, arith, filter, length,
  ltb, if◌then◌else◌,
}
use ctwatch.Base.Int.{pos, u64_mod}
use ctwatch.Base.Result.{ok}
use ctwatch.Base.Text.{text, beq, beq_iff, decimal}
use ctwatch.Api.Admin.{redeliver}
use ctwatch.Api.Admin.Outcome.{IsUnique, RedeliverOutcome, redeliver-RedeliverOutcome}
use ctwatch.Api.Certs.{one}
use ctwatch.Api.Certs.Outcome.{OneOutcome, one-OneOutcome}
use ctwatch.Api.Lookup.{Params, handler}
use ctwatch.Api.Lookup.Outcome.{LookupOutcome, handler-LookupOutcome}
use ctwatch.Api.{success}
use ctwatch.Api.Status.{HealthJson, is_usable, health}
use ctwatch.Api.Status.Health.{health_answers}
use ctwatch.Stats.Snapshot.{days_before}
use ctwatch.Store.Reads.{certs_since}
use ctwatch.Api.Watchlist.Spec.{Request, get, post, delete, handle_all, Steps}
use ctwatch.Api.Watchlist.Refinement.{members, handle_all-refines}
use ctwatch.Config.Duration.{deserialize, deserialize-decimal}
use ctwatch.Examples.{db, cert_row}
use ctwatch.Store.Db.{Db, NameRow, Cursor, answered, later}
use ctwatch.Store.Watchlist.{has_domain}
use ctwatch.Store.Watchlist.Laws.{IsKeyed}

abbrev name_row : NameRow
name_row = record {
  name = text "www.a.example";
  registered_domain = text "a.example";
  first_seen = 3;
  last_seen = 4;
  cert_count = 2;
}

abbrev cursor : Cursor
cursor = record {
  log_id = 1 ∷ [];
  log_url = text "https://log/";
  operator = text "op";
  last_tree_size = pos 7;
  last_updated = 4;
  state = text "usable";
}

-- a database whose second statement fails
abbrev pub full_db : Db
full_db = record db {
  certs = cert_row ∷ [];
  names_observed = name_row ∷ [];
  ingest_cursors = cursor ∷ [];
  watchlist = record { domain = text "a.example"; notes = none } ∷ [];
  answers = true ∷ false ∷ [];
}

abbrev requests : List Request
requests =
    post (record { domain = text "B.example"; notes = none })
    ∷ get
    ∷ delete (text "a.example")
    ∷ delete (text "c.example")
    ∷ get
    ∷ []

full_db-IsKeyed : IsKeyed full_db.watchlist
unfolding has_domain
full_db-IsKeyed = (refl, tt)

handle_all-refines_example :
    Steps
      (λ d. none)
      full_db.answers
      requests
      (members full_db)
      (handle_all (text "db") (λ d. none) requests full_db).0
      (members (handle_all (text "db") (λ d. none) requests full_db).1)
    × IsKeyed (handle_all (text "db") (λ d. none) requests full_db).1.watchlist
handle_all-refines_example = handle_all-refines (λ d. none) requests full_db full_db-IsKeyed

file_mode : text "file" ≢ text "db"
file_mode = λ h. ground (arith, beq_iff (text "file") (text "db"))

abbrev params : Params
params = record {
  domain = text " A.example";
  since = some 2;
  contains = none;
  limit = some (pos 20000);
}

handler-LookupOutcome_example :
    LookupOutcome beq
      (λ d. some d)
      400
      9
      params
      full_db
      (handler beq (λ d. some d) 400 9 params full_db)
handler-LookupOutcome_example = handler-LookupOutcome beq (λ d. some d) 400 9 params full_db

one-OneOutcome_example :
    OneOutcome
      (λ h. some (4 ∷ []))
      (λ b. text "04")
      (text "04")
      full_db
      (one (λ h. some (4 ∷ [])) (λ b. text "04") (text "04") full_db)
one-OneOutcome_example = one-OneOutcome (λ h. some (4 ∷ [])) (λ b. text "04") (text "04") full_db

db-IsUnique : IsUnique db.webhook_outbox
db-IsUnique id = ground arith

redeliver-RedeliverOutcome_example :
    RedeliverOutcome (some 7) db (redeliver (λ e. some 7) (text "7") db)
redeliver-RedeliverOutcome_example =
    redeliver-RedeliverOutcome (λ e. some 7) (text "7") db db-IsUnique

health_answers_example :
    (j : HealthJson) × (health (text "0.1") 90 9 full_db
      ≡ (success j, record full_db { answers = later (later (later full_db.answers)) }))
    × (j.total_certs
        ≡ (if answered full_db.answers then length (certs_since (days_before 9 90) full_db) else 0))
    × (j.total_names
        ≡ (if answered (later full_db.answers) then length full_db.names_observed else 0))
    × (j.logs_usable ≡ (
        if answered (later (later full_db.answers))
        then length (filter is_usable full_db.ingest_cursors)
        else 0))
    × (j.ok ≡ ltb 0 j.logs_usable)
health_answers_example = health_answers (text "0.1") 90 9 full_db

deserialize-decimal_example :
    (deserialize (decimal 90) ≡ ok 90)
    × (deserialize (decimal 90 ++ b's' ∷ []) ≡ ok 90)
    × (deserialize (decimal 90 ++ b'm' ∷ []) ≡ ok (90 * 60 % u64_mod))
deserialize-decimal_example = deserialize-decimal 90 (omega arith)
