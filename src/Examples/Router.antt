-- ===== src/Examples/Router.antt =====
-- The properties of the router of src/api/mod.rs at one input each.
use ctwatch.Base.{In, ◌≡◌, ◌≢◌, refl, some, Bool, List, [], ◌∷◌}
use ctwatch.Base.Text.{text, beq}
use ctwatch.Api.Router.{AppState, Outside, stats, cert_raw, redeliver, method_of, router}
use ctwatch.Api.Router.Contract.Routes.{router_statuses}
use ctwatch.Api.Router.Safe.{router_reads}
use ctwatch.Api.Router.Statuses.{router_status}
use ctwatch.Examples.{db}
use ctwatch.Examples.Api.{full_db}
use ctwatch.Examples.Serve.{config}
use ctwatch.Stats

abbrev state : AppState
state = record { counters = Stats.new; config = config }

abbrev outside : Outside
outside = record {
  encode = λ b. text "04";
  decode = λ t. some (4 ∷ []);
  like = beq;
  domain = λ d. some d;
  parse_str = λ t. some 7;
  fetch = λ url. some (200, 1 ∷ []);
  render = text "metrics";
  version = text "0.1";
  now = 9;
  instant = 8;
  elapsed = 7;
}

router_reads_example :
    (answers : List Bool) × ((router outside state stats full_db).1
      ≡ record full_db { answers = answers })
unfolding method_of
router_reads_example = router_reads outside state stats full_db refl

router_status_example : (router outside state (cert_raw (text "04")) db).0.status ≢ 500
router_status_example =
    router_status outside state (cert_raw (text "04")) db (λ url. (200, 1 ∷ [], refl, refl)) tt

router_statuses_example :
    In (router outside state (redeliver (text "7")) db).0.status (202 ∷ 400 ∷ 404 ∷ 500 ∷ [])
router_statuses_example = router_statuses outside state (redeliver (text "7")) db
