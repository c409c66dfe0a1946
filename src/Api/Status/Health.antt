-- ===== src/Api/Status/Health.antt =====
-- What the handler of src/api/health.rs answers, and the healthcheck that asks it.
use ctwatch.Base.{
  ℕ, ◌≡◌, refl, ap, ◌∙◌, Bool, true, false, ◌&&◌, if◌then◌else◌, [], filter, length, ltb,
}
use ctwatch.Base.Result.{ok, err, database_error}
use ctwatch.Base.Exec.{Exec}
use ctwatch.Base.Text.{Text}
use ctwatch.Api.{success, answer_or, query_or, ◌>>=◌}
use ctwatch.Api.Status.{HealthJson, is_usable, health_json, health}
use ctwatch.Stats.Snapshot.{days_before}
use ctwatch.Store.Db.{Time, Db, answered, later}
use ctwatch.Store.Reads.{
  all_answered, left_after, Reads, certs_since, count_in_window-Reads, names-count-Reads,
  cursors-list-Reads,
}

module _ {A : Type 0} (f : Db → A) (m : Exec Db A) (default : A) where
  pub query_or-Reads :
      Reads 1 f m
      → (db : Db)
      → query_or default m db ≡ (
        success (if answered db.answers then f db else default),
        record db { answers = later db.answers },
      )
  unfolding query_or all_answered left_after
  query_or-Reads r db =
      ap (answer_or default) (r.from db)
      ∙ (elim (answered db.answers)
          as (λ b.
            answer_or default (
              if b && true then ok (f db) else err database_error,
              record db { answers = if b then later db.answers else later db.answers },
            )
            ≡ (success (if b then f db else default), record db { answers = later db.answers })) [
              | true ↦ refl
              | false ↦ refl
            ])

-- GET /v1/healthz has status 200 whatever the database answers, where ARCHITECTURE.md asks for 503: only
-- the body tells. Each of its three statements may fail by itself: its count is that of the tables, or 0
-- where it is not answered, and `ok` says whether a log counts as usable. No table changes.
pub health_answers :
    (version : Text) (retention_days_hot : ℕ) (now : Time) (db : Db)
    → (j : HealthJson) × (health version retention_days_hot now db
        ≡ (success j, record db { answers = later (later (later db.answers)) }))
      × (j.total_certs ≡ (
          if answered db.answers
          then length (certs_since (days_before now retention_days_hot) db)
          else 0))
      × (j.total_names ≡ (if answered (later db.answers) then length db.names_observed else 0))
      × (j.logs_usable ≡ (
          if answered (later (later db.answers))
          then length (filter is_usable db.ingest_cursors)
          else 0))
      × (j.ok ≡ ltb 0 j.logs_usable)
unfolding health ◌>>=◌
health_answers version retention_days_hot now db =
    let e1 = query_or-Reads _ _ 0 (count_in_window-Reads (days_before now retention_days_hot)) db in
    let e2 = query_or-Reads _ _ 0 names-count-Reads (record db { answers = later db.answers }) in
    let e3 =
      query_or-Reads _ _ [] cursors-list-Reads (record db { answers = later (later db.answers) }) in
    (
      health_json version _ _ _,
      rw (e1, e2, e3) refl,
      refl,
      refl,
      usable (answered (later (later db.answers))),
      refl,
    )
  where
    usable :
        (b : Bool)
        → length (filter is_usable (if b then db.ingest_cursors else []))
          ≡ (if b then length (filter is_usable db.ingest_cursors) else 0)
    usable true = refl
    usable false = refl
