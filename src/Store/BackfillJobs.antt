-- ===== src/Store/BackfillJobs.antt =====
-- src/store/backfill_jobs.rs: the table backfill_jobs, with at most one running job for a log and a
-- start time (the unique index of migrations/0008_backfill_jobs.sql).
use ctwatch.Base.{
  ℕ, ◌+◌, Bool, true, false, ◌&&◌, List, [], ◌∷◌, map, Option, none, some, filter, any, length,
  ◌==◌, if◌then◌else◌,
}
use ctwatch.Base.Int.{ℤ}
use ctwatch.Base.Text.{beq}
use ctwatch.Base.Result.{ok, err, database_error}
use ctwatch.Base.Exec.{Exec}
use ctwatch.Store.Db.{Time, running, completed, failed, Job, Db, statement}

unfoldable pub is_running : Job → Bool
is_running j = elim j.status [ running ↦ true | _ ↦ false ]

unfoldable pub is_completed : Job → Bool
is_completed j = elim j.status [ completed ↦ true | _ ↦ false ]

unfoldable pub active_count : Exec Db ℕ
unfolding is_running
active_count = statement λ db. (ok (length (filter is_running db.backfill_jobs)), db)

unfoldable pub completed_count : Exec Db ℕ
unfolding is_completed
completed_count = statement λ db. (ok (length (filter is_completed db.backfill_jobs)), db)

unfoldable pub is_active : List ℕ → Time → Job → Bool
unfolding is_running
is_active log_id target_since j =
    beq j.log_id log_id && j.target_since == target_since && is_running j

unfoldable pub insert : List ℕ → Time → ℤ → ℤ → Exec Db ℕ
unfolding is_active
insert log_id target_since target_start_index target_end_index = statement λ db.
    if any (is_active log_id target_since) db.backfill_jobs then (err database_error, db) else (
      ok db.jobs_next_id,
      record db {
        backfill_jobs =
            record {
              id = db.jobs_next_id;
              log_id = log_id;
              target_since = target_since;
              target_start_index = target_start_index;
              target_end_index = target_end_index;
              progress_index = target_start_index;
              status = running;
            }
            ∷ db.backfill_jobs;
        jobs_next_id = db.jobs_next_id + 1;
      },
    )

abbrev pub first_job : List Job → Option Job
first_job [] = none
first_job (j ∷ jobs) = some j

unfoldable pub find_active : List ℕ → Time → Exec Db (Option Job)
unfolding is_active
find_active log_id target_since =
    statement λ db. (ok (first_job (filter (is_active log_id target_since) db.backfill_jobs)), db)

-- UPDATE … WHERE id = $1
unfoldable pub update_id : ℕ → (Job → Job) → List Job → List Job
update_id id f jobs = map (λ (j : Job). if j.id == id then f j else j) jobs

unfoldable pub update_progress : ℕ → ℤ → Exec Db (Unit {0})
unfolding update_id
update_progress id progress = statement λ db. (
  ok tt,
  record db {
    backfill_jobs = update_id id (λ j. record j { progress_index = progress }) db.backfill_jobs;
  },
)

unfoldable pub complete : ℕ → Exec Db (Unit {0})
unfolding update_id
complete id = statement λ db. (
  ok tt,
  record db {
    backfill_jobs = update_id id (λ j. record j { status = completed }) db.backfill_jobs;
  },
)

unfoldable pub fail : ℕ → Exec Db (Unit {0})
unfolding update_id
fail id = statement λ db. (
  ok tt,
  record db { backfill_jobs = update_id id (λ j. record j { status = failed }) db.backfill_jobs },
)
