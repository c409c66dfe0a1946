-- ===== src/Ingest/Backfill/Walk.antt =====
-- The walk of src/ingest/backfill_worker.rs: its numbers, its jobs and its statements.
pub mod Sends
use ctwatch.Base.{
  ℕ, ◌+◌, ◌-◌, ◌%◌, ◌≤◌, ◌<◌, ◌≡◌, ◌==◌, refl, sym, ap, ◌∙◌, Bool, true, false, Bool-cases, inl,
  inr, List, [], ◌∷◌, ◌++◌, append_assoc, append-nil, arith, ltb, ltb→lt, max, length, All, map,
  take, drop, drop-drop, take-add, take-length-take, length-take, length-drop, if◌then◌else◌,
}
use ctwatch.Base.Int.{ℤ, pos, as_u64, u64_mod, i64_mod}
use ctwatch.Base.Result.{Result, ok, err}
use ctwatch.Base.Exec.{Exec, pure, ◌>>=◌, ◌>>◌, attempt}
use ctwatch.Ingest.Backfill.{add_i64, batch_end, send_decoded, batch, walk}
use ctwatch.Ingest.Client.{RawEntry, Server, get_entries}
use ctwatch.Ingest.Entry.{DecodedEntry, decode_leaf}
use ctwatch.Ingest.LogList.{CtLog}
use ctwatch.Ingest.Worker.{job_of}
use ctwatch.Store.Answering.{IsAnswering, Succeeds, statement-Succeeds, answered-AllTrue}
use ctwatch.Store.BackfillJobs
use ctwatch.Store.BackfillJobs.{update_id}
use ctwatch.Store.Db.{Job, completed, Db, later, statement}
use ctwatch.Writer.Job.{WriterJob, World, send, on_db}

abbrev pub most : ℕ
most = 4611686018427387904

pub add_i64-small : (c n : ℕ) → c + n < i64_mod → add_i64 (pos c) n ≡ pos (c + n)
unfolding add_i64
add_i64-small c n h =
    let m : (c + n) % u64_mod ≡ c + n = omega arith in
    let b : ltb (c + n) i64_mod ≡ true = ground arith in rw (m, b)

pub batch_end-le :
    (c batch_size e : ℕ)
    → 1 ≤ batch_size
    → batch_size ≤ 4294967295
    → c < e
    → e < most
    → c ≤ as_u64 (batch_end (pos c) batch_size (pos e))
unfolding batch_end add_i64
batch_end-le c batch_size e low high h bound = ground arith

-- The server answers a range that begins in the tree with one or more consecutive entries of it.
abbrev pub Serves : CtLog → List RawEntry → Server → Type 0
Serves log tree s =
    (from to : ℕ)
    → from ≤ to
    → from < length tree
    → (n : ℕ) × (1 ≤ n) × (get_entries s log.url from to ≡ ok (take n (drop from tree)))

-- the jobs of the entries that decode, in their order
abbrev pub jobs_in : CtLog → List RawEntry → List WriterJob
jobs_in log [] = []
jobs_in log (raw ∷ entries) = elim (decode_leaf raw.leaf_input raw.extra_data) [
  | ok decoded ↦ job_of log decoded ∷ jobs_in log entries
  | err e ↦ jobs_in log entries
]

pub jobs_in-append :
    (log : CtLog) (xs ys : List RawEntry)
    → jobs_in log (xs ++ ys) ≡ jobs_in log xs ++ jobs_in log ys
jobs_in-append log [] ys = refl
jobs_in-append log (raw ∷ xs) ys =
    first (decode_leaf raw.leaf_input raw.extra_data) (jobs_in-append log xs ys)
  where
    first :
        (d : Result DecodedEntry)
        → jobs_in log (xs ++ ys) ≡ jobs_in log xs ++ jobs_in log ys
        → (elim d [
          | ok decoded ↦ job_of log decoded ∷ jobs_in log (xs ++ ys)
          | err e ↦ jobs_in log (xs ++ ys)
        ])
          ≡ (elim d [ ok decoded ↦ job_of log decoded ∷ jobs_in log xs | err e ↦ jobs_in log xs ])
            ++ jobs_in log ys
    first (ok decoded) ih = ap (λ js. job_of log decoded ∷ js) ih
    first (err e) ih = ih

abbrev pub handed : World → List WriterJob → World
handed w jobs = record w { sent = w.sent ++ jobs }

send_open :
    (job : WriterJob) (w : World) → w.writer_open ≡ true → send job w ≡ (ok tt, handed w (job ∷ []))
unfolding send
send_open job w h = rw h refl

pub send_decoded_sends :
    (log : CtLog) (entries : List RawEntry) (w : World)
    → w.writer_open ≡ true
    → send_decoded log entries w ≡ (ok tt, handed w (jobs_in log entries))
unfolding send_decoded ◌>>=◌
send_decoded_sends log [] w h =
    ap (λ (s : List WriterJob). (ok tt, record w { sent = s })) (sym (append-nil w.sent))
send_decoded_sends log (raw ∷ entries) w h =
    first (decode_leaf raw.leaf_input raw.extra_data) (send_decoded_sends log entries)
  where
    first :
        (d : Result DecodedEntry)
        → ((v : World)
            → v.writer_open ≡ true
            → send_decoded log entries v ≡ (ok tt, handed v (jobs_in log entries)))
        → let m : Exec World (Unit {0}) = elim d [
          | ok decoded ↦ attempt (send (job_of log decoded)) >>= λ _. send_decoded log entries
          | err e ↦ send_decoded log entries
        ] in
          m w ≡ (
            ok tt,
            handed w (elim d [
              | ok decoded ↦ job_of log decoded ∷ jobs_in log entries
              | err e ↦ jobs_in log entries
            ]),
          )
    first (ok decoded) ih = rw (send_open (job_of log decoded) w h) (
        ih (handed w (job_of log decoded ∷ [])) h
        ∙ ap (λ (s : List WriterJob). (ok tt, record w { sent = s }))
            (append_assoc w.sent (job_of log decoded ∷ []) (jobs_in log entries)))
    first (err e) ih = ih w h

pub update_progress-Succeeds : (id : ℕ) (p : ℤ) → Succeeds (BackfillJobs.update_progress id p)
unfolding BackfillJobs.update_progress
update_progress-Succeeds id p = statement-Succeeds _ λ db. (tt, _, refl, refl)

abbrev pub IsCompleted : ℕ → List Job → Type 0
IsCompleted job_id jobs = All (λ (j : Job). j.id ≡ job_id → j.status ≡ completed) jobs

pub complete-IsCompleted :
    (job_id : ℕ) (db : Db)
    → IsAnswering db
    → (db' : Db) × (BackfillJobs.complete job_id db ≡ (ok tt, db'))
      × IsCompleted job_id db'.backfill_jobs
unfolding BackfillJobs.complete statement update_id
complete-IsCompleted job_id db u = (
  record db {
    answers = later db.answers;
    backfill_jobs = update_id job_id (λ j. record j { status = completed }) db.backfill_jobs;
  },
  rw (answered-AllTrue db.answers u) refl,
  marked db.backfill_jobs,
)
  where
    marked :
        (jobs : List Job)
        → IsCompleted job_id
            (map (λ (j : Job). if j.id == job_id then record j { status = completed } else j) jobs)
    marked [] = tt
    marked (j ∷ jobs) = (
      elim (Bool-cases (j.id == job_id)) [
        | inl e ↦ rw e (λ h. refl)
        | inr e ↦ rw e (λ h. absurd (ground arith))
      ],
      marked jobs,
    )
