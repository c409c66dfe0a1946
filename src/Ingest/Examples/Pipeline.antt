-- ===== src/Ingest/Examples/Pipeline.antt =====
-- The worker and the writer together, at one input.
use ctwatch.Base.{true, ℕ, ap, sym, ◌≡◌, refl, arith, List, [], ◌∷◌, some}
use ctwatch.Base.Exec.{◌>>=◌}
use ctwatch.Examples.{certificate, seconds_to_time, matcher, writer}
use ctwatch.Ingest.Examples.{
  log, tree, server, serves_tree, world_at, found_1, leaf_at, get_entries-server, db_at,
}
use ctwatch.Ingest.Examples.Others.{decode_at}
use ctwatch.Base.Text.{beq}
use ctwatch.Base.Result.{ok}
use ctwatch.Ingest.Worker.{
  run, rounds, tick, follow, fetch, deliver, send_entries, job_of, is_zero, end_inclusive,
}
use ctwatch.Ingest.Client.{get_sth, base64}
use ctwatch.Store.Cursors.{current_cursor, find, advance, advance_row}
use ctwatch.Store.Db.{answered, later, statement}
use ctwatch.Writer.Job.{World, WriterJob, on_db, send}
use ctwatch.Writer.Loop.{Turn, loop, step}
use ctwatch.Writer.Flush.{turn, next_batch}
use ctwatch.Pipeline.{Reached, loop-run_stores}

abbrev world_after : ℕ → List WriterJob → World
world_after n jobs = record { db = db_at n; sent = jobs; writer_open = true }

abbrev job_at : ℕ → WriterJob
job_at t = job_of log (leaf_at t)

tick_1 : tick server log 5 (world_at 1) ≡ (ok true, world_after 2 (job_at 20 ∷ []))
unfolding tick follow fetch deliver send_entries get_sth base64 server current_cursor find on_db
    send ◌>>=◌ statement answered later is_zero end_inclusive advance advance_row beq
tick_1 = rw (get_entries-server 1 2 (omega arith) (omega arith), decode_at 20 (omega arith)) refl

abbrev ran : World
ran = (run 10 log 5 (server ∷ []) (world_at 1)).0

ran-world_after : ran ≡ world_after 2 (job_at 20 ∷ [])
unfolding run rounds
ran-world_after = ap (λ r. r.1) tick_1

abbrev busy : Turn
busy = record { arrivals = job_at 20 ∷ []; now = 5; matcher = matcher }

-- what that turn leaves in the channel
abbrev emptied : List WriterJob
emptied =
    (loop (λ b. b) (λ der. some certificate) (λ d. some d) seconds_to_time (λ n. n) 30 (busy ∷ [])
      [] writer).0

emptied-nil : emptied ≡ []
unfolding loop step turn next_batch
emptied-nil = refl

loop-run_stores_example :
    Reached
      (λ b. b)
      (λ der. some certificate)
      (λ d. some d)
      seconds_to_time
      (λ n. n)
      30
      log
      tree
      1
      (run 10 log 5 (server ∷ []) (world_at 1)).0
      (busy ∷ [])
      (loop
        (λ b. b)
        (λ der. some certificate)
        (λ d. some d)
        seconds_to_time
        (λ n. n)
        30
        (busy ∷ [])
        []
        writer).1
loop-run_stores_example =
    loop-run_stores (λ b. b) (λ der. some certificate) (λ d. some d) seconds_to_time (λ n. n) 30 10
      log 5 tree (server ∷ []) (world_at 1) 1 (busy ∷ []) writer (omega arith) (omega arith)
      (omega arith) found_1 (serves_tree, tt) tt (sym (ap (λ (w : World). w.sent) ran-world_after))
      emptied-nil
