-- ===== src/Ingest/Backfill/Walk/Sends.antt =====
-- What the walk of src/ingest/backfill_worker.rs hands to the writer.
use ctwatch.Base.{
  ℕ, ◌+◌, ◌-◌, ◌≤◌, ◌<◌, ◌≡◌, refl, sym, ap, ◌∙◌, Bool, true, false, Bool-cases, inl, inr, List, [],
  ◌∷◌, ◌++◌, append_assoc, append-nil, arith, ltb, ltb→lt, max, length, All, take, drop, drop-drop,
  take-add, take-length-take, length-take, length-drop,
}
use ctwatch.Base.Int.{pos, as_u64}
use ctwatch.Base.Result.{Result, ok}
use ctwatch.Base.Exec.{pure, ◌>>=◌, ◌>>◌}
use ctwatch.Ingest.Backfill.{add_i64, batch_end, batch, walk}
use ctwatch.Ingest.Backfill.Walk.{
  most, add_i64-small, batch_end-le, Serves, jobs_in, jobs_in-append, handed, send_decoded_sends,
  update_progress-Succeeds, IsCompleted, complete-IsCompleted,
}
use ctwatch.Ingest.Client.{RawEntry, Server}
use ctwatch.Ingest.LogList.{CtLog}
use ctwatch.Store.Answering.{IsAnswering}
use ctwatch.Store.BackfillJobs
use ctwatch.Store.Db.{Db}
use ctwatch.Writer.Job.{WriterJob, World, on_db}

-- The walk has completed the job at a cursor that is at or past the end, and what it has sent since it
-- was at `c` are the jobs of the entries from there up to that cursor, in their order.
pub record Walked (log : CtLog) (job_id e : ℕ) (tree : List RawEntry) (c : ℕ) (w : World)
    (r : Result Bool × World) : Type 0 where
  pub reached : ℕ
  pub onward : c ≤ reached
  pub past : e ≤ reached
  pub ended : r.0 ≡ ok true
  pub sent : r.1.sent ≡ w.sent ++ jobs_in log (take (reached - c) (drop c tree))
  pub marked : IsCompleted job_id r.1.db.backfill_jobs

module _ (log : CtLog) (batch_size job_id e : ℕ) (tree : List RawEntry) (low : 1 ≤ batch_size)
    (high : batch_size ≤ 4294967295) (bound : length tree < most) (inside : e < length tree) where
  -- A round that is served: the entries, their jobs, and the cursor behind them.
  batch-sends :
      (s : Server) (c : ℕ) (w : World)
      → Serves log tree s
      → c < e
      → w.writer_open ≡ true
      → IsAnswering w.db
      → (n : ℕ) × (db' : Db) × (1 ≤ length (take n (drop c tree)))
        × (batch log batch_size job_id (pos e) s (pos c) w ≡ (
          ok (pos (c + length (take n (drop c tree)))),
          record (handed w (jobs_in log (take n (drop c tree)))) { db = db' },
        ))
        × IsAnswering db'
  unfolding batch ◌>>=◌ on_db
  batch-sends s c w up h open_ u =
      let (n, some_entry, served) =
        up c (as_u64 (batch_end (pos c) batch_size (pos e)))
          (batch_end-le c batch_size e low high h (omega arith)) (omega arith) in
      let entries = take n (drop c tree) in
      let count : (1 ≤ length entries) × (length entries ≤ length tree) =
        omega (arith, length-take n (drop c tree), length-drop c tree) in
      let stepped : add_i64 (pos c) (max (length entries) 1) ≡ pos (c + length entries) =
        ap (add_i64 (pos c)) (omega (arith, count.0))
        ∙ add_i64-small c (length entries) (omega (arith, count.1)) in
      let (_, db', ran, v) =
        (update_progress-Succeeds job_id (pos (c + length entries))).from w.db u in
      (
        n,
        db',
        count.0,
        rw (batch, served, send_decoded_sends log entries w open_, stepped, ran) refl,
        v,
      )

  finishes :
      (c : ℕ) (w : World)
      → e ≤ c
      → IsAnswering w.db
      → Walked log job_id e tree c w ((on_db (BackfillJobs.complete job_id) >> pure true) w)
  unfolding ◌>>=◌ on_db
  finishes c w h u =
      let (db', ran, marked) = complete-IsCompleted job_id w.db u in
      let nothing : c - c ≡ 0 = omega arith in
      rw ran (record {
        reached = c;
        onward = omega arith;
        past = h;
        ended = refl;
        sent = rw nothing (sym (append-nil w.sent));
        marked = marked;
      })

  -- what is sent in a round, and then by the rest of the walk
  sent_on :
      (c n c' : ℕ) (w : List WriterJob)
      → let entries = take n (drop c tree) in
        c + length entries ≤ c'
        → (w ++ jobs_in log entries)
            ++ jobs_in log (take (c' - (c + length entries)) (drop (c + length entries) tree))
          ≡ w ++ jobs_in log (take (c' - c) (drop c tree))
  sent_on c n c' w h =
      let entries = take n (drop c tree) in
      let k = length entries in
      let joined : take (c' - c) (drop c tree)
          ≡ entries ++ take (c' - (c + k)) (drop (c + k) tree) =
        take-add k (c' - (c + k)) (c' - c) (drop c tree) (omega arith)
        ∙ ap (λ xs. take k (drop c tree) ++ take (c' - (c + k)) xs)
            (drop-drop c k (c + k) tree (omega arith))
        ∙ ap (λ xs. xs ++ take (c' - (c + k)) (drop (c + k) tree))
            (take-length-take n (drop c tree)) in
      append_assoc w (jobs_in log entries) _
      ∙ ap (λ js. w ++ js)
          (sym (
            ap (jobs_in log) joined
            ∙ jobs_in-append log entries (take (c' - (c + k)) (drop (c + k) tree))))

  -- A walk whose servers answer each range that begins in the log, the next entries first, and of which
  -- there are as many as indices up to the end, completes its job, and has handed to the writer the
  -- entries from its start up to a cursor at or past the end that decode, each once and in their order,
  -- and nothing else. The channel is open, the database answers, the batch size is from 1 to 2 ^ 32 - 1,
  -- and the log has fewer than 2 ^ 62 entries. The end is the index of the last entry, which is itself
  -- handed over only if the cursor passes it.
  pub walk-Walked :
      (servers : List Server) (c : ℕ) (w : World)
      → All (Serves log tree) servers
      → e - c ≤ length servers
      → w.writer_open ≡ true
      → IsAnswering w.db
      → Walked log job_id e tree c w (walk log batch_size job_id (pos e) servers (pos c) w)
  unfolding walk ◌>>=◌
  walk-Walked [] c w up fuel open_ u =
      let b : ltb c e ≡ false = ground arith in rw b (finishes c w (omega arith) u)
  walk-Walked (s ∷ servers) c w (up, ups) fuel open_ u = elim (Bool-cases (ltb c e)) [
    | inr b ↦ rw b (finishes c w (ground arith) u)
    | inl b ↦
        let (n, db', some_entry, ran, v) = batch-sends s c w up (ltb→lt c e b) open_ u in
        let entries = take n (drop c tree) in
        let h =
          walk-Walked servers (c + length entries)
            (record (handed w (jobs_in log entries)) { db = db' }) ups (omega arith) open_ v in
        rw (b, ran)
          (record {
            reached = h.reached;
            onward = omega (arith, h.onward);
            past = h.past;
            ended = h.ended;
            sent = h.sent ∙ sent_on c n h.reached w.sent h.onward;
            marked = h.marked;
          })
  ]
