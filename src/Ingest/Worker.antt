-- ===== src/Ingest/Worker.antt =====
-- src/ingest/worker.rs: one task for each log, which follows the head of its tree.
pub mod Cursor
pub mod Sending
pub mod Delivery
pub mod Backoff
use ctwatch.Base.{
  ℕ, ◌+◌, ◌*◌, ◌-◌, ◌%◌, Bool, true, false, ◌&&◌, List, [], ◌∷◌, ltb, min, length, if◌then◌else◌,
}
use ctwatch.Base.Int.{ℤ, pos, negsuc, leb_ℤ, as_i64, as_u64, u64_mod}
use ctwatch.Base.Text.{is_empty}
use ctwatch.Base.Result.{Result, ok, err}
use ctwatch.Base.Exec.{Exec, pure, lift, ◌>>=◌, ◌>>◌}
use ctwatch.Ingest.Entry.{DecodedEntry, decode_leaf}
use ctwatch.Ingest.LogList.{CtLog}
use ctwatch.Ingest.Client.{RawEntry, SignedTreeHead, Server, get_sth, get_entries}
use ctwatch.Store.Cursors
use ctwatch.Store.Cursors.{current_cursor, advance}
use ctwatch.Writer.Job.{WriterJob, World, send, on_db}

unfoldable pub is_zero : ℤ → Bool
is_zero (pos n) = ltb n 1
is_zero (negsuc n) = false

unfoldable pub job_of : CtLog → DecodedEntry → WriterJob
job_of log decoded = record {
  log_id = log.log_id;
  log_url = log.url;
  operator = log.operator;
  entry = decoded;
}

-- The loop over the entries: the first that does not decode ends it, after the sends before it.
unfoldable pub send_entries : CtLog → List RawEntry → Exec World (Unit {0})
send_entries log [] = pure tt
send_entries log (raw ∷ entries) = do
  decoded ← lift (decode_leaf raw.leaf_input raw.extra_data)
  send (job_of log decoded)
  send_entries log entries

-- u64 arithmetic, as the release build does it
unfoldable pub end_inclusive : ℕ → ℕ → ℕ → ℕ
end_inclusive start batch_size tree_size =
    min ((start + batch_size + (u64_mod - 1)) % u64_mod) ((tree_size + (u64_mod - 1)) % u64_mod)

-- the entries, and then the cursor behind the last of them
unfoldable pub deliver : CtLog → ℕ → List RawEntry → Exec World Bool
deliver log start entries = do
  send_entries log entries
  on_db (advance log.log_id (as_i64 ((start + length entries) % u64_mod)))
  pure true

-- `tick` from `let start` on, when the cursor is behind the tree
unfoldable pub fetch : Server → CtLog → ℕ → ℤ → ℕ → Exec World Bool
fetch server log batch_size cursor tree_size =
    let start = as_u64 cursor in
    do
      entries ← lift (get_entries server log.url start (end_inclusive start batch_size tree_size))
      if is_empty entries then pure false else deliver log start entries

-- what `tick` does once it has the cursor and the signed tree head
unfoldable pub follow : Server → CtLog → ℕ → ℤ → ℕ → Exec World Bool
follow server log batch_size cursor tree_size =
    if is_zero cursor && ltb 0 tree_size
    then (on_db (advance log.log_id (as_i64 tree_size)) >> pure false)
    else if leb_ℤ (as_i64 tree_size) cursor
    then pure false
    else fetch server log batch_size cursor tree_size

unfoldable pub tick : Server → CtLog → ℕ → Exec World Bool
tick server log batch_size = do
  cursor ← on_db (current_cursor log.log_id)
  sth ← lift (get_sth server log.url)
  follow server log batch_size cursor sth.tree_size

-- The seconds to sleep after a tick, and the next backoff.
unfoldable pub after_tick : ℕ → ℕ → Result Bool → ℕ × ℕ
after_tick poll_interval backoff (ok true) = (poll_interval, 1)
after_tick poll_interval backoff (ok false) = (poll_interval, backoff)
after_tick poll_interval backoff (err e) = (backoff, min (backoff * 2) 300)

-- `run` for as many rounds as there are servers, one for each: what the network answers in a round.
-- The results are the world and the sleeps.
unfoldable pub rounds : ℕ → ℕ → CtLog → ℕ → List Server → World → World × List ℕ
rounds poll_interval backoff log batch_size [] w = (w, [])
rounds poll_interval backoff log batch_size (s ∷ servers) w =
    let (r, w') = tick s log batch_size w in
    let (slept, backoff') = after_tick poll_interval backoff r in
    let (w'', sleeps) = rounds poll_interval backoff' log batch_size servers w' in
    (w'', slept ∷ sleeps)

unfoldable pub run : ℕ → CtLog → ℕ → List Server → World → World × List ℕ
run poll_interval log batch_size servers w = rounds poll_interval 1 log batch_size servers w

unfoldable pub started : ℕ → CtLog → ℕ → List Server → Result (Unit {0}) × World → World × List ℕ
started poll_interval log batch_size servers (ok _, w) = run poll_interval log batch_size servers w
started poll_interval log batch_size servers (err e, w) = (w, [])

-- `spawn`: the cursor row first; where that fails, nothing runs.
unfoldable pub spawn : ℕ → CtLog → ℕ → List Server → World → World × List ℕ
spawn poll_interval log batch_size servers w =
    started poll_interval log batch_size servers
      (on_db (Cursors.upsert log.log_id log.url log.operator) w)
