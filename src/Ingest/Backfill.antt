-- ===== src/Ingest/Backfill.antt =====
-- src/ingest/backfill_worker.rs: from the first entry of a time on, forward to the head of the tree.
pub mod Search
pub mod Walk
pub mod Tasks
use ctwatch.Base.{
  ℕ, zero, suc, ◌+◌, ◌-◌, ◌/◌, ◌%◌, Bool, true, false, not, ◌&&◌, List, [], ◌∷◌, Option, none, some,
  ltb, leb, max, length, if◌then◌else◌,
}
use ctwatch.Base.Int.{ℤ, pos, negsuc, ltb_ℤ, leb_ℤ, as_i64, as_u64, u64_mod}
use ctwatch.Base.Text.{Text}
use ctwatch.Base.Result.{Result, ok, err, empty_get_entries}
use ctwatch.Base.Exec.{Exec, pure, lift, attempt, ◌>>=◌, ◌>>◌}
use ctwatch.Ingest.Entry.{decode_leaf}
use ctwatch.Ingest.LogList.{CtLog}
use ctwatch.Ingest.Client.{RawEntry, Server, get_sth, get_entries}
use ctwatch.Ingest.Worker.{job_of}
use ctwatch.Store.BackfillJobs
use ctwatch.Store.Db.{Time, Job}
use ctwatch.Writer.Job.{World, send, on_db}

-- The body of the search: the timestamp of one entry.
unfoldable pub probe_first : ℕ → List RawEntry → Result ℕ
probe_first mid [] = err (empty_get_entries mid)
probe_first mid (raw ∷ entries) = elim (decode_leaf raw.leaf_input raw.extra_data) [
  | err e ↦ err e
  | ok decoded ↦ ok decoded.timestamp_ms
]

unfoldable pub probe : Server → Text → ℕ → Result ℕ
probe server url mid = elim (get_entries server url mid mid) [
  | err e ↦ err e
  | ok entries ↦ probe_first mid entries
]

-- `while lo < hi`, on fuel; `none` if it runs out. No index is asked for twice, so one server stands
-- for all the answers.
module _ (server : Server) (url : Text) (target_ms : ℕ) where
  unfoldable pub search : ℕ → ℕ → ℕ → Option (Result ℕ)
  search zero lo hi = if ltb lo hi then none else some (ok lo)
  search (suc fuel) lo hi = elim (ltb lo hi) [
    | false ↦ some (ok lo)
    | true ↦
        let mid = lo + (hi - lo) / 2 in
        elim (probe server url mid) [
          | err e ↦ some (err e)
          | ok timestamp_ms ↦ elim (leb target_ms timestamp_ms) [
            | true ↦ search fuel lo mid
            | false ↦ search fuel (mid + 1) hi
          ]
        ]
  ]

  -- From 0 to `tree_size - 1`; a tree size that is not positive leaves `lo` at 0.
  unfoldable pub binary_search_index : ℤ → Option (Result ℕ)
  binary_search_index (pos (suc n)) = search n 0 n
  binary_search_index _ = some (ok 0)

-- i64 additions wrap, as the release build does them.
unfoldable pub add_i64 : ℤ → ℕ → ℤ
add_i64 z n = as_i64 ((as_u64 z + n) % u64_mod)

abbrev pub min_ℤ : ℤ → ℤ → ℤ
min_ℤ a b = if ltb_ℤ b a then b else a

-- min(cursor + batch_size - 1, end_index)
unfoldable pub batch_end : ℤ → ℕ → ℤ → ℤ
batch_end cursor batch_size end_index =
    min_ℤ (add_i64 cursor (batch_size + (u64_mod - 1))) end_index

-- An entry that does not decode is skipped, and a send that fails is ignored.
unfoldable pub send_decoded : CtLog → List RawEntry → Exec World (Unit {0})
send_decoded log [] = pure tt
send_decoded log (raw ∷ entries) =
    let rest = send_decoded log entries in
    elim (decode_leaf raw.leaf_input raw.extra_data) [
      | ok decoded ↦ attempt (send (job_of log decoded)) >>= λ _. rest
      | err e ↦ rest
    ]

module _ (log : CtLog) (batch_size : ℕ) (job_id : ℕ) (end_index : ℤ) where
  -- One round: the next cursor. A batch that cannot be had leaves it, after a sleep.
  unfoldable pub batch : Server → ℤ → Exec World ℤ
  batch server cursor =
      elim (get_entries server log.url (as_u64 cursor)
        (as_u64 (batch_end cursor batch_size end_index))) [
          | err e ↦ pure cursor
          | ok entries ↦ do
            send_decoded log entries
            let cursor' = add_i64 cursor (max (length entries) 1)
            on_db (BackfillJobs.update_progress job_id cursor')
            pure cursor'
        ]

  -- The loop for as many rounds as there are servers; whether it came to its end, where the job is
  -- marked complete.
  unfoldable pub walk : List Server → ℤ → Exec World Bool
  walk [] cursor =
      if ltb_ℤ cursor end_index
      then pure false
      else on_db (BackfillJobs.complete job_id) >> pure true
  walk (s ∷ servers) cursor =
      if ltb_ℤ cursor end_index
      then batch s cursor >>= (λ cursor'. walk servers cursor')
      else on_db (BackfillJobs.complete job_id) >> pure true

-- the job to resume, or a new one
unfoldable pub job_for : CtLog → Time → ℤ → ℤ → Option Job → Exec World ℕ
job_for log since start_index end_index (some j) = pure j.id
job_for log since start_index end_index none =
    on_db (BackfillJobs.insert log.log_id since start_index end_index)

unfoldable pub resume_at : ℤ → Option Job → ℤ
resume_at start_index (some j) = j.progress_index
resume_at start_index none = start_index

module _ (log : CtLog) (since : Time) (batch_size : ℕ) where
  -- `run_for_log` from `let end_index` on
  unfoldable pub from_index : List Server → ℤ → ℤ → Exec World Bool
  from_index servers start_index end_index = if leb_ℤ end_index start_index then pure true else do
    active ← on_db (BackfillJobs.find_active log.log_id since)
    job_id ← job_for log since start_index end_index active
    now_active ← on_db (BackfillJobs.find_active log.log_id since)
    walk log batch_size job_id end_index servers (resume_at start_index now_active)

  abbrev pub found_index : List Server → ℤ → Option (Result ℕ) → Exec World Bool
  found_index servers tree_size none = pure false
  found_index servers tree_size (some (err e)) = λ w. (err e, w)
  found_index servers tree_size (some (ok start_index)) =
      from_index servers (pos start_index) (add_i64 tree_size (u64_mod - 1))

  -- `since.timestamp_millis() as u64` is `target_ms`. The first server answers up to the search.
  unfoldable pub run_for_log : ℕ → Server → List Server → Exec World Bool
  run_for_log target_ms server servers = do
    sth ← lift (get_sth server log.url)
    let tree_size = as_i64 sth.tree_size
    (if not (ltb_ℤ tree_size (pos 0)) && leb_ℤ tree_size (pos 0)
        then pure true
        else found_index servers tree_size (binary_search_index server log.url target_ms tree_size))
