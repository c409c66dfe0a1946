-- ===== src/Writer/Loop.antt =====
-- src/writer.rs: the loop of the task that `spawn` starts. The jobs that come in while the loop fills a
-- batch are those that have arrived for the turn.
pub mod Stored
use ctwatch.Base.{
  append_assoc, append-nil, ℕ, ◌+◌, ◌-◌, ◌*◌, ◌≤◌, ◌≡◌, refl, sym, ap, subst, ◌∙◌, List, [], ◌∷◌,
  ◌++◌, take, Option, arith, All, All-append, length, drop, length-append, length-take, length-drop,
  take-append-drop, ◌⊎◌,
}
use ctwatch.Base.Int.{ℤ, pos}
use ctwatch.Base.Text.{Text}
use ctwatch.Parse.X509.{FromDer}
use ctwatch.Stats.{set_queue_depth}
use ctwatch.Store.Db.{Time}
use ctwatch.Watchlist.Matcher.{Matcher}
use ctwatch.Writer.Flush.{Writer, next_batch, flush_batch, turn}
use ctwatch.Writer.Job.{WriterJob}

-- What a turn finds: new jobs, the time and the watchlist.
pub record Turn : Type 0 where
  pub arrivals : List WriterJob
  pub now : Time
  pub matcher : Matcher

-- A batch of a turn, and what it leaves in the channel.
pub record Batch : Type 0 where
  pub at : Turn
  pub jobs : List WriterJob
  pub left : List WriterJob

abbrev pub arrivals_of : List Turn → List WriterJob
arrivals_of [] = []
arrivals_of (t ∷ ts) = t.arrivals ++ arrivals_of ts

abbrev pub jobs_of : List Batch → List WriterJob
jobs_of [] = []
jobs_of (b ∷ bs) = b.jobs ++ jobs_of bs

-- The batches, as the jobs arrive: a turn that finds jobs in the channel takes up to a hundred of them,
-- the oldest first.
abbrev pub taken : Turn → List WriterJob → List Batch
taken t [] = []
taken t (first ∷ queue) = record { at = t; jobs = first ∷ take 99 queue; left = drop 99 queue } ∷ []

abbrev pub batches : List Turn → List WriterJob → List Batch
batches [] queue = []
batches (t ∷ ts) queue =
    taken t (queue ++ t.arrivals) ++ batches ts (drop 100 (queue ++ t.arrivals))

jobs_of-append : (bs cs : List Batch) → jobs_of (bs ++ cs) ≡ jobs_of bs ++ jobs_of cs
jobs_of-append [] cs = refl
jobs_of-append (b ∷ bs) cs =
    ap (λ xs. b.jobs ++ xs) (jobs_of-append bs cs)
    ∙ sym (append_assoc b.jobs (jobs_of bs) (jobs_of cs))

no_jobs : (jobs : List WriterJob) → length jobs ≤ 0 → jobs ≡ []
no_jobs [] h = refl
no_jobs (j ∷ jobs) h = absurd (omega arith)

module _ (sha256 : List ℕ → List ℕ) (from_der : FromDer) (domain : Text → Option Text)
    (from_timestamp : ℤ → Option Time) (uuid : ℕ → ℕ) (retention_days_hot : ℕ) where
  -- One turn on the jobs in the channel: on an empty one the loop waits.
  unfoldable pub step : Turn → List WriterJob → Writer → List WriterJob × Writer
  step t [] w = ([], w)
  step t (first ∷ queue) w =
      turn sha256 from_der domain from_timestamp uuid t.matcher t.now retention_days_hot first queue
        w

  unfoldable pub loop : List Turn → List WriterJob → Writer → List WriterJob × Writer
  loop [] queue w = (queue, w)
  loop (t ∷ ts) queue w = let (queue', w') = step t (queue ++ t.arrivals) w in loop ts queue' w'

  -- One batch flushed
  abbrev pub flush_one : Batch → Writer → Writer
  flush_one b w =
      (flush_batch sha256 from_der domain from_timestamp uuid b.at.matcher b.at.now
        retention_days_hot b.jobs
        (record w { counters = set_queue_depth (pos (length b.left)) w.counters })).1

  abbrev pub flush_all : List Batch → Writer → Writer
  flush_all [] w = w
  flush_all (b ∷ bs) w = flush_all bs (flush_one b w)

  abbrev pub IsSized : Batch → Type 0
  IsSized b = (1 ≤ length b.jobs) × (length b.jobs ≤ 100)

  -- what a list of batches makes of the jobs in the channel and of the state
  abbrev pub IsFlushed : List WriterJob → Writer → List WriterJob × Writer → List Batch → Type 0
  IsFlushed jobs w (left, w') bs =
      (jobs_of bs ++ left ≡ jobs) × All IsSized bs × (w' ≡ flush_all bs w)

  step-IsFlushed :
      (t : Turn) (q : List WriterJob) (w : Writer) → IsFlushed q w (step t q w) (taken t q)
  unfolding step turn next_batch
  step-IsFlushed t [] w = (refl, tt, refl)
  step-IsFlushed t (first ∷ q) w = (
    ap (λ xs. first ∷ xs)
        (ap (λ xs. xs ++ drop 99 q) (append-nil (take 99 q)) ∙ take-append-drop 99 q),
    ((omega arith, omega (arith, length-take 99 q)), tt),
    refl,
  )

  step_leaves : (t : Turn) (q : List WriterJob) (w : Writer) → (step t q w).0 ≡ drop 100 q
  unfolding step turn next_batch
  step_leaves t [] w = refl
  step_leaves t (first ∷ q) w = refl

  flush_all-append :
      (bs cs : List Batch) (w : Writer) → flush_all (bs ++ cs) w ≡ flush_all cs (flush_all bs w)
  flush_all-append [] cs w = refl
  flush_all-append (b ∷ bs) cs w = flush_all-append bs cs (flush_one b w)

  pub loop-batches_at :
      (ts : List Turn) (queue : List WriterJob) (w : Writer)
      → IsFlushed (queue ++ arrivals_of ts) w (loop ts queue w) (batches ts queue)
  unfolding loop
  loop-batches_at [] queue w = (sym (append-nil queue), tt, refl)
  loop-batches_at (t ∷ ts) queue w =
      let bs = taken t (queue ++ t.arrivals) in
      let cs = batches ts (drop 100 (queue ++ t.arrivals)) in
      let (jobs, sized, same) = step-IsFlushed t (queue ++ t.arrivals) w in
      let (q', w') = step t (queue ++ t.arrivals) w in
      let (jobs', sized', same') =
        subst (λ q. IsFlushed (q' ++ arrivals_of ts) w' (loop ts q' w') (batches ts q))
          (step_leaves t (queue ++ t.arrivals) w) (loop-batches_at ts q' w') in
      (
        ap (λ xs. xs ++ (loop (t ∷ ts) queue w).0) (jobs_of-append bs cs)
            ∙ append_assoc (jobs_of bs) (jobs_of cs) _
            ∙ ap (λ xs. jobs_of bs ++ xs) jobs'
            ∙ sym (append_assoc (jobs_of bs) _ (arrivals_of ts))
            ∙ ap (λ xs. xs ++ arrivals_of ts) jobs
            ∙ append_assoc queue t.arrivals (arrivals_of ts),
        All-append IsSized bs cs sized sized',
        same' ∙ ap (flush_all cs) same ∙ sym (flush_all-append bs cs w),
      )

  -- The loop is the flushing of batches of 1 to 100 jobs one after the other, whether or not a flush
  -- fails; the batches with what is left in the channel are the jobs that were sent, in their order.
  pub loop-batches :
      (ts : List Turn) (queue : List WriterJob) (w : Writer)
      → (bs : List Batch) × IsFlushed (queue ++ arrivals_of ts) w (loop ts queue w) bs
  loop-batches ts queue w = (batches ts queue, loop-batches_at ts queue w)

  step-left : (t : Turn) (q : List WriterJob) (w : Writer) → length (step t q w).0 ≡ length q - 100
  unfolding step turn next_batch
  step-left t [] w = refl
  step-left t (first ∷ q) w = omega (arith, length-drop 99 q)

  -- As many turns as there are hundreds of jobs, begun or whole, in the channel, with no new job, empty it.
  pub loop_empties :
      (ts : List Turn) (queue : List WriterJob) (w : Writer)
      → arrivals_of ts ≡ []
      → length queue ≤ 100 * length ts
      → (loop ts queue w).0 ≡ []
  unfolding loop
  loop_empties [] queue w h k = no_jobs queue (omega arith)
  loop_empties (t ∷ ts) queue w h k =
      let none_new : length t.arrivals + length (arrivals_of ts) ≡ 0 =
        sym (length-append t.arrivals (arrivals_of ts)) ∙ ap length h in
      loop_empties ts (step t (queue ++ t.arrivals) w).0 (step t (queue ++ t.arrivals) w).1
        (no_jobs (arrivals_of ts) (omega arith))
        (omega (arith, step-left t (queue ++ t.arrivals) w, length-append queue t.arrivals))
