-- ===== src/Ingest/Worker/Backoff.antt =====
-- How long a worker of src/ingest/worker.rs waits after a round.
use native.Mathlib.Nat.{pow-suc}
use ctwatch.Base.{
  ℕ, zero, suc, ◌+◌, ◌*◌, ◌^◌, ◌≤◌, ◌<◌, ◌≡◌, ◌⊎◌, inl, inr, refl, ap, Bool, true, false, List, [],
  ◌∷◌, ◌++◌, none, some, arith, min, All, length, get_elem?,
}
use ctwatch.Base.Text.{text}
use ctwatch.Base.Result.{Error, Result, ok, err, http_error}
use ctwatch.Base.Exec.{◌>>=◌, lift, resume}
use ctwatch.Ingest.Client.{Server, get_sth}
use ctwatch.Ingest.LogList.{CtLog}
use ctwatch.Ingest.Worker.{tick, follow, after_tick, rounds, run}
use ctwatch.Store.Cursors.{current_cursor}
use ctwatch.Writer.Job.{World, on_db}

-- Either the poll interval, or a backoff between 1 and 300 seconds.
abbrev pub IsSleep : ℕ → ℕ → Type 0
IsSleep poll s = (s ≡ poll) ⊎ ((1 ≤ s) × (s ≤ 300))

module _ (poll backoff : ℕ) (low : 1 ≤ backoff) (high : backoff ≤ 300) where
  after_tick-IsSleep : (r : Result Bool) → IsSleep poll (after_tick poll backoff r).0
  unfolding after_tick
  after_tick-IsSleep (ok true) = inl refl
  after_tick-IsSleep (ok false) = inl refl
  after_tick-IsSleep (err e) = inr (low, high)

  after_tick-backoff :
      (r : Result Bool)
      → (1 ≤ (after_tick poll backoff r).1) × ((after_tick poll backoff r).1 ≤ 300)
  unfolding after_tick
  after_tick-backoff (ok true) = omega arith
  after_tick-backoff (ok false) = (low, high)
  after_tick-backoff (err e) = omega arith

rounds-IsSleep :
    (poll : ℕ) (log : CtLog) (batch_size : ℕ) (servers : List Server) (backoff : ℕ) (w : World)
    → 1 ≤ backoff
    → backoff ≤ 300
    → All (IsSleep poll) (rounds poll backoff log batch_size servers w).1
unfolding rounds
rounds-IsSleep poll log batch_size [] backoff w low high = tt
rounds-IsSleep poll log batch_size (s ∷ servers) backoff w low high =
    let r = (tick s log batch_size w).0 in
    let (low', high') = after_tick-backoff poll backoff low high r in
    (
      after_tick-IsSleep poll backoff low high r,
      rounds-IsSleep poll log batch_size servers (after_tick poll backoff r).1
          (tick s log batch_size w).1 low' high',
    )

-- Whatever happens, a worker sleeps after each round: for the poll interval, or for a time between
-- 1 and 300 seconds.
run-IsSleep :
    (poll : ℕ) (log : CtLog) (batch_size : ℕ) (servers : List Server) (w : World)
    → All (IsSleep poll) (run poll log batch_size servers w).1
unfolding run
run-IsSleep poll log batch_size servers w =
    rounds-IsSleep poll log batch_size servers 1 w (omega arith) (omega arith)

-- The server gives no signed tree head.
abbrev pub IsDown : CtLog → Server → Type 0
IsDown log s = s.sth_json (log.url ++ text "ct/v1/get-sth") ≡ none

get_sth-down : (s : Server) (log : CtLog) → IsDown log s → get_sth s log.url ≡ err http_error
unfolding get_sth
get_sth-down s log h = rw (h, get_sth)

tick-IsDown :
    (s : Server) (log : CtLog) (batch_size : ℕ) (w : World)
    → IsDown log s
    → (e : Error) × ((tick s log batch_size w).0 ≡ err e)
unfolding tick ◌>>=◌
tick-IsDown s log batch_size w h = fails (on_db (current_cursor log.log_id) w)
  where
    fails :
        (r : Result _ × World)
        → (e : Error) × ((resume
              (λ cursor.
                lift (get_sth s log.url) >>= λ sth. follow s log batch_size cursor sth.tree_size)
              r).0
            ≡ err e)
    fails (ok cursor, w') = (http_error, rw (get_sth-down s log h, resume, lift))
    fails (err e, w') = (e, refl)

rounds-IsDown :
    (poll : ℕ) (log : CtLog) (batch_size : ℕ) (servers : List Server) (backoff : ℕ) (w : World)
    → All (IsDown log) servers
    → (k i m : ℕ) → backoff ≡ min (2 ^ k) 300
    → i < length servers
    → m ≡ k + i
    → get_elem? (rounds poll backoff log batch_size servers w).1 i ≡ some (min (2 ^ m) 300)
unfolding rounds
rounds-IsDown poll log batch_size [] backoff w down k i m b h e = absurd (omega arith)
rounds-IsDown poll log batch_size (s ∷ servers) backoff w (d, down) k zero m b h e =
    let (x, failed) = tick-IsDown s log batch_size w d in
    let same : m ≡ k = omega arith in rw (failed, same) (unfold after_tick in ap some b)
rounds-IsDown poll log batch_size (s ∷ servers) backoff w (d, down) k (suc i) m b h e =
    let (x, failed) = tick-IsDown s log batch_size w d in
    let doubled : min (backoff * 2) 300 ≡ min (2 ^ suc k) 300 = rw pow-suc (omega (arith, b)) in
    let next : (after_tick poll backoff (tick s log batch_size w).0).1 ≡ min (2 ^ suc k) 300 =
      rw failed (unfold after_tick in doubled) in
    rounds-IsDown poll log batch_size servers
      (after_tick poll backoff (tick s log batch_size w).0).1 (tick s log batch_size w).1 down
      (suc k) i m next (omega arith) (omega arith)

-- how the rounds end, for as many as there are servers
abbrev pub outcomes : CtLog → ℕ → List Server → World → List (Result Bool)
outcomes log batch_size [] w = []
outcomes log batch_size (s ∷ servers) w =
    (tick s log batch_size w).0 ∷ outcomes log batch_size servers (tick s log batch_size w).1

-- The failures since the last round that made progress. A round that has caught up does not count, and
-- does not end the row either.
abbrev pub failed_since : ℕ → Result Bool → ℕ
failed_since k (ok true) = 0
failed_since k (ok false) = k
failed_since k (err e) = k + 1

abbrev pub failures : ℕ → List (Result Bool) → ℕ
failures k [] = k
failures k (r ∷ rs) = failures (failed_since k r) rs

after_tick-failed_since :
    (poll backoff k : ℕ) (r : Result Bool)
    → backoff ≡ min (2 ^ k) 300
    → (after_tick poll backoff r).1 ≡ min (2 ^ failed_since k r) 300
unfolding after_tick
after_tick-failed_since poll backoff k (ok true) b = omega arith
after_tick-failed_since poll backoff k (ok false) b = b
after_tick-failed_since poll backoff k (err e) b =
    let one_more : k + 1 ≡ suc k = omega arith in rw (one_more, pow-suc) (omega (arith, b))

rounds-failures :
    (poll : ℕ) (log : CtLog) (batch_size : ℕ) (before down : List Server) (backoff : ℕ) (w : World)
    → All (IsDown log) down
    → (k i j m : ℕ) → backoff ≡ min (2 ^ k) 300
    → i < length down
    → j ≡ length before + i
    → m ≡ failures k (outcomes log batch_size before w) + i
    → get_elem? (rounds poll backoff log batch_size (before ++ down) w).1 j ≡ some (min (2 ^ m) 300)
unfolding rounds
rounds-failures poll log batch_size [] down backoff w d k i j m b h e f =
    let same : j ≡ i = omega (arith, e) in
    rw same (rounds-IsDown poll log batch_size down backoff w d k i m b h f)
rounds-failures poll log batch_size (s ∷ before) down backoff w d k i zero m b h e f =
    absurd (omega (arith, e))
rounds-failures poll log batch_size (s ∷ before) down backoff w d k i (suc j) m b h e f =
    let r = (tick s log batch_size w).0 in
    rounds-failures poll log batch_size before down (after_tick poll backoff r).1
      (tick s log batch_size w).1 d (failed_since k r) i j m
      (after_tick-failed_since poll backoff k r b) h (omega (arith, e)) f

-- Whatever a worker has gone through, once its log serves no signed tree head each round is followed by
-- a sleep that doubles with every failure: after the i-th of these rounds (from 0), it is the smaller of
-- 2 ^ (k + i) and 300 seconds, where k counts the failures before them since the last round that made
-- progress, or since the start, whatever the database answers.
pub run-IsDown :
    (poll : ℕ) (log : CtLog) (batch_size : ℕ) (before down : List Server) (w : World) (i : ℕ)
    → All (IsDown log) down
    → i < length down
    → get_elem? (run poll log batch_size (before ++ down) w).1 (length before + i)
      ≡ some (min (2 ^ (failures 0 (outcomes log batch_size before w) + i)) 300)
unfolding run
run-IsDown poll log batch_size before down w i d h =
    rounds-failures poll log batch_size before down 1 w d 0 i (length before + i) _ (omega arith) h
      refl refl
