-- ===== src/Ingest/Backfill/Tasks.antt =====
-- `run_many` of src/ingest/backfill_worker.rs: one task for each log, which waits for a permit of the
-- semaphore, runs `run_for_log`, and ends whether or not that fails; dropping the permit gives it back.
-- A step is one task's; the order is the scheduler's.
pub mod Ends
use ctwatch.Base.{
  ℕ, zero, suc, Bool, true, false, Bool-cases, In, ◌+◌, ◌*◌, ◌≤◌, ◌≡◌, refl, sym, ap, ◌∙◌, ◌⊎◌, inl,
  inr, List, [], ◌∷◌, ◌++◌, map, All, length, max, arith, Option, none, some,
}
use ctwatch.Base.Result.{Result, ok}
use ctwatch.Ingest.LogList.{CtLog}

pub data Progress : Type 0 where
  waiting running ended : Progress

pub record Task : Type 0 where
  pub log : CtLog
  pub progress : Progress

-- The tasks, in the order of their logs, and the permits that nobody holds.
pub record Tasks : Type 0 where
  pub tasks : List Task
  pub permits : ℕ

unfoldable pub spawn_task : CtLog → Task
spawn_task log = record { log = log; progress = waiting }

-- Semaphore::new(concurrency.max(1)), and a task for each log
unfoldable pub spawn_all : ℕ → List CtLog → Tasks
unfolding spawn_task
spawn_all concurrency logs = record { tasks = map spawn_task logs; permits = max concurrency 1 }

-- `run_many` awaits its tasks in turn: it has not returned while one has not ended, and then it returns
-- Ok, whatever became of them.
unfoldable pub join_all : List Task → Option (Result (Unit {0}))
join_all [] = some (ok tt)
join_all (t ∷ ts) = elim t.progress [ waiting ↦ none | running ↦ none | ended ↦ join_all ts ]

-- Whether `run_for_log` returns is a parameter: it asks again for ever while its log serves no entries.
module _ (returns : CtLog → Bool) where
  -- A task acquires a permit when there is one. A task whose `run_for_log` returns, with an error or
  -- without, can come to its end, and the permit is released.
  pub data Step : Tasks → Tasks → Type 0 where
    acquires :
        (s : Tasks) (before after : List Task) (log : CtLog) (n : ℕ)
        → s.tasks ≡ before ++ record { log = log; progress = waiting } ∷ after
        → s.permits ≡ n + 1
        → Step s (record {
          tasks = before ++ record { log = log; progress = running } ∷ after;
          permits = n;
        })
    ends :
        (s : Tasks) (before after : List Task) (log : CtLog)
        → s.tasks ≡ before ++ record { log = log; progress = running } ∷ after
        → returns log ≡ true
        → Step s (record {
          tasks = before ++ record { log = log; progress = ended } ∷ after;
          permits = s.permits + 1;
        })

  -- so many steps
  pub data Steps : ℕ → Tasks → Tasks → Type 0 where
    here : (s : Tasks) → Steps 0 s s
    there : (n : ℕ) (s t u : Tasks) → Steps n s t → Step t u → Steps (n + 1) s u
