-- ===== src/Ingest/Backfill/Tasks/Ends.antt =====
-- The order of the tasks of `run_many` of src/ingest/backfill_worker.rs: their permits and their end.
use ctwatch.Base.{
  ℕ, zero, suc, Bool, false, Bool-cases, In, ◌+◌, ◌*◌, ◌≤◌, ◌≡◌, refl, sym, ap, subst, ◌∙◌, ◌⊎◌,
  inl, inr, List, [], ◌∷◌, ◌++◌, map, All, length, max, arith, some,
}
use ctwatch.Base.Result.{ok}
use ctwatch.Ingest.LogList.{CtLog}
use ctwatch.Ingest.Backfill.Tasks.{
  Progress, waiting, running, ended, Task, Tasks, spawn_task, spawn_all, Step, acquires, ends,
  join_all, Steps, here, there,
}

-- the tasks that run, and the steps that a task still has to take
abbrev pub is_running : Progress → ℕ
is_running waiting = 0
is_running running = 1
is_running ended = 0

abbrev to_go : Progress → ℕ
to_go waiting = 2
to_go running = 1
to_go ended = 0

abbrev pub total : (Progress → ℕ) → List Task → ℕ
total f [] = 0
total f (t ∷ ts) = f t.progress + total f ts

total-append :
    (f : Progress → ℕ) (xs ys : List Task) (t : Task)
    → total f (xs ++ t ∷ ys) ≡ total f xs + f t.progress + total f ys
total-append f [] ys t = omega arith
total-append f (x ∷ xs) ys t = omega (arith, total-append f xs ys t)

logs_append :
    (xs ys : List Task) (log : CtLog) (p q : Progress)
    → map (λ (t : Task). t.log) (xs ++ record { log = log; progress = p } ∷ ys)
      ≡ map (λ (t : Task). t.log) (xs ++ record { log = log; progress = q } ∷ ys)
logs_append [] ys log p q = refl
logs_append (x ∷ xs) ys log p q = ap (λ ls. x.log ∷ ls) (logs_append xs ys log p q)

-- what holds after `k` steps
record After (permits : ℕ) (logs : List CtLog) (k : ℕ) (s : Tasks) : Type 0 where
  pub logs_kept : map (λ (t : Task). t.log) s.tasks ≡ logs
  pub shared : total is_running s.tasks + s.permits ≡ permits
  pub counted : k + total to_go s.tasks ≡ 2 * length logs

module _ (returns : CtLog → Bool) (permits : ℕ) (logs : List CtLog) where
  step-After :
      (k : ℕ) (s t : Tasks)
      → Step returns s t
      → After permits logs k s
      → After permits logs (k + 1) t
  step-After k s t (acquires _ before after log n e m) h =
      let w : Task = record { log = log; progress = waiting } in
      let r : Task = record { log = log; progress = running } in
      record {
        logs_kept =
            logs_append before after log running waiting
            ∙ ap (λ ts. map (λ (t : Task). t.log) ts) (sym e)
            ∙ h.logs_kept;
        shared = omega (
          arith,
          h.shared,
          m,
          ap (total is_running) e,
          total-append is_running before after w,
          total-append is_running before after r,
        );
        counted = omega (
          arith,
          h.counted,
          ap (total to_go) e,
          total-append to_go before after w,
          total-append to_go before after r,
        );
      }
  step-After k s t (ends _ before after log e returned) h =
      let r : Task = record { log = log; progress = running } in
      let d : Task = record { log = log; progress = ended } in
      record {
        logs_kept =
            logs_append before after log ended running
            ∙ ap (λ ts. map (λ (t : Task). t.log) ts) (sym e)
            ∙ h.logs_kept;
        shared = omega (
          arith,
          h.shared,
          ap (total is_running) e,
          total-append is_running before after r,
          total-append is_running before after d,
        );
        counted = omega (
          arith,
          h.counted,
          ap (total to_go) e,
          total-append to_go before after r,
          total-append to_go before after d,
        );
      }

  steps-After :
      (k : ℕ) (s t : Tasks) → Steps returns k s t → After permits logs 0 s → After permits logs k t
  steps-After k s t (here _) h = h
  steps-After k s t (there n _ u _ steps last) h = step-After n u t last (steps-After n s u steps h)

abbrev pub IsEnded : Task → Type 0
IsEnded t = t.progress ≡ ended

-- the first task that stands at a place
Has : Progress → List Task → Type 0
Has p ts =
    (before : List Task) × (after : List Task) × (log : CtLog) × (ts
      ≡ before ++ record { log = log; progress = p } ∷ after)

Has-later : (p : Progress) (t : Task) (ts : List Task) → Has p ts → Has p (t ∷ ts)
unfolding Has
Has-later p t ts (before, after, log, e) = (t ∷ before, after, log, ap (λ xs. t ∷ xs) e)

Has-first : (p : Progress) (t : Task) (ts : List Task) → t.progress ≡ p → Has p (t ∷ ts)
unfolding Has
Has-first p t ts e = ([], ts, t.log, ap (λ q. record { log = t.log; progress = q } ∷ ts) e)

Progress-cases : (p : Progress) → (p ≡ running) ⊎ (p ≡ waiting) ⊎ (p ≡ ended)
Progress-cases running = inl refl
Progress-cases waiting = inr (inl refl)
Progress-cases ended = inr (inr refl)

Has-running : (ts : List Task) → 1 ≤ total is_running ts → Has running ts
Has-running [] h = absurd (omega arith)
Has-running (t ∷ ts) h = elim (Progress-cases t.progress) [
  | inl e ↦ Has-first running t ts e
  | inr (inl e) ↦ Has-later running t ts (Has-running ts (omega (arith, h, ap is_running e)))
  | inr (inr e) ↦ Has-later running t ts (Has-running ts (omega (arith, h, ap is_running e)))
]

unfinished : (ts : List Task) → All IsEnded ts ⊎ Has running ts ⊎ Has waiting ts
unfinished [] = inl tt
unfinished (t ∷ ts) = elim (Progress-cases t.progress) [
  | inl e ↦ inr (inl (Has-first running t ts e))
  | inr (inl e) ↦ inr (inr (Has-first waiting t ts e))
  | inr (inr e) ↦ elim (unfinished ts) [
    | inl h ↦ inl (e, h)
    | inr (inl h) ↦ inr (inl (Has-later running t ts h))
    | inr (inr h) ↦ inr (inr (Has-later waiting t ts h))
  ]
]

none_to_go : (ts : List Task) → All IsEnded ts → total to_go ts ≡ 0
none_to_go [] h = refl
none_to_go (t ∷ ts) (e, h) = omega (arith, ap to_go e, none_to_go ts h)

join_all_ended : (ts : List Task) → All IsEnded ts → join_all ts ≡ some (ok tt)
unfolding join_all
join_all_ended [] h = refl
join_all_ended (t ∷ ts) (e, h) = rw e (join_all_ended ts h)

module _ (returns : CtLog → Bool) where
  -- A task runs whose `run_for_log` does not return.
  abbrev pub IsHeld : Tasks → Type 0
  IsHeld s = (t : Task) × In t s.tasks × (t.progress ≡ running) × (returns t.log ≡ false)

  abbrev pub GoesOn : Tasks → Type 0
  GoesOn s = ((t : Tasks) × Step returns s t) ⊎ IsHeld s

  In-middle : (t : Task) (before after : List Task) → In t (before ++ t ∷ after)
  In-middle t [] after = inl refl
  In-middle t (u ∷ before) after = inr (In-middle t before after)

  end_of : (s : Tasks) → Has running s.tasks → GoesOn s
  unfolding Has
  end_of s (before, after, log, e) = elim (Bool-cases (returns log)) [
    | inl h ↦ inl (_, ends s before after log e h)
    | inr h ↦
        let t : Task = record { log = log; progress = running } in
        inr (t, subst (In t) (sym e) (In-middle t before after), refl, h)
  ]

  -- With a permit that is free or held, a task that waits can go on, or another can end.
  next_of : (s : Tasks) → 1 ≤ total is_running s.tasks + s.permits → Has waiting s.tasks → GoesOn s
  unfolding Has
  next_of s h (before, after, log, e) = elim (zero_or_suc s.permits) [
    | inl none_left ↦ end_of s (Has-running s.tasks (omega (arith, h, none_left)))
    | inr (n, m) ↦ inl (_, acquires s before after log n e m)
  ]
    where
      zero_or_suc : (n : ℕ) → (n ≡ 0) ⊎ ((m : ℕ) × (n ≡ m + 1))
      zero_or_suc zero = inl refl
      zero_or_suc (suc n) = inr (n, omega arith)

fresh : (logs : List CtLog) → map (λ (t : Task). t.log) (map spawn_task logs) ≡ logs
unfolding spawn_task
fresh [] = refl
fresh (log ∷ logs) = ap (λ ls. log ∷ ls) (fresh logs)

fresh_running : (logs : List CtLog) → total is_running (map spawn_task logs) ≡ 0
unfolding spawn_task
fresh_running [] = refl
fresh_running (log ∷ logs) = omega (arith, fresh_running logs)

fresh_to_go : (logs : List CtLog) → total to_go (map spawn_task logs) ≡ 2 * length logs
unfolding spawn_task
fresh_to_go [] = refl
fresh_to_go (log ∷ logs) = omega (arith, fresh_to_go logs)

-- `run_many` runs the backfill of every log once, in whatever order its tasks take their steps: at no
-- moment do more run than the concurrency, or 1 if that is 0; no more than two steps are taken for each
-- log; and as long as not every task has ended, whereupon Ok is returned, another step is possible, unless
-- a task runs whose `run_for_log` does not return.
pub run_many_ends :
    (returns : CtLog → Bool) (concurrency : ℕ) (logs : List CtLog) (k : ℕ) (s : Tasks)
    → Steps returns k (spawn_all concurrency logs) s
    → (map (λ (t : Task). t.log) s.tasks ≡ logs)
      × (total is_running s.tasks ≤ max concurrency 1)
      × (k ≤ 2 * length logs)
      × (((k ≡ 2 * length logs) × All IsEnded s.tasks × (join_all s.tasks ≡ some (ok tt)))
          ⊎ ((t : Tasks) × Step returns s t)
          ⊎ IsHeld returns s)
unfolding spawn_all
run_many_ends returns concurrency logs k s steps =
    let start : After (max concurrency 1) logs 0 (spawn_all concurrency logs) = record {
      logs_kept = fresh logs;
      shared = omega (arith, fresh_running logs);
      counted = omega (arith, fresh_to_go logs);
    } in
    let h =
      steps-After returns (max concurrency 1) logs k (spawn_all concurrency logs) s steps start in
    (
      h.logs_kept,
      omega (arith, h.shared),
      omega (arith, h.counted),
      elim (unfinished s.tasks) [
        | inl all ↦
            inl (omega (arith, h.counted, none_to_go s.tasks all), all, join_all_ended s.tasks all)
        | inr (inl r) ↦ inr (end_of returns s r)
        | inr (inr w) ↦ inr (next_of returns s (omega (arith, h.shared)) w)
      ],
    )
