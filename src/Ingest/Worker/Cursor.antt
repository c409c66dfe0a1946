-- ===== src/Ingest/Worker/Cursor.antt =====
-- src/ingest/worker.rs: the cursors before and after the steps of a worker.
use ctwatch.Base.{
  ℕ, ◌≡◌, refl, subst, Bool, true, false, List, [], ◌∷◌, ◌++◌, Option, none, some, if◌then◌else◌,
}
use ctwatch.Base.Int.{ℤ, ltb_ℤ, ◌≤ℤ◌, le_ℤ_refl, le_ℤ_trans, ltb_ℤ→le}
use ctwatch.Base.Text.{beq}
use ctwatch.Base.Result.{Result, ok, err, writer_closed}
use ctwatch.Base.Exec.{IsPreorder, Always, Always-pure, Always-lift, Always-bind, Always-if}
use ctwatch.Ingest.LogList.{CtLog}
use ctwatch.Ingest.Client.{RawEntry, Server}
use ctwatch.Ingest.Entry.{decode_leaf}
use ctwatch.Ingest.Worker.{
  send_entries, deliver, fetch, follow, tick, after_tick, rounds, run, started, spawn, job_of,
}
use ctwatch.Store.Db.{Db, statement-elim}
use ctwatch.Store.Cursors.{find, current_cursor, advance, upsert}
use ctwatch.Store.Cursors.Laws.{advanced, find-advance_row, find-upsert_row, or_zero}
use ctwatch.Writer.Job.{WriterJob, World, send, put_db, on_db}

-- A cursor that is there stays, at the same place or further on.
abbrev pub CursorLe : Option ℤ → Option ℤ → Type 0
CursorLe none c = Unit
CursorLe (some k) none = ⊥
CursorLe (some k) (some n) = k ≤ℤ n

-- That, for every log.
pub record CursorsGrow (w w' : World) : Type 0 where
  pub at :
      (log_id : List ℕ)
      → CursorLe (find log_id w.db.ingest_cursors) (find log_id w'.db.ingest_cursors)

CursorLe-refl : (c : Option ℤ) → CursorLe c c
CursorLe-refl none = tt
CursorLe-refl (some k) = le_ℤ_refl k

CursorLe-trans : (a b c : Option ℤ) → CursorLe a b → CursorLe b c → CursorLe a c
CursorLe-trans none b c h k = tt
CursorLe-trans (some x) none c h k = absurd h
CursorLe-trans (some x) (some y) none h k = absurd k
CursorLe-trans (some x) (some y) (some z) h k = le_ℤ_trans x y z h k

grow : IsPreorder CursorsGrow
grow = record {
  reflexive = λ w. record { at = λ k. CursorLe-refl (find k w.db.ingest_cursors) };
  transitive = λ w u v h k. record {
    at = λ i.
        CursorLe-trans (find i w.db.ingest_cursors) (find i u.db.ingest_cursors)
          (find i v.db.ingest_cursors) (h.at i) (k.at i);
  };
}

CursorLe-advanced : (n : ℤ) (c : Option ℤ) → CursorLe c (advanced n c)
CursorLe-advanced n none = tt
CursorLe-advanced n (some k) =
    (elim (ltb_ℤ k n) as (λ b. ltb_ℤ k n ≡ b → k ≤ℤ (if b then n else k)) [
      | true ↦ λ e. ltb_ℤ→le k n e
      | false ↦ λ e. le_ℤ_refl k
    ])
      refl

CursorLe-or_zero : (c : Option ℤ) → CursorLe c (or_zero c)
CursorLe-or_zero none = tt
CursorLe-or_zero (some k) = le_ℤ_refl k

CursorLe-if : (b : Bool) (c d : Option ℤ) → CursorLe c d → CursorLe c (if b then d else c)
CursorLe-if true c d h = h
CursorLe-if false c d h = CursorLe-refl c

stay : (w w' : World) → w.db.ingest_cursors ≡ w'.db.ingest_cursors → CursorsGrow w w'
stay w w' e = record {
  at = λ k.
      subst (λ cs. CursorLe (find k w.db.ingest_cursors) (find k cs)) e
        (CursorLe-refl (find k w.db.ingest_cursors));
}

advance-grow : (log_id : List ℕ) (n : ℤ) → Always CursorsGrow (on_db (advance log_id n))
unfolding on_db advance
advance-grow log_id n = record {
  from = λ w.
      statement-elim (λ (r : Result _ × Db). CursorsGrow w (put_db w r).1) _ w.db (stay w _ refl)
        (record {
          at = λ k.
              rw (find-advance_row log_id k n w.db.clock w.db.ingest_cursors)
                (CursorLe-if (beq log_id k) _ _ (CursorLe-advanced n (find k w.db.ingest_cursors)));
        });
}

upsert-grow :
    (log_id : List ℕ) (url operator : List ℕ)
    → Always CursorsGrow (on_db (upsert log_id url operator))
unfolding on_db upsert
upsert-grow log_id url operator = record {
  from = λ w.
      statement-elim (λ (r : Result _ × Db). CursorsGrow w (put_db w r).1) _ w.db (stay w _ refl)
        (record {
          at = λ k.
              rw (find-upsert_row log_id k url operator w.db.clock w.db.ingest_cursors)
                (CursorLe-if (beq log_id k) _ _ (CursorLe-or_zero (find k w.db.ingest_cursors)));
        });
}

current_cursor-grow : (log_id : List ℕ) → Always CursorsGrow (on_db (current_cursor log_id))
unfolding on_db current_cursor
current_cursor-grow log_id = record {
  from = λ w.
      statement-elim (λ (r : Result _ × Db). CursorsGrow w (put_db w r).1) _ w.db (stay w _ refl)
        (stay w _ refl);
}

send-grow : (job : WriterJob) → Always CursorsGrow (send job)
unfolding send
send-grow job = record {
  from = λ w.
      elim w.writer_open
        as (λ b.
          CursorsGrow w
            (if◌then◌else◌ {A = Result (Unit {0}) × World} b
              (ok tt, record w { sent = w.sent ++ job ∷ [] }) (err writer_closed, w)).1) [
                | true ↦ record { at = λ k. CursorLe-refl (find k w.db.ingest_cursors) }
                | false ↦ grow.reflexive w
              ];
}

send_entries-grow :
    (log : CtLog) (entries : List RawEntry) → Always CursorsGrow (send_entries log entries)
unfolding send_entries
send_entries-grow log [] = Always-pure grow tt
send_entries-grow log (raw ∷ entries) =
    Always-bind grow _ _ (Always-lift grow (decode_leaf raw.leaf_input raw.extra_data)) (λ decoded.
      Always-bind grow _ _ (send-grow (job_of log decoded)) (λ _. send_entries-grow log entries))

deliver-grow :
    (log : CtLog) (start : ℕ) (entries : List RawEntry)
    → Always CursorsGrow (deliver log start entries)
unfolding deliver
deliver-grow log start entries =
    Always-bind grow _ _ (send_entries-grow log entries)
      (λ _. Always-bind grow _ _ (advance-grow log.log_id _) (λ _. Always-pure grow true))

follow-grow :
    (server : Server) (log : CtLog) (batch_size : ℕ) (cursor : ℤ) (tree_size : ℕ)
    → Always CursorsGrow (follow server log batch_size cursor tree_size)
unfolding follow fetch
follow-grow server log batch_size cursor tree_size =
    Always-if _ _ _ (Always-bind grow _ _ (advance-grow log.log_id _) (λ _. Always-pure grow false))
      (Always-if _ _ _ (Always-pure grow false) (
        Always-bind grow _ _ (Always-lift grow _)
          (λ entries. Always-if _ _ _ (Always-pure grow false) (deliver-grow log _ entries))))

tick-grow :
    (server : Server) (log : CtLog) (batch_size : ℕ)
    → Always CursorsGrow (tick server log batch_size)
unfolding tick
tick-grow server log batch_size = Always-bind grow _ _ (current_cursor-grow log.log_id) (λ cursor.
    Always-bind grow _ _ (Always-lift grow _)
      (λ sth. follow-grow server log batch_size cursor sth.tree_size))

rounds-grow :
    (poll : ℕ) (backoff : ℕ) (log : CtLog) (batch_size : ℕ) (servers : List Server) (w : World)
    → CursorsGrow w (rounds poll backoff log batch_size servers w).0
unfolding rounds
rounds-grow poll backoff log batch_size [] w = grow.reflexive w
rounds-grow poll backoff log batch_size (s ∷ servers) w =
    grow.transitive w _ _ ((tick-grow s log batch_size).from w) (
      rounds-grow poll (after_tick poll backoff (tick s log batch_size w).0).1 log batch_size
        servers (tick s log batch_size w).1)

-- Whatever the servers and the database answer, for however many rounds a worker runs, the cursor of
-- every log that has one stays or moves forward; no cursor is lost.
pub spawn-CursorsGrow :
    (poll : ℕ) (log : CtLog) (batch_size : ℕ) (servers : List Server) (w : World)
    → CursorsGrow w (spawn poll log batch_size servers w).0
unfolding spawn started run
spawn-CursorsGrow poll log batch_size servers w =
    after (on_db (upsert log.log_id log.url log.operator) w)
      ((upsert-grow log.log_id log.url log.operator).from w)
  where
    after :
        (r : Result (Unit {0}) × World)
        → CursorsGrow w r.1
        → CursorsGrow w (started poll log batch_size servers r).0
    after (ok _, w') h = grow.transitive w w' _ h (rounds-grow poll 1 log batch_size servers w')
    after (err e, w') h = h
