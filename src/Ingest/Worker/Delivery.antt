-- ===== src/Ingest/Worker/Delivery.antt =====
-- src/ingest/worker.rs: the cursor of a worker, and the entries that it has handed to the writer.
use ctwatch.Base.{
  ℕ, ◌+◌, ◌-◌, ◌%◌, ◌≤◌, ◌<◌, ◌≡◌, refl, sym, ◌∙◌, ap, subst, Bool, true, false, List, [], ◌∷◌,
  ◌++◌, Option, some, arith, All, All-append, length, take, drop, drop-drop, take-add,
  take-length-take, length-take, length-drop, ltb, if◌then◌else◌,
}
use ctwatch.Base.Int.{ℤ, pos, as_i64, u64_mod, i64_mod, leb_ℤ}
use ctwatch.Base.Text.{beq_refl, is_empty}
use ctwatch.Base.Result.{Result, ok, err}
use ctwatch.Base.Exec.{Exec, pure, lift, resume, resume-pure, ◌>>=◌, ◌>>◌}
use ctwatch.Ingest.LogList.{CtLog}
use ctwatch.Ingest.Client.{RawEntry, Server, SignedTreeHead, get_sth, get_entries}
use ctwatch.Ingest.Worker.{
  is_zero, send_entries, end_inclusive, deliver, fetch, follow, tick, after_tick, rounds, run,
}
use ctwatch.Ingest.Worker.Sending.{IsSent, IsSent-append, SentAll, send_entries-SentAll}
use ctwatch.Store.Db.{Db, statement-elim, later}
use ctwatch.Store.Cursors.{find, current_cursor, advance}
use ctwatch.Store.Cursors.Laws.{advanced, find-advance_row}
use ctwatch.Writer.Job.{WriterJob, World, put_db, on_db}

-- The cursor of the log stands at or past `first`, and all entries of the tree from `first` up to it
-- have been sent.
pub record Covered (log : CtLog) (tree : List RawEntry) (first : ℕ) (w : World) : Type 0 where
  pub cursor : ℕ
  pub found : find log.log_id w.db.ingest_cursors ≡ some (pos cursor)
  pub past : first ≤ cursor
  pub below : cursor < i64_mod
  pub sent : All (IsSent log w.sent) (take (cursor - first) (drop first tree))

-- What a log promises (RFC 6962, section 4.6): consecutive entries from `start` on, maybe fewer than
-- were asked for.
abbrev pub ServesTree : CtLog → List RawEntry → Server → Type 0
ServesTree log tree s =
    (start last : ℕ) (entries : List RawEntry)
    → start < i64_mod
    → get_entries s log.url start last ≡ ok entries
    → (n : ℕ) × (entries ≡ take n (drop start tree))

advanced_past :
    (k n : ℕ) (o : Option ℤ) (z : ℤ) (b : Bool)
    → k < n
    → o ≡ some (pos k)
    → z ≡ pos n
    → b ≡ true
    → (if b then advanced z o else o) ≡ some (pos n)
advanced_past k n o z b h e f g = rw (g, e, f) (ground arith)

-- One more stretch of the tree after the first.
take_further :
    (first cursor n : ℕ) (tree : List RawEntry)
    → first ≤ cursor
    → take (cursor + length (take n (drop cursor tree)) - first) (drop first tree)
      ≡ take (cursor - first) (drop first tree) ++ take n (drop cursor tree)
take_further first cursor n tree h =
    let entries = take n (drop cursor tree) in
    let there : drop (cursor - first) (drop first tree) ≡ drop cursor tree =
      drop-drop first (cursor - first) cursor tree (omega arith) in
    take-add (cursor - first) (length entries) (cursor + length entries - first) (drop first tree)
      (omega arith)
    ∙ ap (λ xs. take (cursor - first) (drop first tree) ++ take (length entries) xs) there
    ∙ ap (λ xs. take (cursor - first) (drop first tree) ++ xs)
        (take-length-take n (drop cursor tree))

module _ (log : CtLog) (tree : List RawEntry) (first : ℕ) where
  Covered-sent :
      (w : World) (more : List WriterJob)
      → Covered log tree first w
      → Covered log tree first (record w { sent = w.sent ++ more })
  Covered-sent w more c = record {
    cursor = c.cursor;
    found = c.found;
    past = c.past;
    below = c.below;
    sent = IsSent-append log w.sent more _ c.sent;
  }

  Covered-answers :
      (w : World) (answers : List Bool)
      → Covered log tree first w
      → Covered log tree first (record w { db = record w.db { answers = answers } })
  Covered-answers w answers c = record {
    cursor = c.cursor;
    found = c.found;
    past = c.past;
    below = c.below;
    sent = c.sent;
  }

  -- Moving the cursor behind entries that have all been sent.
  Covered-advance :
      (w : World) (n : ℕ) (c : Covered log tree first w)
      → length tree < i64_mod
      → 0 < length (take n (drop c.cursor tree))
      → All (IsSent log w.sent) (take n (drop c.cursor tree))
      → let entries = take n (drop c.cursor tree) in
        Covered log tree first
          ((on_db (advance log.log_id (as_i64 ((c.cursor + length entries) % u64_mod))) w).1)
  unfolding on_db advance
  Covered-advance w n c small some_entry all =
      let entries = take n (drop c.cursor tree) in
      let last = c.cursor + length entries in
      let inside : last ≤ length tree =
        omega (arith, length-take n (drop c.cursor tree), length-drop c.cursor tree) in
      let exact : as_i64 (last % u64_mod) ≡ pos last = ground arith in
      statement-elim (λ (r : Result (Unit {0}) × Db). Covered log tree first (put_db w r).1) _ w.db
        (Covered-answers w _ c)
        (record {
          cursor = last;
          found =
              find-advance_row log.log_id log.log_id (as_i64 (last % u64_mod)) w.db.clock
                w.db.ingest_cursors
              ∙ advanced_past c.cursor last _ _ _ (omega arith) c.found exact (beq_refl log.log_id);
          past = omega (arith, c.past);
          below = omega arith;
          sent =
              subst (All (IsSent log w.sent)) (sym (take_further first c.cursor n tree c.past))
                (All-append (IsSent log w.sent) _ _ c.sent all);
        })

  module _ (small : length tree < i64_mod) where
    deliver-Covered :
        (w : World) (c : Covered log tree first w) (n : ℕ)
        → 0 < length (take n (drop c.cursor tree))
        → Covered log tree first (deliver log c.cursor (take n (drop c.cursor tree)) w).1
    unfolding deliver ◌>>=◌ Covered-sent
    deliver-Covered w c n some_entry =
        after (send_entries log entries w) (unfold SentAll in send_entries-SentAll log entries w)
      where
        entries : List RawEntry
        entries = take n (drop c.cursor tree)

        after :
            (r : Result (Unit {0}) × World)
            → ((more : List WriterJob) × (r.1 ≡ record w { sent = w.sent ++ more })
                × (r.0 ≡ ok tt → All (IsSent log (w.sent ++ more)) entries))
            → Covered log tree first
                (resume
                  (λ _.
                    on_db (advance log.log_id (as_i64 ((c.cursor + length entries) % u64_mod)))
                    >> pure true)
                  r).1
        after (err e, w') (more, same, all) =
            subst (Covered log tree first) (sym same) (Covered-sent w more c)
        after (ok _, w') (more, same, all) =
            rw (same, resume-pure {A = Unit {0}} true)
              (Covered-advance (record w { sent = w.sent ++ more }) n (Covered-sent w more c) small
                some_entry (all refl))

    follow-Covered :
        (server : Server) (batch_size tree_size : ℕ) (w : World) (c : Covered log tree first w)
        → ServesTree log tree server
        → 0 < first
        → Covered log tree first (follow server log batch_size (pos c.cursor) tree_size w).1
    unfolding follow fetch is_zero ◌>>=◌
    follow-Covered server batch_size tree_size w c serves positive =
        let started : ltb c.cursor 1 ≡ false = ground (arith, c.past) in
        rw started (behind (leb_ℤ (as_i64 tree_size) (pos c.cursor)))
      where
        last : ℕ
        last = end_inclusive c.cursor batch_size tree_size

        fetched :
            (r : Result (List RawEntry))
            → get_entries server log.url c.cursor last ≡ r
            → Covered log tree first
                (resume
                  (λ entries. if is_empty entries then pure false else deliver log c.cursor entries)
                  (r, w)).1
        fetched (err e) h = c
        fetched (ok []) h = c
        fetched (ok (raw ∷ entries)) h =
            let (n, same) = serves c.cursor last (raw ∷ entries) c.below h in
            subst (λ es. Covered log tree first (deliver log c.cursor es w).1) (sym same)
              (deliver-Covered w c n (subst (λ es. 0 < length es) same (omega arith)))

        behind :
            (b : Bool)
            → Covered log tree first
                ((if b
                    then pure false
                    else lift (get_entries server log.url c.cursor last) >>= λ entries.
                        if is_empty entries then pure false else deliver log c.cursor entries)
                  w).1
        behind true = c
        behind false = fetched (get_entries server log.url c.cursor last) refl

    tick-Covered :
        (server : Server) (batch_size : ℕ) (w : World)
        → ServesTree log tree server
        → 0 < first
        → Covered log tree first w
        → Covered log tree first (tick server log batch_size w).1
    unfolding tick ◌>>=◌ on_db current_cursor Covered-answers
    tick-Covered server batch_size w serves positive c =
        statement-elim (λ (r : Result ℤ × Db). Covered log tree first (resume step (put_db w r)).1)
          _ w.db (Covered-answers w _ c) (rw c.found (headed (get_sth server log.url)))
      where
        step : ℤ → Exec World Bool
        step cursor = lift (get_sth server log.url) >>= λ sth.
            follow server log batch_size cursor sth.tree_size

        answered_world : World
        answered_world = record w { db = record w.db { answers = later w.db.answers } }

        headed :
            (r : Result SignedTreeHead)
            → Covered log tree first
                (resume
                  (λ sth. follow server log batch_size (pos c.cursor) sth.tree_size)
                  (r, answered_world)).1
        headed (err e) = Covered-answers w _ c
        headed (ok sth) =
            follow-Covered server batch_size sth.tree_size answered_world (Covered-answers w _ c)
              serves positive

    rounds-Covered :
        (poll : ℕ) (batch_size : ℕ) (servers : List Server) (backoff : ℕ) (w : World)
        → All (ServesTree log tree) servers
        → 0 < first
        → Covered log tree first w
        → Covered log tree first (rounds poll backoff log batch_size servers w).0
    unfolding rounds
    rounds-Covered poll batch_size [] backoff w serves positive c = c
    rounds-Covered poll batch_size (s ∷ servers) backoff w serves positive c =
        rounds-Covered poll batch_size servers
          (after_tick poll backoff (tick s log batch_size w).0).1 (tick s log batch_size w).1
          serves.1 positive (tick-Covered s batch_size w serves.0 positive c)

-- A worker whose cursor has left 0 never skips an entry. For a log that serves consecutive entries of
-- one tree, below 2 ^ 63 of them, a cursor below 2 ^ 63, and whatever fails on the way, in the network
-- or the database: after any number of rounds every entry between the place where the worker began
-- and its cursor decodes and has been handed to the writer.
pub run-Covered :
    (poll : ℕ) (log : CtLog) (batch_size : ℕ) (tree : List RawEntry) (servers : List Server)
    (w : World) (first : ℕ)
    → length tree < i64_mod
    → 0 < first
    → first < i64_mod
    → find log.log_id w.db.ingest_cursors ≡ some (pos first)
    → All (ServesTree log tree) servers
    → Covered log tree first (run poll log batch_size servers w).0
unfolding run
run-Covered poll log batch_size tree servers w first small positive low found serves =
    rounds-Covered log tree first small poll batch_size servers 1 w serves positive (record {
      cursor = first;
      found = found;
      past = omega arith;
      below = low;
      sent = let none_yet : first - first ≡ 0 = omega arith in rw none_yet tt;
    })
