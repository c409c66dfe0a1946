-- ===== src/Cmd/Serve/Refresh.antt =====
-- Which workers the refresh of src/cmd/serve.rs starts.
use ctwatch.Base.{
  ℕ, ◌≡◌, refl, ap, ◌∙◌, Bool, true, false, not, ◌&&◌, ◌||◌, Option, List, [], ◌∷◌, map, arith, All,
  any, filter, if◌then◌else◌,
}
use ctwatch.Base.Text.{Text, beq, beq_iff, beq_refl, contains, IsDistinct}
use ctwatch.Base.Result.{Result, ok, err}
use ctwatch.Cmd.Serve.Selection.{
  filter-IsDistinct, All-filter, is_asked, filter_operators-filter, any-filter,
}
use ctwatch.Cmd.Serve.{Ingest, launch, launch_all, launched, fresh, refreshed, refresh_tick}
use ctwatch.Ingest.LogList.{CtLog, Decoders, fetch_log_list, is_usable}
use ctwatch.Store.Cursors
use ctwatch.Store.Cursors.{upsert_row}
use ctwatch.Store.Db.{Time, Cursor, Db, answered, later, statement, statement-elim}

-- the logs that have a row in the table of cursors
abbrev pub known : Db → List (List ℕ)
known db = map (λ (c : Cursor). c.log_id) db.ingest_cursors

-- No log has two workers, and each log with a worker has a row.
pub record IsSingle (s : Ingest) : Type 0 where
  pub distinct : IsDistinct s.running
  pub rows : All (λ k. contains (known s.db) k ≡ true) s.running

-- the identifiers of a list of logs that is fetched
abbrev pub ids_of : Result (List CtLog) → List (List ℕ)
ids_of (ok logs) = map (λ (l : CtLog). l.log_id) logs
ids_of (err e) = []

contains-upsert_row :
    (log_id k : List ℕ) (url operator : Text) (now : Time) (cs : List Cursor)
    → contains (map (λ (c : Cursor). c.log_id) (upsert_row log_id url operator now cs)) k
      ≡ (beq log_id k || contains (map (λ (c : Cursor). c.log_id) cs) k)
unfolding upsert_row contains
contains-upsert_row log_id k url operator now [] = ground arith
contains-upsert_row log_id k url operator now (c ∷ cs) = ground (
  arith,
  contains-upsert_row log_id k url operator now cs,
  beq_iff c.log_id log_id,
  beq_iff c.log_id k,
  beq_iff log_id k,
)

rows_of :
    (ids running : List (List ℕ)) (k : List ℕ)
    → All (λ r. contains ids r ≡ true) running
    → contains running k ≡ true
    → contains ids k ≡ true
unfolding contains
rows_of ids [] k h e = cc
rows_of ids (r ∷ running) k h e =
    ground (arith, beq_iff r k, rows_of ids running k h.1, ap (contains ids) {x = r} {y = k}, h.0)

All-upsert_row :
    (log_id : List ℕ) (url operator : Text) (now : Time) (cs : List Cursor)
    (running : List (List ℕ))
    → All (λ r. contains (map (λ (c : Cursor). c.log_id) cs) r ≡ true) running
    → All
        (λ r.
          contains (map (λ (c : Cursor). c.log_id) (upsert_row log_id url operator now cs)) r
          ≡ true)
        running
All-upsert_row log_id url operator now cs [] h = tt
All-upsert_row log_id url operator now cs (r ∷ running) h = (
  ground (arith, contains-upsert_row log_id r url operator now cs, h.0),
  All-upsert_row log_id url operator now cs running h.1,
)

-- what a launch does to a log that has no worker
launch-IsSingle :
    (l : CtLog) (s : Ingest)
    → contains s.running l.log_id ≡ false
    → IsSingle s
    → IsSingle (launch l s)
unfolding launch Cursors.upsert contains
launch-IsSingle l s new h =
    statement-elim (λ r. IsSingle (launched l s.running r)) _ s.db
      (record { distinct = h.distinct; rows = h.rows })
      (record {
        distinct = (new, h.distinct);
        rows = (
          ground (
            arith,
            contains-upsert_row l.log_id l.log_id l.url l.operator s.db.clock s.db.ingest_cursors,
            beq_refl l.log_id,
          ),
          All-upsert_row l.log_id l.url l.operator s.db.clock s.db.ingest_cursors s.running h.rows,
        );
      })

-- The other logs without a worker still have none.
launch-running :
    (l : CtLog) (s : Ingest) (k : List ℕ)
    → beq l.log_id k ≡ false
    → contains s.running k ≡ false
    → contains (launch l s).running k ≡ false
unfolding launch Cursors.upsert contains
launch-running l s k other h =
    statement-elim (λ r. contains (launched l s.running r).running k ≡ false) _ s.db h (rw other h)

launch_others :
    (l : CtLog) (s : Ingest) (logs : List CtLog)
    → contains (map (λ (m : CtLog). m.log_id) logs) l.log_id ≡ false
    → All (λ (m : CtLog). contains s.running m.log_id ≡ false) logs
    → All (λ (m : CtLog). contains (launch l s).running m.log_id ≡ false) logs
unfolding contains
launch_others l s [] h hs = tt
launch_others l s (m ∷ logs) h hs = (
  launch-running l s m.log_id (ground (arith, beq_iff l.log_id m.log_id, beq_iff m.log_id l.log_id))
      hs.0,
  launch_others l s logs (ground arith) hs.1,
)

launch_all-IsSingle :
    (logs : List CtLog) (s : Ingest)
    → IsDistinct (map (λ (l : CtLog). l.log_id) logs)
    → All (λ (l : CtLog). contains s.running l.log_id ≡ false) logs
    → IsSingle s
    → IsSingle (launch_all logs s)
unfolding launch_all
launch_all-IsSingle [] s d hs h = h
launch_all-IsSingle (l ∷ logs) s d hs h =
    launch_all-IsSingle logs (launch l s) d.1 (launch_others l s logs d.0 hs.1)
      (launch-IsSingle l s hs.0 h)

fresh-IsDistinct :
    (operators : Text) (existing : List (List ℕ)) (logs : List CtLog)
    → IsDistinct (map (λ (l : CtLog). l.log_id) logs)
    → IsDistinct (map (λ (l : CtLog). l.log_id) (fresh operators existing logs))
fresh-IsDistinct operators existing logs h = rw (filter_operators-filter operators logs) (
    filter-IsDistinct (λ l. not (contains existing l.log_id)) _
      (filter-IsDistinct is_usable _ (filter-IsDistinct (is_asked operators) logs h)))

-- A log without a row has no worker.
no_row :
    (s : Ingest) (l : CtLog)
    → IsSingle s
    → not (contains (known s.db) l.log_id) ≡ true
    → contains s.running l.log_id ≡ false
no_row s l h e = ground (arith, rows_of (known s.db) s.running l.log_id h.rows)

-- The query of the cursors that is answered.
list-answered :
    (db : Db)
    → answered db.answers ≡ true
    → Cursors.list db ≡ (ok db.ingest_cursors, record db { answers = later db.answers })
unfolding Cursors.list statement
list-answered db a = rw a refl

refreshed-IsSingle :
    (operators : Text) (s : Ingest) (r : Result (List CtLog))
    → IsSingle s
    → answered s.db.answers ≡ true
    → IsDistinct (ids_of r)
    → IsSingle (refreshed operators r s)
refreshed-IsSingle operators s (err e) h a ds = h
refreshed-IsSingle operators s (ok logs) h a ds =
    let started : IsSingle (
        launch_all (fresh operators (known s.db) logs)
          (record s { db = record s.db { answers = later s.db.answers } })) =
      launch_all-IsSingle (fresh operators (known s.db) logs)
        (record s { db = record s.db { answers = later s.db.answers } })
        (fresh-IsDistinct operators (known s.db) logs ds)
        (All-filter (λ l. not (contains (known s.db) l.log_id))
          (λ l. contains s.running l.log_id ≡ false) _ λ l e. no_row s l h e)
        (record { distinct = h.distinct; rows = h.rows }) in
    rw (list-answered s.db a) started

either_IsSingle :
    (b : Bool) (s t : Ingest) → IsSingle s → IsSingle t → IsSingle (if b then s else t)
either_IsSingle true s t h k = h
either_IsSingle false s t h k = k

module _ (d : Decoders) (operators : Text) (built : Bool) (response : Option Text)
    (s : Ingest) where
  -- Where no log has two workers, each log with a worker has a row in the table of cursors, the list of
  -- logs names no log twice and the database lists the cursors, the refresh keeps it that no log has two
  -- workers and that each log with one has a row, also where a row of a new log cannot be written.
  pub refresh_tick-IsSingle :
      IsSingle s
      → answered s.db.answers ≡ true
      → IsDistinct (ids_of (fetch_log_list d response))
      → IsSingle (refresh_tick d operators built response s)
  unfolding refresh_tick
  refresh_tick-IsSingle h a ds =
      either_IsSingle built _ s (refreshed-IsSingle operators s (fetch_log_list d response) h a ds)
        h

launch_answered :
    (l : CtLog) (s : Ingest) (k : List ℕ)
    → s.db.answers ≡ []
    → (contains (launch l s).running k ≡ (beq l.log_id k || contains s.running k))
      × ((launch l s).db.answers ≡ [])
unfolding launch Cursors.upsert statement answered later contains
launch_answered l s k h = rw h (refl, refl)

launch_all_answered :
    (logs : List CtLog) (s : Ingest) (k : List ℕ)
    → s.db.answers ≡ []
    → contains (launch_all logs s).running k
      ≡ (any (λ (l : CtLog). beq l.log_id k) logs || contains s.running k)
unfolding launch_all
launch_all_answered [] s k h = refl
launch_all_answered (l ∷ logs) s k h =
    let (first, rest) = launch_answered l s k h in
    ground (arith, launch_all_answered logs (launch l s) k rest, first)

-- Where the list of logs is fetched and the database answers every statement, the refresh starts a worker
-- for exactly the logs of the list whose operator is allowed, that are usable and that have no row in the
-- table of cursors. No worker is stopped: that of a log which the list does not name any more, or not as
-- usable, goes on, where ARCHITECTURE.md says that it stops.
pub refresh_tick-running :
    (d : Decoders) (operators : Text) (response : Option Text) (s : Ingest) (logs : List CtLog)
    (k : List ℕ)
    → fetch_log_list d response ≡ ok logs
    → s.db.answers ≡ []
    → contains (refresh_tick d operators true response s).running k ≡ (
        any
          (λ (l : CtLog).
            is_asked operators l
            && (is_usable l && (not (contains (known s.db) l.log_id) && beq l.log_id k)))
          logs
        || contains s.running k)
unfolding refresh_tick answered later
refresh_tick-running d operators response s logs k e h =
    rw (e, list-answered s.db (rw h refl), filter_operators-filter operators logs)
      (launch_all_answered _ _ k (rw h refl)
        ∙ ap (λ b. b || contains s.running k)
            (any-filter (λ l. beq l.log_id k) (λ l. not (contains (known s.db) l.log_id))
                (filter is_usable (filter (is_asked operators) logs))
              ∙ any-filter (λ l. not (contains (known s.db) l.log_id) && beq l.log_id k) is_usable
                  (filter (is_asked operators) logs)
              ∙ any-filter _ (is_asked operators) logs))
