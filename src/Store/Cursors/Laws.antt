-- ===== src/Store/Cursors/Laws.antt =====
-- What the statements on ingest_cursors do to each log's cursor.
use ctwatch.Base.{ℕ, ◌≡◌, List, [], ◌∷◌, map, Option, none, some, arith, if◌then◌else◌}
use ctwatch.Base.Int.{ℤ, pos, ltb_ℤ}
use ctwatch.Base.Text.{Text, beq, beq_iff}
use ctwatch.Store.Db.{Time, Cursor}
use ctwatch.Store.Cursors.{upsert_row, advance_row, find}

-- what `advance` makes of a cursor
abbrev pub advanced : ℤ → Option ℤ → Option ℤ
advanced n none = none
advanced n (some k) = some (if ltb_ℤ k n then n else k)

-- `advance` raises the cursor of its log to the new size, never lowers it, and touches no other.
pub find-advance_row :
    (log_id k : List ℕ) (n : ℤ) (now : Time) (cs : List Cursor)
    → find k (map (advance_row log_id n now) cs)
      ≡ (if beq log_id k then advanced n (find k cs) else find k cs)
unfolding find advance_row
find-advance_row log_id k n now [] = ground arith
find-advance_row log_id k n now (c ∷ cs) = ground (
  arith,
  find-advance_row log_id k n now cs,
  beq_iff c.log_id log_id,
  beq_iff c.log_id k,
  beq_iff log_id k,
)

abbrev pub or_zero : Option ℤ → Option ℤ
or_zero none = some (pos 0)
or_zero (some k) = some k

-- `upsert` keeps the cursor of a known log, starts a new log at 0, and touches no other.
pub find-upsert_row :
    (log_id k : List ℕ) (url operator : Text) (now : Time) (cs : List Cursor)
    → find k (upsert_row log_id url operator now cs)
      ≡ (if beq log_id k then or_zero (find k cs) else find k cs)
unfolding find upsert_row
find-upsert_row log_id k url operator now [] = ground arith
find-upsert_row log_id k url operator now (c ∷ cs) = ground (
  arith,
  find-upsert_row log_id k url operator now cs,
  beq_iff c.log_id log_id,
  beq_iff c.log_id k,
  beq_iff log_id k,
)
