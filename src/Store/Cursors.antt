-- ===== src/Store/Cursors.antt =====
-- src/store/cursors.rs: the table ingest_cursors, keyed by log_id.
pub mod Laws
use ctwatch.Base.{ℕ, List, [], ◌∷◌, map, Option, none, some, if◌then◌else◌, ◌&&◌}
use ctwatch.Base.Int.{ℤ, pos, ltb_ℤ}
use ctwatch.Base.Text.{Text, text, beq}
use ctwatch.Base.Result.{ok, err, database_error}
use ctwatch.Base.Exec.{Exec}
use ctwatch.Store.Db.{Time, Cursor, Db, statement}

-- INSERT … ON CONFLICT (log_id) DO UPDATE
unfoldable pub upsert_row : List ℕ → Text → Text → Time → List Cursor → List Cursor
upsert_row log_id log_url operator now [] =
    record {
      log_id = log_id;
      log_url = log_url;
      operator = operator;
      last_tree_size = pos 0;
      last_updated = now;
      state = text "usable";
    }
    ∷ []
upsert_row log_id log_url operator now (c ∷ cs) =
    if beq c.log_id log_id
    then record c { log_url = log_url; operator = operator; last_updated = now } ∷ cs
    else c ∷ upsert_row log_id log_url operator now cs

unfoldable pub upsert : List ℕ → Text → Text → Exec Db (Unit {0})
unfolding upsert_row
upsert log_id log_url operator = statement λ db. (
  ok tt,
  record db { ingest_cursors = upsert_row log_id log_url operator db.clock db.ingest_cursors },
)

-- UPDATE … WHERE log_id = $1 AND last_tree_size < $2
unfoldable pub advance_row : List ℕ → ℤ → Time → Cursor → Cursor
advance_row log_id new_tree_size now c =
    if beq c.log_id log_id && ltb_ℤ c.last_tree_size new_tree_size
    then record c { last_tree_size = new_tree_size; last_updated = now }
    else c

unfoldable pub advance : List ℕ → ℤ → Exec Db (Unit {0})
unfolding advance_row
advance log_id new_tree_size = statement λ db. (
  ok tt,
  record db { ingest_cursors = map (advance_row log_id new_tree_size db.clock) db.ingest_cursors },
)

unfoldable pub list : Exec Db (List Cursor)
list = statement λ db. (ok db.ingest_cursors, db)

unfoldable pub set_state_row : List ℕ → Text → Cursor → Cursor
set_state_row log_id state c = if beq c.log_id log_id then record c { state = state } else c

unfoldable pub set_state : List ℕ → Text → Exec Db (Unit {0})
unfolding set_state_row
set_state log_id state =
    statement λ db.
      (ok tt, record db { ingest_cursors = map (set_state_row log_id state) db.ingest_cursors })

-- `last_tree_size` of the row of a log
unfoldable pub find : List ℕ → List Cursor → Option ℤ
find log_id [] = none
find log_id (c ∷ cs) = if beq c.log_id log_id then some c.last_tree_size else find log_id cs

-- `current_cursor` of src/ingest/worker.rs: `fetch_one` fails where there is no row.
unfoldable pub current_cursor : List ℕ → Exec Db ℤ
unfolding find
current_cursor log_id =
    statement
      λ db. (elim (find log_id db.ingest_cursors) [ none ↦ err database_error | some n ↦ ok n ], db)
