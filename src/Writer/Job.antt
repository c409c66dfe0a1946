-- ===== src/Writer/Job.antt =====
-- src/writer.rs: `WriterJob`, and what the workers share: the database and the channel to the writer.
use ctwatch.Base.{ℕ, Bool, List, [], ◌∷◌, ◌++◌, if◌then◌else◌}
use ctwatch.Base.Text.{Text}
use ctwatch.Base.Result.{Result, ok, err, writer_closed}
use ctwatch.Base.Exec.{Exec}
use ctwatch.Ingest.Entry.{DecodedEntry}
use ctwatch.Store.Db.{Db}

pub record WriterJob : Type 0 where
  pub log_id : List ℕ
  pub log_url : Text
  pub operator : Text
  pub entry : DecodedEntry

-- `sent` is what has gone into the channel, oldest first. The channel is open while its receiver lives.
-- A send to a full channel waits, and then is the same as here.
pub record World : Type 0 where
  pub db : Db
  pub sent : List WriterJob
  pub writer_open : Bool

unfoldable pub send : WriterJob → Exec World (Unit {0})
send job w =
    if w.writer_open
    then (ok tt, record w { sent = w.sent ++ job ∷ [] })
    else (err writer_closed, w)

abbrev pub put_db : {A : Type 0} → World → Result A × Db → Result A × World
put_db w (r, db) = (r, record w { db = db })

unfoldable pub on_db : {A : Type 0} → Exec Db A → Exec World A
on_db m w = put_db w (m w.db)
