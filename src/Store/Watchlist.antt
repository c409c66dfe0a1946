-- ===== src/Store/Watchlist.antt =====
-- src/store/watchlist.rs: the table watchlist, keyed by domain.
pub mod Laws
use ctwatch.Base.{
  ℕ, Bool, true, false, not, List, [], ◌∷◌, Option, filter, any, length, ◌==◌, if◌then◌else◌,
}
use ctwatch.Base.Text.{Text, beq, set_insert}
use ctwatch.Base.Result.{ok}
use ctwatch.Base.Exec.{Exec}
use ctwatch.Store.Db.{WatchRow, Db, statement}

unfoldable pub has_domain : Text → List WatchRow → Bool
has_domain domain rows = any (λ (r : WatchRow). beq r.domain domain) rows

-- INSERT … ON CONFLICT (domain) DO NOTHING; whether a row was affected
unfoldable pub add : Text → Option Text → Exec Db Bool
unfolding has_domain
add domain notes = statement λ db. if has_domain domain db.watchlist then (ok false, db) else (
  ok true,
  record db { watchlist = record { domain = domain; notes = notes } ∷ db.watchlist },
)

unfoldable pub without : Text → List WatchRow → List WatchRow
without domain rows = filter (λ (r : WatchRow). not (beq r.domain domain)) rows

-- DELETE … WHERE domain = $1; whether exactly one row was affected
unfoldable pub remove : Text → Exec Db Bool
unfolding without
remove domain = statement λ db. (
  ok (length (filter (λ (r : WatchRow). beq r.domain domain) db.watchlist) == 1),
  record db { watchlist = without domain db.watchlist },
)

-- SELECT domain … ORDER BY domain, where the key makes the domains distinct
unfoldable pub sorted_domains : List WatchRow → List Text
sorted_domains [] = []
sorted_domains (r ∷ rows) = set_insert r.domain (sorted_domains rows)

unfoldable pub list : Exec Db (List Text)
unfolding sorted_domains
list = statement λ db. (ok (sorted_domains db.watchlist), db)

unfoldable pub count : Exec Db ℕ
count = statement λ db. (ok (length db.watchlist), db)
