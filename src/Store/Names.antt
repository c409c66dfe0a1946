-- ===== src/Store/Names.antt =====
-- src/store/names.rs: the table names_observed, keyed by name.
pub mod Observed
use ctwatch.Base.{
  ℕ, ◌+◌, Bool, true, not, ◌&&◌, List, [], ◌∷◌, ◌++◌, Option, none, some, filter, length, take, ltb,
  leb, any, if◌then◌else◌,
}
use ctwatch.Base.Sort.{sort_by}
use ctwatch.Base.Text.{Text, beq}
use ctwatch.Base.Result.{ok, err, database_error}
use ctwatch.Base.Exec.{Exec}
use ctwatch.Store.Db.{Time, NameRow, Db, statement}

-- INSERT … ON CONFLICT (name) DO UPDATE SET last_seen, cert_count
unfoldable pub upsert_row : Text → Text → Time → List NameRow → List NameRow
upsert_row name registered_domain now [] =
    record {
      name = name;
      registered_domain = registered_domain;
      first_seen = now;
      last_seen = now;
      cert_count = 1;
    }
    ∷ []
upsert_row name registered_domain now (r ∷ rows) =
    if beq r.name name
    then record r { last_seen = now; cert_count = r.cert_count + 1 } ∷ rows
    else r ∷ upsert_row name registered_domain now rows

-- cert_count is an INTEGER of 32 bits: the update of a row that has counted so far fails.
unfoldable pub is_full : Text → NameRow → Bool
is_full name r = beq r.name name && leb 2147483647 r.cert_count

unfoldable pub upsert : Text → Text → Time → Exec Db (Unit {0})
unfolding upsert_row is_full
upsert name registered_domain now = statement λ db.
    if any (is_full name) db.names_observed then (err database_error, db) else (
      ok tt,
      record db { names_observed = upsert_row name registered_domain now db.names_observed },
    )

-- ORDER BY last_seen DESC
abbrev pub is_older_row : NameRow → NameRow → Bool
is_older_row r s = ltb r.last_seen s.last_seen

-- `format!("%{c}%")`
abbrev pub pattern_of : Option Text → Option Text
pattern_of none = none
pattern_of (some c) = some (b'%' ∷ (c ++ b'%' ∷ []))

-- SQL's LIKE is a parameter: the pattern, then the text.
module _ (like : Text → Text → Bool) where
  unfoldable pub listed : Text → Time → Option Text → NameRow → Bool
  listed domain since pattern r =
      beq r.registered_domain domain
      && leb since r.last_seen
      && elim pattern [ none ↦ true | some p ↦ like p r.name ]

  unfoldable pub list_by_registered_domain : Text → Time → Option Text → ℕ → Exec Db (List NameRow)
  list_by_registered_domain domain since contains limit = statement λ db. (
    ok (
        take limit (
          sort_by is_older_row
            (filter (listed domain since (pattern_of contains)) db.names_observed))),
    db,
  )

unfoldable pub count : Exec Db ℕ
count = statement λ db. (ok (length db.names_observed), db)

unfoldable pub is_older : Time → NameRow → Bool
is_older cutoff r = ltb r.last_seen cutoff

-- DELETE … WHERE last_seen < $1, with the rows affected
unfoldable pub prune_older_than : Time → Exec Db ℕ
unfolding is_older
prune_older_than cutoff = statement λ db. (
  ok (length (filter (is_older cutoff) db.names_observed)),
  record db { names_observed = filter (λ r. not (is_older cutoff r)) db.names_observed },
)
