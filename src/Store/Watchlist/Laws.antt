-- ===== src/Store/Watchlist/Laws.antt =====
-- The table of src/store/watchlist.rs as a set of domains.
use ctwatch.Base.{
  ◌≡◌, refl, ap, Bool, true, false, not, ◌&&◌, List, [], ◌∷◌, arith, filter, length, if◌then◌else◌,
}
use ctwatch.Base.Text.{
  Text, beq, beq_iff, IsAscending, contains, contains-set_insert, set_insert-IsAscending,
}
use ctwatch.Store.Db.{WatchRow}
use ctwatch.Store.Watchlist.{has_domain, without, sorted_domains}

-- The key of the table: no domain twice.
abbrev pub IsKeyed : List WatchRow → Type 0
IsKeyed [] = Unit
IsKeyed (r ∷ rows) = (has_domain r.domain rows ≡ false) × IsKeyed rows

pub contains-sorted_domains :
    (rows : List WatchRow) (d : Text) → contains (sorted_domains rows) d ≡ has_domain d rows
unfolding sorted_domains has_domain contains
contains-sorted_domains [] d = refl
contains-sorted_domains (r ∷ rows) d =
    ground
      (arith, contains-set_insert r.domain d (sorted_domains rows), contains-sorted_domains rows d)

pub sorted_domains-IsAscending : (rows : List WatchRow) → IsAscending (sorted_domains rows)
unfolding sorted_domains
sorted_domains-IsAscending [] = tt
sorted_domains-IsAscending (r ∷ rows) =
    set_insert-IsAscending r.domain (sorted_domains rows) (sorted_domains-IsAscending rows)

pub has_domain-without :
    (d e : Text) (rows : List WatchRow)
    → has_domain e (without d rows) ≡ (has_domain e rows && not (beq d e))
unfolding has_domain without
has_domain-without d e [] = refl
has_domain-without d e (r ∷ rows) =
    ground (arith, has_domain-without d e rows, beq_iff r.domain d, beq_iff r.domain e, beq_iff d e)

if_IsKeyed :
    (d : Text) (r : WatchRow) (rows : List WatchRow) (b : Bool)
    → has_domain r.domain (without d rows) ≡ false
    → IsKeyed (without d rows)
    → IsKeyed (if b then without d rows else r ∷ without d rows)
if_IsKeyed d r rows true h k = k
if_IsKeyed d r rows false h k = (h, k)

pub without-IsKeyed : (d : Text) (rows : List WatchRow) → IsKeyed rows → IsKeyed (without d rows)
unfolding without
without-IsKeyed d [] h = tt
without-IsKeyed d (r ∷ rows) h = ground (
  arith,
  has_domain-without d r.domain rows,
  without-IsKeyed d rows,
  h.0,
  h.1,
  if_IsKeyed d r rows (beq r.domain d),
)

-- The delete of a keyed table counts one row or none.
pub length-filter_keyed :
    (d : Text) (rows : List WatchRow)
    → IsKeyed rows
    → length (filter (λ (r : WatchRow). beq r.domain d) rows) ≡ (if has_domain d rows then 1 else 0)
unfolding has_domain
length-filter_keyed d [] h = refl
length-filter_keyed d (r ∷ rows) h = ground (
  arith,
  beq_iff r.domain d,
  length-filter_keyed d rows h.1,
  h.0,
  ap (λ e. has_domain e rows) {x = r.domain} {y = d},
)
