-- ===== src/Api/Watchlist/Refinement.antt =====
-- The handlers of src/api/watchlist.rs against the set of domains that they promise.
use ctwatch.Base.{
  ◌≡◌, refl, subst, ap, Bool, true, false, ◌||◌, ◌≢◌, length, filter, ◌==◌, Option, List, [], ◌∷◌,
  map, arith, inl, inr, if◌then◌else◌, Bool-cases,
}
use ctwatch.Base.Text.{Text, text, beq, beq_iff}
use ctwatch.Base.Result.{Result, ok}
use ctwatch.Api.{failure, bad_request, answer, then_with, respond, normalized, query, ◌>>=◌}
use ctwatch.Api.Watchlist.{AddBody, warning_of, list, add, remove}
use ctwatch.Api.Watchlist.Spec.{
  Domains, Request, get, post, delete, Response, got, posted, deleted, paired, handle, handle_all,
  Step, gets, adds, removes, get_fails, post_fails, delete_fails, Steps, stop, step,
}
use ctwatch.Store.Db.{WatchRow, Db, answered, later, statement-answered}
use ctwatch.Store.Watchlist
use ctwatch.Store.Watchlist.{has_domain, without}
use ctwatch.Store.Watchlist.Laws.{
  IsKeyed, contains-sorted_domains, sorted_domains-IsAscending, has_domain-without, without-IsKeyed,
  length-filter_keyed,
}

-- The set that a table stands for.
abbrev pub members : Db → Domains
members db e = has_domain e db.watchlist

or_comm : (a b : Bool) → (a || b) ≡ (b || a)
or_comm a b = ground arith

module _ (domain : Text → Option Text) where
  -- What one request leaves, by whether the database answers: a step of the set, and a table that keeps
  -- its key. One statement was run.
  abbrev pub Refines : Request → Db → Bool → Response × Db → Type 0
  Refines q db b (r, db') =
      Step domain b q (members db) r (members db')
      × IsKeyed db'.watchlist
      × (db'.answers ≡ later db.answers)

  get-Refines :
      (db : Db)
      → IsKeyed db.watchlist
      → Refines get db (answered db.answers) (paired got (query Watchlist.list db))
  unfolding query Watchlist.list
  get-Refines db h =
      statement-answered (λ b x. Refines get db b (paired got (answer x))) _ db
        (get_fails _, h, refl)
        (
          gets _ _ (sorted_domains-IsAscending db.watchlist) (contains-sorted_domains db.watchlist),
          h,
          refl,
        )

  -- the response to an added domain, and to a removed one
  abbrev posted_of : AddBody → Result Bool × Db → Response × Db
  posted_of b x = paired posted (
      then_with
        (λ added. respond (
          if added then 201 else 200,
          record {
            domain = normalized domain b.domain;
            added = added;
            warning = warning_of domain b.domain;
          },
        ))
        (answer x))

  abbrev deleted_of : Result Bool × Db → Response × Db
  deleted_of x =
      paired deleted (then_with (λ removed. respond (if removed then 204 else 404)) (answer x))

  post-Refines :
      (b : AddBody) (db : Db)
      → IsKeyed db.watchlist
      → Refines
          (post b)
          db
          (answered db.answers)
          (posted_of b (Watchlist.add (normalized domain b.domain) b.notes db))
  unfolding Watchlist.add
  post-Refines b db h =
      statement-answered (λ a x. Refines (post b) db a (posted_of b x)) _ db
        (post_fails _ _, h, refl)
        (elim (Bool-cases (has_domain (normalized domain b.domain) db.watchlist)) [
          | inl old ↦ rw old (
            adds _ _ b true old λ e. ground (
              arith,
              beq_iff (normalized domain b.domain) e,
              ap (λ d. has_domain d db.watchlist) {x = normalized domain b.domain} {y = e},
            ),
            h,
            refl,
          )
          | inr new ↦ rw new (
            adds _ _ b false new
                (λ e. or_comm (beq (normalized domain b.domain) e) (has_domain e db.watchlist)),
            (new, h),
            refl,
          )
        ])

  delete-Refines :
      (d : Text) (db : Db)
      → IsKeyed db.watchlist
      → Refines
          (delete d)
          db
          (answered db.answers)
          (deleted_of (Watchlist.remove (normalized domain d) db))
  unfolding Watchlist.remove
  delete-Refines d db h =
      statement-answered (λ a x. Refines (delete d) db a (deleted_of x)) _ db
        (delete_fails _ _, h, refl)
        (removed_step (has_domain (normalized domain d) db.watchlist) refl)
    where
      removed_step :
          (known : Bool)
          → has_domain (normalized domain d) db.watchlist ≡ known
          → Refines (delete d) db true (
              deleted_of (
                ok (
                    length
                      (filter (λ (r : WatchRow). beq r.domain (normalized domain d)) db.watchlist)
                    == 1),
                record db {
                  watchlist = without (normalized domain d) db.watchlist;
                  answers = later db.answers;
                },
              ))
      removed_step true e =
          let one = length-filter_keyed (normalized domain d) db.watchlist h in
          rw (one, e)
            (
              removes _ _ d true e (λ e'. has_domain-without (normalized domain d) e' db.watchlist),
              without-IsKeyed (normalized domain d) db.watchlist h,
              refl,
            )
      removed_step false e =
          let one = length-filter_keyed (normalized domain d) db.watchlist h in
          rw (one, e)
            (
              removes _ _ d false e
                  (λ e'. has_domain-without (normalized domain d) e' db.watchlist),
              without-IsKeyed (normalized domain d) db.watchlist h,
              refl,
            )

  handle-Refines :
      (q : Request) (db : Db)
      → IsKeyed db.watchlist
      → Refines q db (answered db.answers) (handle (text "db") domain q db)
  unfolding handle list add remove query ◌>>=◌ beq
  handle-Refines get db h = get-Refines db h
  handle-Refines (post b) db h = post-Refines b db h
  handle-Refines (delete d) db h = delete-Refines d db h

  with_answers :
      {a b : List Bool} (qs : List Request) {s u : Domains} {rs : List Response}
      → a ≡ b
      → Steps domain a qs s rs u
      → Steps domain b qs s rs u
  with_answers qs {s} {u} {rs} e h = subst (λ c. Steps domain c qs s rs u) e h

  -- In db mode the routes under /v1/watchlist refine a set of domains: on a table that keeps its key, the
  -- responses to any sequence of requests are those of the set that the table stands for, the table stands
  -- for the set that is left, and keeps its key. Exactly where the database does not answer, the response is
  -- status 500 and the set stays.
  pub handle_all-refines :
      (qs : List Request) (db : Db)
      → IsKeyed db.watchlist
      → Steps domain db.answers qs
          (members db)
          (handle_all (text "db") domain qs db).0
          (members (handle_all (text "db") domain qs db).1)
        × IsKeyed (handle_all (text "db") domain qs db).1.watchlist
  unfolding handle_all
  handle_all-refines [] db h = (stop _ _, h)
  handle_all-refines (q ∷ qs) db h =
      let (first, keyed, rest) = handle-Refines q db h in
      let (steps, last) = handle_all-refines qs (handle (text "db") domain q db).1 keyed in
      (step db.answers q qs _ _ _ _ _ first (with_answers qs rest steps), last)

-- Status 400
abbrev pub refused : Request → Response
refused get = got (failure (bad_request (text "watchlist not in db mode")))
refused (post b) = posted (failure (bad_request (text "watchlist not in db mode")))
refused (delete d) = deleted (failure (bad_request (text "watchlist not in db mode")))

not_db : (mode : Text) → mode ≢ text "db" → beq mode (text "db") ≡ false
not_db mode h = ground (arith, beq_iff mode (text "db"))

handle-refused :
    (mode : Text) (domain : Text → Option Text) (q : Request) (db : Db)
    → mode ≢ text "db"
    → handle mode domain q db ≡ (refused q, db)
unfolding handle list add remove
handle-refused mode domain get db h = rw (not_db mode h) refl
handle-refused mode domain (post b) db h = rw (not_db mode h) refl
handle-refused mode domain (delete d) db h = rw (not_db mode h) refl

-- In every other mode each request is refused with status 400, and nothing is read or changed.
handle_all-refused :
    (mode : Text) (domain : Text → Option Text) (qs : List Request) (db : Db)
    → mode ≢ text "db"
    → handle_all mode domain qs db ≡ (map refused qs, db)
unfolding handle_all
handle_all-refused mode domain [] db h = refl
handle_all-refused mode domain (q ∷ qs) db h =
    rw (handle-refused mode domain q db h, handle_all-refused mode domain qs db h)
