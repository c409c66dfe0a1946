-- ===== src/Store/Pages.antt =====
-- The three statements of src/store that list rows in an order and with a limit.
use ctwatch.Base.{ℕ, ◌≡◌, refl, Bool, Option, List, arith, ltb, take, filter, false}
use ctwatch.Base.Sort.{sort_by, IsPage, take-sort_by-IsPage}
use ctwatch.Base.Text.{Text}
use ctwatch.Base.Result.{Result, ok, err, database_error}
use ctwatch.Store.Certs
use ctwatch.Store.Names
use ctwatch.Store.Outbox
use ctwatch.Store.Db.{Time, CertRow, NameRow, OutboxRow, Db, answered, later, statement-cases}

-- What such a statement returns: a page, or the error of the database. The tables stay as they are.
abbrev pub PageOutcome :
    {A : Type 0} → (A → A → Bool) → (A → Bool) → ℕ → List A → Db → Result (List A) × Db → Type 0
PageOutcome after asked limit table db (ok rows, db') =
    IsPage after asked limit table rows × (db' ≡ record db { answers = later db.answers })
PageOutcome after asked limit table db (err e, db') =
    (e ≡ database_error)
    × (answered db.answers ≡ false)
    × (db' ≡ record db { answers = later db.answers })

module _ {A : Type 0} (key : A → ℕ) where
  pub desc-IsPage :
      (asked : A → Bool) (limit : ℕ) (table : List A)
      → IsPage
          (λ r s. ltb (key r) (key s))
          asked
          limit
          table
          (take limit (sort_by (λ r s. ltb (key r) (key s)) (filter asked table)))
  desc-IsPage =
      take-sort_by-IsPage (λ r s. ltb (key r) (key s)) (λ a b h. ground arith)
        (λ a b c h k. ground arith)

  asc-IsPage :
      (asked : A → Bool) (limit : ℕ) (table : List A)
      → IsPage
          (λ r s. ltb (key s) (key r))
          asked
          limit
          table
          (take limit (sort_by (λ r s. ltb (key s) (key r)) (filter asked table)))
  asc-IsPage =
      take-sort_by-IsPage (λ r s. ltb (key s) (key r)) (λ a b h. ground arith)
        (λ a b c h k. ground arith)

-- The names of a registered domain that were seen since a time, and that match the pattern if there is
-- one, come newest first, and all of them if the limit allows.
pub names-list-PageOutcome :
    (like : Text → Text → Bool) (domain : Text) (since : Time) (contains : Option Text) (limit : ℕ)
    (db : Db)
    → PageOutcome Names.is_older_row
        (Names.listed like domain since (Names.pattern_of contains))
        limit
        db.names_observed
        db
        (Names.list_by_registered_domain like domain since contains limit db)
unfolding Names.list_by_registered_domain
names-list-PageOutcome like domain since contains limit db =
    statement-cases
      (PageOutcome Names.is_older_row (Names.listed like domain since (Names.pattern_of contains))
        limit db.names_observed db)
      _ db (λ a. (refl, a, refl))
      (
        desc-IsPage (λ (r : NameRow). r.last_seen)
            (Names.listed like domain since (Names.pattern_of contains)) limit db.names_observed,
        refl,
      )

-- The certificates with a registered domain and a start of validity since a time come newest first, and
-- all of them if the limit allows.
certs-list-PageOutcome :
    (domain : Text) (since : Time) (limit : ℕ) (db : Db)
    → PageOutcome Certs.is_older_row
        (Certs.in_window_of domain since)
        limit
        db.certs
        db
        (Certs.list_by_registered_domain domain since limit db)
unfolding Certs.list_by_registered_domain
certs-list-PageOutcome domain since limit db =
    statement-cases
      (PageOutcome Certs.is_older_row (Certs.in_window_of domain since) limit db.certs db) _ db
      (λ a. (refl, a, refl))
      (
        desc-IsPage (λ (r : CertRow). r.not_before) (Certs.in_window_of domain since) limit
            db.certs,
        refl,
      )

-- The messages that are due come with the earliest attempt first, and all of them if the limit allows.
due-PageOutcome :
    (limit : ℕ) (db : Db)
    → PageOutcome Outbox.is_later_row
        (Outbox.is_due db.clock)
        limit
        db.webhook_outbox
        db
        (Outbox.due limit db)
unfolding Outbox.due
due-PageOutcome limit db =
    statement-cases
      (PageOutcome Outbox.is_later_row (Outbox.is_due db.clock) limit db.webhook_outbox db) _ db
      (λ a. (refl, a, refl))
      (
        asc-IsPage (λ (r : OutboxRow). r.next_attempt) (Outbox.is_due db.clock) limit
            db.webhook_outbox,
        refl,
      )
