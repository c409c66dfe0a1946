-- ===== src/Store/Reads.antt =====
-- What a statement that only reads the tables promises, and the statements of src/store that do.
use ctwatch.Base.{
  ℕ, zero, suc, ◌+◌, ◌&&◌, arith, if◌then◌else◌, ◌≡◌, refl, ◌∙◌, ap, Bool, true, false, Bool-cases,
  inl, inr, List, length, filter, leb,
}
use ctwatch.Base.Result.{Result, ok, err, database_error}
use ctwatch.Base.Exec.{Exec, pure, resume, ◌>>=◌}
use ctwatch.Store.BackfillJobs.{active_count, completed_count, is_running, is_completed}
use ctwatch.Store.Certs.{count_in_window}
use ctwatch.Store.Cursors
use ctwatch.Store.Db.{CertRow, Db, answered, later, statement, statement-answered}
use ctwatch.Store.Names
use ctwatch.Store.Outbox.{pending_count, failed_count, is_pending, has_failed}
use ctwatch.Store.Watchlist
use ctwatch.Store.Watchlist.{sorted_domains}

-- Whether all of the next `n` statements are answered, and the answers that are left where the first one
-- that is not ends them.
unfoldable pub all_answered : ℕ → List Bool → Bool
all_answered zero bs = true
all_answered (suc n) bs = answered bs && all_answered n (later bs)

unfoldable pub left_after : ℕ → List Bool → List Bool
left_after zero bs = bs
left_after (suc n) bs = let rest = left_after n (later bs) in if answered bs then rest else later bs

zero_add : (m : ℕ) → 0 + m ≡ m
zero_add m = omega arith

suc_add : (n m : ℕ) → suc n + m ≡ suc (n + m)
suc_add n m = omega arith

all_answered_add :
    (n m : ℕ) (bs : List Bool)
    → all_answered (n + m) bs ≡ (all_answered n bs && all_answered m (left_after n bs))
unfolding all_answered left_after
all_answered_add zero m bs = ap (λ k. all_answered k bs) (zero_add m)
all_answered_add (suc n) m bs =
    ap (λ k. all_answered k bs) (suc_add n m)
    ∙ after (answered bs) (all_answered_add n m (later bs))
  where
    after :
        (b : Bool)
        → all_answered (n + m) (later bs)
          ≡ (all_answered n (later bs) && all_answered m (left_after n (later bs)))
        → (b && all_answered (n + m) (later bs)) ≡ (
            (b && all_answered n (later bs))
            && all_answered m (if b then left_after n (later bs) else later bs))
    after false h = refl
    after true h = h

left_after_add :
    (n m : ℕ) (bs : List Bool)
    → left_after (n + m) bs
      ≡ (if all_answered n bs then left_after m (left_after n bs) else left_after n bs)
unfolding all_answered left_after
left_after_add zero m bs = ap (λ k. left_after k bs) (zero_add m)
left_after_add (suc n) m bs =
    ap (λ k. left_after k bs) (suc_add n m) ∙ after (answered bs) (left_after_add n m (later bs))
  where
    after :
        (b : Bool)
        → left_after (n + m) (later bs) ≡ (
            if all_answered n (later bs)
            then left_after m (left_after n (later bs))
            else left_after n (later bs))
        → (if b then left_after (n + m) (later bs) else later bs) ≡ (
            if b && all_answered n (later bs)
            then left_after m (if b then left_after n (later bs) else later bs)
            else (if b then left_after n (later bs) else later bs))
    after false h = refl
    after true h = h

module _ {A : Type 0} where
  -- `n` statements that read: the value where all are answered, an error where one is not. The tables
  -- stay as they are.
  abbrev pub read : ℕ → A → Db → Result A × Db
  read n a db = (
    if all_answered n db.answers then ok a else err database_error,
    record db { answers = left_after n db.answers },
  )

  pub record Reads (n : ℕ) (f : Db → A) (m : Exec Db A) : Type 0 where
    pub stable : (db : Db) (answers : List Bool) → f (record db { answers = answers }) ≡ f db
    pub from : (db : Db) → m db ≡ read n (f db) db

  statement-Reads :
      (f : Db → A)
      → ((db : Db) (answers : List Bool) → f (record db { answers = answers }) ≡ f db)
      → Reads 1 f (statement λ db. (ok (f db), db))
  unfolding all_answered left_after
  statement-Reads f h = record {
    stable = h;
    from = λ db.
        statement-answered
          (λ b r. r ≡ (
            if b && true then ok (f db) else err database_error,
            record db { answers = if b then later db.answers else later db.answers },
          ))
          (λ db. (ok (f db), db)) db refl
          (ap (λ a. (ok a, record db { answers = later db.answers })) (h db _));
  }

  pub pure-Reads : (a : A) → Reads 0 (λ db. a) (pure a)
  unfolding all_answered left_after
  pure-Reads a = record { stable = λ db answers. refl; from = λ db. refl }

module _ {A B : Type 0} (n k : ℕ) (f : Db → A) (m : Exec Db A) (g : A → Db → B)
    (rest : A → Exec Db B) where
  pub bind-Reads :
      Reads n f m
      → ((a : A) → Reads k (g a) (rest a))
      → Reads (n + k) (λ db. g (f db) db) (m >>= rest)
  unfolding ◌>>=◌
  bind-Reads r rs = record {
    stable = λ db answers.
        ap (λ a. g a (record db { answers = answers })) (r.stable db answers)
        ∙ (rs (f db)).stable db answers;
    from = λ db. ap (resume rest) (r.from db) ∙ after db;
  }
    where
      after : (db : Db) → resume rest (read n (f db) db) ≡ read (n + k) (g (f db) db) db
      after db =
          let t = record db { answers = left_after n db.answers } in
          elim (Bool-cases (all_answered n db.answers)) [
            | inl e ↦
                rw
                  (
                    e,
                    all_answered_add n k db.answers,
                    left_after_add n k db.answers,
                    e,
                    (rs (f db)).from t,
                    (rs (f db)).stable db (left_after n db.answers),
                  )
                  refl
            | inr e ↦ rw (e, all_answered_add n k db.answers, left_after_add n k db.answers, e) refl
          ]

-- Certificates that begin to be valid at or after a time.
abbrev pub certs_since : ℕ → Db → List CertRow
certs_since since db = filter (λ (r : CertRow). leb since r.not_before) db.certs

pub count_in_window-Reads :
    (since : ℕ) → Reads 1 (λ db. length (certs_since since db)) (count_in_window since)
unfolding count_in_window
count_in_window-Reads since = statement-Reads _ λ db answers. refl

pub names-count-Reads : Reads 1 (λ db. length db.names_observed) Names.count
unfolding Names.count
names-count-Reads = statement-Reads _ λ db answers. refl

pub watchlist-count-Reads : Reads 1 (λ db. length db.watchlist) Watchlist.count
unfolding Watchlist.count
watchlist-count-Reads = statement-Reads _ λ db answers. refl

pub watchlist-list-Reads : Reads 1 (λ db. sorted_domains db.watchlist) Watchlist.list
unfolding Watchlist.list
watchlist-list-Reads = statement-Reads _ λ db answers. refl

pub cursors-list-Reads : Reads 1 (λ db. db.ingest_cursors) Cursors.list
unfolding Cursors.list
cursors-list-Reads = statement-Reads _ λ db answers. refl

pub pending_count-Reads : Reads 1 (λ db. length (filter is_pending db.webhook_outbox)) pending_count
unfolding pending_count
pending_count-Reads = statement-Reads _ λ db answers. refl

pub failed_count-Reads :
    (max_attempts : ℕ)
    → Reads 1
        (λ db. length (filter (has_failed max_attempts) db.webhook_outbox))
        (failed_count max_attempts)
unfolding failed_count
failed_count-Reads max_attempts = statement-Reads _ λ db answers. refl

pub active_count-Reads : Reads 1 (λ db. length (filter is_running db.backfill_jobs)) active_count
unfolding active_count
active_count-Reads = statement-Reads _ λ db answers. refl

pub completed_count-Reads :
    Reads 1 (λ db. length (filter is_completed db.backfill_jobs)) completed_count
unfolding completed_count
completed_count-Reads = statement-Reads _ λ db answers. refl
