-- ===== src/Store/Answering.antt =====
-- A database that answers every statement, in src/store: what is then sure to succeed.
use ctwatch.Base.{
  ℕ, ◌+◌, false, ◌≡◌, refl, sym, subst, Bool, true, List, [], ◌∷◌, Option, All, ltb, if◌then◌else◌,
}
use ctwatch.Base.Text.{Text}
use ctwatch.Base.Result.{Result, ok}
use ctwatch.Base.Exec.{Exec, pure, ◌>>=◌}
use ctwatch.Store.Certs.{insert_cert, insert_cert_name, insert_names, insert_rows, insert_batch}
use ctwatch.Store.Db.{
  CertRow, CertName, Db, answered, later, statement, statement-elim, restore, transaction,
}

abbrev pub AllTrue : List Bool → Type 0
AllTrue = All (λ b. b ≡ true)

abbrev pub IsAnswering : Db → Type 0
IsAnswering db = AllTrue db.answers

pub answered-AllTrue : (bs : List Bool) → AllTrue bs → answered bs ≡ true
unfolding answered
answered-AllTrue [] h = refl
answered-AllTrue (b ∷ bs) h = h.0

pub later-AllTrue : (bs : List Bool) → AllTrue bs → AllTrue (later bs)
unfolding later
later-AllTrue [] h = tt
later-AllTrue (b ∷ bs) h = h.1

-- From a database that answers, it succeeds and leaves one that answers.
pub record Succeeds {A : Type 0} (m : Exec Db A) : Type 0 where
  pub from :
      (db : Db) → IsAnswering db → (a : A) × (db' : Db) × (m db ≡ (ok a, db')) × IsAnswering db'

module _ {A : Type 0} where
  pub statement-Succeeds :
      (run : Db → Result A × Db)
      → ((db : Db) → (a : A) × (db' : Db) × (run db ≡ (ok a, db')) × (db'.answers ≡ db.answers))
      → Succeeds (statement run)
  unfolding statement
  statement-Succeeds run h = record {
    from = λ db u.
        let (a, db', e, s) = h (record db { answers = later db.answers }) in
        (
          a,
          db',
          rw (answered-AllTrue db.answers u) e,
          subst AllTrue (sym s) (later-AllTrue db.answers u),
        );
  }

  pure-Succeeds : (a : A) → Succeeds (pure a)
  pure-Succeeds a = record { from = λ db u. (a, db, refl, u) }

  bind-Succeeds :
      {B : Type 0} (m : Exec Db B) (f : B → Exec Db A)
      → Succeeds m
      → ((b : B) → Succeeds (f b))
      → Succeeds (m >>= f)
  unfolding ◌>>=◌
  bind-Succeeds m f hm hf = record {
    from = λ db u.
        let (b, t, e, v) = hm.from db u in
        let (a, t', e', v') = (hf b).from t v in (a, t', rw e e', v');
  }

  transaction-Succeeds : (m : Exec Db A) → Succeeds m → Succeeds (transaction m)
  unfolding transaction restore
  transaction-Succeeds m h = record {
    from = λ db u.
        let (a, t, e, v) =
          h.from (record db { answers = later db.answers }) (later-AllTrue db.answers u) in
        (
          a,
          record t { answers = later t.answers },
          rw (answered-AllTrue db.answers u, e, answered-AllTrue t.answers v) refl,
          later-AllTrue t.answers v,
        );
  }

  -- Whether or not it is answered, a statement uses up at most one answer.
  pub statement_answers :
      (run : Db → Result A × Db) (db : Db)
      → ((db : Db) → (run db).1.answers ≡ db.answers)
      → IsAnswering db
      → IsAnswering (statement run db).1
  statement_answers run db h u =
      statement-elim (λ r. IsAnswering r.1) run db (later-AllTrue db.answers u)
        (subst AllTrue (sym (h (record db { answers = later db.answers })))
          (later-AllTrue db.answers u))

-- what a statement does that succeeds
abbrev pub Ran : {A : Type 0} → Db → Result A × Db → Type 0
Ran {A} db r = (a : A) × (db' : Db) × (r ≡ (ok a, db')) × (db'.answers ≡ db.answers)

pub Ran-if :
    {A : Type 0} (db : Db) (b : Bool) (r s : Result A × Db)
    → Ran db r
    → Ran db s
    → Ran db (if b then r else s)
Ran-if db true r s h k = h
Ran-if db false r s h k = k

insert_cert-Succeeds : (row : CertRow) → Succeeds (insert_cert row)
unfolding insert_cert
insert_cert-Succeeds row =
    statement-Succeeds _ λ db.
      Ran-if db _ _ _ (0, db, refl, refl) (1, record db { certs = row ∷ db.certs }, refl, refl)

insert_cert_name-Succeeds : (n : CertName) → Succeeds (insert_cert_name n)
unfolding insert_cert_name
insert_cert_name-Succeeds n = statement-Succeeds _ λ db.
    Ran-if db _ _ _ (tt, db, refl, refl)
      (tt, record db { cert_names = n ∷ db.cert_names }, refl, refl)

Succeeds-if :
    {A : Type 0} (b : Bool) (m n : Exec Db A)
    → Succeeds m
    → Succeeds n
    → Succeeds (if b then m else n)
Succeeds-if true m n hm hn = hm
Succeeds-if false m n hm hn = hn

module _ (domain : Text → Option Text) where
  insert_names-Succeeds :
      (row : CertRow) (names : List Text) → Succeeds (insert_names domain row names)
  unfolding insert_names
  insert_names-Succeeds row [] = pure-Succeeds tt
  insert_names-Succeeds row (name ∷ names) =
      bind-Succeeds _ _ (insert_cert_name-Succeeds _) λ _. insert_names-Succeeds row names

  insert_rows-Succeeds : (k : ℕ) (rows : List CertRow) → Succeeds (insert_rows domain k rows)
  unfolding insert_rows
  insert_rows-Succeeds k [] = pure-Succeeds k
  insert_rows-Succeeds k (row ∷ rows) = bind-Succeeds _ _ (insert_cert-Succeeds row) λ affected.
      bind-Succeeds _ _
        (Succeeds-if (ltb 0 affected) _ _ (insert_names-Succeeds row row.sans) (pure-Succeeds tt))
        λ _. insert_rows-Succeeds (k + affected) rows

  -- A database that answers every statement stores every batch.
  pub insert_batch-Succeeds : (rows : List CertRow) → Succeeds (insert_batch domain rows)
  unfolding insert_batch
  insert_batch-Succeeds [] = pure-Succeeds 0
  insert_batch-Succeeds (row ∷ rows) = transaction-Succeeds _ (insert_rows-Succeeds 0 (row ∷ rows))
