-- ===== src/Store/Certs/Batch.antt =====
-- What `insert_batch` of src/store/certs.rs leaves in the table certs.
use ctwatch.Base.{
  ℕ, ◌+◌, ◌≤◌, ◌≡◌, refl, sym, ◌∙◌, subst, ap, Bool, true, false, Bool-cases, inl, inr, List, [],
  ◌∷◌, Option, arith, any, length, ltb, if◌then◌else◌, All,
}
use ctwatch.Base.Text.{Text, beq_iff}
use ctwatch.Base.Result.{Result, ok, err}
use ctwatch.Base.Exec.{pure, IsPreorder, Always, Always-pure, Always-bind, Always-if, >>=-inverts}
use ctwatch.Store.Answering.{IsAnswering, insert_batch-Succeeds}
use ctwatch.Store.Certs.{
  same_cert, has_cert, insert_cert, insert_cert_name, insert_names, insert_rows, insert_batch,
  same_name,
}
use ctwatch.Store.Db.{CertRow, CertName, Db, later, statement-elim, transaction-elim}

-- No two rows have the key (cert_hash, not_before).
abbrev pub IsKeyed : List CertRow → Type 0
IsKeyed [] = Unit
IsKeyed (r ∷ rows) = (has_cert r.cert_hash r.not_before rows ≡ false) × IsKeyed rows

-- whether the table has the row's key
abbrev pub is_stored : CertRow → List CertRow → Bool
is_stored row certs = has_cert row.cert_hash row.not_before certs

-- The table has `n` rows more, no key twice if it had none twice, and every key that it had.
abbrev pub Added : ℕ → List CertRow → List CertRow → Type 0
Added n certs certs' =
    (length certs' ≡ length certs + n)
    × (IsKeyed certs → IsKeyed certs')
    × ((row : CertRow) → is_stored row certs ≡ true → is_stored row certs' ≡ true)

Added-trans :
    (m n k : ℕ) (a b c : List CertRow) → m + n ≡ k → Added m a b → Added n b c → Added k a c
Added-trans m n k a b c e (l, d, s) (l', d', s') = (omega arith, λ h. d' (d h), λ r h. s' r (s r h))

-- Those rows are in the table, and at most as many are new.
abbrev pub Inserted : List CertRow → ℕ → List CertRow → List CertRow → Type 0
Inserted rows n certs certs' =
    (n ≤ length rows) × Added n certs certs' × All (λ r. is_stored r certs' ≡ true) rows

abbrev OkInserted : CertRow → Db → Result ℕ × Db → Type 0
OkInserted row db (ok n, db') = Inserted (row ∷ []) n db.certs db'.certs
OkInserted row db (err e, db') = Unit

same_cert_refl : (row : CertRow) → same_cert row.cert_hash row.not_before row ≡ true
unfolding same_cert
same_cert_refl row = ground (arith, beq_iff row.cert_hash row.cert_hash)

insert_cert-Inserted :
    (row : CertRow) (db db' : Db) (n : ℕ)
    → insert_cert row db ≡ (ok n, db')
    → Inserted (row ∷ []) n db.certs db'.certs
unfolding insert_cert has_cert
insert_cert-Inserted row db db' n h = subst (OkInserted row db) h (
    statement-elim (λ r. OkInserted row db r) _ db tt
      (elim (Bool-cases (has_cert row.cert_hash row.not_before db.certs)) [
        | inl old ↦ rw old (omega arith, (omega arith, λ k. k, λ r k. k), (old, tt))
        | inr fresh ↦ rw fresh (
          omega arith,
          (omega arith, λ k. (fresh, k), λ r k. ground arith),
          (ground (arith, same_cert_refl row), tt),
        )
      ]))

KeepsCerts : Db → Db → Type 0
KeepsCerts db db' = db.certs ≡ db'.certs

IsPreorder-KeepsCerts : IsPreorder KeepsCerts
unfolding KeepsCerts
IsPreorder-KeepsCerts = record { reflexive = λ s. refl; transitive = λ s t u a b. a ∙ b }

insert_cert_name-KeepsCerts : (n : CertName) → Always KeepsCerts (insert_cert_name n)
unfolding insert_cert_name KeepsCerts
insert_cert_name-KeepsCerts n = record {
  from = λ db.
      statement-elim (λ (r : Result _ × Db). db.certs ≡ r.1.certs) _ db refl
        (elim (Bool-cases (any (same_name n) db.cert_names)) [
          | inl h ↦ rw h refl
          | inr h ↦ rw h refl
        ]);
}

insert_names-KeepsCerts :
    (domain : Text → Option Text) (row : CertRow) (names : List Text)
    → Always KeepsCerts (insert_names domain row names)
unfolding insert_names
insert_names-KeepsCerts domain row [] = Always-pure IsPreorder-KeepsCerts tt
insert_names-KeepsCerts domain row (name ∷ names) =
    Always-bind IsPreorder-KeepsCerts _ _ (insert_cert_name-KeepsCerts _)
      (λ u. insert_names-KeepsCerts domain row names)

when_new-KeepsCerts :
    (domain : Text → Option Text) (row : CertRow) (b : Bool)
    → Always KeepsCerts (if b then insert_names domain row row.sans else pure tt)
when_new-KeepsCerts domain row b =
    Always-if b _ _ (insert_names-KeepsCerts domain row row.sans)
      (Always-pure IsPreorder-KeepsCerts tt)

insert_rows-Inserted :
    (domain : Text → Option Text) (k : ℕ) (rows : List CertRow) (db db' : Db) (m : ℕ)
    → insert_rows domain k rows db ≡ (ok m, db')
    → (n : ℕ) × (m ≡ k + n) × Inserted rows n db.certs db'.certs
unfolding insert_rows KeepsCerts
insert_rows-Inserted domain k [] db db' m h =
    let e : k ≡ m = cc in
    let d : db.certs ≡ db'.certs = ap (λ (r : Result _ × Db). r.1.certs) h in
    let added : Added 0 db.certs db.certs = (omega arith, λ a. a, λ r a. a) in
    (0, omega arith, (omega arith, subst (Added 0 db.certs) d added, tt))
insert_rows-Inserted domain k (row ∷ rows) db db' m h =
    let (a, t, e₁, h₁) = >>=-inverts (insert_cert row) _ db h in
    let (u, t', e₂, h₂) = >>=-inverts _ _ t h₁ in
    let (n, e₃, (le, added, stored)) = insert_rows-Inserted domain (k + a) rows t' db' m h₂ in
    let (le', added', (new, _)) = insert_cert-Inserted row db t a e₁ in
    let same : t.certs ≡ t'.certs =
      (when_new-KeepsCerts domain row (ltb 0 a)).from t
      ∙ ap (λ (r : Result _ × Db). r.1.certs) e₂ in
    let added'' = subst (Added a db.certs) same added' in
    (
      a + n,
      omega arith,
      (
        omega arith,
        Added-trans a n (a + n) db.certs t'.certs db'.certs refl added'' added,
        (added.2 row (subst (λ c. is_stored row c ≡ true) same new), stored),
      ),
    )

-- the same, where an error says nothing of its cause
abbrev Outcome : List CertRow → Db → Result ℕ × Db → Type 0
Outcome rows db (ok n, db') = Inserted rows n db.certs db'.certs
Outcome rows db (err e, db') = db' ≡ record db { answers = db'.answers }

insert_batch-Outcome :
    (domain : Text → Option Text) (rows : List CertRow) (db : Db)
    → Outcome rows db (insert_batch domain rows db)
unfolding insert_batch
insert_batch-Outcome domain [] db = (omega arith, (omega arith, λ a. a, λ r a. a), tt)
insert_batch-Outcome domain (row ∷ rows) db =
    transaction-elim (λ r. Outcome (row ∷ rows) db r) (insert_rows domain 0 (row ∷ rows)) db
      (λ e answers. refl)
      λ n t h.
        let (m, e, outcome) =
          insert_rows-Inserted domain 0 (row ∷ rows) (record db { answers = later db.answers }) t n
            h in
        let e' : m ≡ n = omega (arith, e) in
        subst (λ k. Inserted (row ∷ rows) k db.certs t.certs) e' outcome

-- What `insert_batch` returns: on success how many rows are new, and on an error, for which the database
-- has failed at some statement, nothing has changed but the answers of the database that were used.
abbrev pub BatchOutcome : List CertRow → Db → Result ℕ × Db → Type 0
BatchOutcome rows db (ok n, db') = Inserted rows n db.certs db'.certs
BatchOutcome rows db (err e, db') = (¬ IsAnswering db) × (db' ≡ record db { answers = db'.answers })

-- A batch is stored whole or not at all: when `insert_batch` succeeds, every row's key is in the table,
-- the number it returns is how many rows the table has gained, at most one for each of the batch, no
-- key has come to stand twice, and no key is lost. It fails only if the database does not answer some
-- statement, and then no table has changed.
pub insert_batch-BatchOutcome :
    (domain : Text → Option Text) (rows : List CertRow) (db : Db)
    → BatchOutcome rows db (insert_batch domain rows db)
insert_batch-BatchOutcome domain rows db =
    because (insert_batch domain rows db) refl (insert_batch-Outcome domain rows db)
  where
    because :
        (r : Result ℕ × Db)
        → insert_batch domain rows db ≡ r
        → Outcome rows db r
        → BatchOutcome rows db r
    because (ok n, db') e o = o
    because (err x, db') e o = (
      λ u.
          let (a, t, e', _) = (insert_batch-Succeeds domain rows).from db u in
          let k : err x ≡ ok a = ap (λ (r : Result ℕ × Db). r.0) (sym e ∙ e') in absurd cc,
      o,
    )
