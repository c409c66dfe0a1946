-- ===== src/Store/Certs.antt =====
-- src/store/certs.rs: the tables certs, keyed by (cert_hash, not_before), and cert_names.
pub mod Batch
use ctwatch.Base.{
  ℕ, ◌+◌, Bool, true, false, ◌&&◌, List, [], ◌∷◌, Option, none, some, any, filter, length, take,
  ltb, leb, ◌==◌, if◌then◌else◌,
}
use ctwatch.Base.Sort.{sort_by}
use ctwatch.Base.Text.{Text, beq, is_empty, contains}
use ctwatch.Base.Result.{Result, ok, err}
use ctwatch.Base.Exec.{Exec, pure, ◌>>=◌, ◌>>◌}
use ctwatch.Parse.Psl.{registered_or_name}
use ctwatch.Store.Db.{Time, CertRow, CertName, Db, statement, transaction}

unfoldable pub same_cert : List ℕ → Time → CertRow → Bool
same_cert cert_hash not_before r = beq r.cert_hash cert_hash && r.not_before == not_before

unfoldable pub has_cert : List ℕ → Time → List CertRow → Bool
unfolding same_cert
has_cert cert_hash not_before rows = any (same_cert cert_hash not_before) rows

-- INSERT INTO certs … ON CONFLICT (cert_hash, not_before) DO NOTHING, with the rows affected
unfoldable pub insert_cert : CertRow → Exec Db ℕ
unfolding has_cert
insert_cert row = statement λ db.
    if has_cert row.cert_hash row.not_before db.certs
    then (ok 0, db)
    else (ok 1, record db { certs = row ∷ db.certs })

unfoldable pub same_name : CertName → CertName → Bool
same_name n m = beq m.name n.name && beq m.cert_hash n.cert_hash && m.not_before == n.not_before

-- INSERT INTO cert_names … ON CONFLICT DO NOTHING: the key is (name, cert_hash, not_before).
unfoldable pub insert_cert_name : CertName → Exec Db (Unit {0})
unfolding same_name
insert_cert_name n = statement λ db.
    if any (same_name n) db.cert_names
    then (ok tt, db)
    else (ok tt, record db { cert_names = n ∷ db.cert_names })

module _ (domain : Text → Option Text) where
  unfoldable pub insert_names : CertRow → List Text → Exec Db (Unit {0})
  insert_names row [] = pure tt
  insert_names row (name ∷ names) =
      insert_cert_name (record {
        name = name;
        registered_domain = registered_or_name domain name;
        cert_hash = row.cert_hash;
        not_before = row.not_before;
      })
      >> insert_names row names

  -- The loop over the batch, with `inserted_certs` so far.
  unfoldable pub insert_rows : ℕ → List CertRow → Exec Db ℕ
  insert_rows inserted_certs [] = pure inserted_certs
  insert_rows inserted_certs (row ∷ rows) = do
    affected ← insert_cert row
    (if ltb 0 affected then insert_names row row.sans else pure tt)
    insert_rows (inserted_certs + affected) rows

  unfoldable pub insert_batch : List CertRow → Exec Db ℕ
  insert_batch batch = if is_empty batch then pure 0 else transaction (insert_rows 0 batch)

-- SELECT count(*) … WHERE not_before >= $1
unfoldable pub count_in_window : Time → Exec Db ℕ
count_in_window since =
    statement λ db. (ok (length (filter (λ (r : CertRow). leb since r.not_before) db.certs)), db)

-- ORDER BY not_before DESC
abbrev pub is_older_row : CertRow → CertRow → Bool
is_older_row r s = ltb r.not_before s.not_before

abbrev pub first_row : List CertRow → Option CertRow
first_row [] = none
first_row (r ∷ rows) = some r

unfoldable pub get_one : List ℕ → Exec Db (Option CertRow)
get_one cert_hash = statement λ db. (
  ok (
      first_row
        (sort_by is_older_row (filter (λ (r : CertRow). beq r.cert_hash cert_hash) db.certs))),
  db,
)

-- `registered_domains && ARRAY[$1]`: the arrays overlap.
unfoldable pub in_window_of : Text → Time → CertRow → Bool
in_window_of domain since r = contains r.registered_domains domain && leb since r.not_before

unfoldable pub list_by_registered_domain : Text → Time → ℕ → Exec Db (List CertRow)
unfolding in_window_of
list_by_registered_domain domain since limit =
    statement λ db.
      (ok (take limit (sort_by is_older_row (filter (in_window_of domain since) db.certs))), db)
