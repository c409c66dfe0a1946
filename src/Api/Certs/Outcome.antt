-- ===== src/Api/Certs/Outcome.antt =====
-- What the handlers of src/api/certs.rs answer.
use ctwatch.Base.{
  ℕ, ◌≡◌, refl, ap, ◌⊎◌, inl, inr, Bool, Option, none, some, List, [], ◌∷◌, arith, length, take,
  filter, false,
}
use ctwatch.Base.Sort.{IsPage, sort_by}
use ctwatch.Base.Result.{Result, ok, err, database_error}
use ctwatch.Base.Text.{Text, text, beq}
use ctwatch.Api.{
  ApiResult, success, failure, internal, bad_request, not_found, answer, query, then_with, respond,
  found_or, ◌>>=◌,
}
use ctwatch.Api.Certs.{CertJson, serialize_cert, one}
use ctwatch.Store.Certs.{get_one, first_row, is_older_row}
use ctwatch.Store.Db.{CertRow, Db, answered, later, statement-cases}
use ctwatch.Store.Pages.{desc-IsPage}

abbrev pub has_hash : List ℕ → CertRow → Bool
has_hash hash r = beq r.cert_hash hash

-- The row that is found is the newest with the hash; none is found where the table has none.
abbrev pub FoundOutcome : List ℕ → Db → Result (Option CertRow) × Db → Type 0
FoundOutcome hash db (ok (some r), db') =
    IsPage is_older_row (has_hash hash) 1 db.certs (r ∷ [])
    × (db' ≡ record db { answers = later db.answers })
FoundOutcome hash db (ok none, db') =
    (filter (has_hash hash) db.certs ≡ []) × (db' ≡ record db { answers = later db.answers })
FoundOutcome hash db (err e, db') =
    (e ≡ database_error)
    × (answered db.answers ≡ false)
    × (db' ≡ record db { answers = later db.answers })

no_rows : (rows : List CertRow) → length rows ≡ 0 → rows ≡ []
no_rows [] h = refl
no_rows (r ∷ rows) h = absurd (omega arith)

get_one-FoundOutcome : (hash : List ℕ) (db : Db) → FoundOutcome hash db (get_one hash db)
unfolding get_one
get_one-FoundOutcome hash db =
    statement-cases (FoundOutcome hash db) _ db (λ a. (refl, a, refl))
      (first (sort_by is_older_row (filter (has_hash hash) db.certs))
        (desc-IsPage (λ (r : CertRow). r.not_before) (has_hash hash) 1 db.certs))
  where
    first :
        (rows : List CertRow)
        → IsPage is_older_row (has_hash hash) 1 db.certs (take 1 rows)
        → FoundOutcome hash db (ok (first_row rows), record db { answers = later db.answers })
    first [] page = (no_rows _ (omega (arith, page.size)), refl)
    first (r ∷ rows) page = (page, refl)

module _ (decode : Text → Option (List ℕ)) (encode : List ℕ → Text) where
  -- 200 with the newest certificate of the hash, 400, 404 or 500
  abbrev pub OneOutcome : Text → Db → ApiResult CertJson × Db → Type 0
  OneOutcome hash_hex db (success j, db') =
      (hash : List ℕ) × (r : CertRow) × (decode hash_hex ≡ some hash)
      × IsPage is_older_row (has_hash hash) 1 db.certs (r ∷ [])
      × (j ≡ serialize_cert encode r)
      × (db' ≡ record db { answers = later db.answers })
  OneOutcome hash_hex db (failure e, db') =
      ((decode hash_hex ≡ none) × (e ≡ bad_request (text "hash_hex must be hex")) × (db' ≡ db))
      ⊎ ((hash : List ℕ) × (decode hash_hex ≡ some hash)
          × (((filter (has_hash hash) db.certs ≡ []) × (e ≡ not_found (text "cert not in window")))
              ⊎ ((e ≡ internal database_error) × (answered db.answers ≡ false)))
          × (db' ≡ record db { answers = later db.answers }))

  -- GET /v1/cert/:hash_hex answers with the newest certificate of that hash. A hash that is not hex is
  -- refused with status 400 before any query, status 404 means that the table has no such row, and status
  -- 500 that the database failed. The tables stay as they are.
  pub one-OneOutcome :
      (hash_hex : Text) (db : Db) → OneOutcome hash_hex db (one decode encode hash_hex db)
  unfolding one query ◌>>=◌
  one-OneOutcome hash_hex db = decoded (decode hash_hex) refl
    where
      answered :
          (hash : List ℕ) (r : Result (Option CertRow) × Db)
          → decode hash_hex ≡ some hash
          → FoundOutcome hash db r
          → OneOutcome hash_hex db (
              then_with
                (λ found. found_or (not_found (text "cert not in window")) found >>= λ row.
                  respond (serialize_cert encode row))
                (answer r))
      answered hash (ok (some r), db') e h = (hash, r, e, h.0, refl, h.1)
      answered hash (ok none, db') e h = inr (hash, e, inl (h.0, refl), h.1)
      answered hash (err x, db') e h = inr (hash, e, inr (ap internal h.0, h.1), h.2)

      decoded :
          (d : Option (List ℕ))
          → decode hash_hex ≡ d
          → OneOutcome hash_hex db (one decode encode hash_hex db)
      decoded none e = rw e (inl (e, refl, refl))
      decoded (some hash) e =
          rw e (answered hash (get_one hash db) e (get_one-FoundOutcome hash db))
