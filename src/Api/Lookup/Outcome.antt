-- ===== src/Api/Lookup/Outcome.antt =====
-- What the handler of src/api/lookup.rs answers.
use ctwatch.Base.{
  ℕ, ◌≡◌, refl, ap, ◌≤◌, ◌⊎◌, inl, inr, Bool, true, false, Option, none, some, List, arith,
  Bool-cases,
}
use ctwatch.Base.Int.{ℤ, pos, negsuc}
use ctwatch.Base.Sort.{IsPage}
use ctwatch.Base.Result.{Result, ok, err, database_error}
use ctwatch.Base.Text.{Text, text, is_empty, trim, to_ascii_lowercase}
use ctwatch.Api.{
  ApiResult, success, failure, internal, bad_request, answer, query, then_with, respond, ◌>>=◌,
  clamp, limit_of,
}
use ctwatch.Api.Lookup.{Params, LookupJson, since_or, lookup_json, lookup, handler}
use ctwatch.Parse.Psl.{registered_or_name}
use ctwatch.Stats.Snapshot.{days_before}
use ctwatch.Store.Db.{Time, NameRow, Db, answered, later}
use ctwatch.Store.Names
use ctwatch.Store.Pages.{PageOutcome, names-list-PageOutcome}

limit_of-bounds :
    (default high : ℕ) (asked : Option ℤ)
    → 1 ≤ high
    → (1 ≤ limit_of default high asked) × (limit_of default high asked ≤ high)
unfolding clamp
limit_of-bounds default high none h = (omega arith, omega arith)
limit_of-bounds default high (some (pos n)) h = (omega arith, omega arith)
limit_of-bounds default high (some (negsuc n)) h = (omega arith, omega arith)

-- the domain that is looked up
abbrev pub asked_domain : Params → Text
asked_domain p = to_ascii_lowercase (trim p.domain)

module _ (like : Text → Text → Bool) (domain : Text → Option Text) (retention_days_cold : ℕ)
    (now : Time) where
  abbrev pub is_asked : Params → NameRow → Bool
  is_asked p =
      Names.listed like (registered_or_name domain (asked_domain p))
        (since_or (days_before now retention_days_cold) p.since) (Names.pattern_of p.contains)

  -- The names in the answer are a page of those asked for, of at most 10000; or it is refused.
  abbrev pub LookupOutcome : Params → Db → ApiResult LookupJson × Db → Type 0
  LookupOutcome p db (success j, db') =
      (is_empty (asked_domain p) ≡ false)
      × ((rows : List NameRow) × IsPage Names.is_older_row (is_asked p)
            (limit_of 1000 10000 p.limit) db.names_observed rows
          × (j ≡ lookup_json (asked_domain p) (registered_or_name domain (asked_domain p)) rows))
      × (j.total ≤ 10000)
      × (db' ≡ record db { answers = later db.answers })
  LookupOutcome p db (failure e, db') =
      ((is_empty (asked_domain p) ≡ true) × (e ≡ bad_request (text "domain required")) × (db' ≡ db))
      ⊎ ((is_empty (asked_domain p) ≡ false)
          × (e ≡ internal database_error)
          × (answered db.answers ≡ false)
          × (db' ≡ record db { answers = later db.answers }))

  page-LookupOutcome :
      (p : Params) (db : Db) (r : Result (List NameRow) × Db)
      → is_empty (asked_domain p) ≡ false
      → PageOutcome Names.is_older_row
          (is_asked p)
          (limit_of 1000 10000 p.limit)
          db.names_observed
          db
          r
      → LookupOutcome p db (
          then_with
            (λ rows.
              respond
                (lookup_json (asked_domain p) (registered_or_name domain (asked_domain p)) rows))
            (answer r))
  page-LookupOutcome p db (ok rows, db') e h =
      let b = limit_of-bounds 1000 10000 p.limit (omega arith) in
      let page : IsPage Names.is_older_row (is_asked p) (limit_of 1000 10000 p.limit)
          db.names_observed rows =
        h.0 in
      let size = page.size in (e, (rows, page, refl), omega arith, h.1)
  page-LookupOutcome p db (err x, db') e h = inr (e, ap internal h.0, h.1, h.2)

  -- GET /v1/lookup answers with names that were observed under the registered domain of the domain asked
  -- for, since the time asked for and with the text asked for, newest first: all of them if the limit
  -- allows, and at most 10000. A blank domain is refused with status 400 before any query, a failure of the
  -- database is status 500, and the tables stay as they are.
  pub handler-LookupOutcome :
      (p : Params) (db : Db) → LookupOutcome p db (handler like domain retention_days_cold now p db)
  unfolding handler lookup query ◌>>=◌
  handler-LookupOutcome p db = elim (Bool-cases (is_empty (asked_domain p))) [
    | inl e ↦ rw e (inl (e, refl, refl))
    | inr e ↦ rw e (
        page-LookupOutcome p db _ e (
          names-list-PageOutcome like (registered_or_name domain (asked_domain p))
            (since_or (days_before now retention_days_cold) p.since) p.contains
            (limit_of 1000 10000 p.limit) db))
  ]
