-- ===== src/Api.antt =====
-- src/api: the HTTP handlers behind axum, which decodes parameters and bodies to the types here and
-- writes what a handler gives as JSON. A JSON object of the source is a record with its fields.
pub mod Lookup
pub mod Certs
pub mod Watchlist
pub mod Admin
pub mod Status
pub mod Outcome
pub mod Router
use ctwatch.Base.{ℕ, ◌-◌, ◌*◌, Option, none, some, min, max}
use ctwatch.Base.Int.{ℤ, pos, negsuc}
use ctwatch.Base.Text.{Text, text, to_ascii_lowercase}
use ctwatch.Base.Result.{Error, Result, ok, err}
use ctwatch.Base.Exec.{Exec}
use ctwatch.Parse.Psl.{registered_domain}
use ctwatch.Store.Db.{Time, Db}

-- `From<anyhow::Error>` makes any other error `internal`.
pub data ApiError : Type 0 where
  bad_request not_found : Text → ApiError
  internal : Error → ApiError

pub data ApiResult (A : Type 0) : Type 0 where
  success : A → ApiResult A
  failure : ApiError → ApiResult A

-- The status, the type and the message.
unfoldable pub into_response : ApiError → ℕ × Text × Text
into_response (bad_request m) = (400, text "bad_request", m)
into_response (not_found m) = (404, text "not_found", m)
into_response (internal e) = (500, text "internal", text "internal error")

-- A handler works on the database, and may fail.
abbrev pub Handler : Type 0 → Type 0
Handler A = Db → ApiResult A × Db

module _ {A : Type 0} where
  abbrev pub respond : A → Handler A
  respond a db = (success a, db)

  abbrev pub refuse : ApiError → Handler A
  refuse e db = (failure e, db)

  abbrev pub answer : Result A × Db → ApiResult A × Db
  answer (ok a, db) = (success a, db)
  answer (err e, db) = (failure (internal e), db)

  -- `.await?` on a call of the store
  unfoldable pub query : Exec Db A → Handler A
  query m db = answer (m db)

  -- `.await.unwrap_or(a)`
  abbrev pub answer_or : A → Result A × Db → ApiResult A × Db
  answer_or a (ok b, db) = (success b, db)
  answer_or a (err e, db) = (success a, db)

  unfoldable pub query_or : A → Exec Db A → Handler A
  query_or a m db = answer_or a (m db)

  abbrev pub found_or : ApiError → Option A → Handler A
  found_or e none = refuse e
  found_or e (some a) = respond a

module _ {A B : Type 0} where
  abbrev pub then_with : (A → Handler B) → ApiResult A × Db → ApiResult B × Db
  then_with f (success a, db) = f a db
  then_with f (failure e, db) = (failure e, db)

  infixl 5 ◌>>=◌
  unfoldable pub ◌>>=◌ : Handler A → (A → Handler B) → Handler B
  ◌>>=◌ m f db = then_with f (m db)

-- `.clamp(low, high)` on i64, where both are positive
unfoldable pub clamp : ℕ → ℕ → ℤ → ℕ
clamp low high (pos n) = min high (max low n)
clamp low high (negsuc n) = low

-- `unwrap_or(default).clamp(low, high)`
abbrev pub limit_of : ℕ → ℕ → Option ℤ → ℕ
limit_of default high none = clamp 1 high (pos default)
limit_of default high (some n) = clamp 1 high n

-- `registered_domain(d).unwrap_or_else(|| d.to_ascii_lowercase())`
unfoldable pub normalized : (Text → Option Text) → Text → Text
normalized domain d = elim (registered_domain domain d) [ none ↦ to_ascii_lowercase d | some r ↦ r ]
