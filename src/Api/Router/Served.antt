-- ===== src/Api/Router/Served.antt =====
-- The routes of src/api while the database and crt.sh answer.
use ctwatch.Base.{
  ℕ, zero, suc, ◌≡◌, refl, ◌∙◌, Bool, true, false, Option, none, some, List, if◌then◌else◌,
}
use ctwatch.Base.Result.{ok}
use ctwatch.Base.Exec.{Exec}
use ctwatch.Base.Text.{Text}
use ctwatch.Api.{
  ApiResult, ApiError, success, failure, bad_request, not_found, internal, Handler, respond, refuse,
  query, query_or, found_or, ◌>>=◌, then_with,
}
use ctwatch.Store.Answering.{
  AllTrue, IsAnswering, answered-AllTrue, later-AllTrue, Succeeds, statement-Succeeds,
}
use ctwatch.Store.Db.{Db, later, statement}
use ctwatch.Store.Reads.{Reads, all_answered, left_after}

-- It is not the failure that is status 500, and `P` holds for a success.
abbrev pub IsMeant : {A : Type 0} → (A → Type 0) → ApiResult A → Type 0
IsMeant P (success a) = P a
IsMeant P (failure (bad_request m)) = Unit
IsMeant P (failure (not_found m)) = Unit
IsMeant P (failure (internal e)) = ⊥

abbrev pub Any : {A : Type 0} → A → Type 0
Any a = Unit

-- While the database answers, it does not fail with status 500, and the database still answers.
pub record IsServed {A : Type 0} (P : A → Type 0) (m : Handler A) : Type 0 where
  pub from : (db : Db) → IsAnswering db → IsMeant P (m db).0 × IsAnswering (m db).1

all_answered-AllTrue : (n : ℕ) (bs : List Bool) → AllTrue bs → all_answered n bs ≡ true
unfolding all_answered
all_answered-AllTrue zero bs h = refl
all_answered-AllTrue (suc n) bs h =
    rw (answered-AllTrue bs h) (all_answered-AllTrue n (later bs) (later-AllTrue bs h))

left_after-AllTrue : (n : ℕ) (bs : List Bool) → AllTrue bs → AllTrue (left_after n bs)
unfolding left_after
left_after-AllTrue zero bs h = h
left_after-AllTrue (suc n) bs h =
    rw (answered-AllTrue bs h) (left_after-AllTrue n (later bs) (later-AllTrue bs h))

module _ {A : Type 0} (P : A → Type 0) where
  pub respond-IsServed : (a : A) → P a → IsServed P (respond a)
  respond-IsServed a h = record { from = λ db u. (h, u) }

  pub bad_request-IsServed : (m : Text) → IsServed P (refuse (bad_request m))
  bad_request-IsServed m = record { from = λ db u. (tt, u) }

  pub not_found-IsServed : (m : Text) → IsServed P (refuse (not_found m))
  not_found-IsServed m = record { from = λ db u. (tt, u) }

  pub if-IsServed :
      (b : Bool) (m n : Handler A) → IsServed P m → IsServed P n → IsServed P (if b then m else n)
  if-IsServed true m n h k = h
  if-IsServed false m n h k = k

  pub bind-IsServed :
      {B : Type 0} (Q : B → Type 0) (m : Handler B) (f : B → Handler A)
      → IsServed Q m
      → ((b : B) → Q b → IsServed P (f b))
      → IsServed P (m >>= f)
  unfolding ◌>>=◌
  bind-IsServed Q m f h k = record { from = λ db u. after (m db) (h.from db u).0 (h.from db u).1 }
    where
      after :
          (r : ApiResult _ × Db)
          → IsMeant Q r.0
          → IsAnswering r.1
          → IsMeant P (then_with f r).0 × IsAnswering (then_with f r).1
      after (success b, t) p u = (k b p).from t u
      after (failure (bad_request m), t) p u = (tt, u)
      after (failure (not_found m), t) p u = (tt, u)
      after (failure (internal e), t) p u = absurd p

module _ {A : Type 0} where
  pub found_or-IsServed :
      (e : ApiError) (o : Option A) → IsServed {A = A} Any (refuse e) → IsServed Any (found_or e o)
  found_or-IsServed e none h = h
  found_or-IsServed e (some a) h = respond-IsServed Any a tt

  pub query-IsServed : (m : Exec Db A) → Succeeds m → IsServed Any (query m)
  unfolding query
  query-IsServed m h = record { from = λ db u. let (a, t, e, v) = h.from db u in rw e (tt, v) }

  pub Reads-Succeeds : (n : ℕ) (f : Db → A) (m : Exec Db A) → Reads n f m → Succeeds m
  Reads-Succeeds n f m r = record {
    from = λ db u. (
      f db,
      record db { answers = left_after n db.answers },
      r.from db ∙ rw (all_answered-AllTrue n db.answers u) refl,
      left_after-AllTrue n db.answers u,
    );
  }

  pub query_or-IsServed : (a : A) (m : Exec Db A) → Succeeds m → IsServed Any (query_or a m)
  unfolding query_or
  query_or-IsServed a m h = record { from = λ db u. let (b, t, e, v) = h.from db u in rw e (tt, v) }

  -- a statement that reads
  pub selects : (f : Db → A) → IsServed Any (query (statement λ db. (ok (f db), db)))
  selects f = query-IsServed _ (statement-Succeeds _ λ db. (f db, db, refl, refl))
