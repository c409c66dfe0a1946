-- ===== src/Api/Watchlist/Spec.antt =====
-- What the routes under /v1/watchlist promise: a set of domains, that knows nothing of rows, of the order
-- in which they were added, or of notes.
use ctwatch.Base.{ℕ, ◌≡◌, Bool, true, false, not, ◌&&◌, ◌||◌, Option, List, [], ◌∷◌, if◌then◌else◌}
use ctwatch.Base.Text.{Text, beq, contains, IsAscending}
use ctwatch.Base.Result.{database_error}
use ctwatch.Api.{ApiResult, success, failure, internal, normalized}
use ctwatch.Api.Watchlist.{AddBody, AddedJson, warning_of, list, add, remove}
use ctwatch.Store.Db.{Db, answered, later}

abbrev pub Domains : Type 0
Domains = Text → Bool

-- GET, POST and DELETE
pub data Request : Type 0 where
  get : Request
  post : AddBody → Request
  delete : Text → Request

pub data Response : Type 0 where
  got : ApiResult (List Text) → Response
  posted : ApiResult (ℕ × AddedJson) → Response
  deleted : ApiResult ℕ → Response

abbrev pub paired : {A : Type 0} → (A → Response) → A × Db → Response × Db
paired f (a, db) = (f a, db)

module _ (mode : Text) (domain : Text → Option Text) where
  -- the routes
  unfoldable pub handle : Request → Db → Response × Db
  handle get db = paired got (list mode db)
  handle (post b) db = paired posted (add mode domain b db)
  handle (delete d) db = paired deleted (remove mode domain d db)

  unfoldable pub handle_all : List Request → Db → List Response × Db
  handle_all [] db = ([], db)
  handle_all (q ∷ qs) db =
      let (r, db') = handle q db in let (rs, db'') = handle_all qs db' in (r ∷ rs, db'')

module _ (domain : Text → Option Text) where
  -- One request on the set: a domain is in it or not, and a failure of the database leaves it.
  pub data Step : Bool → Request → Domains → Response → Domains → Type 0 where
    gets :
        (s : Domains) (ds : List Text)
        → IsAscending ds
        → ((e : Text) → contains ds e ≡ s e)
        → Step true get s (got (success ds)) s
    adds :
        (s t : Domains) (b : AddBody) (known : Bool)
        → s (normalized domain b.domain) ≡ known
        → ((e : Text) → t e ≡ (s e || beq (normalized domain b.domain) e))
        → Step true
            (post b)
            s
            (posted (
              success (
                if known then 200 else 201,
                record {
                  domain = normalized domain b.domain;
                  added = not known;
                  warning = warning_of domain b.domain;
                },
              )))
            t
    removes :
        (s t : Domains) (d : Text) (known : Bool)
        → s (normalized domain d) ≡ known
        → ((e : Text) → t e ≡ (s e && not (beq (normalized domain d) e)))
        → Step true (delete d) s (deleted (success (if known then 204 else 404))) t
    get_fails : (s : Domains) → Step false get s (got (failure (internal database_error))) s
    post_fails :
        (s : Domains) (b : AddBody)
        → Step false (post b) s (posted (failure (internal database_error))) s
    delete_fails :
        (s : Domains) (d : Text)
        → Step false (delete d) s (deleted (failure (internal database_error))) s

  -- The list says for each request whether the database answers it, as the answers of the model do.
  pub data Steps : List Bool → List Request → Domains → List Response → Domains → Type 0 where
    stop : (answers : List Bool) (s : Domains) → Steps answers [] s [] s
    step :
        (answers : List Bool) (q : Request) (qs : List Request) (r : Response) (rs : List Response)
        (s t u : Domains)
        → Step (answered answers) q s r t
        → Steps (later answers) qs t rs u
        → Steps answers (q ∷ qs) s (r ∷ rs) u
