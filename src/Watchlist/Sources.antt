-- ===== src/Watchlist/Sources.antt =====
-- src/watchlist/file_source.rs, src/watchlist/url_source.rs and src/watchlist/mod.rs. The file system, the
-- requests and the parsers of YAML and JSON are parameters.
use ctwatch.Base.{
  ℕ, ◌≡◌, refl, Bool, ◌&&◌, Option, none, some, List, [], ◌∷◌, leb, ltb, any, if◌then◌else◌,
}
use ctwatch.Base.Result.{Result, ok, err, io_error, yaml_error, json_error, http_error, ◌>>=◌}
use ctwatch.Base.Text.{Text, beq, to_ascii_lowercase}
use ctwatch.Store.Db.{Db}
use ctwatch.Store.Watchlist.{list}
use ctwatch.Watchlist.Matcher.{Matcher, replace, watches, watches-replace}

-- what a parser gives, or the error that stands for its failure
unfoldable pub ok_or {ℓ} : {A : Type ℓ} → Result A → Option A → Result A
ok_or e none = e
ok_or e (some a) = ok a

-- file_source::load
unfoldable pub load : (Text → Option Text) → (Text → Option (List Text)) → Text → Result (List Text)
load read_to_string from_str path =
    ok_or (err io_error) (read_to_string path) >>= λ raw. ok_or (err yaml_error) (from_str raw)

-- `error_for_status`: 400 and above is an error.
unfoldable pub error_for_status : ℕ × Text → Result Text
error_for_status (status, body) =
    if leb 400 status && ltb status 600 then err http_error else ok body

-- url_source::fetch
unfoldable pub fetch :
    (Text → Option (ℕ × Text)) → (Text → Option (List Text)) → Text → Result (List Text)
fetch get json url = ok_or (err http_error) (get url) >>= error_for_status >>= λ body.
    ok_or (err json_error) (json body)

-- One turn of a reload loop, with what the source gives: an error is logged.
unfoldable pub reload : Matcher → Result (List Text) → Matcher
reload matcher (ok domains) = replace matcher domains
reload matcher (err e) = matcher

-- A loop for as many turns as there are states of its source.
unfoldable pub reload_loop :
    {Source : Type 0} → (Source → Result (List Text)) → List Source → Matcher → Matcher
unfolding reload
reload_loop read [] matcher = matcher
reload_loop read (s ∷ sources) matcher = reload_loop read sources (reload matcher (read s))

-- spawn_file_reload, spawn_url_reload and spawn_db_reload
unfoldable pub file_reload :
    (Text → Option (List Text)) → Text → List (Text → Option Text) → Matcher → Matcher
file_reload from_str path = reload_loop λ read_to_string. load read_to_string from_str path

unfoldable pub url_reload :
    (Text → Option (List Text)) → Text → List (Text → Option (ℕ × Text)) → Matcher → Matcher
url_reload json url = reload_loop λ get. fetch get json url

unfoldable pub db_reload : List Db → Matcher → Matcher
db_reload = reload_loop λ db. (list db).0

abbrev pub latest : Option (List Text) → Result (List Text) → Option (List Text)
latest before (ok domains) = some domains
latest before (err e) = before

-- The last list that was loaded, if there is one.
abbrev pub last_loaded :
    {Source : Type 0}
    → (Source → Result (List Text))
    → Option (List Text)
    → List Source
    → Option (List Text)
last_loaded read before [] = before
last_loaded read before (s ∷ sources) = last_loaded read (latest before (read s)) sources

-- What a matcher answers for a domain: that of the list, up to ASCII case, or what it did before.
abbrev pub watched_by : Option (List Text) → Matcher → Text → Bool
watched_by none matcher d = watches matcher d
watched_by (some domains) matcher d =
    any (λ w. beq (to_ascii_lowercase w) (to_ascii_lowercase d)) domains

module _ {Source : Type 0} (read : Source → Result (List Text)) (first : Matcher) (d : Text) where
  reload_step :
      (before : Option (List Text)) (matcher : Matcher) (r : Result (List Text))
      → watches matcher d ≡ watched_by before first d
      → watches (reload matcher r) d ≡ watched_by (latest before r) first d
  unfolding reload
  reload_step before matcher (ok domains) h = watches-replace matcher domains d
  reload_step before matcher (err e) h = h

  watches-reload_loop :
      (before : Option (List Text)) (matcher : Matcher) (sources : List Source)
      → watches matcher d ≡ watched_by before first d
      → watches (reload_loop read sources matcher) d
        ≡ watched_by (last_loaded read before sources) first d
  unfolding reload_loop
  watches-reload_loop before matcher [] h = h
  watches-reload_loop before matcher (s ∷ sources) h =
      watches-reload_loop (latest before (read s)) (reload matcher (read s)) sources
        (reload_step before matcher (read s) h)

-- After any number of turns of its loop, the watchlist answers as the last list that could be read and
-- parsed from the file, or fetched from the URL, or read from the table; where there was none, as before.
pub watches-reload :
    (matcher : Matcher) (d : Text) (from_str : Text → Option (List Text)) (path : Text)
    (reads : List (Text → Option Text)) (json : Text → Option (List Text)) (url : Text)
    (gets : List (Text → Option (ℕ × Text))) (dbs : List Db)
    → (watches (file_reload from_str path reads matcher) d
        ≡ watched_by (last_loaded (λ read. load read from_str path) none reads) matcher d)
      × (watches (url_reload json url gets matcher) d
          ≡ watched_by (last_loaded (λ get. fetch get json url) none gets) matcher d)
      × (watches (db_reload dbs matcher) d
          ≡ watched_by (last_loaded (λ db. (list db).0) none dbs) matcher d)
unfolding file_reload url_reload db_reload
watches-reload matcher d from_str path reads json url gets dbs = (
  watches-reload_loop (λ read. load read from_str path) matcher d none matcher reads refl,
  watches-reload_loop (λ get. fetch get json url) matcher d none matcher gets refl,
  watches-reload_loop (λ db. (list db).0) matcher d none matcher dbs refl,
)
