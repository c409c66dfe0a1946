-- ===== src/Api/Watchlist.antt =====
-- src/api/watchlist.rs: the routes under /v1/watchlist. `mode` is `watchlist_mode` of the configuration.
pub mod Spec
pub mod Refinement
use ctwatch.Base.{ℕ, Bool, true, false, not, Option, none, some, List, [], ◌∷◌, ◌++◌, if◌then◌else◌}
use ctwatch.Base.Text.{Text, text, beq, to_ascii_lowercase}
use ctwatch.Api.{Handler, bad_request, respond, refuse, query, ◌>>=◌, normalized}
use ctwatch.Store.Watchlist

pub record AddBody : Type 0 where
  pub domain : Text
  pub notes : Option Text

pub record AddedJson : Type 0 where
  pub domain : Text
  pub added : Bool
  pub warning : Option Text

abbrev pub not_db_mode : {A : Type 0} → Handler A
not_db_mode = refuse (bad_request (text "watchlist not in db mode"))

abbrev pub warning_of : (Text → Option Text) → Text → Option Text
warning_of domain d =
    if beq (normalized domain d) (to_ascii_lowercase d)
    then none
    else some (text "normalized to registered_domain " ++ normalized domain d)

module _ (mode : Text) where
  unfoldable pub list : Handler (List Text)
  list = if beq mode (text "db") then query Watchlist.list else not_db_mode

  module _ (domain : Text → Option Text) where
    -- the status, 201 or 200, and the body
    unfoldable pub add : AddBody → Handler (ℕ × AddedJson)
    add b =
        if beq mode (text "db")
        then (query (Watchlist.add (normalized domain b.domain) b.notes) >>= λ added. respond (
          if added then 201 else 200,
          record {
            domain = normalized domain b.domain;
            added = added;
            warning = warning_of domain b.domain;
          },
        ))
        else not_db_mode

    -- the status, 204 or 404
    unfoldable pub remove : Text → Handler ℕ
    remove d =
        if beq mode (text "db")
        then (query (Watchlist.remove (normalized domain d)) >>= λ removed.
            respond (if removed then 204 else 404))
        else not_db_mode
