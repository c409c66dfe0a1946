-- ===== src/Cmd/Serve/Mode.antt =====
-- Where the watchlist of src/cmd/serve.rs comes from.
use ctwatch.Base.{◌≡◌, ◌≢◌, refl, ◌⊎◌, inl, inr, false, Bool-cases, Option, none, some, arith}
use ctwatch.Base.Text.{Text, text, beq, beq_iff}
use ctwatch.Base.Result.{Result, ok, err, config_error}
use ctwatch.Base.Exec.{◌>>=◌}
use ctwatch.Cmd.Serve.{
  Reloader, from_db, from_file, from_url, no_reload, start_watchlist, reloader_of,
}
use ctwatch.Config.{Config}
use ctwatch.Store.Db.{Db}
use ctwatch.Store.Watchlist
use ctwatch.Watchlist.Matcher.{Matcher, new}
use ctwatch.Watchlist.Sources.{reload}

-- The settings under which a source of the watchlist is chosen.
abbrev pub IsChosen : Config → Reloader → Type 0
IsChosen cfg from_db = cfg.watchlist_mode ≡ text "db"
IsChosen cfg (from_file path) =
    (cfg.watchlist_mode ≡ text "file") × (cfg.watchlist_file ≡ some path)
IsChosen cfg (from_url url) = (cfg.watchlist_mode ≡ text "url") × (cfg.watchlist_url ≡ some url)
IsChosen cfg no_reload = cfg.watchlist_mode ≡ text "disabled"

-- The settings under which there is none.
abbrev pub IsMisconfigured : Config → Type 0
IsMisconfigured cfg =
    ((cfg.watchlist_mode ≡ text "file") × (cfg.watchlist_file ≡ none))
    ⊎ ((cfg.watchlist_mode ≡ text "url") × (cfg.watchlist_url ≡ none))
    ⊎ ((cfg.watchlist_mode ≢ text "db")
        × (cfg.watchlist_mode ≢ text "file")
        × (cfg.watchlist_mode ≢ text "url")
        × (cfg.watchlist_mode ≢ text "disabled"))

abbrev pub WatchlistOutcome : Config → Db → Result (Matcher × Reloader) × Db → Type 0
WatchlistOutcome cfg db (ok (matcher, reloader), db') =
    IsChosen cfg reloader
    × (matcher ≡ elim reloader [ from_db ↦ reload new (Watchlist.list db).0 | _ ↦ new ])
WatchlistOutcome cfg db (err e, db') = (e ≡ config_error) × IsMisconfigured cfg × (db' ≡ db)

-- The mode decides where the watchlist is reloaded from: the process ends with an error where the setting
-- that the mode needs is missing or the mode is none of the four, and then nothing was read. In db mode the
-- first list is loaded at once, and a failure of that leaves the watchlist empty.
pub start_watchlist-WatchlistOutcome :
    (cfg : Config) (db : Db) → WatchlistOutcome cfg db (start_watchlist cfg db)
unfolding start_watchlist ◌>>=◌
start_watchlist-WatchlistOutcome cfg db = elim (Bool-cases (beq cfg.watchlist_mode (text "db"))) [
  | inl e ↦ rw e ((beq_iff _ _).0 e, refl)
  | inr no_db ↦ rw no_db (elim (Bool-cases (beq cfg.watchlist_mode (text "file"))) [
    | inl e ↦ rw e (file ((beq_iff _ _).0 e) cfg.watchlist_file refl)
    | inr no_file ↦ rw no_file (elim (Bool-cases (beq cfg.watchlist_mode (text "url"))) [
      | inl e ↦ rw e (url ((beq_iff _ _).0 e) cfg.watchlist_url refl)
      | inr no_url ↦ rw no_url (elim (Bool-cases (beq cfg.watchlist_mode (text "disabled"))) [
        | inl e ↦ rw e ((beq_iff _ _).0 e, refl)
        | inr other ↦ rw other (
          refl,
          inr (inr (not_mode _ no_db, not_mode _ no_file, not_mode _ no_url, not_mode _ other)),
          refl,
        )
      ])
    ])
  ])
]
  where
    not_mode : (m : Text) → beq cfg.watchlist_mode m ≡ false → cfg.watchlist_mode ≢ m
    not_mode m e = λ h. ground (arith, beq_iff cfg.watchlist_mode m)

    file :
        cfg.watchlist_mode ≡ text "file"
        → (setting : Option Text) → cfg.watchlist_file ≡ setting
        → WatchlistOutcome cfg db (reloader_of from_file setting db)
    file e none h = (refl, inl (e, h), refl)
    file e (some path) h = ((e, h), refl)

    url :
        cfg.watchlist_mode ≡ text "url"
        → (setting : Option Text) → cfg.watchlist_url ≡ setting
        → WatchlistOutcome cfg db (reloader_of from_url setting db)
    url e none h = (refl, inr (inl (e, h)), refl)
    url e (some u) h = ((e, h), refl)
