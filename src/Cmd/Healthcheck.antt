-- ===== src/Cmd/Healthcheck.antt =====
-- src/cmd/healthcheck.rs. The request is a parameter: the status that comes back, if any does.
use ctwatch.Base.{ℕ, ◌++◌, ◌&&◌, Option, none, some, leb, ltb, if◌then◌else◌}
use ctwatch.Base.Text.{Text, text}
use ctwatch.Base.Result.{Result, ok, err, http_error, ◌>>=◌}
use ctwatch.Config.{Config}

abbrev pub checked : Option ℕ → Result (Unit {0})
checked none = err http_error
checked (some status) = if leb 200 status && ltb status 300 then ok tt else err http_error

unfoldable pub run : (Text → Option ℕ) → Result Config → Result (Unit {0})
run get loaded =
    loaded >>= λ cfg. checked (get (text "http://" ++ (cfg.listen_addr ++ text "/v1/healthz")))
