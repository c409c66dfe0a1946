-- ===== src/Webhook.antt =====
-- src/webhook.rs: the delivery of due messages. Parameters are HMAC-SHA256, hex, and the JSON
-- bytes of a body; a server is the answer it gives to each request, `none` for none.
pub mod Retry
pub mod Due
use ctwatch.Base.{
  ℕ, suc, ◌+◌, ◌*◌, ◌^◌, min, Bool, true, false, ◌&&◌, List, [], ◌∷◌, ◌++◌, Option, none, some, ltb,
  leb, if◌then◌else◌,
}
use ctwatch.Base.Text.{Text, text}
use ctwatch.Base.Result.{Result, ok}
use ctwatch.Base.Exec.{Exec, pure, modify, attempt, ◌>>=◌, ◌>>◌}
use ctwatch.Stats
use ctwatch.Stats.{Counters}
use ctwatch.Store.Outbox
use ctwatch.Store.Db.{Time, MatchBody, OutboxRow, Db}

pub record WebhookCfg : Type 0 where
  pub url : Text
  pub hmac_secret : Text
  pub max_attempts : ℕ

pub record Request : Type 0 where
  pub url : Text
  pub content_type : Text
  pub event : Text
  pub signature : Text
  pub delivery : ℕ
  pub body : List ℕ

-- `posted` is every request so far, oldest first. `Utc::now()` is the clock of the database.
pub record Hooks : Type 0 where
  pub db : Db
  pub counters : Counters
  pub posted : List Request

abbrev put_db : {A : Type 0} → Hooks → Result A × Db → Result A × Hooks
put_db w (r, db) = (r, record w { db = db })

unfoldable pub on_db : {A : Type 0} → Exec Db A → Exec Hooks A
on_db m w = put_db w (m w.db)

abbrev pub count : (Counters → Counters) → Exec Hooks (Unit {0})
count f = modify λ w. record w { counters = f w.counters }

abbrev seconds : ℕ
seconds = 1000000000

unfoldable pub delay_secs : ℕ → ℕ
delay_secs next_attempts = 4 ^ min next_attempts 7

-- 3650 days, when it is not to be tried again, else a delay
unfoldable pub retry_at : WebhookCfg → ℕ → Time → Time
unfolding delay_secs
retry_at cfg attempts now =
    if leb cfg.max_attempts (attempts + 1)
    then now + 3650 * 86400 * seconds
    else now + delay_secs (attempts + 1) * seconds

unfoldable pub schedule_retry : WebhookCfg → ℕ → ℕ → ℕ → Exec Hooks (Unit {0})
unfolding retry_at
schedule_retry cfg id attempts status w =
    let next = retry_at cfg attempts w.db.clock in
    (attempt (on_db (Outbox.mark_attempt id status next)) >>= λ _. count (
        if leb cfg.max_attempts (attempts + 1)
        then Stats.incr_webhook_failed
        else Stats.incr_webhook_retry))
      w

-- 2xx
unfoldable pub is_success : ℕ → Bool
is_success status = leb 200 status && ltb status 300

-- the HMAC-SHA256 of the body under the secret, in hex
unfoldable pub sign :
    (mac : List ℕ → List ℕ → List ℕ) (encode : List ℕ → Text) (secret : Text) (body : List ℕ) → Text
sign mac encode secret body = encode (mac secret body)

module _ (mac : List ℕ → List ℕ → List ℕ) (encode : List ℕ → Text) (to_vec : MatchBody → List ℕ)
    (cfg : WebhookCfg) where
  unfoldable pub request : OutboxRow → Request
  request row =
      let body = to_vec row.body in
      record {
        url = cfg.url;
        content_type = text "application/json";
        event = text "precert.match";
        signature = text "sha256=" ++ sign mac encode cfg.hmac_secret body;
        delivery = row.event_id;
        body = body;
      }

  -- what is done with the answer
  unfoldable pub answered : OutboxRow → Option ℕ → Exec Hooks (Unit {0})
  unfolding is_success
  answered row none = schedule_retry cfg row.id row.attempts 0
  answered row (some status) =
      if is_success status
      then (attempt (on_db (Outbox.mark_delivered row.id status)) >>= λ _.
          count Stats.incr_webhook_delivered)
      else schedule_retry cfg row.id row.attempts status

  module _ (server : Request → Option ℕ) where
    unfoldable pub deliver_one : OutboxRow → Exec Hooks (Unit {0})
    deliver_one row =
        modify (λ w. record w { posted = w.posted ++ request row ∷ [] })
        >> answered row (server (request row))

    unfoldable pub deliver_all : List OutboxRow → Exec Hooks (Unit {0})
    deliver_all [] = pure tt
    deliver_all (row ∷ due) = deliver_one row >> deliver_all due

    -- One turn of the loop of `run`; an error of `due` is logged.
    unfoldable pub turn : Hooks → Hooks
    turn w = ((on_db (Outbox.due 50) >>= deliver_all) w).1
