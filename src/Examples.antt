-- ===== src/Examples.antt =====
-- The properties of the other parts at one input each.
mod Api
mod Serve
mod Router
mod Stream
use ctwatch.Base.{
  ℕ, ◌*◌, ◌∙◌, ◌≤◌, ◌≡◌, refl, true, false, not, ◌&&◌, List, [], ◌∷◌, ◌++◌, map, Option, none, some,
  arith, any, filter, All, In, length, if◌then◌else◌,
}
use ctwatch.Base.Int.{ℤ, pos}
use ctwatch.Base.Text.{
  Text, IsAscending, IsDistinct, text, beq, contains, is_empty, to_ascii_lowercase, to_lower, trim,
  trim_start, strip_end, is_whitespace,
}
use mathlib.Core.List.{reverse}
use ctwatch.Base.Exec.{◌>>=◌}
use ctwatch.Base.Result.{ok}
use ctwatch.Ingest.Entry.{precert}
use ctwatch.Parse.San.{clean, normalize_sans}
use ctwatch.Parse.San.Laws.{cleans_to, contains-normalize_sans, normalize_sans-IsAscending}
use ctwatch.Parse.X509.{Certificate, subject_alternative_name, dns_name}
use ctwatch.Stats
use ctwatch.Stats.Ring.{push_all, last_of, push_all-samples}
use ctwatch.Store.Certs.{insert_batch}
use ctwatch.Store.Certs.Batch.{BatchOutcome, insert_batch-BatchOutcome}
use ctwatch.Store.Outbox.{is_due, is_pending, enqueue, new_row}
use ctwatch.Store.Db.{CertRow, MatchBody, OutboxRow, Cursor, Db, answered, statement}
use ctwatch.Store.Names.Observed.{Seen, row_of, upserts, counted, of_name, row_of-upserts}
use ctwatch.Writer.Flush.{notify_all, notify, draw}
use ctwatch.Writer.Flush.Alerts.{IsFresh, content, Alerted, alerts, notify_all-Alerted}
use ctwatch.Stream.Event.{CertEvent, CertEventCert}
use ctwatch.Stream.Handler.{Session, received, lagged, wanted, loop}
use ctwatch.Stream.Handler.Subscriber.{IsPrefixSent, received_events, loop-IsPrefixSent}
use ctwatch.Alerting.{turn-notify_all_posts}
use ctwatch.Writer.Flush
use ctwatch.Watchlist.Matcher.{watches, Matcher, matches, replace, matches-replace}
use ctwatch.Webhook
use ctwatch.Webhook.Due.{IsSettled, deliver_one-IsSettled}
use ctwatch.Writer.Flush.{Writer, flush_batch}
use ctwatch.Writer.Prepare.{prepared}
use ctwatch.Writer.Flush.Outcome.{FlushOutcome, flush_batch-FlushOutcome}
use ctwatch.Writer.Job.{WriterJob}

abbrev sans : List Text
sans = text "B.example." ∷ text "a.example" ∷ text "b.example" ∷ []

contains-normalize_sans_example :
    contains (normalize_sans sans) (text "b.example")
    ≡ (not (is_empty (text "b.example")) && any (cleans_to (text "b.example")) sans)
contains-normalize_sans_example = contains-normalize_sans sans (text "b.example")

normalize_sans-IsAscending_example : IsAscending (normalize_sans sans)
normalize_sans-IsAscending_example = normalize_sans-IsAscending sans

cleaned : (not (is_empty (text "a")) && any (cleans_to (text "a")) (text "A." ∷ [])) ≡ true
unfolding clean trim trim_start strip_end is_whitespace to_ascii_lowercase to_lower beq
cleaned = refl

same_names :
    (n : Text)
    → contains (text "a" ∷ text "b" ∷ []) n ≡ contains (text "b" ∷ text "a" ∷ text "a" ∷ []) n
unfolding contains
same_names n = ground arith

a_listed : contains (normalize_sans (text "A." ∷ [])) (text "a") ≡ true
a_listed = contains-normalize_sans (text "A." ∷ []) (text "a") ∙ cleaned

pub matcher : Matcher
matcher = record { inner = text "old.example" ∷ [] }

matches-replace_example :
    matches (replace matcher (text "A.example" ∷ [])) (text "a.Example" ∷ text "old.example" ∷ [])
    ≡ filter
        (λ d. any (λ w. beq (to_ascii_lowercase w) (to_ascii_lowercase d)) (text "A.example" ∷ []))
        (text "a.Example" ∷ text "old.example" ∷ [])
matches-replace_example =
    matches-replace matcher (text "A.example" ∷ []) (text "a.Example" ∷ text "old.example" ∷ [])

abbrev cursor : Cursor
cursor = record {
  log_id = 1 ∷ [];
  log_url = text "https://log/";
  operator = text "op";
  last_tree_size = pos 5;
  last_updated = 0;
  state = text "usable";
}

push_all-samples_example :
    (push_all ((1, 5) ∷ (2, 6) ∷ (3, 7) ∷ []) (Stats.new_ring 2)).samples
    ≡ last_of 2 ((1, 5) ∷ (2, 6) ∷ (3, 7) ∷ [])
push_all-samples_example =
    push_all-samples ((1, 5) ∷ (2, 6) ∷ (3, 7) ∷ []) (Stats.new_ring 2) (omega arith) (omega arith)

abbrev cert_row : CertRow
cert_row = record {
  cert_hash = 4 ∷ [];
  issuer_hash = [];
  issuer_cn = [];
  not_before = 10;
  not_after = 20;
  sans = text "a.example" ∷ [];
  registered_domains = text "a.example" ∷ [];
}

abbrev event_cert : CertEventCert
event_cert = record {
  cert_hash = 4 ∷ [];
  issuer_cn = [];
  not_before = 10;
  not_after = 20;
  sans = text "a.example" ∷ [];
  registered_domains = text "a.example" ∷ [];
}

abbrev event : CertEvent
event = record {
  event = text "precert";
  observed_at = 5;
  cert = event_cert;
  log = record { operator = text "op"; log_id = 1 ∷ [] };
}

abbrev body : MatchBody
body = record {
  event_id = 8;
  matched_at = 5;
  matched_watchlist_entries = text "a.example" ∷ [];
  cert = event_cert;
}

abbrev row : OutboxRow
row = record {
  id = 1;
  event_id = 7;
  body = body;
  attempts = 0;
  last_attempt = none;
  last_status = none;
  delivered_at = none;
  next_attempt = 0;
}

abbrev db : Db
db = record {
  certs = [];
  cert_names = [];
  names_observed = [];
  ingest_cursors = [];
  watchlist = [];
  webhook_outbox = row ∷ [];
  outbox_next_id = 2;
  backfill_jobs = [];
  jobs_next_id = 1;
  clock = 5;
  answers = [];
}

insert_batch-BatchOutcome_example :
    BatchOutcome
      (cert_row ∷ cert_row ∷ [])
      db
      (insert_batch (λ d. some d) (cert_row ∷ cert_row ∷ []) db)
insert_batch-BatchOutcome_example =
    insert_batch-BatchOutcome (λ d. some d) (cert_row ∷ cert_row ∷ []) db

abbrev hooks : Webhook.Hooks
hooks = record { db = db; counters = Stats.new; posted = [] }

abbrev hook_cfg : Webhook.WebhookCfg
hook_cfg = record { url = text "https://hook/"; hmac_secret = text "secret"; max_attempts = 7 }

abbrev mac : List ℕ → List ℕ → List ℕ
mac secret bytes = secret

abbrev encode : List ℕ → Text
encode bytes = text "00"

deliver_one-IsSettled_example :
    IsSettled 1 5
      (Webhook.deliver_one mac encode
        (λ b. [])
        hook_cfg
        (λ r. some 500)
        row
        hooks).1.db.webhook_outbox
unfolding answered
deliver_one-IsSettled_example =
    deliver_one-IsSettled mac encode (λ b. []) hook_cfg (λ r. some 500) row hooks refl

abbrev session : Session
session = record { frames = []; last_pong = 0; accepts = true ∷ false ∷ []; counters = Stats.new }

loop-IsPrefixSent_example :
    IsPrefixSent
      (filter (wanted (some (text "a.example" ∷ []))) (
        received_events
          (received event ∷ received event ∷ lagged (event ∷ []) ∷ received event ∷ [])))
      session
      (loop
        (some (text "a.example" ∷ []))
        (received event ∷ received event ∷ lagged (event ∷ []) ∷ received event ∷ [])
        session)
loop-IsPrefixSent_example =
    loop-IsPrefixSent (some (text "a.example" ∷ []))
      (received event ∷ received event ∷ lagged (event ∷ []) ∷ received event ∷ []) session

abbrev pub certificate : Certificate
certificate = record {
  extensions = subject_alternative_name (dns_name (text "a.example") ∷ []) ∷ [];
  subject_common_names = [];
  issuer_common_names = [];
  issuer_raw = [];
  not_before = pos 3;
  not_after = pos 4;
}

abbrev job : WriterJob
job = record {
  log_id = 1 ∷ [];
  log_url = text "https://log/";
  operator = text "op";
  entry = record { timestamp_ms = 1; kind = precert [] []; precert_der = some (4 ∷ []) };
}

abbrev pub writer : Writer
writer = record { db = db; counters = Stats.new; stream = []; drawn = 0 }

abbrev pub seconds_to_time : ℤ → Option ℕ
seconds_to_time (pos n) = some (n * 1000000000)
seconds_to_time _ = none

flush_batch-FlushOutcome_example :
    FlushOutcome
      (map
        (prepared (λ b. b) (λ der. some certificate) (λ d. some d) seconds_to_time 5 0)
        (job ∷ job ∷ []))
      writer
      (flush_batch
        (λ b. b)
        (λ der. some certificate)
        (λ d. some d)
        seconds_to_time
        (λ n. n)
        matcher
        5
        30
        (job ∷ job ∷ [])
        writer)
flush_batch-FlushOutcome_example =
    flush_batch-FlushOutcome (λ b. b) (λ der. some certificate) (λ d. some d) seconds_to_time
      (λ n. n) matcher 5 30 (job ∷ job ∷ []) writer

abbrev alerting : Matcher
alerting = record { inner = text "a.example" ∷ [] }

-- one whose UUIDs from the hundredth on are not in the outbox
abbrev later_writer : Writer
later_writer = record writer { drawn = 100 }

later_writer-IsFresh : IsFresh (λ n. n) later_writer
later_writer-IsFresh = record { unused = λ k. ground arith }

notify_all-Alerted_example :
    (w' : Writer) × (notify_all (λ n. n) alerting 1 (cert_row ∷ []) (event ∷ []) later_writer
      ≡ (ok tt, w'))
    × Alerted (alerts alerting (cert_row ∷ []) (event ∷ [])) later_writer w'
notify_all-Alerted_example =
    notify_all-Alerted (λ n. n) (λ i j h. h) alerting 1 (cert_row ∷ []) (event ∷ []) later_writer
      (omega arith) later_writer-IsFresh tt

abbrev alerted_hooks : Webhook.Hooks
alerted_hooks = record {
  db = record (notify_all (λ n. n) alerting 1 (cert_row ∷ []) (event ∷ []) later_writer).1.db {
    clock = 9;
  };
  counters = Stats.new;
  posted = [];
}

two_due : length (filter (is_due 9) alerted_hooks.db.webhook_outbox) ≤ 50
unfolding notify_all notify draw Flush.on_db ◌>>=◌ is_due is_pending enqueue new_row statement
    answered matches watches contains beq to_ascii_lowercase to_lower
two_due = omega arith

turn-notify_all_posts_example :
    (told : List OutboxRow) × (map content told
      ≡ reverse (alerts alerting (cert_row ∷ []) (event ∷ [])))
    × All
        (λ r.
          In
            (Webhook.request mac encode (λ b. []) hook_cfg r)
            (Webhook.turn mac encode (λ b. []) hook_cfg (λ r. none) alerted_hooks).posted)
        told
turn-notify_all_posts_example =
    turn-notify_all_posts mac encode (λ b. []) hook_cfg (λ r. none) (λ n. n) (λ i j h. h) alerting 1
      (cert_row ∷ []) (event ∷ []) later_writer 9 alerted_hooks (omega arith) later_writer-IsFresh
      tt (omega arith) refl two_due

abbrev sightings : List Seen
sightings =
    record { name = text "a"; registered_domain = text "a"; at = 3 }
    ∷ record { name = text "b"; registered_domain = text "b"; at = 2 }
    ∷ record { name = text "a"; registered_domain = text "a"; at = 1 }
    ∷ []

row_of-upserts_example :
    ((upserts sightings db).0 ≡ ok tt)
    × (row_of (text "a") (upserts sightings db).1.names_observed
        ≡ counted (of_name (text "a") sightings) (row_of (text "a") db.names_observed))
row_of-upserts_example = row_of-upserts sightings db (text "a") tt (omega arith) tt
