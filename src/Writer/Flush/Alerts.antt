-- ===== src/Writer/Flush/Alerts.antt =====
-- The loop of `flush_batch` of src/writer.rs that reports matches: what it leaves in the outbox.
use mathlib.Core.List.{reverse, reverse-append, map-append}
use ctwatch.Base.{
  ℕ, ◌+◌, ◌≡◌, ◌≢◌, ◌<◌, refl, sym, ◌∙◌, ap, subst, Bool, true, false, List, [], ◌∷◌, ◌++◌,
  append_assoc, map, any, arith, All, All-append, ◌==◌,
}
use ctwatch.Base.Text.{Text}
use ctwatch.Base.Result.{Result, ok}
use ctwatch.Base.Exec.{◌>>=◌, ◌>>◌}
use ctwatch.Stats
use ctwatch.Store.Answering.{IsAnswering, answered-AllTrue, later-AllTrue}
use ctwatch.Store.Db.{CertRow, MatchBody, OutboxRow, Db, later, statement}
use ctwatch.Store.Outbox
use ctwatch.Stream.Event.{CertEvent, CertEventCert}
use ctwatch.Watchlist.Matcher.{Matcher, matches}
use ctwatch.Writer.Flush.{Writer, on_db, draw, notify, notify_all}

-- What a message tells: the certificate, and the domains of the watchlist that it matches.
abbrev pub content : OutboxRow → CertEventCert × List Text
content r = (r.body.cert, r.body.matched_watchlist_entries)

-- what there is to tell: the certificates that match, in the order of the batch
abbrev pub alert : CertEvent → List Text → List (CertEventCert × List Text)
alert evt [] = []
alert evt (m ∷ ms) = (evt.cert, m ∷ ms) ∷ []

abbrev pub alerts : Matcher → List CertRow → List CertEvent → List (CertEventCert × List Text)
alerts matcher [] events = []
alerts matcher (row ∷ rows) [] = []
alerts matcher (row ∷ rows) (evt ∷ events) =
    alert evt (matches matcher row.registered_domains) ++ alerts matcher rows events

abbrev pub has_event : ℕ → List OutboxRow → Bool
has_event id rows = any (λ (r : OutboxRow). r.event_id == id) rows

module _ (uuid : ℕ → ℕ) where
  -- The UUIDs still to be drawn are in no row.
  pub record IsFresh (w : Writer) : Type 0 where
    pub unused : (k : ℕ) → has_event (uuid (w.drawn + k)) w.db.webhook_outbox ≡ false

-- A message for each, the last first, which has not been tried, and is due.
pub record Alerted (told : List (CertEventCert × List Text)) (w w' : Writer) : Type 0 where
  pub rows : List OutboxRow
  pub outbox : w'.db.webhook_outbox ≡ rows ++ w.db.webhook_outbox
  pub contents : map content rows ≡ reverse told
  pub due : All (λ (r : OutboxRow). (r.attempts ≡ 0) × (Outbox.is_due w.db.clock r ≡ true)) rows

enqueue_fresh :
    (id : ℕ) (body : MatchBody) (db : Db)
    → IsAnswering db
    → has_event id db.webhook_outbox ≡ false
    → Outbox.enqueue id body db ≡ (
      ok id,
      record db {
        webhook_outbox = Outbox.new_row db.outbox_next_id id body db.clock ∷ db.webhook_outbox;
        outbox_next_id = db.outbox_next_id + 1;
        answers = later db.answers;
      },
    )
unfolding Outbox.enqueue statement
enqueue_fresh id body db u h = rw (answered-AllTrue db.answers u, h) refl

abbrev Content : Type 0
Content = CertEventCert × List Text

module _ (uuid : ℕ → ℕ) (distinct : (i j : ℕ) → i ≢ j → uuid i ≢ uuid j) where
  -- what a part of the loop does
  pub record Tells (told : List Content) (w : Writer) (r : Result (Unit {0}) × Writer)
      : Type 0 where
    pub after : Writer
    pub done : r ≡ (ok tt, after)
    pub alerted : Alerted told w after
    pub fresh : IsFresh uuid after
    pub answering : IsAnswering after.db
    pub clock : after.db.clock ≡ w.db.clock

  pure-Tells : (w : Writer) → IsFresh uuid w → IsAnswering w.db → Tells [] w (ok tt, w)
  pure-Tells w f u = record {
    after = w;
    done = refl;
    alerted = record { rows = []; outbox = refl; contents = refl; due = tt };
    fresh = f;
    answering = u;
    clock = refl;
  }

  fresh_after :
      (w : Writer) (row : OutboxRow)
      → row.event_id ≡ uuid (w.drawn + 1)
      → IsFresh uuid w
      → (k : ℕ) → has_event (uuid (w.drawn + 1 + 1 + k)) (row ∷ w.db.webhook_outbox) ≡ false
  fresh_after w row e f k =
      let other : row.event_id ≢ uuid (w.drawn + 1 + 1 + k) =
        λ h. distinct (w.drawn + 1) (w.drawn + 1 + 1 + k) (omega arith) (sym e ∙ h) in
      let rest : has_event (uuid (w.drawn + 1 + 1 + k)) w.db.webhook_outbox ≡ false =
        subst (λ n. has_event (uuid n) w.db.webhook_outbox ≡ false) (omega arith)
          (f.unused (1 + 1 + k)) in
      ground (arith, other, rest)

  notify-Tells :
      (evt : CertEvent) (ms : List Text) (w : Writer)
      → IsFresh uuid w
      → IsAnswering w.db
      → Tells (alert evt ms) w (notify uuid evt ms w)
  unfolding notify draw on_db ◌>>=◌ Outbox.new_row Outbox.is_due Outbox.is_pending
  notify-Tells evt [] w f u = pure-Tells w f u
  notify-Tells evt (m ∷ ms) w f u =
      let body : MatchBody = record {
        event_id = uuid w.drawn;
        matched_at = evt.observed_at;
        matched_watchlist_entries = m ∷ ms;
        cert = evt.cert;
      } in
      let row : OutboxRow =
        Outbox.new_row w.db.outbox_next_id (uuid (w.drawn + 1)) body w.db.clock in
      record {
        after = record {
          db = record w.db {
            webhook_outbox = row ∷ w.db.webhook_outbox;
            outbox_next_id = w.db.outbox_next_id + 1;
            answers = later w.db.answers;
          };
          counters = Stats.incr_watchlist w.counters;
          stream = w.stream;
          drawn = w.drawn + 1 + 1;
        };
        done = rw (enqueue_fresh (uuid (w.drawn + 1)) body w.db u (f.unused 1)) refl;
        alerted = record {
          rows = row ∷ [];
          outbox = refl;
          contents = refl;
          due = ((refl, ground arith), tt);
        };
        fresh = record { unused = fresh_after w row refl f };
        answering = later-AllTrue w.db.answers u;
        clock = refl;
      }

  then_Tells :
      (a b : List Content) (m n : Writer → Result (Unit {0}) × Writer) (w : Writer)
      → Tells a w (m w)
      → ((v : Writer) → IsFresh uuid v → IsAnswering v.db → Tells b v (n v))
      → Tells (a ++ b) w ((m >> n) w)
  unfolding ◌>>=◌
  then_Tells a b m n w h k =
      let g = k h.after h.fresh h.answering in
      record {
        after = g.after;
        done = rw h.done g.done;
        alerted = record {
          rows = g.alerted.rows ++ h.alerted.rows;
          outbox =
              g.alerted.outbox
              ∙ ap (λ r. g.alerted.rows ++ r) h.alerted.outbox
              ∙ sym (append_assoc g.alerted.rows h.alerted.rows w.db.webhook_outbox);
          contents =
              map-append content g.alerted.rows h.alerted.rows
              ∙ ap (λ r. r ++ map content h.alerted.rows) g.alerted.contents
              ∙ ap (λ r. reverse b ++ r) h.alerted.contents
              ∙ sym (reverse-append a b);
          due =
              All-append _ g.alerted.rows h.alerted.rows
                (subst
                  (λ now.
                    All (λ (r : OutboxRow). (r.attempts ≡ 0) × (Outbox.is_due now r ≡ true))
                      g.alerted.rows)
                  h.clock g.alerted.due)
                h.alerted.due;
        };
        fresh = g.fresh;
        answering = g.answering;
        clock = g.clock ∙ h.clock;
      }

  pub notify_all-Tells :
      (matcher : Matcher) (inserted : ℕ) (rows : List CertRow) (events : List CertEvent)
      → (inserted == 0) ≡ false
      → (w : Writer) → IsFresh uuid w
      → IsAnswering w.db
      → Tells (alerts matcher rows events) w (notify_all uuid matcher inserted rows events w)
  unfolding notify_all
  notify_all-Tells matcher inserted [] events some_new w f u = pure-Tells w f u
  notify_all-Tells matcher inserted (row ∷ rows) [] some_new w f u = pure-Tells w f u
  notify_all-Tells matcher inserted (row ∷ rows) (evt ∷ events) some_new w f u = rw some_new (
      then_Tells (alert evt (matches matcher row.registered_domains)) (alerts matcher rows events)
        (notify uuid evt (matches matcher row.registered_domains))
        (notify_all uuid matcher inserted rows events) w
        (notify-Tells evt (matches matcher row.registered_domains) w f u)
        (notify_all-Tells matcher inserted rows events some_new))

  -- No match is missed. When a batch has at least one new certificate, the database answers, and the UUIDs
  -- that are drawn are distinct and in no row, the outbox gets one message for each certificate of the
  -- batch that matches the watchlist, in their order, with the domains that it matches; each has not been
  -- tried and is due, and the messages that were there stay behind them. The certificates that were stored
  -- before are among those that are reported, other than the comment in flush_batch says.
  pub notify_all-Alerted :
      (matcher : Matcher) (inserted : ℕ) (rows : List CertRow) (events : List CertEvent)
      (w : Writer)
      → 0 < inserted
      → IsFresh uuid w
      → IsAnswering w.db
      → (w' : Writer) × (notify_all uuid matcher inserted rows events w ≡ (ok tt, w'))
        × Alerted (alerts matcher rows events) w w'
  notify_all-Alerted matcher inserted rows events w some_new f u =
      let h = notify_all-Tells matcher inserted rows events (ground arith) w f u in
      (h.after, h.done, h.alerted)
