-- ===== src/Writer/Flush/Quiet.antt =====
-- The parts of `flush_batch` of src/writer.rs for the observed names and the webhook messages, and
-- what they leave alone.
use ctwatch.Base.{ℕ, ◌≡◌, refl, ◌∙◌, Bool-cases, inl, inr, List, [], ◌∷◌, Option, any, ◌==◌}
use ctwatch.Base.Text.{Text}
use ctwatch.Base.Result.{Result}
use ctwatch.Base.Exec.{
  Exec, IsPreorder, Always, Surely, Surely-attempt, Surely-pure, Surely-bind, Surely-if,
}
use ctwatch.Parse.Psl.{registered_or_name}
use ctwatch.Stats
use ctwatch.Store.Answering.{IsAnswering, statement_answers}
use ctwatch.Store.Db.{Time, CertRow, MatchBody, OutboxRow, Db, statement-elim}
use ctwatch.Store.Names
use ctwatch.Store.Outbox
use ctwatch.Stream.Event.{CertEvent}
use ctwatch.Watchlist.Matcher.{Matcher, matches}
use ctwatch.Writer.Flush.{Writer, on_db, count, draw, upsert_sans, upsert_names, notify, notify_all}

pub record IsQuiet (w w' : Writer) : Type 0 where
  pub certs : w'.db.certs ≡ w.db.certs
  pub stream : w'.stream ≡ w.stream
  pub ingested : w'.counters.certs_ingested ≡ w.counters.certs_ingested
  pub dropped : w'.counters.duplicates_dropped ≡ w.counters.duplicates_dropped
  pub answering : IsAnswering w.db → IsAnswering w'.db

IsPreorder-IsQuiet : IsPreorder IsQuiet
IsPreorder-IsQuiet = record {
  reflexive = λ w. record {
    certs = refl;
    stream = refl;
    ingested = refl;
    dropped = refl;
    answering = λ u. u;
  };
  transitive = λ a b c h k. record {
    certs = k.certs ∙ h.certs;
    stream = k.stream ∙ h.stream;
    ingested = k.ingested ∙ h.ingested;
    dropped = k.dropped ∙ h.dropped;
    answering = λ u. k.answering (h.answering u);
  };
}

on_db-IsQuiet :
    {A : Type 0} (m : Exec Db A)
    → ((db : Db) → (m db).1.certs ≡ db.certs)
    → ((db : Db) → IsAnswering db → IsAnswering (m db).1)
    → Always IsQuiet (on_db m)
unfolding on_db
on_db-IsQuiet m h k = record {
  from = λ w. record {
    certs = h w.db;
    stream = refl;
    ingested = refl;
    dropped = refl;
    answering = k w.db;
  };
}

upsert-certs :
    (name domain : Text) (now : Time) (db : Db)
    → (Names.upsert name domain now db).1.certs ≡ db.certs
unfolding Names.upsert
upsert-certs name domain now db =
    statement-elim (λ (r : Result _ × Db). r.1.certs ≡ db.certs) _ db refl
      (elim (Bool-cases (any (Names.is_full name) db.names_observed)) [
        | inl h ↦ rw h refl
        | inr h ↦ rw h refl
      ])

enqueue-certs :
    (event_id : ℕ) (body : MatchBody) (db : Db)
    → (Outbox.enqueue event_id body db).1.certs ≡ db.certs
unfolding Outbox.enqueue
enqueue-certs event_id body db =
    statement-elim (λ (r : Result _ × Db). r.1.certs ≡ db.certs) _ db refl
      (elim (Bool-cases (any (λ (r : OutboxRow). r.event_id == event_id) db.webhook_outbox)) [
        | inl h ↦ rw h refl
        | inr h ↦ rw h refl
      ])

upsert_answers :
    (name domain : Text) (now : Time) (db : Db)
    → IsAnswering db
    → IsAnswering (Names.upsert name domain now db).1
unfolding Names.upsert
upsert_answers name domain now db = statement_answers _ db λ db.
    elim (Bool-cases (any (Names.is_full name) db.names_observed)) [
      | inl h ↦ rw h refl
      | inr h ↦ rw h refl
    ]

enqueue_answers :
    (event_id : ℕ) (body : MatchBody) (db : Db)
    → IsAnswering db
    → IsAnswering (Outbox.enqueue event_id body db).1
unfolding Outbox.enqueue
enqueue_answers event_id body db = statement_answers _ db λ db.
    elim (Bool-cases (any (λ (r : OutboxRow). r.event_id == event_id) db.webhook_outbox)) [
      | inl h ↦ rw h refl
      | inr h ↦ rw h refl
    ]

count_watchlist-IsQuiet : Surely IsQuiet (count Stats.incr_watchlist)
unfolding Stats.incr_watchlist
count_watchlist-IsQuiet = record {
  from = λ w. (
    tt,
    _,
    refl,
    record { certs = refl; stream = refl; ingested = refl; dropped = refl; answering = λ u. u },
  );
}

module _ (domain : Text → Option Text) where
  upsert_sans-IsQuiet :
      (not_before : Time) (sans : List Text) → Surely IsQuiet (upsert_sans domain not_before sans)
  unfolding upsert_sans
  upsert_sans-IsQuiet not_before [] = Surely-pure IsPreorder-IsQuiet tt
  upsert_sans-IsQuiet not_before (name ∷ sans) =
      Surely-bind IsPreorder-IsQuiet _ _
        (Surely-attempt _ (
          on_db-IsQuiet _ (upsert-certs name (registered_or_name domain name) not_before)
            (upsert_answers name (registered_or_name domain name) not_before)))
        (λ _. upsert_sans-IsQuiet not_before sans)

  pub upsert_names-IsQuiet : (rows : List CertRow) → Surely IsQuiet (upsert_names domain rows)
  unfolding upsert_names
  upsert_names-IsQuiet [] = Surely-pure IsPreorder-IsQuiet tt
  upsert_names-IsQuiet (row ∷ rows) =
      Surely-bind IsPreorder-IsQuiet _ _ (upsert_sans-IsQuiet row.not_before row.sans)
        (λ _. upsert_names-IsQuiet rows)

module _ (uuid : ℕ → ℕ) where
  draw-IsQuiet : Surely IsQuiet (draw uuid)
  unfolding draw
  draw-IsQuiet = record {
    from = λ w. (
      _,
      _,
      refl,
      record { certs = refl; stream = refl; ingested = refl; dropped = refl; answering = λ u. u },
    );
  }

  notify-IsQuiet : (evt : CertEvent) (ms : List Text) → Surely IsQuiet (notify uuid evt ms)
  unfolding notify
  notify-IsQuiet evt [] = Surely-pure IsPreorder-IsQuiet tt
  notify-IsQuiet evt (m ∷ ms) = Surely-bind IsPreorder-IsQuiet _ _ count_watchlist-IsQuiet λ _.
      Surely-bind IsPreorder-IsQuiet _ _ draw-IsQuiet λ body_id.
        Surely-bind IsPreorder-IsQuiet _ _ draw-IsQuiet λ row_id.
          Surely-bind IsPreorder-IsQuiet _ _
            (Surely-attempt _ (on_db-IsQuiet _ (enqueue-certs row_id _) (enqueue_answers row_id _)))
            (λ _. Surely-pure IsPreorder-IsQuiet tt)

  pub notify_all-IsQuiet :
      (matcher : Matcher) (inserted : ℕ) (rows : List CertRow) (events : List CertEvent)
      → Surely IsQuiet (notify_all uuid matcher inserted rows events)
  unfolding notify_all
  notify_all-IsQuiet matcher inserted [] events = Surely-pure IsPreorder-IsQuiet tt
  notify_all-IsQuiet matcher inserted (row ∷ rows) [] = Surely-pure IsPreorder-IsQuiet tt
  notify_all-IsQuiet matcher inserted (row ∷ rows) (evt ∷ events) =
      Surely-if (inserted == 0) _ _ (Surely-pure IsPreorder-IsQuiet tt) (
        Surely-bind IsPreorder-IsQuiet _ _
          (notify-IsQuiet evt (matches matcher row.registered_domains))
          (λ _. notify_all-IsQuiet matcher inserted rows events))
