-- ===== src/Alerting.antt =====
-- src/writer.rs and src/webhook.rs together: what becomes of a certificate that matches the watchlist.
use mathlib.Core.List.{reverse}
use ctwatch.Base.{
  ℕ, zero, suc, take, ◌≤◌, ◌<◌, ◌≡◌, ◌≢◌, refl, sym, ap, ◌∙◌, subst, Bool, true, Bool-cases, inl,
  inr, List, [], ◌∷◌, ◌++◌, map, filter, length, Option, All, In, In-append, arith,
}
use ctwatch.Base.Text.{Text}
use ctwatch.Base.Result.{Result, ok}
use ctwatch.Base.Exec.{◌>>=◌, resume}
use ctwatch.Base.Sort.{insert_by, sort_by, length-sort_by}
use ctwatch.Store.Answering.{IsAnswering, answered-AllTrue}
use ctwatch.Store.Db.{Time, CertRow, MatchBody, OutboxRow, Db, later, statement}
use ctwatch.Store.Outbox
use ctwatch.Stream.Event.{CertEvent}
use ctwatch.Watchlist.Matcher.{Matcher}
use ctwatch.Webhook
use ctwatch.Webhook.Retry.{deliver_all-posted}
use ctwatch.Writer.Flush.{Writer, notify_all}
use ctwatch.Writer.Flush.Alerts.{content, alerts, IsFresh, notify_all-Tells}

module _ {A : Type 0} where
  In-insert_by :
      (after : A → A → Bool) (x r : A) (rows : List A)
      → In x (r ∷ rows)
      → In x (insert_by after r rows)
  unfolding insert_by
  In-insert_by after x r [] i = i
  In-insert_by after x r (s ∷ rows) i = elim (Bool-cases (after r s)) [
    | inr e ↦ rw e i
    | inl e ↦ rw e (elim i [
      | inl k ↦ inr (In-insert_by after x r rows (inl k))
      | inr (inl k) ↦ inl k
      | inr (inr k) ↦ inr (In-insert_by after x r rows (inr k))
    ])
  ]

  In-sort_by :
      (after : A → A → Bool) (x : A) (rows : List A) → In x rows → In x (sort_by after rows)
  unfolding sort_by
  In-sort_by after x [] i = i
  In-sort_by after x (r ∷ rows) (inl k) = In-insert_by after x r (sort_by after rows) (inl k)
  In-sort_by after x (r ∷ rows) (inr i) =
      In-insert_by after x r (sort_by after rows) (inr (In-sort_by after x rows i))

  In-filter : (f : A → Bool) (x : A) (xs : List A) → f x ≡ true → In x xs → In x (filter f xs)
  In-filter f x [] e i = i
  In-filter f x (y ∷ xs) e (inl k) = rw (ap f k ∙ e) (inl k)
  In-filter f x (y ∷ xs) e (inr i) = elim (Bool-cases (f y)) [
    | inl k ↦ rw k (inr (In-filter f x xs e i))
    | inr k ↦ rw k (In-filter f x xs e i)
  ]

  In-map : {B : Type 0} (f : A → B) (x : A) (xs : List A) → In x xs → In (f x) (map f xs)
  In-map f x [] i = absurd i
  In-map f x (y ∷ xs) (inl e) = inl (ap f e)
  In-map f x (y ∷ xs) (inr i) = inr (In-map f x xs i)

  In-last : (x : A) (xs ys : List A) → In x ys → In x (xs ++ ys)
  In-last x [] ys i = i
  In-last x (z ∷ xs) ys i = inr (In-last x xs ys i)

  All-In : (P Q : A → Type 0) (xs : List A) → ((x : A) → In x xs → P x → Q x) → All P xs → All Q xs
  All-In P Q [] f h = tt
  All-In P Q (x ∷ xs) f h = (f x (inl refl) h.0, All-In P Q xs (λ y i. f y (inr i)) h.1)

  take_whole : (n : ℕ) (xs : List A) → length xs ≤ n → take n xs ≡ xs
  take_whole zero [] h = refl
  take_whole zero (x ∷ xs) h = absurd (omega arith)
  take_whole (suc n) [] h = refl
  take_whole (suc n) (x ∷ xs) h = ap (λ ys. x ∷ ys) (take_whole n xs (omega arith))

-- What is due at one time is due later.
due_later :
    (r : OutboxRow) (t now : Time) → t ≤ now → Outbox.is_due t r ≡ true → Outbox.is_due now r ≡ true
unfolding Outbox.is_due Outbox.is_pending
due_later r t now h e = ground arith

module _ (mac : List ℕ → List ℕ → List ℕ) (encode : List ℕ → Text) (to_vec : MatchBody → List ℕ)
    (cfg : Webhook.WebhookCfg) (server : Webhook.Request → Option ℕ) where
  due_rows : (db : Db) → List OutboxRow
  due_rows db = sort_by Outbox.is_later_row (filter (Outbox.is_due db.clock) db.webhook_outbox)

  due_all :
      (db : Db)
      → IsAnswering db
      → length (filter (Outbox.is_due db.clock) db.webhook_outbox) ≤ 50
      → Outbox.due 50 db ≡ (ok (due_rows db), record db { answers = later db.answers })
  unfolding Outbox.due statement due_rows
  due_all db u few =
      let whole : take 50 (due_rows db) ≡ due_rows db = take_whole 50 (due_rows db) (
        omega (
          arith,
          few,
          length-sort_by Outbox.is_later_row (filter (Outbox.is_due db.clock) db.webhook_outbox),
        )) in
      rw (answered-AllTrue db.answers u, whole) refl

  -- A turn of the webhook task that finds at most 50 messages due posts every one of them.
  turn_posts :
      (w : Webhook.Hooks) (r : OutboxRow)
      → IsAnswering w.db
      → length (filter (Outbox.is_due w.db.clock) w.db.webhook_outbox) ≤ 50
      → Outbox.is_due w.db.clock r ≡ true
      → In r w.db.webhook_outbox
      → In
          (Webhook.request mac encode to_vec cfg r)
          (Webhook.turn mac encode to_vec cfg server w).posted
  unfolding Webhook.turn Webhook.on_db ◌>>=◌ due_rows
  turn_posts w r u few due i =
      let (w', e, p) =
        deliver_all-posted mac encode to_vec cfg server (due_rows w.db)
          (record w { db = record w.db { answers = later w.db.answers } }) in
      let same : Webhook.turn mac encode to_vec cfg server w ≡ w' =
        ap
          (λ (x : Result (List OutboxRow) × Db).
            (resume (Webhook.deliver_all mac encode to_vec cfg server)
              (x.0, record w { db = x.1 })).1)
          (due_all w.db u few)
        ∙ ap (λ (x : Result (Unit {0}) × Webhook.Hooks). x.1) e in
      let posts : (Webhook.turn mac encode to_vec cfg server w).posted
          ≡ w.posted ++ map (Webhook.request mac encode to_vec cfg) (due_rows w.db) =
        ap (λ (x : Webhook.Hooks). x.posted) same ∙ p in
      subst (In (Webhook.request mac encode to_vec cfg r)) (sym posts) (
        In-last (Webhook.request mac encode to_vec cfg r) w.posted _ (
          In-map (Webhook.request mac encode to_vec cfg) r (due_rows w.db) (
            In-sort_by Outbox.is_later_row r _
              (In-filter (Outbox.is_due w.db.clock) r w.db.webhook_outbox due i))))

  -- Who is on the watchlist is told. When a batch has at least one new certificate, the UUIDs that are drawn
  -- are distinct and in no row, and the database answers, then the next turn of the webhook task posts a
  -- message for each certificate of the batch that matches the watchlist, with the domains that it
  -- matches, if only the clock has moved between the two and at most 50 messages are due at that turn. The
  -- certificates that were stored before are among them, other than the comment in flush_batch says.
  pub turn-notify_all_posts :
      (uuid : ℕ → ℕ) (distinct : (i j : ℕ) → i ≢ j → uuid i ≢ uuid j) (matcher : Matcher)
      (inserted : ℕ) (rows : List CertRow) (events : List CertEvent) (w : Writer) (now : Time)
      (h : Webhook.Hooks)
      → 0 < inserted
      → IsFresh uuid w
      → IsAnswering w.db
      → w.db.clock ≤ now
      → h.db ≡ record (notify_all uuid matcher inserted rows events w).1.db { clock = now }
      → length (filter (Outbox.is_due now) h.db.webhook_outbox) ≤ 50
      → (told : List OutboxRow) × (map content told ≡ reverse (alerts matcher rows events))
        × All
            (λ r.
              In
                (Webhook.request mac encode to_vec cfg r)
                (Webhook.turn mac encode to_vec cfg server h).posted)
            told
  turn-notify_all_posts uuid distinct matcher inserted rows events w now h some_new f u passed same
        few =
      let t = notify_all-Tells uuid distinct matcher inserted rows events (ground arith) w f u in
      let db : h.db ≡ record t.after.db { clock = now } =
        same ∙ ap (λ (x : Result (Unit {0}) × Writer). record x.1.db { clock = now }) t.done in
      let answering : IsAnswering h.db = subst IsAnswering (sym db) t.answering in
      let clock : h.db.clock ≡ now = ap (λ (d : Db). d.clock) db in
      let outbox : h.db.webhook_outbox ≡ t.alerted.rows ++ w.db.webhook_outbox =
        ap (λ (d : Db). d.webhook_outbox) db ∙ t.alerted.outbox in
      (
        t.alerted.rows,
        t.alerted.contents,
        All-In (λ (r : OutboxRow). (r.attempts ≡ 0) × (Outbox.is_due w.db.clock r ≡ true))
            (λ r.
              In (Webhook.request mac encode to_vec cfg r)
                (Webhook.turn mac encode to_vec cfg server h).posted)
            t.alerted.rows
            (λ r i d.
              turn_posts h r answering
                (omega (
                  arith,
                  few,
                  ap (λ t. length (filter (Outbox.is_due t) h.db.webhook_outbox)) clock,
                ))
                (due_later r w.db.clock h.db.clock (omega (arith, passed, clock)) d.1)
                (subst (In r) (sym outbox) (In-append r t.alerted.rows w.db.webhook_outbox i)))
            t.alerted.due,
      )
