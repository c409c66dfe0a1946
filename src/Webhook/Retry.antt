-- ===== src/Webhook/Retry.antt =====
-- What one poll of src/webhook.rs sends, and when a message is tried again.
use native.Mathlib.Nat.{pow-suc}
use ctwatch.Base.{
  ℕ, zero, suc, ◌+◌, ◌^◌, ◌≤◌, ◌<◌, ◌≡◌, refl, ap, sym, ◌∙◌, min, List, [], ◌∷◌, ◌++◌, map, Option,
  none, some, arith, append_assoc, append-nil,
}
use ctwatch.Base.Text.{Text}
use ctwatch.Base.Result.{ok}
use ctwatch.Base.Exec.{
  Exec, attempt, ◌>>=◌, resume, IsPreorder, Always, Surely, Surely-attempt, Surely-bind, Surely-if,
}
use ctwatch.Stats
use ctwatch.Store.Db.{Time, MatchBody, OutboxRow, Db}
use ctwatch.Webhook

pow_4_pos : (n : ℕ) → 1 ≤ 4 ^ n
pow_4_pos zero = omega arith
pow_4_pos (suc n) = omega (arith, pow_4_pos n, pow-suc 4 n)

-- the next attempt is in the future
pub later_than_now :
    (cfg : Webhook.WebhookCfg) (attempts : ℕ) (now : Time) → now < Webhook.retry_at cfg attempts now
unfolding Webhook.retry_at Webhook.delay_secs
later_than_now cfg attempts now = ground (arith, pow_4_pos (min (attempts + 1) 7))

SamePosts : Webhook.Hooks → Webhook.Hooks → Type 0
SamePosts w w' = w'.posted ≡ w.posted

IsPreorder-SamePosts : IsPreorder SamePosts
unfolding SamePosts
IsPreorder-SamePosts = record { reflexive = λ w. refl; transitive = λ a b c h k. k ∙ h }

on_db-SamePosts : {A : Type 0} (m : Exec Db A) → Always SamePosts (Webhook.on_db m)
unfolding Webhook.on_db SamePosts
on_db-SamePosts m = record { from = λ w. refl }

count-SamePosts : (f : Stats.Counters → Stats.Counters) → Surely SamePosts (Webhook.count f)
unfolding SamePosts
count-SamePosts f = record { from = λ w. (tt, _, refl, refl) }

marked-SamePosts :
    (m : Exec Db (Unit {0})) (f : Stats.Counters → Stats.Counters)
    → Surely SamePosts (attempt (Webhook.on_db m) >>= λ _. Webhook.count f)
marked-SamePosts m f =
    Surely-bind IsPreorder-SamePosts _ _ (Surely-attempt _ (on_db-SamePosts m))
      (λ _. count-SamePosts f)

schedule_retry-SamePosts :
    (cfg : Webhook.WebhookCfg) (id attempts status : ℕ)
    → Surely SamePosts (Webhook.schedule_retry cfg id attempts status)
unfolding Webhook.schedule_retry
schedule_retry-SamePosts cfg id attempts status = record {
  from = λ w. (marked-SamePosts _ _).from w;
}

module _ (mac : List ℕ → List ℕ → List ℕ) (encode : List ℕ → Text) (to_vec : MatchBody → List ℕ)
    (cfg : Webhook.WebhookCfg) where
  answered-SamePosts :
      (row : OutboxRow) (a : Option ℕ)
      → Surely SamePosts (Webhook.answered mac encode to_vec cfg row a)
  unfolding Webhook.answered
  answered-SamePosts row none = schedule_retry-SamePosts cfg row.id row.attempts 0
  answered-SamePosts row (some status) =
      Surely-if (Webhook.is_success status) _ _ (marked-SamePosts _ _)
        (schedule_retry-SamePosts cfg row.id row.attempts status)

  module _ (server : Webhook.Request → Option ℕ) where
    -- Each row of a list gets one request, in the order of the list, and nothing stops the rows after
    -- it: not an error of the receiver, and not one of the database.
    pub deliver_all-posted :
        (rows : List OutboxRow) (w : Webhook.Hooks)
        → (w' : Webhook.Hooks) × (Webhook.deliver_all mac encode to_vec cfg server rows w
            ≡ (ok tt, w'))
          × (w'.posted ≡ w.posted ++ map (Webhook.request mac encode to_vec cfg) rows)
    unfolding Webhook.deliver_all Webhook.deliver_one ◌>>=◌ SamePosts
    deliver_all-posted [] w = (w, refl, sym (append-nil w.posted))
    deliver_all-posted (row ∷ rows) w =
        let r = Webhook.request mac encode to_vec cfg row in
        let (_, w₁, e₁, p₁) =
          (answered-SamePosts row (server (Webhook.request mac encode to_vec cfg row))).from
            (record w { posted = w.posted ++ Webhook.request mac encode to_vec cfg row ∷ [] }) in
        let (w₂, e₂, p₂) = deliver_all-posted rows w₁ in
        (
          w₂,
          rw (e₁, resume) e₂,
          p₂
              ∙ ap (λ z. z ++ map (Webhook.request mac encode to_vec cfg) rows) p₁
              ∙ append_assoc w.posted (Webhook.request mac encode to_vec cfg row ∷ [])
                  (map (Webhook.request mac encode to_vec cfg) rows),
        )
