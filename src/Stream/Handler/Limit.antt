-- ===== src/Stream/Handler/Limit.antt =====
-- The number of subscribers in src/stream/handler.rs, over the sockets that come and go. The read and the
-- store of one socket come together here: two that interleave may lose an update.
use ctwatch.Base.{
  ℕ, ◌+◌, ◌-◌, ◌%◌, ltb, ◌≤◌, ◌<◌, ◌≡◌, refl, ap, ◌∙◌, Bool, true, false, Option, none, some, List,
  arith, leb, if◌then◌else◌,
}
use ctwatch.Base.Int.{pos, as_u64, u64_mod, i64_mod}
use ctwatch.Base.Text.{Text}
use ctwatch.Stats.{Counters, set_subscribers}
use ctwatch.Stream.Handler.{
  too_many_requests, accepted, domains_of, max_0, upgrade, succ_i64, pred_i64, enter, leave,
}

-- The counters, and the number of open sockets.
pub record Sockets : Type 0 where
  pub counters : Counters
  pub opened : ℕ

module _ (stream_enabled : Bool) (stream_max_subscribers : ℕ) where
  -- A socket that `upgrade` accepts opens, one that is open closes, and other tasks count.
  pub data Step : Sockets → Sockets → Type 0 where
    opens :
        (s : Sockets) (domains : Option Text) (f : Option (List Text))
        → upgrade stream_enabled stream_max_subscribers domains s.counters ≡ accepted f
        → Step s (record { counters = enter s.counters; opened = s.opened + 1 })
    closes :
        (c : Counters) (n : ℕ)
        → Step (record { counters = c; opened = n + 1 }) (record { counters = leave c; opened = n })
    counts :
        (s : Sockets) (c : Counters)
        → c.stream_subscribers ≡ s.counters.stream_subscribers
        → Step s (record s { counters = c })

  pub data Reaches : Sockets → Sockets → Type 0 where
    here : (s : Sockets) → Reaches s s
    there : (s t u : Sockets) → Step s t → Reaches t u → Reaches s u

-- The counter is the number of open sockets, which is within the limit.
pub record IsCounted (stream_max_subscribers : ℕ) (s : Sockets) : Type 0 where
  pub exact : s.counters.stream_subscribers ≡ pos s.opened
  pub within : s.opened ≤ stream_max_subscribers

pub succ_i64-pos : (n : ℕ) → n + 1 < i64_mod → succ_i64 (pos n) ≡ pos (n + 1)
succ_i64-pos n h =
    let small : (n + 1) % u64_mod ≡ n + 1 = omega arith in
    let low : ltb (n + 1) i64_mod ≡ true = ground arith in rw (small, low) refl

pub pred_i64-pos : (n : ℕ) → n + 1 < i64_mod → pred_i64 (pos (n + 1)) ≡ pos n
pred_i64-pos n h =
    let small : (n + 1 + (u64_mod - 1)) % u64_mod ≡ n = omega arith in
    let low : ltb n i64_mod ≡ true = ground arith in rw (small, low) refl

pub max_0-pos : (n : ℕ) → max_0 (pos n) ≡ pos n
max_0-pos n = let low : ltb n 0 ≡ false = ground arith in rw low refl

unless_full :
    (full : Bool) (domains : Option Text) (f : Option (List Text))
    → (if full
        then too_many_requests
        else elim domains [ none ↦ accepted none | some s ↦ accepted (some (domains_of s)) ])
      ≡ accepted f
    → full ≡ false
unless_full true domains f h = cc
unless_full false domains f h = refl

upgrade_room :
    (stream_enabled : Bool) (max n : ℕ) (domains : Option Text) (c : Counters)
    (f : Option (List Text))
    → upgrade stream_enabled max domains c ≡ accepted f
    → c.stream_subscribers ≡ pos n
    → n < max
unfolding upgrade
upgrade_room false max n domains c f h e = cc
upgrade_room true max n domains c f h e =
    let room : leb max (as_u64 c.stream_subscribers) ≡ false = unless_full _ domains f h in
    let same : as_u64 c.stream_subscribers ≡ n = ap as_u64 e in ground (arith, room, same)

module _ (stream_enabled : Bool) (stream_max_subscribers : ℕ)
    (low : stream_max_subscribers < i64_mod) where
  step-IsCounted :
      (s t : Sockets)
      → Step stream_enabled stream_max_subscribers s t
      → IsCounted stream_max_subscribers s
      → IsCounted stream_max_subscribers t
  unfolding enter leave set_subscribers
  step-IsCounted s t (opens _ domains f a) h =
      let room : s.opened < stream_max_subscribers =
        upgrade_room stream_enabled stream_max_subscribers s.opened domains s.counters f a
          h.exact in
      record {
        exact = ap succ_i64 h.exact ∙ succ_i64-pos s.opened (omega arith);
        within = omega arith;
      }
  step-IsCounted s t (closes c n) h =
      let in_i64 : n + 1 < i64_mod = omega (arith, h.within) in
      record {
        exact =
            ap (λ z. max_0 (pred_i64 z)) h.exact ∙ ap max_0 (pred_i64-pos n in_i64) ∙ max_0-pos n;
        within = omega (arith, h.within);
      }
  step-IsCounted s t (counts _ c e) h = record { exact = e ∙ h.exact; within = h.within }

  -- As long as no two sockets open or close at the same moment, the counter of subscribers is the number
  -- of open sockets, and no more are open than the configuration allows, if it was so before.
  Reaches-IsCounted :
      (s t : Sockets)
      → Reaches stream_enabled stream_max_subscribers s t
      → IsCounted stream_max_subscribers s
      → IsCounted stream_max_subscribers t
  Reaches-IsCounted s t (here _) h = h
  Reaches-IsCounted s t (there _ u _ first rest) h =
      Reaches-IsCounted u t rest (step-IsCounted s u first h)
