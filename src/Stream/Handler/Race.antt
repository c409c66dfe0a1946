-- ===== src/Stream/Handler/Race.antt =====
-- The number of subscribers in src/stream/handler.rs, when sockets run on several threads: `handle` reads
-- the counter and stores the result in two steps of its own, when it begins and when it ends, and
-- between the two any other socket may take its steps.
pub mod Bounded
use ctwatch.Base.{
  ℕ, zero, suc, ◌+◌, ◌-◌, ◌%◌, leb, ◌≤◌, ◌<◌, ◌≡◌, refl, ap, ◌∙◌, Bool, true, false, subst, Option,
  none, List, [], ◌∷◌, ◌++◌, arith,
}
use ctwatch.Base.Int.{ℤ, pos, i64_mod}
use ctwatch.Base.Text.{Text}
use ctwatch.Stats.{Counters, set_subscribers}
use ctwatch.Stream.Handler.{too_many_requests, accepted, max_0, upgrade, succ_i64, pred_i64}
use ctwatch.Stream.Handler.Limit.{succ_i64-pos, pred_i64-pos, max_0-pos}

-- Where a socket stands: `upgrade` has accepted it; it has read the counter, to count itself in; it is
-- in its loop; it has read the counter, to count itself out.
pub data Phase : Type 0 where
  arriving : Phase
  entering : ℤ → Phase
  subscribed : Phase
  leaving : ℤ → Phase

-- The counters, and the sockets that are not closed yet.
pub record Shared : Type 0 where
  pub counters : Counters
  pub sockets : List Phase

module _ (stream_enabled : Bool) (stream_max_subscribers : ℕ) where
  pub data Step : Shared → Shared → Type 0 where
    accepts :
        (s : Shared) (domains : Option Text) (f : Option (List Text))
        → upgrade stream_enabled stream_max_subscribers domains s.counters ≡ accepted f
        → Step s (record s { sockets = arriving ∷ s.sockets })
    reads_in :
        (s : Shared) (before after : List Phase)
        → s.sockets ≡ before ++ arriving ∷ after
        → Step s (record s { sockets = before ++ entering s.counters.stream_subscribers ∷ after })
    stores_in :
        (s : Shared) (before after : List Phase) (read : ℤ)
        → s.sockets ≡ before ++ entering read ∷ after
        → Step s (record {
          counters = set_subscribers (succ_i64 read) s.counters;
          sockets = before ++ subscribed ∷ after;
        })
    reads_out :
        (s : Shared) (before after : List Phase)
        → s.sockets ≡ before ++ subscribed ∷ after
        → Step s (record s { sockets = before ++ leaving s.counters.stream_subscribers ∷ after })
    stores_out :
        (s : Shared) (before after : List Phase) (read : ℤ)
        → s.sockets ≡ before ++ leaving read ∷ after
        → Step s (record {
          counters = set_subscribers (max_0 (pred_i64 read)) s.counters;
          sockets = before ++ after;
        })
    counts :
        (s : Shared) (c : Counters)
        → c.stream_subscribers ≡ s.counters.stream_subscribers
        → Step s (record s { counters = c })

  pub data Reaches : Shared → Shared → Type 0 where
    here : (s : Shared) → Reaches s s
    there : (s t u : Shared) → Reaches s t → Step t u → Reaches s u

  Reaches-trans : (s t u : Shared) → Reaches s t → Reaches t u → Reaches s u
  Reaches-trans s t u first (here _) = first
  Reaches-trans s t u first (there _ v _ rest last) =
      there s v u (Reaches-trans s t v first rest) last

-- no socket, and the counter at `n`
abbrev pub idle : ℕ → Counters → Shared
idle n c = record { counters = set_subscribers (pos n) c; sockets = [] }

has_room :
    (max n : ℕ) (c : Counters)
    → n < max
    → upgrade true max none (set_subscribers (pos n) c) ≡ accepted none
unfolding upgrade set_subscribers
has_room max n c h = let room : leb max n ≡ false = ground arith in rw room refl

-- Two sockets come in one after the other, and leave at the same moment: one decrement is lost.
module _ (max n : ℕ) (c : Counters) (room : n < max) (low : max + 1 < i64_mod) where
  abbrev at : ℤ → List Phase → Shared
  at z sockets = record { counters = set_subscribers z c; sockets = sockets }

  abbrev one_in : ℤ
  one_in = succ_i64 (pos n)

  abbrev two_in : ℤ
  two_in = succ_i64 one_in

  abbrev one_out : ℤ
  one_out = max_0 (pred_i64 two_in)

  both_arrive : Reaches true max (idle n c) (at (pos n) (arriving ∷ arriving ∷ []))
  unfolding set_subscribers
  both_arrive =
      there _ _ _ (there _ _ _ (here _) (accepts (idle n c) none none (has_room max n c room)))
        (accepts (at (pos n) (arriving ∷ [])) none none (has_room max n c room))

  both_enter :
      Reaches true max
        (at (pos n) (arriving ∷ arriving ∷ []))
        (at two_in (subscribed ∷ subscribed ∷ []))
  unfolding set_subscribers
  both_enter =
      there _ _ _
        (there _ _ _
          (there _ _ _
            (there _ _ _ (here _)
              (reads_in (at (pos n) (arriving ∷ arriving ∷ [])) [] (arriving ∷ []) refl))
            (stores_in (at (pos n) (entering (pos n) ∷ arriving ∷ [])) [] (arriving ∷ []) (pos n)
              refl))
          (reads_in (at one_in (subscribed ∷ arriving ∷ [])) (subscribed ∷ []) [] refl))
        (stores_in (at one_in (subscribed ∷ entering one_in ∷ [])) (subscribed ∷ []) [] one_in refl)

  both_leave : Reaches true max (at two_in (subscribed ∷ subscribed ∷ [])) (at one_out [])
  unfolding set_subscribers
  both_leave =
      there _ _ _
        (there _ _ _
          (there _ _ _
            (there _ _ _ (here _)
              (reads_out (at two_in (subscribed ∷ subscribed ∷ [])) [] (subscribed ∷ []) refl))
            (reads_out (at two_in (leaving two_in ∷ subscribed ∷ [])) (leaving two_in ∷ []) []
              refl))
          (stores_out (at two_in (leaving two_in ∷ leaving two_in ∷ [])) [] (leaving two_in ∷ [])
            two_in refl))
        (stores_out (at one_out (leaving two_in ∷ [])) [] [] two_in refl)

  one_out-pos : one_out ≡ pos (n + 1)
  one_out-pos =
      ap (λ z. max_0 (pred_i64 (succ_i64 z))) (succ_i64-pos n (omega arith))
      ∙ ap (λ z. max_0 (pred_i64 z)) (succ_i64-pos (n + 1) (omega arith))
      ∙ ap max_0 (pred_i64-pos (n + 1) (omega arith))
      ∙ max_0-pos (n + 1)

  one_lost : Reaches true max (idle n c) (idle (n + 1) c)
  one_lost =
      subst (λ z. Reaches true max (idle n c) (at z [])) one_out-pos
        (Reaches-trans true max _ _ _ both_arrive
          (Reaches-trans true max _ _ _ both_enter both_leave))

lost :
    (max n : ℕ) (c : Counters)
    → n ≤ max
    → max + 1 < i64_mod
    → Reaches true max (idle 0 c) (idle n c)
lost max zero c h low = here (idle 0 c)
lost max (suc n) c h low =
    subst (λ k. Reaches true max (idle 0 c) (idle k c)) (omega arith)
      (Reaches-trans true max _ _ _ (lost max n c (omega arith) low)
        (one_lost max n c (omega arith) low))

full :
    (max : ℕ) (c : Counters) (domains : Option Text)
    → upgrade true max domains (set_subscribers (pos max) c) ≡ too_many_requests
unfolding upgrade set_subscribers
full max c domains = let none_left : leb max max ≡ true = ground arith in rw none_left refl

-- Whatever the limit below 2 ^ 63 - 1, the sockets can open and close in an order after which none of
-- them is open and `upgrade` refuses every further one with status 429.
pub upgrade_locks_out :
    (stream_max_subscribers : ℕ) (c : Counters)
    → stream_max_subscribers + 1 < i64_mod
    → (t : Shared) × Reaches true stream_max_subscribers (idle 0 c) t
      × (t.sockets ≡ [])
      × ((domains : Option Text)
          → upgrade true stream_max_subscribers domains t.counters ≡ too_many_requests)
upgrade_locks_out stream_max_subscribers c low = (
  idle stream_max_subscribers c,
  lost stream_max_subscribers stream_max_subscribers c (omega arith) low,
  refl,
  full stream_max_subscribers c,
)
