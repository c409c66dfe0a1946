-- ===== src/Stream/Handler/Race/Bounded.antt =====
-- The number of subscribers in src/stream/handler.rs, whatever the order in which the sockets read and
-- store it.
use ctwatch.Base.{
  ℕ, zero, suc, ◌+◌, ◌-◌, ◌≤◌, ◌<◌, ◌≡◌, refl, ap, ◌∙◌, subst, Bool, List, [], ◌∷◌, ◌++◌, All,
  arith,
}
use ctwatch.Base.Int.{ℤ, pos, i64_mod}
use ctwatch.Stats.{Counters, set_subscribers}
use ctwatch.Stream.Handler.{max_0, succ_i64, pred_i64}
use ctwatch.Stream.Handler.Limit.{succ_i64-pos, pred_i64-pos, max_0-pos}
use ctwatch.Stream.Handler.Race.{
  Phase, arriving, entering, subscribed, leaving, Shared, Step, accepts, reads_in, stores_in,
  reads_out, stores_out, counts, Reaches, here, there, idle,
}

module _ {A : Type 0} (P : A → Type 0) where
  All-middle : (xs ys : List A) (y : A) → All P (xs ++ y ∷ ys) → P y
  All-middle [] ys y h = h.0
  All-middle (x ∷ xs) ys y h = All-middle xs ys y h.1

  All-replace : (xs ys : List A) (y z : A) → All P (xs ++ y ∷ ys) → P z → All P (xs ++ z ∷ ys)
  All-replace [] ys y z h k = (k, h.1)
  All-replace (x ∷ xs) ys y z h k = (h.0, All-replace xs ys y z h.1 k)

  All-remove : (xs ys : List A) (y : A) → All P (xs ++ y ∷ ys) → All P (xs ++ ys)
  All-remove [] ys y h = h.1
  All-remove (x ∷ xs) ys y h = (h.0, All-remove xs ys y h.1)

-- A number that a socket has read is not negative, and at most `n`.
abbrev IsRead : ℕ → ℤ → Type 0
IsRead n z = (m : ℕ) × (z ≡ pos m) × (m ≤ n)

abbrev HasRead : ℕ → Phase → Type 0
HasRead n arriving = Unit
HasRead n (entering z) = IsRead n z
HasRead n subscribed = Unit
HasRead n (leaving z) = IsRead n z

IsRead-more : (n : ℕ) (z : ℤ) → IsRead n z → IsRead (n + 1) z
IsRead-more n z (m, e, h) = (m, e, omega arith)

HasRead-more : (n : ℕ) (ps : List Phase) → All (HasRead n) ps → All (HasRead (n + 1)) ps
HasRead-more n [] h = tt
HasRead-more n (arriving ∷ ps) h = (tt, HasRead-more n ps h.1)
HasRead-more n (entering z ∷ ps) h = (IsRead-more n z h.0, HasRead-more n ps h.1)
HasRead-more n (subscribed ∷ ps) h = (tt, HasRead-more n ps h.1)
HasRead-more n (leaving z ∷ ps) h = (IsRead-more n z h.0, HasRead-more n ps h.1)

-- the sockets that are not counted in yet
abbrev is_pending : Phase → ℕ
is_pending arriving = 1
is_pending (entering z) = 1
is_pending subscribed = 0
is_pending (leaving z) = 0

abbrev pending : List Phase → ℕ
pending [] = 0
pending (p ∷ ps) = is_pending p + pending ps

pending-append :
    (xs ys : List Phase) (p : Phase) → pending (xs ++ p ∷ ys) ≡ pending (xs ++ ys) + is_pending p
pending-append [] ys p = omega arith
pending-append (x ∷ xs) ys p = omega (arith, pending-append xs ys p)

-- `entered` sockets have been counted in, of `accepted` ones.
record IsBounded (accepted : ℕ) (s : Shared) : Type 0 where
  pub entered : ℕ
  pub counter : IsRead entered s.counters.stream_subscribers
  pub reads : All (HasRead entered) s.sockets
  pub all : entered + pending s.sockets ≤ accepted

module _ (stream_enabled : Bool) (max : ℕ) where
  abbrev is_arrival : (s t : Shared) → Step stream_enabled max s t → ℕ
  is_arrival s t (accepts _ domains f e) = 1
  is_arrival s t (reads_in _ before after e) = 0
  is_arrival s t (stores_in _ before after read e) = 0
  is_arrival s t (reads_out _ before after e) = 0
  is_arrival s t (stores_out _ before after read e) = 0
  is_arrival s t (counts _ c e) = 0

  -- how many sockets have been accepted on the way
  abbrev pub arrivals : (s t : Shared) → Reaches stream_enabled max s t → ℕ
  arrivals s t (here _) = 0
  arrivals s t (there _ u _ before last) = arrivals s u before + is_arrival u t last

  succ_IsRead : (n : ℕ) (z : ℤ) → n + 1 < i64_mod → IsRead n z → IsRead (n + 1) (succ_i64 z)
  succ_IsRead n z low (m, e, h) = (m + 1, ap succ_i64 e ∙ succ_i64-pos m (omega arith), omega arith)

  pred_IsRead : (n : ℕ) (z : ℤ) → n + 1 < i64_mod → IsRead n z → IsRead n (max_0 (pred_i64 z))
  pred_IsRead n z low (m, e, h) =
      (m - 1, ap (λ z. max_0 (pred_i64 z)) e ∙ less m (omega arith), omega arith)
    where
      less : (m : ℕ) → m + 1 < i64_mod → max_0 (pred_i64 (pos m)) ≡ pos (m - 1)
      less zero h = refl
      less (suc m) h =
          ap max_0 (
            ap (λ k. pred_i64 (pos k)) {x = suc m} {y = m + 1} (omega arith)
            ∙ pred_i64-pos m (omega arith))
          ∙ max_0-pos m
          ∙ ap pos (omega arith)

  step-IsBounded :
      (k : ℕ) (s t : Shared) (step : Step stream_enabled max s t)
      → k + is_arrival s t step + 1 < i64_mod
      → IsBounded k s
      → IsBounded (k + is_arrival s t step) t
  unfolding set_subscribers
  step-IsBounded k s t (accepts _ domains f e) low h = record {
    entered = h.entered;
    counter = h.counter;
    reads = (tt, h.reads);
    all = omega (arith, h.all);
  }
  step-IsBounded k s t (reads_in _ before after e) low h =
      let reads : All (HasRead h.entered) (before ++ arriving ∷ after) =
        subst (All (HasRead h.entered)) e h.reads in
      record {
        entered = h.entered;
        counter = h.counter;
        reads =
            All-replace (HasRead h.entered) before after arriving
              (entering s.counters.stream_subscribers) reads h.counter;
        all = omega (
          arith,
          h.all,
          ap pending e,
          pending-append before after arriving,
          pending-append before after (entering s.counters.stream_subscribers),
        );
      }
  step-IsBounded k s t (stores_in _ before after read e) low h =
      let reads : All (HasRead h.entered) (before ++ entering read ∷ after) =
        subst (All (HasRead h.entered)) e h.reads in
      let within : h.entered + 1 ≤ k =
        omega (arith, h.all, ap pending e, pending-append before after (entering read)) in
      record {
        entered = h.entered + 1;
        counter =
            succ_IsRead h.entered read (omega arith)
              (All-middle (HasRead h.entered) before after (entering read) reads);
        reads =
            HasRead-more h.entered (before ++ subscribed ∷ after)
              (All-replace (HasRead h.entered) before after (entering read) subscribed reads tt);
        all = omega (
          arith,
          h.all,
          ap pending e,
          pending-append before after (entering read),
          pending-append before after subscribed,
        );
      }
  step-IsBounded k s t (reads_out _ before after e) low h =
      let reads : All (HasRead h.entered) (before ++ subscribed ∷ after) =
        subst (All (HasRead h.entered)) e h.reads in
      record {
        entered = h.entered;
        counter = h.counter;
        reads =
            All-replace (HasRead h.entered) before after subscribed
              (leaving s.counters.stream_subscribers) reads h.counter;
        all = omega (
          arith,
          h.all,
          ap pending e,
          pending-append before after subscribed,
          pending-append before after (leaving s.counters.stream_subscribers),
        );
      }
  step-IsBounded k s t (stores_out _ before after read e) low h =
      let reads : All (HasRead h.entered) (before ++ leaving read ∷ after) =
        subst (All (HasRead h.entered)) e h.reads in
      record {
        entered = h.entered;
        counter =
            pred_IsRead h.entered read (omega (arith, h.all))
              (All-middle (HasRead h.entered) before after (leaving read) reads);
        reads = All-remove (HasRead h.entered) before after (leaving read) reads;
        all = omega (arith, h.all, ap pending e, pending-append before after (leaving read));
      }
  step-IsBounded k s t (counts _ c e) low h = record {
    entered = h.entered;
    counter = (h.counter.0, e ∙ h.counter.1, h.counter.2);
    reads = h.reads;
    all = omega (arith, h.all);
  }

  reached :
      (s t : Shared) (r : Reaches stream_enabled max s t)
      → arrivals s t r + 1 < i64_mod
      → IsBounded 0 s
      → IsBounded (arrivals s t r) t
  reached s t (here _) low h = h
  reached s t (there _ u _ before last) low h =
      step-IsBounded (arrivals s u before) u t last low (reached s u before (omega arith) h)

  -- In whatever order the sockets take their steps, the counter of subscribers is never negative and
  -- never above the number of sockets that have been accepted, for fewer than 2 ^ 63 - 1 of them.
  pub counter_bounds :
      (c : Counters) (t : Shared) (r : Reaches stream_enabled max (idle 0 c) t)
      → arrivals (idle 0 c) t r + 1 < i64_mod
      → (n : ℕ) × (t.counters.stream_subscribers ≡ pos n) × (n ≤ arrivals (idle 0 c) t r)
  unfolding set_subscribers
  counter_bounds c t r low =
      let h =
        reached (idle 0 c) t r low (record {
          entered = 0;
          counter = (0, refl, omega arith);
          reads = tt;
          all = omega arith;
        }) in
      let (n, e, within) = h.counter in (n, e, omega (arith, h.all))
