-- ===== src/Examples/Stream.antt =====
-- The properties of the number of subscribers of src/stream/handler.rs at one input each.
use ctwatch.Base.{ℕ, ◌≡◌, ◌≤◌, refl, true, none, Option, [], ◌∷◌, arith}
use ctwatch.Base.Int.{pos}
use ctwatch.Base.Text.{Text}
use ctwatch.Stats
use ctwatch.Stats.{set_subscribers}
use ctwatch.Stream.Handler.{accepted, too_many_requests, upgrade}
use ctwatch.Stream.Handler.Race.{
  Shared, entering, Reaches, here, there, accepts, reads_in, idle, upgrade_locks_out,
}
use ctwatch.Stream.Handler.Race.Bounded.{arrivals, counter_bounds}

upgrade_locks_out_example :
    (t : Shared) × Reaches true 1000 (idle 0 Stats.new) t
    × (t.sockets ≡ [])
    × ((domains : Option Text) → upgrade true 1000 domains t.counters ≡ too_many_requests)
upgrade_locks_out_example = upgrade_locks_out 1000 Stats.new (omega arith)

accepts_one : upgrade true 1 none (idle 0 Stats.new).counters ≡ accepted none
unfolding upgrade set_subscribers
accepts_one = refl

-- One socket has been accepted, and has read the counter.
abbrev after_one : Shared
after_one = record {
  counters = set_subscribers (pos 0) Stats.new;
  sockets = entering (set_subscribers (pos 0) Stats.new).stream_subscribers ∷ [];
}

abbrev one-Reaches : Reaches true 1 (idle 0 Stats.new) after_one
one-Reaches =
    there _ _ _
      (there _ _ _ (here (idle 0 Stats.new)) (accepts (idle 0 Stats.new) none none accepts_one))
      (reads_in _ [] [] refl)

counter_bounds_example :
    (n : ℕ) × (after_one.counters.stream_subscribers ≡ pos n)
    × (n ≤ arrivals true 1 (idle 0 Stats.new) after_one one-Reaches)
counter_bounds_example = counter_bounds true 1 Stats.new after_one one-Reaches (omega arith)
