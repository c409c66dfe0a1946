-- ===== src/Stats.antt =====
-- src/stats/mod.rs: the counters that the tasks share, and the ring buffers of the last hour. Each
-- atomic operation is one step; `fetch_add` wraps.
pub mod Ring
pub mod Snapshot
use ctwatch.Base.{
  ℕ, suc, ◌+◌, ◌-◌, ◌%◌, List, [], ◌∷◌, ◌++◌, length, drop, ltb, leb, ◌==◌, if◌then◌else◌,
}
use ctwatch.Base.Int.{ℤ, pos, u64_mod}

-- A sample is the time of the push, in nanoseconds, and the value.
pub record RingBuf : Type 0 where
  pub samples : List (ℕ × ℕ)
  pub capacity : ℕ

abbrev pub new_ring : ℕ → RingBuf
new_ring capacity = record { samples = []; capacity = capacity }

-- `samples.remove(0)` on a full buffer
unfoldable pub push : ℕ → ℕ → RingBuf → RingBuf
push now value rb =
    let kept = if length rb.samples == rb.capacity then drop 1 rb.samples else rb.samples in
    record rb { samples = kept ++ (now, value) ∷ [] }

-- The sum of the values of the window, in u64; `rate_per_sec` divides it by the window in f64.
unfoldable pub sum_since : ℕ → List (ℕ × ℕ) → ℕ
sum_since cutoff [] = 0
sum_since cutoff ((t, v) ∷ samples) =
    let rest = sum_since cutoff samples in if leb cutoff t then (v + rest) % u64_mod else rest

-- checked_sub(window).unwrap_or(now)
unfoldable pub in_window : ℕ → ℕ → RingBuf → ℕ
unfolding sum_since
in_window now window rb = sum_since (if ltb now window then now else now - window) rb.samples

pub record Counters : Type 0 where
  pub certs_ingested : ℕ
  pub duplicates_dropped : ℕ
  pub watchlist_matches : ℕ
  pub writer_queue_depth : ℤ
  pub stream_subscribers : ℤ
  pub stream_messages_sent : ℕ
  pub stream_subscribers_dropped : ℕ
  pub webhook_delivered : ℕ
  pub webhook_retry : ℕ
  pub webhook_failed : ℕ
  pub rb_certs : RingBuf
  pub rb_dups : RingBuf
  pub rb_stream_msgs : RingBuf

abbrev pub new : Counters
new = record {
  certs_ingested = 0;
  duplicates_dropped = 0;
  watchlist_matches = 0;
  writer_queue_depth = pos 0;
  stream_subscribers = pos 0;
  stream_messages_sent = 0;
  stream_subscribers_dropped = 0;
  webhook_delivered = 0;
  webhook_retry = 0;
  webhook_failed = 0;
  rb_certs = new_ring 3600;
  rb_dups = new_ring 3600;
  rb_stream_msgs = new_ring 3600;
}

abbrev pub fetch_add : ℕ → ℕ → ℕ
fetch_add n a = (a + n) % u64_mod

unfoldable pub incr_certs : ℕ → Counters → Counters
incr_certs n c = record c { certs_ingested = fetch_add n c.certs_ingested }

unfoldable pub incr_dups : ℕ → Counters → Counters
incr_dups n c = record c { duplicates_dropped = fetch_add n c.duplicates_dropped }

unfoldable pub incr_watchlist : Counters → Counters
incr_watchlist c = record c { watchlist_matches = fetch_add 1 c.watchlist_matches }

unfoldable pub set_queue_depth : ℤ → Counters → Counters
set_queue_depth d c = record c { writer_queue_depth = d }

unfoldable pub set_subscribers : ℤ → Counters → Counters
set_subscribers n c = record c { stream_subscribers = n }

unfoldable pub incr_stream_sent : ℕ → Counters → Counters
incr_stream_sent n c = record c { stream_messages_sent = fetch_add n c.stream_messages_sent }

unfoldable pub incr_stream_dropped : Counters → Counters
incr_stream_dropped c = record c {
  stream_subscribers_dropped = fetch_add 1 c.stream_subscribers_dropped;
}

unfoldable pub incr_webhook_delivered : Counters → Counters
incr_webhook_delivered c = record c { webhook_delivered = fetch_add 1 c.webhook_delivered }

unfoldable pub incr_webhook_retry : Counters → Counters
incr_webhook_retry c = record c { webhook_retry = fetch_add 1 c.webhook_retry }

unfoldable pub incr_webhook_failed : Counters → Counters
incr_webhook_failed c = record c { webhook_failed = fetch_add 1 c.webhook_failed }

-- Each getter is one atomic load.
abbrev pub certs : Counters → ℕ
certs c = c.certs_ingested

abbrev pub dups : Counters → ℕ
dups c = c.duplicates_dropped

abbrev pub queue_depth : Counters → ℤ
queue_depth c = c.writer_queue_depth

abbrev pub subscribers : Counters → ℤ
subscribers c = c.stream_subscribers

abbrev pub stream_sent : Counters → ℕ
stream_sent c = c.stream_messages_sent

abbrev pub stream_dropped : Counters → ℕ
stream_dropped c = c.stream_subscribers_dropped

-- What the ticker has read last.
pub record Ticker : Type 0 where
  pub last_certs : ℕ
  pub last_dups : ℕ
  pub last_stream : ℕ

-- One turn of the loop of `spawn_ticker`, where `saturating_sub` is the subtraction of ℕ.
unfoldable pub tick : ℕ → Ticker → Counters → Ticker × Counters
unfolding push
tick now t c = (
  record { last_certs = certs c; last_dups = dups c; last_stream = stream_sent c },
  record c {
    rb_certs = push now (certs c - t.last_certs) c.rb_certs;
    rb_dups = push now (dups c - t.last_dups) c.rb_dups;
    rb_stream_msgs = push now (stream_sent c - t.last_stream) c.rb_stream_msgs;
  },
)
