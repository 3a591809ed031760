-- ===== src/Watch/Queue/Readout.antt =====
-- `oldest_pending_age_seconds` and `telemetry` of `DebouncedPathQueue`, the readings that change nothing.
-- The age is in milliseconds, the unit of the clock here.
use zsec_shield.Prelude.{ℕ, ◌+◌, ◌-◌, [], ◌∷◌, min, length}
use zsec_shield.Prelude.Dict.{Dict}
use zsec_shield.Watch.Queue.{Queue, PendingPath}

-- `min(item.first_seen_at for item in …)` over a first item and more
unfoldable pub oldest_of : ℕ → Dict PendingPath → ℕ
oldest_of least [] = least
oldest_of least ((k, p) ∷ d) = oldest_of (min least p.first_seen_at) d

unfoldable pub age_of : ℕ → Dict PendingPath → ℕ
unfolding oldest_of
age_of now [] = 0
age_of now ((k, p) ∷ d) = now - oldest_of p.first_seen_at d

unfoldable pub oldest_pending_age : ℕ → Queue → ℕ
unfolding age_of
oldest_pending_age now q = age_of now q.pending

pub record Telemetry : Type 0 where
  pub events_received : ℕ
  pub events_debounced : ℕ
  pub events_excluded : ℕ
  pub events_dropped : ℕ
  pub pending_high_water : ℕ
  pub oldest_pending_milliseconds : ℕ
  pub event_queue_capacity : ℕ
  pub event_queue_raw_depth : ℕ
  pub event_queue_pending_paths : ℕ
  pub event_queue_total_depth : ℕ

unfoldable pub telemetry : ℕ → Queue → Telemetry
unfolding age_of
telemetry now q = record {
  events_received = q.events_received;
  events_debounced = q.events_debounced;
  events_excluded = q.events_excluded;
  events_dropped = q.events_dropped;
  pending_high_water = q.pending_high_water;
  oldest_pending_milliseconds = age_of now q.pending;
  event_queue_capacity = q.max_events;
  event_queue_raw_depth = length q.raw;
  event_queue_pending_paths = length q.pending;
  event_queue_total_depth = length q.raw + length q.pending;
}
