-- ===== src/Watch/Queue.antt =====
-- `DebouncedPathQueue` of src/zsec_shield/watcher.py. A method takes the clock's reading and returns
-- the queue after it; each runs under `_state_lock`, so a thread sees it as one step. Clock readings
-- and durations are milliseconds. Dictionary keys are those of `_path_key`.
pub mod Step
pub mod Bounds
pub mod Ledger
pub mod Timing
pub mod Waiting
pub mod Due
pub mod Readout
use zsec_shield.Prelude.{
  ℕ, zero, ◌+◌, String, Bool, true, false, Option, none, some, List, [], ◌∷◌, ◌++◌, min, max, ltb,
  leb, if◌then◌else◌, length, any, take, leb_text, map, keep,
}
use zsec_shield.Prelude.Dict.{Dict, find, put, remove}
use zsec_shield.Prelude.Sort.{sorted}
use zsec_shield.Host.{Host, absolute, path_key, is_within}

pub data EventType : Type 0 where
  created modified moved_from moved_to deleted closed_after_write : EventType

-- `QueuedPathEvent`
pub record Event : Type 0 where
  pub path : String
  pub event_type : EventType
  pub is_directory : Bool
  pub observed_at : ℕ

-- `event_types` is a set: an event type stands in it at most once, and its order is not read.
pub record PendingPath : Type 0 where
  pub path : String
  pub event_types : List EventType
  pub first_seen_at : ℕ
  pub due_at : ℕ

pub record Queue : Type 0 where
  pub excluded : List String
  pub debounce : ℕ
  pub max_coalesce : ℕ
  pub max_events : ℕ
  pub raw : List Event
  pub pending : Dict PendingPath
  pub overflowed : Bool
  pub events_received : ℕ
  pub events_excluded : ℕ
  pub events_dropped : ℕ
  pub events_debounced : ℕ
  pub pending_high_water : ℕ

-- `__init__`
unfoldable pub new : Host → List String → ℕ → ℕ → Queue
unfolding path_key
new os excluded_paths debounce max_events = record {
  excluded = map (path_key os) excluded_paths;
  debounce = debounce;
  max_coalesce = max 2000 debounce;
  max_events = max_events;
  raw = [];
  pending = [];
  overflowed = false;
  events_received = 0;
  events_excluded = 0;
  events_dropped = 0;
  events_debounced = 0;
  pending_high_water = 0;
}

abbrev pub same_type : EventType → EventType → Bool
same_type created created = true
same_type modified modified = true
same_type moved_from moved_from = true
same_type moved_to moved_to = true
same_type deleted deleted = true
same_type closed_after_write closed_after_write = true
same_type _ _ = false

-- `event_types.add(event_type)`
unfoldable pub add_type : EventType → List EventType → List EventType
add_type t ts = if any (same_type t) ts then ts else t ∷ ts

-- The event types after which a path is due at once.
unfoldable pub is_final : EventType → Bool
is_final closed_after_write = true
is_final moved_to = true
is_final moved_from = true
is_final deleted = true
is_final _ = false

-- One more event for a pending path: the end of `submit` and of `ingest`.
unfoldable pub touch : Queue → EventType → ℕ → PendingPath → PendingPath
unfolding is_final add_type
touch q t now p = record p {
  event_types = add_type t p.event_types;
  due_at = if is_final t then now else min (now + q.debounce) (p.first_seen_at + q.max_coalesce);
}

-- `len(self._pending) + self._queue.qsize()`
abbrev pub depth : Queue → ℕ
depth q = length q.pending + length q.raw

-- `events_dropped += 1; overflowed.set()`
unfoldable pub drop_event : Queue → Queue
drop_event q = record q { events_dropped = q.events_dropped + 1; overflowed = true }

-- `queue.Queue.put_nowait`: `none` is `queue.Full`, on a queue of positive `maxsize`.
unfoldable pub put_nowait : Queue → Event → Option Queue
put_nowait q e =
    if ltb 0 q.max_events
    then if leb q.max_events (length q.raw) then none else some (record q { raw = q.raw ++ e ∷ [] })
    else some (record q { raw = q.raw ++ e ∷ [] })

-- The rest of `submit`, for a path with no pending entry.
unfoldable pub enqueue : Queue → Event → Queue
unfolding drop_event put_nowait
enqueue q e =
    if leb q.max_events (depth q)
    then drop_event q
    else elim (put_nowait q e) [ none ↦ drop_event q | some q' ↦ q' ]

-- `submit` once the key is known to be in scope and counted.
unfoldable pub submit_key : Queue → String → Event → Option PendingPath → Queue
unfolding touch enqueue
submit_key q key e none = enqueue q e
submit_key q key e (some p) = record q {
  events_debounced = q.events_debounced + 1;
  pending = put key (touch q e.event_type e.observed_at p) q.pending;
}

-- `submit`, with the clock at `now`
unfoldable pub submit : Host → ℕ → String → EventType → Bool → Queue → Queue
unfolding submit_key
submit os now path event_type is_directory q =
    let key = path_key os path in
    if any (is_within os key) q.excluded
    then record q { events_excluded = q.events_excluded + 1 }
    else (let counted = record q { events_received = q.events_received + 1 } in
        submit_key counted key
          (record {
            path = absolute os path;
            event_type = event_type;
            is_directory = is_directory;
            observed_at = now;
          })
          (find key counted.pending))

-- `PendingPath(event.path, first_seen_at=now)`
abbrev pub fresh : Event → PendingPath
fresh e = record { path = e.path; event_types = []; first_seen_at = e.observed_at; due_at = 0 }

-- The body of `ingest`'s loop, for an event that has left the raw queue.
unfoldable pub coalesce : Queue → String → Event → Option PendingPath → Queue
unfolding touch drop_event
coalesce q key e none =
    if leb q.max_events (depth q)
    then drop_event q
    else (let pending = put key (touch q e.event_type e.observed_at (fresh e)) q.pending in
        record q {
          pending = pending;
          pending_high_water = max q.pending_high_water (length pending);
        })
coalesce q key e (some p) = record q {
  events_debounced = q.events_debounced + 1;
  pending = put key (touch q e.event_type e.observed_at p) q.pending;
}

-- One round of `ingest`; another thread may run between two rounds.
unfoldable pub ingest_event : Host → Queue → Event → List Event → Queue
unfolding coalesce
ingest_event os q e rest =
    let q' = record q { raw = rest } in
    let key = path_key os e.path in coalesce q' key e (find key q'.pending)

ingest_loop : Host → List Event → Queue → Queue
unfolding ingest_event
ingest_loop os [] q = q
ingest_loop os (e ∷ rest) q = ingest_loop os rest (ingest_event os q e rest)

-- `ingest`, with no other thread between its rounds
unfoldable pub ingest : Host → Queue → Queue
unfolding ingest_loop
ingest os q = ingest_loop os q.raw q

abbrev pub is_due : ℕ → String × PendingPath → Bool
is_due now entry = leb entry.1.due_at now

unfoldable pub due_keys : ℕ → Queue → List String
due_keys now q = sorted leb_text (map (λ entry. entry.0) (keep (is_due now) q.pending))

abbrev pub limited : Option ℕ → List String → List String
limited none keys = keys
limited (some maximum) keys = take maximum keys

-- `[self._pending.pop(key) for key in keys]`
unfoldable pub pop_keys : List String → Queue → List PendingPath × Queue
pop_keys [] q = ([], q)
pop_keys (key ∷ keys) q =
    let (popped, after) = pop_keys keys (record q { pending = remove key q.pending }) in
    elim (find key q.pending) [ none ↦ (popped, after) | some p ↦ (p ∷ popped, after) ]

-- `due` after its `ingest`
unfoldable pub take_due : ℕ → Option ℕ → Queue → List PendingPath × Queue
unfolding due_keys pop_keys
take_due now maximum q = pop_keys (limited maximum (due_keys now q)) q

-- `due`; `none` is the ValueError on a `maximum` below 1
unfoldable pub due : Host → ℕ → Option ℕ → Queue → Option (List PendingPath × Queue)
unfolding ingest take_due
due os now (some zero) q = none
due os now maximum q = some (take_due now maximum (ingest os q))

-- `clear_overflow`
unfoldable pub clear_overflow : Queue → ℕ × Queue
clear_overflow q = (q.events_dropped, record q { events_dropped = 0; overflowed = false })
