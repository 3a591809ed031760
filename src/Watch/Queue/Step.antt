-- ===== src/Watch/Queue/Step.antt =====
-- The interleavings of the threads that share a `DebouncedPathQueue`: the observer calls `submit`, the
-- ingestion worker runs rounds of `ingest`, the watcher takes due paths and clears the overflow. A
-- session adds the clock and what the queue has handed out.
use zsec_shield.Prelude.{ℕ, ◌+◌, String, Bool, List, ◌∷◌, ◌≡◌, Option, length}
use zsec_shield.Host.{Host}
use zsec_shield.Watch.Queue.{
  Queue, Event, EventType, new, submit, ingest_event, take_due, clear_overflow,
}

pub record Session : Type 0 where
  pub queue : Queue
  pub clock : ℕ
  pub handed_out : ℕ  -- paths that `due` has returned
  pub reported : ℕ  -- dropped events that `clear_overflow` has returned

abbrev pub start : Host → List String → ℕ → ℕ → ℕ → Session
start os excluded debounce max_events now = record {
  queue = new os excluded debounce max_events;
  clock = now;
  handed_out = 0;
  reported = 0;
}

abbrev pub after_submit : Host → String → EventType → Bool → Session → Session
after_submit os path t d s = record s { queue = submit os s.clock path t d s.queue }

abbrev pub after_round : Host → Event → List Event → Session → Session
after_round os e rest s = record s { queue = ingest_event os s.queue e rest }

abbrev pub after_take : Option ℕ → Session → Session
after_take maximum s = record s {
  queue = (take_due s.clock maximum s.queue).1;
  handed_out = s.handed_out + length (take_due s.clock maximum s.queue).0;
}

abbrev pub after_clear : Session → Session
after_clear s = record s {
  queue = (clear_overflow s.queue).1;
  reported = s.reported + (clear_overflow s.queue).0;
}

pub data Step (os : Host) : Session → Session → Type 0 where
  observe :
      (path : String) (t : EventType) (d : Bool) (s : Session)
      → Step os s (after_submit os path t d s)
  round :
      (e : Event) (rest : List Event) (s : Session)
      → s.queue.raw ≡ e ∷ rest
      → Step os s (after_round os e rest s)
  take : (maximum : Option ℕ) (s : Session) → Step os s (after_take maximum s)
  clear : (s : Session) → Step os s (after_clear s)
  pass : (n : ℕ) (s : Session) → Step os s (record s { clock = s.clock + n })

pub data Reach (os : Host) (s : Session) : Session → Type 0 where
  here : Reach os s s
  next : {t u : Session} → Reach os s t → Step os t u → Reach os s u
