-- ===== src/Tests/Queue.antt =====
-- A path queue with a bound of two that observes three files.
use zsec_shield.Prelude.{
  ◌+◌, ◌≤◌, ◌≡◌, true, false, none, some, String, [], ◌∷◌, refl, arith, All, length, if◌then◌else◌,
  str_eq,
}
use zsec_shield.Prelude.Dict.{find, put, IsDict}
use zsec_shield.Host.{Host, is_within}
use zsec_shield.Watch.Queue.{
  Event, PendingPath, created, modified, new, submit, ingest_event, take_due,
}
use zsec_shield.Watch.Queue.Step.{
  Session, start, Reach, here, next, observe, round, pass, after_submit, after_round,
}
use zsec_shield.Watch.Queue.Bounds.{IsBounded, new-IsBounded, Reach-IsBounded}
use zsec_shield.Watch.Queue.Ledger.{no_event_is_lost}
use zsec_shield.Watch.Queue.Waiting.{no_starvation}
use zsec_shield.Watch.Queue.Due.{take_due_exact, take_due_limited, not_due}

abbrev host : Host
host = record {
  abspath = λ p. p;
  normalize = λ p. p;
  commonpath = λ a b. if str_eq a b then some b else none;
  sha256_path = λ p. p;
}

abbrev began : Session
began = start host ("/state" ∷ []) 100 2 0

abbrev seen_a : Session
seen_a = after_submit host "/a" created false began

abbrev event_a : Event
event_a = record { path = "/a"; event_type = created; is_directory = false; observed_at = 0 }

abbrev taken_a : Session
taken_a = after_round host event_a [] seen_a

abbrev waited : Session
waited = record taken_a { clock = taken_a.clock + 3000 }

raw_a : seen_a.queue.raw ≡ event_a ∷ []
unfolding new submit ingest_event find put is_within
raw_a = refl

run_a : Reach host began waited
run_a =
    next (next (next here (observe "/a" created false began)) (round event_a [] seen_a raw_a))
      (pass 3000 taken_a)

abbrev path_a : PendingPath
path_a = record { path = "/a"; event_types = created ∷ []; first_seen_at = 0; due_at = 100 }

pending_a : find "/a" waited.queue.pending ≡ some path_a
unfolding new submit ingest_event find put is_within
pending_a = refl

keys_differ : IsDict waited.queue.pending
unfolding new submit ingest_event find put is_within
keys_differ = (refl, tt)

-- The same path changes again before it is handed out.
abbrev changed_a : Session
changed_a = after_submit host "/a" modified false (record taken_a { clock = taken_a.clock + 1950 })

abbrev waited_on : Session
waited_on = record changed_a { clock = changed_a.clock + 50 }

run_on : Reach host taken_a waited_on
run_on =
    next
      (next (next here (pass 1950 taken_a))
        (observe "/a" modified false (record taken_a { clock = taken_a.clock + 1950 })))
      (pass 50 changed_a)

pending_taken : find "/a" taken_a.queue.pending ≡ some path_a
unfolding new submit ingest_event find put is_within
pending_taken = refl

-- A third path overflows the bound of two.
overflow :
    (after_submit host "/c" created false
      (after_submit host "/b" created false seen_a)).queue.overflowed
    ≡ true
unfolding new submit ingest_event find put is_within
overflow = refl

Reach-IsBounded_example : IsBounded waited.queue
Reach-IsBounded_example = Reach-IsBounded (new-IsBounded host ("/state" ∷ []) 100 2) run_a

no_event_is_lost_example :
    waited.queue.events_received
    ≡ waited.queue.events_debounced
      + waited.queue.events_dropped
      + length waited.queue.raw
      + length waited.queue.pending
      + waited.handed_out
      + waited.reported
no_event_is_lost_example = no_event_is_lost host ("/state" ∷ []) 100 2 0 run_a

no_starvation_example :
    (0 ≤ taken_a.clock)
    × ((q : PendingPath) × (find "/a" waited_on.queue.pending ≡ some q)
        × (q.due_at ≤ waited_on.clock))
no_starvation_example =
    no_starvation host ("/state" ∷ []) 100 2 0
      (next (next here (observe "/a" created false began)) (round event_a [] seen_a raw_a)) run_on
      "/a" path_a pending_taken refl (omega arith)

take_due_exact_example :
    All (λ (p : PendingPath). p.due_at ≤ 3000) (take_due 3000 none waited.queue).0
    × (length (take_due 3000 none waited.queue).0
          + length (take_due 3000 none waited.queue).1.pending
        ≡ length waited.queue.pending)
    × ((k : String)
        → find k (take_due 3000 none waited.queue).1.pending
          ≡ not_due 3000 (find k waited.queue.pending))
take_due_exact_example = take_due_exact 3000 waited.queue keys_differ

take_due_limited_example :
    (length (take_due 3000 (some 1) waited.queue).0 ≤ 1)
    × All (λ (p : PendingPath). p.due_at ≤ 3000) (take_due 3000 (some 1) waited.queue).0
    × (length (take_due 3000 (some 1) waited.queue).0
          + length (take_due 3000 (some 1) waited.queue).1.pending
        ≡ length waited.queue.pending)
take_due_limited_example = take_due_limited 3000 1 waited.queue keys_differ
