-- ===== src/Watch/Queue/Ledger.antt =====
-- Every event that a `DebouncedPathQueue` counts as received stays accounted for.
use zsec_shield.Prelude.{
  ℕ, ◌+◌, ◌≡◌, inl, inr, String, Bool, Option, none, some, List, [], ◌∷◌, refl, ap, arith, length,
  length-append, Option-cases, Bool-cases, any,
}
use zsec_shield.Prelude.Dict.{
  IsDict, find, remove, length-put_new, length-put_old, length-remove, remove_absent, remove-IsDict,
}
use zsec_shield.Host.{Host, path_key, is_within}
use zsec_shield.Watch.Queue.{
  Queue, Event, EventType, PendingPath, new, touch, fresh, submit_key, submit, coalesce,
  ingest_event, pop_keys, take_due, due_keys, limited, clear_overflow,
}
use zsec_shield.Watch.Queue.Step.{
  Session, start, Step, Reach, observe, round, take, clear, pass, here, next,
}
use zsec_shield.Watch.Queue.Bounds.{IsBounded, Step-IsBounded, new-IsBounded}

-- Events that were merged into a pending path, dropped, or wait.
abbrev pub held : Queue → ℕ
held q = q.events_debounced + q.events_dropped + length q.raw + length q.pending

submit_key-held :
    (q : Queue) (key : String) (e : Event) (o : Option PendingPath)
    → find key q.pending ≡ o
    → (held (submit_key q key e o) ≡ held q + 1)
      × ((submit_key q key e o).events_received ≡ q.events_received)
unfolding submit_key
submit_key-held q key e none f = ground (arith, length-append q.raw (e ∷ []))
submit_key-held q key e (some p) f =
    ground (arith, length-put_old key (touch q e.event_type e.observed_at p) q.pending p f)

submit-held :
    (os : Host) (now : ℕ) (path : String) (t : EventType) (d : Bool) (q : Queue)
    → held (submit os now path t d q) + q.events_received
      ≡ held q + (submit os now path t d q).events_received
unfolding submit
submit-held os now path t d q =
    elim (Bool-cases (any (is_within os (path_key os path)) q.excluded)) [
      | inl e ↦ rw e (omega arith)
      | inr e ↦ rw e (
          omega (
            arith,
            submit_key-held (record q { events_received = q.events_received + 1 })
                (path_key os path) _ (find (path_key os path) q.pending) refl,
          ))
    ]

coalesce-held :
    (q : Queue) (key : String) (e : Event) (o : Option PendingPath)
    → find key q.pending ≡ o
    → (held (coalesce q key e o) ≡ held q + 1)
      × ((coalesce q key e o).events_received ≡ q.events_received)
unfolding coalesce
coalesce-held q key e none f =
    ground (arith, length-put_new key (touch q e.event_type e.observed_at (fresh e)) q.pending f)
coalesce-held q key e (some p) f =
    ground (arith, length-put_old key (touch q e.event_type e.observed_at p) q.pending p f)

ingest_event-held :
    (os : Host) (q : Queue) (e : Event) (rest : List Event)
    → q.raw ≡ e ∷ rest
    → (held (ingest_event os q e rest) ≡ held q)
      × ((ingest_event os q e rest).events_received ≡ q.events_received)
unfolding ingest_event
ingest_event-held os q e rest r = omega (
  arith,
  coalesce-held (record q { raw = rest }) (path_key os e.path) e
      (find (path_key os e.path) q.pending) refl,
  ap length r,
)

pub pop_keys-cons :
    (key : String) (keys : List String) (q : Queue)
    → (pop_keys (key ∷ keys) q).1 ≡ (pop_keys keys (record q { pending = remove key q.pending })).1
unfolding pop_keys
pop_keys-cons key keys q = ground arith

pub pop_keys-same :
    (keys : List String) (q : Queue)
    → (pop_keys keys q).1 ≡ record q { pending = (pop_keys keys q).1.pending }
unfolding pop_keys
pop_keys-same [] q = refl
pop_keys-same (key ∷ keys) q =
    ground (arith, pop_keys-same keys (record q { pending = remove key q.pending }))

pub length-pop_keys :
    (keys : List String) (q : Queue)
    → IsDict q.pending
    → length (pop_keys keys q).0 + length (pop_keys keys q).1.pending ≡ length q.pending
unfolding pop_keys
length-pop_keys [] q u = omega arith
length-pop_keys (key ∷ keys) q u = elim (Option-cases (find key q.pending)) [
  | inl n ↦ ground (
    arith,
    length-pop_keys keys (record q { pending = remove key q.pending })
        (remove-IsDict key q.pending u),
    remove_absent key q.pending n,
  )
  | inr (p, f) ↦ ground (
    arith,
    length-pop_keys keys (record q { pending = remove key q.pending })
        (remove-IsDict key q.pending u),
    length-remove key q.pending p u f,
  )
]

take_due-held :
    (now : ℕ) (maximum : Option ℕ) (q : Queue)
    → IsDict q.pending
    → (held (take_due now maximum q).1 + length (take_due now maximum q).0 ≡ held q)
      × ((take_due now maximum q).1.events_received ≡ q.events_received)
unfolding take_due
take_due-held now maximum q u =
    let keys = limited maximum (due_keys now q) in
    ground (arith, length-pop_keys keys q u, pop_keys-same keys q)

-- Whatever a step does, the session accounts for as many events more as the queue counts as received.
abbrev pub IsAccounted : Session → Type 0
IsAccounted s = s.queue.events_received ≡ held s.queue + s.handed_out + s.reported

Step-IsAccounted :
    {os : Host} {s t : Session} → Step os s t → IsBounded s.queue → IsAccounted s → IsAccounted t
Step-IsAccounted {os} (observe path t d s) b h =
    omega (arith, submit-held os s.clock path t d s.queue)
Step-IsAccounted {os} (round e rest s r) b h = omega (arith, ingest_event-held os s.queue e rest r)
Step-IsAccounted (take m s) b h = omega (arith, take_due-held s.clock m s.queue b.keys)
Step-IsAccounted (clear s) b h = unfold clear_overflow in omega arith
Step-IsAccounted (pass n s) b h = h

Reach-both :
    {os : Host} {s t : Session}
    → IsBounded s.queue
    → IsAccounted s
    → Reach os s t
    → IsBounded t.queue × IsAccounted t
Reach-both b h here = (b, h)
Reach-both b h (next r st) =
    let ih = Reach-both b h r in (Step-IsBounded st ih.0, Step-IsAccounted st ih.0 ih.1)

start-IsAccounted :
    (os : Host) (excluded : List String) (debounce max_events now : ℕ)
    → IsAccounted (start os excluded debounce max_events now)
unfolding new
start-IsAccounted os excluded debounce max_events now = omega arith

-- After any interleaving from a new queue, the received events are exactly those merged into a pending
-- path, those dropped, those still raw or pending, those handed out and those reported as dropped.
pub no_event_is_lost :
    (os : Host) (excluded : List String) (debounce max_events now : ℕ) {s : Session}
    → Reach os (start os excluded debounce max_events now) s
    → s.queue.events_received
      ≡ s.queue.events_debounced
        + s.queue.events_dropped
        + length s.queue.raw
        + length s.queue.pending
        + s.handed_out
        + s.reported
no_event_is_lost os excluded debounce max_events now {s} r =
    let s0 = start os excluded debounce max_events now in
    (Reach-both {s = s0} (new-IsBounded os excluded debounce max_events)
      (start-IsAccounted os excluded debounce max_events now) r).1
