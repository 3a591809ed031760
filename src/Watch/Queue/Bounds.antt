-- ===== src/Watch/Queue/Bounds.antt =====
-- The bound of a `DebouncedPathQueue` on raw plus pending work, in every interleaving.
use zsec_shield.Prelude.{
  ℕ, ◌+◌, ◌≤◌, ◌<◌, String, Bool, true, Option, none, some, List, [], ◌∷◌, ◌≡◌, inl, inr, arith,
  any, length, ap, length-append, Bool-cases, refl,
}
use zsec_shield.Prelude.Dict.{
  IsDict, find, remove, put-IsDict, remove-IsDict, length-put_new, length-put_old, length-remove-le,
}
use zsec_shield.Host.{Host, path_key, is_within}
use zsec_shield.Watch.Queue.{
  Queue, Event, EventType, PendingPath, new, touch, fresh, enqueue, submit_key, submit, coalesce,
  ingest_event, pop_keys, take_due, due_keys, limited, clear_overflow,
}
use zsec_shield.Watch.Queue.Step.{
  Session, Step, Reach, observe, round, take, clear, pass, here, next,
}

-- Keys stand once, raw plus pending work is within the bound, and so is the high-water mark.
pub record IsBounded (q : Queue) : Type 0 where
  pub keys : IsDict q.pending
  pub within : length q.pending + length q.raw ≤ q.max_events
  pub peak : q.pending_high_water ≤ q.max_events
  pub marked : length q.pending ≤ q.pending_high_water
  pub flagged : 0 < q.events_dropped → q.overflowed ≡ true

enqueue-IsBounded : (q : Queue) (e : Event) → IsBounded q → IsBounded (enqueue q e)
unfolding enqueue
enqueue-IsBounded q e h = ground (arith, length-append q.raw (e ∷ []))

submit_key-IsBounded :
    (q : Queue) (key : String) (e : Event) (o : Option PendingPath)
    → find key q.pending ≡ o
    → IsBounded q
    → IsBounded (submit_key q key e o)
unfolding submit_key
submit_key-IsBounded q key e none f h = enqueue-IsBounded q e h
submit_key-IsBounded q key e (some p) f h =
    let p' = touch q e.event_type e.observed_at p in
    ground (arith, put-IsDict key p' q.pending h.keys, length-put_old key p' q.pending p f)

excluded-IsBounded :
    (q : Queue) → IsBounded q → IsBounded (record q { events_excluded = q.events_excluded + 1 })
excluded-IsBounded q h = ground arith

received-IsBounded :
    (q : Queue) → IsBounded q → IsBounded (record q { events_received = q.events_received + 1 })
received-IsBounded q h = ground arith

-- `submit` keeps the bound, whatever path is observed.
pub submit-IsBounded :
    (os : Host) (now : ℕ) (path : String) (t : EventType) (d : Bool) (q : Queue)
    → IsBounded q
    → IsBounded (submit os now path t d q)
unfolding submit
submit-IsBounded os now path t d q h =
    elim (Bool-cases (any (is_within os (path_key os path)) q.excluded)) [
      | inl e ↦ rw e (excluded-IsBounded q h)
      | inr e ↦ rw e (submit_key-IsBounded _ _ _ _ refl (received-IsBounded q h))
    ]

coalesce-IsBounded :
    (q : Queue) (key : String) (e : Event) (o : Option PendingPath)
    → find key q.pending ≡ o
    → IsBounded q
    → IsBounded (coalesce q key e o)
unfolding coalesce
coalesce-IsBounded q key e none f h =
    let p = touch q e.event_type e.observed_at (fresh e) in
    ground (arith, put-IsDict key p q.pending h.keys, length-put_new key p q.pending f)
coalesce-IsBounded q key e (some p) f h =
    let p' = touch q e.event_type e.observed_at p in
    ground (arith, put-IsDict key p' q.pending h.keys, length-put_old key p' q.pending p f)

drained-IsBounded :
    (q : Queue) (e : Event) (rest : List Event)
    → q.raw ≡ e ∷ rest
    → IsBounded q
    → IsBounded (record q { raw = rest })
drained-IsBounded q e rest r h = ground (arith, ap length r)

-- One round of `ingest` keeps the bound.
pub ingest_event-IsBounded :
    (os : Host) (q : Queue) (e : Event) (rest : List Event)
    → q.raw ≡ e ∷ rest
    → IsBounded q
    → IsBounded (ingest_event os q e rest)
unfolding ingest_event
ingest_event-IsBounded os q e rest r h =
    coalesce-IsBounded (record q { raw = rest }) (path_key os e.path) e _ refl
      (drained-IsBounded q e rest r h)

pop-IsBounded :
    (key : String) (q : Queue)
    → IsBounded q
    → IsBounded (record q { pending = remove key q.pending })
pop-IsBounded key q h =
    ground (arith, remove-IsDict key q.pending h.keys, length-remove-le key q.pending)

pop_keys-IsBounded : (keys : List String) (q : Queue) → IsBounded q → IsBounded (pop_keys keys q).1
unfolding pop_keys
pop_keys-IsBounded [] q h = h
pop_keys-IsBounded (key ∷ keys) q h = ground (
  arith,
  pop_keys-IsBounded keys (record q { pending = remove key q.pending }) (pop-IsBounded key q h),
)

pub take_due-IsBounded :
    (now : ℕ) (maximum : Option ℕ) (q : Queue) → IsBounded q → IsBounded (take_due now maximum q).1
unfolding take_due
take_due-IsBounded now maximum q h = pop_keys-IsBounded (limited maximum (due_keys now q)) q h

clear_overflow-IsBounded : (q : Queue) → IsBounded q → IsBounded (clear_overflow q).1
unfolding clear_overflow
clear_overflow-IsBounded q h = ground arith

pub Step-IsBounded :
    {os : Host} {s t : Session} → Step os s t → IsBounded s.queue → IsBounded t.queue
Step-IsBounded {os} (observe path t d s) h = submit-IsBounded os s.clock path t d s.queue h
Step-IsBounded {os} (round e rest s r) h = ingest_event-IsBounded os s.queue e rest r h
Step-IsBounded (take m s) h = take_due-IsBounded s.clock m s.queue h
Step-IsBounded (clear s) h = clear_overflow-IsBounded s.queue h
Step-IsBounded (pass n s) h = h

-- From a queue within its bound, every interleaving of `submit`, rounds of `ingest`, `due` and
-- `clear_overflow` leaves raw plus pending work within `max_events`, no key pending twice, the
-- high-water mark between the pending count and the bound, and the overflow flag set while drops stand.
pub Reach-IsBounded :
    {os : Host} {s t : Session} → IsBounded s.queue → Reach os s t → IsBounded t.queue
Reach-IsBounded h here = h
Reach-IsBounded h (next r st) = Step-IsBounded st (Reach-IsBounded h r)

pub new-IsBounded :
    (os : Host) (excluded : List String) (debounce max_events : ℕ)
    → IsBounded (new os excluded debounce max_events)
unfolding new
new-IsBounded os excluded debounce max_events = ground arith
