-- ===== src/Watch/Queue/Timing.antt =====
-- Proofs on the times at which the pending paths of a `DebouncedPathQueue` become due.
use zsec_shield.Prelude.{
  ℕ, ◌+◌, ◌≤◌, ◌≡◌, ◌⊎◌, inl, inr, String, Bool, Option, none, some, List, [], ◌∷◌, ◌++◌, refl,
  arith, leb, All, All-append, All-map, Bool-cases, any, subst, sym,
}
use zsec_shield.Prelude.Dict.{find, put, All-put, All-remove, All-find}
use zsec_shield.Host.{Host, path_key, is_within}
use zsec_shield.Watch.Queue.{
  Queue, Event, EventType, PendingPath, new, touch, fresh, depth, drop_event, enqueue, submit_key,
  submit, coalesce, ingest_event, pop_keys, take_due, due_keys, limited, clear_overflow,
}
use zsec_shield.Watch.Queue.Step.{
  Session, Step, Reach, observe, round, take, clear, pass, here, next,
}
use zsec_shield.Watch.Queue.Ledger.{pop_keys-same, pop_keys-cons}

-- First seen in the past, and due within the coalescing window or already.
abbrev pub Timely : ℕ → ℕ → PendingPath → Type 0
Timely clock window p =
    (p.first_seen_at ≤ clock) × ((p.due_at ≤ p.first_seen_at + window) ⊎ (p.due_at ≤ clock))

abbrev pub Observed : ℕ → Event → Type 0
Observed clock e = e.observed_at ≤ clock

pub record IsTimely (clock : ℕ) (q : Queue) : Type 0 where
  pub timely : All (λ (entry : String × PendingPath). Timely clock q.max_coalesce entry.1) q.pending
  pub observed : All (Observed clock) q.raw

touch-Timely :
    (clock : ℕ) (q : Queue) (t : EventType) (now : ℕ) (p : PendingPath)
    → now ≤ clock
    → p.first_seen_at ≤ clock
    → Timely clock q.max_coalesce (touch q t now p)
unfolding touch
touch-Timely clock q t now p n f = ground arith

pub enqueue-cases :
    (q : Queue) (e : Event)
    → (enqueue q e ≡ drop_event q) ⊎ (enqueue q e ≡ record q { raw = q.raw ++ e ∷ [] })
unfolding enqueue
enqueue-cases q e = ground arith

enqueue-IsTimely :
    (clock : ℕ) (q : Queue) (e : Event)
    → e.observed_at ≤ clock
    → IsTimely clock q
    → IsTimely clock (enqueue q e)
unfolding drop_event
enqueue-IsTimely clock q e o h = elim (enqueue-cases q e) [
  | inl dropped ↦ rw dropped (record { timely = h.timely; observed = h.observed })
  | inr queued ↦ rw queued (record {
    timely = h.timely;
    observed = All-append (Observed clock) q.raw (e ∷ []) h.observed (o, tt);
  })
]

put-IsTimely :
    (clock : ℕ) (q q' : Queue) (key : String) (p : PendingPath)
    → Timely clock q.max_coalesce p
    → q'.max_coalesce ≡ q.max_coalesce
    → q'.raw ≡ q.raw
    → q'.pending ≡ put key p q.pending
    → IsTimely clock q
    → IsTimely clock q'
put-IsTimely clock q q' key p tp c r e h = record {
  timely = rw (c, e) (All-put (Timely clock q.max_coalesce) key p q.pending tp h.timely);
  observed = rw r h.observed;
}

submit_key-IsTimely :
    (clock : ℕ) (q : Queue) (key : String) (e : Event) (o : Option PendingPath)
    → find key q.pending ≡ o
    → e.observed_at ≤ clock
    → IsTimely clock q
    → IsTimely clock (submit_key q key e o)
unfolding submit_key
submit_key-IsTimely clock q key e none f o h = enqueue-IsTimely clock q e o h
submit_key-IsTimely clock q key e (some p) f o h =
    put-IsTimely clock q _ key (touch q e.event_type e.observed_at p)
      (touch-Timely clock q e.event_type e.observed_at p o
        (All-find (Timely clock q.max_coalesce) key q.pending p h.timely f).0)
      refl refl refl h

submit-IsTimely :
    (os : Host) (now : ℕ) (path : String) (t : EventType) (d : Bool) (q : Queue)
    → IsTimely now q
    → IsTimely now (submit os now path t d q)
unfolding submit
submit-IsTimely os now path t d q h =
    elim (Bool-cases (any (is_within os (path_key os path)) q.excluded)) [
      | inl e ↦ rw e (record { timely = h.timely; observed = h.observed })
      | inr e ↦ rw e (
          submit_key-IsTimely now _ _ _ _ refl (omega arith)
            (record { timely = h.timely; observed = h.observed }))
    ]

coalesce-IsTimely :
    (clock : ℕ) (q : Queue) (key : String) (e : Event) (o : Option PendingPath)
    → find key q.pending ≡ o
    → e.observed_at ≤ clock
    → IsTimely clock q
    → IsTimely clock (coalesce q key e o)
unfolding coalesce
coalesce-IsTimely clock q key e none f o h = elim (Bool-cases (leb q.max_events (depth q))) [
  | inl full ↦ rw full (record { timely = h.timely; observed = h.observed })
  | inr room ↦ rw room (
      put-IsTimely clock q _ key (touch q e.event_type e.observed_at (fresh e))
        (touch-Timely clock q e.event_type e.observed_at (fresh e) o o) refl refl refl h)
]
coalesce-IsTimely clock q key e (some p) f o h =
    put-IsTimely clock q _ key (touch q e.event_type e.observed_at p)
      (touch-Timely clock q e.event_type e.observed_at p o
        (All-find (Timely clock q.max_coalesce) key q.pending p h.timely f).0)
      refl refl refl h

ingest_event-IsTimely :
    (os : Host) (clock : ℕ) (q : Queue) (e : Event) (rest : List Event)
    → q.raw ≡ e ∷ rest
    → IsTimely clock q
    → IsTimely clock (ingest_event os q e rest)
unfolding ingest_event
ingest_event-IsTimely os clock q e rest r h =
    let seen = subst (All (Observed clock)) r h.observed in
    coalesce-IsTimely clock (record q { raw = rest }) _ e _ refl seen.0
      (record { timely = h.timely; observed = seen.1 })

pop_keys-timely :
    (P : PendingPath → Type 0) (keys : List String) (q : Queue)
    → All (λ (entry : String × PendingPath). P entry.1) q.pending
    → All (λ (entry : String × PendingPath). P entry.1) (pop_keys keys q).1.pending
unfolding pop_keys
pop_keys-timely P [] q h = h
pop_keys-timely P (key ∷ keys) q h =
    subst (λ (r : Queue). All (λ (entry : String × PendingPath). P entry.1) r.pending)
      (sym (pop_keys-cons key keys q)) (pop_keys-timely P keys _ (All-remove P key q.pending h))

take_due-IsTimely :
    (clock : ℕ) (maximum : Option ℕ) (q : Queue)
    → IsTimely clock q
    → IsTimely clock (take_due clock maximum q).1
unfolding take_due
take_due-IsTimely clock maximum q h =
    let keys = limited maximum (due_keys clock q) in
    rw pop_keys-same (record {
      timely = pop_keys-timely (Timely clock q.max_coalesce) keys q h.timely;
      observed = h.observed;
    })

later :
    (clock n window : ℕ) (entry : String × PendingPath)
    → Timely clock window entry.1
    → Timely (clock + n) window entry.1
later clock n window entry h = ground arith

Step-IsTimely :
    {os : Host} {s t : Session} → Step os s t → IsTimely s.clock s.queue → IsTimely t.clock t.queue
Step-IsTimely {os} (observe path t d s) h = submit-IsTimely os s.clock path t d s.queue h
Step-IsTimely {os} (round e rest s r) h = ingest_event-IsTimely os s.clock s.queue e rest r h
Step-IsTimely (take m s) h = take_due-IsTimely s.clock m s.queue h
Step-IsTimely (clear s) h =
    unfold clear_overflow in record { timely = h.timely; observed = h.observed }
Step-IsTimely (pass n s) h = record {
  timely = All-map _ _ (later s.clock n s.queue.max_coalesce) s.queue.pending h.timely;
  observed =
      All-map (Observed s.clock) (Observed (s.clock + n)) (λ e o. omega arith) s.queue.raw
        h.observed;
}

pub Reach-IsTimely :
    {os : Host} {s t : Session} → IsTimely s.clock s.queue → Reach os s t → IsTimely t.clock t.queue
Reach-IsTimely h here = h
Reach-IsTimely h (next r st) = Step-IsTimely st (Reach-IsTimely h r)

pub start-IsTimely :
    (os : Host) (excluded : List String) (debounce max_events now : ℕ)
    → IsTimely now (new os excluded debounce max_events)
unfolding new
start-IsTimely os excluded debounce max_events now = record { timely = tt; observed = tt }
