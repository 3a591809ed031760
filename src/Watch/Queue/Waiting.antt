-- ===== src/Watch/Queue/Waiting.antt =====
-- Proofs on a path that waits in a `DebouncedPathQueue` while nothing is handed out.
use zsec_shield.Prelude.{
  ℕ, ◌+◌, ◌≤◌, ◌≡◌, inl, inr, String, Bool, Option, none, some, List, [], ◌∷◌, refl, sym, ap, ◌∙◌,
  arith, leb, max, any, subst, length, Bool-cases, Option-cases, eq_iff,
}
use zsec_shield.Prelude.Dict.{Dict, find, put, find-put, remove, remove_absent, All-find}
use zsec_shield.Host.{Host, path_key, is_within}
use zsec_shield.Watch.Queue.{
  Queue, Event, EventType, PendingPath, new, touch, depth, drop_event, submit_key, submit, coalesce,
  ingest_event, pop_keys, take_due, due_keys, limited, clear_overflow,
}
use zsec_shield.Watch.Queue.Step.{
  Session, start, Step, Reach, observe, round, take, clear, pass, here, next,
}
use zsec_shield.Watch.Queue.Ledger.{pop_keys-same, pop_keys-cons}
use zsec_shield.Watch.Queue.Timing.{Timely, enqueue-cases, start-IsTimely, Reach-IsTimely}

-- An entry that stands for a path that waits since `first`.
abbrev Waits : ℕ → Option PendingPath → Type 0
Waits first none = ⊥
Waits first (some p) = p.first_seen_at ≡ first

-- The window of the queue and the path that waits under a key stay the same.
record Keeps (key : String) (first : ℕ) (q r : Queue) : Type 0 where
  window : r.max_coalesce ≡ q.max_coalesce
  waits : Waits first (find key q.pending) → Waits first (find key r.pending)

same_pending :
    (key : String) (first : ℕ) (q r : Queue)
    → r.max_coalesce ≡ q.max_coalesce
    → r.pending ≡ q.pending
    → Keeps key first q r
same_pending key first q r w p = record {
  window = w;
  waits = λ h. subst (λ (d : Dict PendingPath). Waits first (find key d)) (sym p) h;
}

touched :
    (key k : String) (first : ℕ) (q : Queue) (t : EventType) (now : ℕ) (p : PendingPath)
    → find k q.pending ≡ some p
    → Waits first (find key q.pending)
    → Waits first (find key (put k (touch q t now p) q.pending))
unfolding touch
touched key k first q t now p f h =
    ground (arith, find-put k key (touch q t now p) q.pending, eq_iff k key)

submit_key-Keeps :
    (key k : String) (first : ℕ) (q : Queue) (e : Event) (o : Option PendingPath)
    → find k q.pending ≡ o
    → Keeps key first q (submit_key q k e o)
unfolding submit_key
submit_key-Keeps key k first q e none f = elim (enqueue-cases q e) [
  | inl dropped ↦ rw dropped (unfold drop_event in same_pending key first q _ refl refl)
  | inr queued ↦ rw queued (same_pending key first q _ refl refl)
]
submit_key-Keeps key k first q e (some p) f = record {
  window = refl;
  waits = touched key k first q e.event_type e.observed_at p f;
}

submit-Keeps :
    (os : Host) (key : String) (first now : ℕ) (path : String) (t : EventType) (d : Bool)
    (q : Queue)
    → Keeps key first q (submit os now path t d q)
unfolding submit
submit-Keeps os key first now path t d q =
    elim (Bool-cases (any (is_within os (path_key os path)) q.excluded)) [
      | inl e ↦ rw e (same_pending key first q _ refl refl)
      | inr e ↦ rw e (
          let kept =
            submit_key-Keeps key (path_key os path) first
              (record q { events_received = q.events_received + 1 }) _ _ refl in
          record { window = kept.window; waits = kept.waits })
    ]

-- A new entry is under a key that had none.
entered :
    (key k : String) (first : ℕ) (q : Queue) (p : PendingPath)
    → find k q.pending ≡ none
    → Waits first (find key q.pending)
    → Waits first (find key (put k p q.pending))
entered key k first q p f h = ground (arith, find-put k key p q.pending, eq_iff k key)

coalesce-Keeps :
    (key k : String) (first : ℕ) (q : Queue) (e : Event) (o : Option PendingPath)
    → find k q.pending ≡ o
    → Keeps key first q (coalesce q k e o)
unfolding coalesce
coalesce-Keeps key k first q e none f = elim (Bool-cases (leb q.max_events (depth q))) [
  | inl full ↦ rw full (unfold drop_event in same_pending key first q _ refl refl)
  | inr room ↦ rw room (record { window = refl; waits = entered key k first q _ f })
]
coalesce-Keeps key k first q e (some p) f = record {
  window = refl;
  waits = touched key k first q e.event_type e.observed_at p f;
}

ingest_event-Keeps :
    (os : Host) (key : String) (first : ℕ) (q : Queue) (e : Event) (rest : List Event)
    → Keeps key first q (ingest_event os q e rest)
unfolding ingest_event
ingest_event-Keeps os key first q e rest =
    let kept = coalesce-Keeps key (path_key os e.path) first (record q { raw = rest }) e _ refl in
    record { window = kept.window; waits = kept.waits }

-- Keys that hand out nothing were not pending.
pop_keys-cons_pending :
    (key : String) (keys : List String) (q : Queue)
    → (pop_keys (key ∷ keys) q).1.pending
      ≡ (pop_keys keys (record q { pending = remove key q.pending })).1.pending
pop_keys-cons_pending key keys q = ap (λ (r : Queue). r.pending) (pop_keys-cons key keys q)

some_popped :
    (key : String) (keys : List String) (q : Queue) (p : PendingPath)
    → find key q.pending ≡ some p
    → ¬ (length (pop_keys (key ∷ keys) q).0 ≡ 0)
unfolding pop_keys
some_popped key keys q p f h = ground arith

idle_pop :
    (keys : List String) (q : Queue)
    → length (pop_keys keys q).0 ≡ 0
    → (pop_keys keys q).1.pending ≡ q.pending
unfolding pop_keys
idle_pop [] q h = refl
idle_pop (key ∷ keys) q h = elim (Option-cases (find key q.pending)) [
  | inl n ↦
      pop_keys-cons_pending key keys q
      ∙ idle_pop keys (record q { pending = remove key q.pending }) (ground arith)
      ∙ remove_absent key q.pending n
  | inr (p, f) ↦ absurd (some_popped key keys q p f h)
]

take_due-Keeps :
    (key : String) (first clock : ℕ) (maximum : Option ℕ) (q : Queue)
    → length (take_due clock maximum q).0 ≡ 0
    → Keeps key first q (take_due clock maximum q).1
unfolding take_due
take_due-Keeps key first clock maximum q h =
    let keys = limited maximum (due_keys clock q) in
    same_pending key first q _ (ap (λ (r : Queue). r.max_coalesce) (pop_keys-same keys q))
      (idle_pop keys q h)

Step-Keeps :
    {os : Host} {s t : Session} (key : String) (first : ℕ)
    → Step os s t
    → t.handed_out ≡ s.handed_out
    → Keeps key first s.queue t.queue
Step-Keeps {os} key first (observe path t d s) h =
    submit-Keeps os key first s.clock path t d s.queue
Step-Keeps {os} key first (round e rest s r) h = ingest_event-Keeps os key first s.queue e rest
Step-Keeps key first (take m s) h = take_due-Keeps key first s.clock m s.queue (omega (arith, h))
Step-Keeps key first (clear s) h =
    unfold clear_overflow in same_pending key first s.queue _ refl refl
Step-Keeps key first (pass n s) h = same_pending key first s.queue _ refl refl

Step-handed_out : {os : Host} {s t : Session} → Step os s t → s.handed_out ≤ t.handed_out
Step-handed_out (observe path t d s) = omega arith
Step-handed_out (round e rest s r) = omega arith
Step-handed_out (take m s) = omega arith
Step-handed_out (clear s) = omega arith
Step-handed_out (pass n s) = omega arith

Reach-handed_out : {os : Host} {s t : Session} → Reach os s t → s.handed_out ≤ t.handed_out
Reach-handed_out here = omega arith
Reach-handed_out (next r st) = omega (arith, Reach-handed_out r, Step-handed_out st)

-- The window never changes.
Step-window :
    {os : Host} {s t : Session} → Step os s t → t.queue.max_coalesce ≡ s.queue.max_coalesce
Step-window {os} (observe path t d s) = (submit-Keeps os "" 0 s.clock path t d s.queue).window
Step-window {os} (round e rest s r) = (ingest_event-Keeps os "" 0 s.queue e rest).window
Step-window (take m s) =
    unfold take_due in
    ap (λ (r : Queue). r.max_coalesce)
      (pop_keys-same (limited m (due_keys s.clock s.queue)) s.queue)
Step-window (clear s) = unfold clear_overflow in refl
Step-window (pass n s) = refl

Reach-window :
    {os : Host} {s t : Session} → Reach os s t → t.queue.max_coalesce ≡ s.queue.max_coalesce
Reach-window here = refl
Reach-window (next r st) = Step-window st ∙ Reach-window r

Reach-Waits :
    {os : Host} {s t : Session} (key : String) (first : ℕ)
    → Reach os s t
    → t.handed_out ≡ s.handed_out
    → Waits first (find key s.queue.pending)
    → Waits first (find key t.queue.pending)
Reach-Waits key first here h w = w
Reach-Waits {s} {t} key first (next {t = u} r st) h w =
    let before : u.handed_out ≡ s.handed_out =
      omega (arith, h, Reach-handed_out r, Step-handed_out st) in
    let idle : t.handed_out ≡ u.handed_out =
      omega (arith, h, Reach-handed_out r, Step-handed_out st) in
    (Step-Keeps key first st idle).waits (Reach-Waits key first r before w)

waiting_entry :
    (first : ℕ) (o : Option PendingPath)
    → Waits first o
    → (q : PendingPath) × (o ≡ some q) × (q.first_seen_at ≡ first)
waiting_entry first none h = absurd h
waiting_entry first (some q) h = (q, refl, h)

new-window :
    (os : Host) (excluded : List String) (debounce max_events : ℕ)
    → (new os excluded debounce max_events).max_coalesce ≡ max 2000 debounce
unfolding new
new-window os excluded debounce max_events = refl

-- In every interleaving from a new queue, a path that is pending was first seen by then, and in every continuation
-- in which nothing is handed out it is still pending and due as soon as 2,000 milliseconds, or the debounce
-- interval if that is longer, have passed since it was first seen, however often it is touched in between.
pub no_starvation :
    (os : Host) (excluded : List String) (debounce max_events now : ℕ) {s t : Session}
    → Reach os (start os excluded debounce max_events now) s
    → Reach os s t
    → (key : String) (p : PendingPath) → find key s.queue.pending ≡ some p
    → t.handed_out ≡ s.handed_out
    → p.first_seen_at + max 2000 debounce ≤ t.clock
    → (p.first_seen_at ≤ s.clock)
      × ((q : PendingPath) × (find key t.queue.pending ≡ some q) × (q.due_at ≤ t.clock))
no_starvation os excluded debounce max_events now {s} {t} r r' key p f idle late =
    let s0 = start os excluded debounce max_events now in
    let timely0 = start-IsTimely os excluded debounce max_events now in
    let a = Reach-IsTimely {s = s0} timely0 r in
    let b = Reach-IsTimely {s = s} a r' in
    let window : t.queue.max_coalesce ≡ max 2000 debounce =
      Reach-window r' ∙ Reach-window {s = s0} r ∙ new-window os excluded debounce max_events in
    let waits : Waits p.first_seen_at (find key s.queue.pending) =
      subst (Waits p.first_seen_at) (sym f) refl in
    let (q, g, same) = waiting_entry _ _ (Reach-Waits key p.first_seen_at r' idle waits) in
    let seen : Timely s.clock s.queue.max_coalesce p =
      All-find (Timely s.clock s.queue.max_coalesce) key s.queue.pending p a.timely f in
    let timely : Timely t.clock t.queue.max_coalesce q =
      All-find (Timely t.clock t.queue.max_coalesce) key t.queue.pending q b.timely g in
    (seen.0, (q, g, elim timely.1 [ inl soon ↦ omega (arith, window, same) | inr due ↦ due ]))
