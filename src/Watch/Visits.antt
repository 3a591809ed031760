-- ===== src/Watch/Visits.antt =====
-- The visits of a reconciliation, with the heartbeats and the drains of the event queue between them, keep the
-- watcher's flags and counters honest.
use zsec_shield.Prelude.{
  ℕ, ◌≡◌, inl, inr, Bool, true, false, Option, none, some, String, List, [], ◌∷◌, refl, arith,
  str_eq, ltb, Bool-cases,
}
use zsec_shield.Host.{snapshot_path_key}
use zsec_shield.Watch.Queue.{PendingPath, Queue, due}
use zsec_shield.Watch.State.{Watcher}
use zsec_shield.Watch.Scan.{World, forget}
use zsec_shield.Watch.Pending.{scan_pending-IsHonest}
use zsec_shield.Watch.Honesty.{IsHonest, emit-IsHonest}
use zsec_shield.Watch.Reconcile.{
  Mode, inventory, periodic, full, Walk, Visit, Answers, progress_heartbeat, scan_all, drain_taken,
  drain_priority_events, pulse, pop_previous, same_fingerprint, filter_known, filter_unknown,
  filter_counted, changed_since, record_counted, record_hash, evict, visit_file, visit_all,
}

module _ (world : World) (answers : Answers) where
  progress_heartbeat-IsHonest :
      (now : ℕ) (r : Walk) → IsHonest r.watcher → IsHonest (progress_heartbeat now r).watcher
  unfolding progress_heartbeat
  progress_heartbeat-IsHonest now r h = elim (Bool-cases (ltb now r.next_heartbeat)) [
    | inl e ↦ rw e h
    | inr e ↦ rw e (emit-IsHonest _ r.watcher h)
  ]

  scan_all-IsHonest :
      (key : String) (ps : List PendingPath) (w : Watcher)
      → IsHonest w
      → IsHonest (scan_all world answers key ps w)
  unfolding scan_all
  scan_all-IsHonest key [] w h = h
  scan_all-IsHonest key (p ∷ ps) w h =
      elim (Bool-cases (str_eq (snapshot_path_key world.host p.path) key)) [
        | inl e ↦ rw e (scan_all-IsHonest key ps w h)
        | inr e ↦ rw e (
            scan_all-IsHonest key ps _
              (scan_pending-IsHonest world (answers p).0 (answers p).1 p w h))
      ]

  drain_taken-IsHonest :
      (key : String) (o : Option (List PendingPath × Queue)) (w : Watcher)
      → IsHonest w
      → IsHonest (drain_taken world answers key o w)
  drain_taken-IsHonest key none w h = h
  drain_taken-IsHonest key (some (taken, queue)) w h = scan_all-IsHonest key taken _ (ground arith)

  drain-IsHonest :
      (now : ℕ) (key : String) (r : Walk)
      → IsHonest r.watcher
      → IsHonest (drain_priority_events world answers now key r).watcher
  unfolding drain_priority_events
  drain-IsHonest now key r h = elim (Bool-cases (ltb now r.next_drain)) [
    | inl e ↦ rw e h
    | inr e ↦
        rw e (drain_taken-IsHonest key (due world.host now (some 32) r.watcher.events) r.watcher h)
  ]

  pulse-IsHonest :
      (now : ℕ) (key : String) (r : Walk)
      → IsHonest r.watcher
      → IsHonest (pulse world answers now key r).watcher
  pulse-IsHonest now key r h = drain-IsHonest now key _ (progress_heartbeat-IsHonest now r h)

  pop-IsHonest :
      (key : String) (r : Walk) → IsHonest r.watcher → IsHonest (pop_previous key r).1.watcher
  unfolding pop_previous
  pop-IsHonest key r h = ground arith

  known-IsHonest :
      (mode : Mode) (now : ℕ) (key fingerprint : String) (before : Option String) (r : Walk)
      → IsHonest r.watcher
      → IsHonest (filter_known world answers mode now key fingerprint before r).1.watcher
  unfolding filter_known
  known-IsHonest inventory now key fingerprint before r h = pulse-IsHonest now key _ h
  known-IsHonest full now key fingerprint before r h = progress_heartbeat-IsHonest now r h
  known-IsHonest periodic now key fingerprint before r h =
      elim (Bool-cases (same_fingerprint before fingerprint)) [
        | inl e ↦ rw e (progress_heartbeat-IsHonest now _ h)
        | inr e ↦ rw e (progress_heartbeat-IsHonest now r h)
      ]

  unknown-IsHonest :
      (mode : Mode) (now : ℕ) (key : String) (r : Walk)
      → IsHonest r.watcher
      → IsHonest (filter_unknown world answers mode now key r).1.watcher
  unfolding filter_unknown
  unknown-IsHonest inventory now key r h = h
  unknown-IsHonest full now key r h = pulse-IsHonest now key r h
  unknown-IsHonest periodic now key r h = pulse-IsHonest now key r h

  counted-IsHonest :
      (mode : Mode) (key : String) (v : Visit) (fingerprint : Option String) (r : Walk)
      → IsHonest r.watcher
      → IsHonest (filter_counted world answers mode key v fingerprint r).1.watcher
  counted-IsHonest mode key v none r h = unknown-IsHonest mode v.filtered_at key r h
  counted-IsHonest mode key v (some fingerprint) r h =
      known-IsHonest mode v.filtered_at key fingerprint (pop_previous key r).0 _
        (pop-IsHonest key r h)

  changed-IsHonest :
      (mode : Mode) (v : Visit) (r : Walk)
      → IsHonest r.watcher
      → IsHonest (changed_since world answers mode v r).1.watcher
  unfolding changed_since
  changed-IsHonest mode v r h = counted-IsHonest mode _ v v.fingerprint _ h

  same_watcher :
      (key : String) (is_hashed : Bool) (fingerprint : Option String) (size : ℕ) (r : Walk)
      → (record_counted key is_hashed fingerprint size r).1.watcher ≡ r.watcher
  unfolding record_counted
  same_watcher key true (some fingerprint) size r = refl
  same_watcher key true none size r = refl
  same_watcher key false fingerprint size r = refl

  record-IsHonest :
      (v : Visit) (r : Walk) → IsHonest r.watcher → IsHonest (record_hash world answers v r).watcher
  unfolding record_hash
  record-IsHonest v r h =
      let key = snapshot_path_key world.host v.path in
      let counted = record_counted key v.is_hashed v.fingerprint v.size r in
      let kept : IsHonest counted.1.watcher =
        rw (same_watcher key v.is_hashed v.fingerprint v.size r) h in
      elim (Bool-cases counted.0) [
        | inl e ↦ rw e (pulse-IsHonest v.recorded_at key counted.1 kept)
        | inr e ↦ rw e kept
      ]

  evict-IsHonest : (v : Visit) (r : Walk) → IsHonest r.watcher → IsHonest (evict world v r).watcher
  unfolding evict forget
  evict-IsHonest v r h = elim (Bool-cases v.is_hashed) [
    | inl e ↦ rw e h
    | inr e ↦ rw e (ground arith)
  ]

  visit-IsHonest :
      (mode : Mode) (v : Visit) (r : Walk)
      → IsHonest r.watcher
      → IsHonest (visit_file world answers mode v r).watcher
  unfolding visit_file
  visit-IsHonest mode v r h =
      let filtered = changed_since world answers mode v r in
      elim (Bool-cases filtered.0) [
        | inl e ↦ rw e (record-IsHonest v _ (evict-IsHonest v _ (changed-IsHonest mode v r h)))
        | inr e ↦ rw e (changed-IsHonest mode v r h)
      ]

  pub visit_all-IsHonest :
      (mode : Mode) (vs : List Visit) (r : Walk)
      → IsHonest r.watcher
      → IsHonest (visit_all world answers mode vs r).watcher
  unfolding visit_all
  visit_all-IsHonest mode [] r h = h
  visit_all-IsHonest mode (v ∷ vs) r h = visit_all-IsHonest mode vs _ (visit-IsHonest mode v r h)
