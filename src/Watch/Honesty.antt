-- ===== src/Watch/Honesty.antt =====
-- The incompleteness flags and the issue counter of the watcher stay honest through a scan batch.
use zsec_shield.Prelude.{
  ℕ, ◌+◌, ◌≡◌, Bool, true, false, Option, String, List, [], ◌∷◌, arith, min, if◌then◌else◌, any,
  length, length-append, Bool-cases, inl, inr,
}
use zsec_shield.Models.{ScanIssue, ScanResult, ScanStats, FileFinding}
use zsec_shield.Watch.State.{
  Text, Watcher, HealthIssue, Note, Outcome, superseded_note, emit, health_issue, sanitize,
  count_issues,
}
use zsec_shield.Watch.Scan.{
  World, ScanRun, forget, forget_all, note_vanished, add_scan_issues, add_totals, mark_issues,
  mark_gap, has_coverage_gap, same_key, settle, quarantine_one, quarantine_each, continue_unless,
  emit_unless, Quarantined, escaped, completed, partial, failed, absorb, scan_paths, paths_of,
}

-- Persistent means incomplete now, incomplete now means incomplete in the session, and the issue counter is
-- the health issues, the distinct scan issues and the quarantines that did not complete.
pub record IsHonest (w : Watcher) : Type 0 where
  pub persistent : w.persistent_operational_incomplete ≡ true → w.operational_incomplete ≡ true
  pub operational : w.operational_incomplete ≡ true → w.historical_operational_incomplete ≡ true
  pub counted :
      w.stats.issues
      ≡ length w.health_issues
        + length w.scan_issue_keys
        + w.stats.quarantine_partial
        + w.stats.quarantine_failed
  pub numbered : w.record_sequence ≡ length w.emitted

pub emit-IsHonest : (n : Note) (w : Watcher) → IsHonest w → IsHonest (emit n w)
unfolding emit
emit-IsHonest n w h = ground (arith, length-append w.emitted ((w.record_sequence + 1, n) ∷ []))

pub health_issue-IsHonest :
    (code : String) (m : Text) (w : Watcher) → IsHonest w → IsHonest (health_issue code m w)
unfolding health_issue
health_issue-IsHonest code m w h =
    let issue : HealthIssue = record { code = code; message = sanitize m } in
    ground (
      arith,
      length-append w.health_issues (issue ∷ []),
      length-append w.emitted ((w.record_sequence + 1, Note.health_note issue) ∷ []),
    )

-- A health issue, new or repeated, makes the session incomplete for good and is reported once.
pub health_issue-flags :
    (code : String) (m : Text) (w : Watcher)
    → ((health_issue code m w).operational_incomplete ≡ true)
      × ((health_issue code m w).historical_operational_incomplete ≡ true)
unfolding health_issue
health_issue-flags code m w = ground arith

forget_all-IsHonest :
    (world : World) (paths : List String) (w : Watcher)
    → IsHonest w
    → IsHonest (forget_all world paths w)
unfolding forget_all
forget_all-IsHonest world [] w h = h
forget_all-IsHonest world (p ∷ ps) w h =
    forget_all-IsHonest world ps (forget world p w) (unfold forget in ground arith)

note_vanished-IsHonest : (n : ℕ) (w : Watcher) → IsHonest w → IsHonest (note_vanished n w)
unfolding note_vanished
note_vanished-IsHonest n w h =
    ground
      (arith, length-append w.emitted ((w.record_sequence + 1, superseded_note n (min n 8)) ∷ []))

add_totals-IsHonest : (r : ScanResult) (w : Watcher) → IsHonest w → IsHonest (add_totals r w)
unfolding add_totals
add_totals-IsHonest r w h = ground arith

add_one-IsHonest :
    (i : ScanIssue) (w : Watcher)
    → IsHonest w
    → IsHonest (
        if any (same_key i) w.scan_issue_keys
        then w
        else count_issues 1 (record w { scan_issue_keys = i ∷ w.scan_issue_keys }))
unfolding count_issues
add_one-IsHonest i w h = ground arith

add_scan_issues-IsHonest :
    (is : List ScanIssue) (w : Watcher) → IsHonest w → IsHonest (add_scan_issues is w)
unfolding add_scan_issues
add_scan_issues-IsHonest [] w h = h
add_scan_issues-IsHonest (i ∷ is) w h = add_scan_issues-IsHonest is _ (add_one-IsHonest i w h)

mark_issues-IsHonest :
    (world : World) (is : List ScanIssue) (w : Watcher)
    → IsHonest w
    → IsHonest (mark_issues world is w)
unfolding mark_issues
mark_issues-IsHonest world [] w h = h
mark_issues-IsHonest world (i ∷ is) w h =
    forget_all-IsHonest world (paths_of (i ∷ is)) _ (ground arith)

mark_gap-IsHonest : (s : ScanStats) (w : Watcher) → IsHonest w → IsHonest (mark_gap s w)
unfolding mark_gap
mark_gap-IsHonest s w h = elim (Bool-cases (has_coverage_gap s)) [
  | inl e ↦ rw e (health_issue-IsHonest _ _ w h)
  | inr e ↦ rw e h
]

absorb-IsHonest :
    (world : World) (allow : Bool) (run : ScanRun) (w : Watcher)
    → IsHonest w
    → IsHonest (absorb world allow run w)
unfolding absorb
absorb-IsHonest world allow run w h = mark_gap-IsHonest _ _ (
    mark_issues-IsHonest world _ _ (
      add_scan_issues-IsHonest _ _ (
        add_totals-IsHonest _ _ (
          note_vanished-IsHonest _ _
            (forget_all-IsHonest world _ _ (forget_all-IsHonest world _ _ h))))))

quarantine_one-IsHonest :
    (q : Quarantined) (w : Watcher) → IsHonest w → IsHonest (quarantine_one q w).1
unfolding quarantine_one
quarantine_one-IsHonest (completed s) w h = ground arith
quarantine_one-IsHonest partial w h = ground arith
quarantine_one-IsHonest failed w h = ground arith
quarantine_one-IsHonest escaped w h = ground arith

quarantine_each-IsHonest :
    (world : World) (fs : List FileFinding) (w : Watcher)
    → IsHonest w
    → IsHonest (quarantine_each world fs w).1
unfolding quarantine_each
quarantine_each-IsHonest world [] w h = h
quarantine_each-IsHonest world (f ∷ fs) w h =
    let (state, w') = quarantine_one (world.quarantine f) w in
    let one = quarantine_one-IsHonest (world.quarantine f) w h in
    stopped w'.raised state (quarantine_each world fs w') w' one
      (quarantine_each-IsHonest world fs w' one)
  where
    stopped :
        (b : Bool) (state : String) (r : List String × Watcher) (w' : Watcher)
        → IsHonest w'
        → IsHonest r.1
        → IsHonest (continue_unless b state w' r).1
    stopped true state r w' one rest = one
    stopped false state r w' one rest = rest

settle-IsHonest :
    (b : Bool) (world : World) (fs : List FileFinding) (w : Watcher)
    → IsHonest w
    → IsHonest (settle b world fs w).1
unfolding settle
settle-IsHonest true world fs w h = quarantine_each-IsHonest world fs w h
settle-IsHonest false world fs w h = h

-- A note is emitted unless an exception has ended the session.
emit_unless-IsHonest :
    (b : Bool) (note : Note) (w : Watcher) → IsHonest w → IsHonest (emit_unless b note w)
emit_unless-IsHonest true note w h = h
emit_unless-IsHonest false note w h = emit-IsHonest note w h

-- A scan batch, with its quarantines, keeps the flags and the issue counter honest.
pub scan_paths-IsHonest :
    (world : World) (event : String) (no_hash : Option Outcome) (allow : Bool) (run : ScanRun)
    (w : Watcher)
    → IsHonest w
    → IsHonest (scan_paths world event no_hash allow run w)
unfolding scan_paths
scan_paths-IsHonest world event no_hash allow run w h =
    emit_unless-IsHonest _ _ _
      (settle-IsHonest _ world run.result.findings _ (absorb-IsHonest world allow run w h))
