-- ===== src/Watch/Outcomes.antt =====
-- What the outcome of a session or of a batch promises.
use zsec_shield.Prelude.{
  ◌≡◌, Bool, true, false, Option, none, some, String, List, [], ◌∷◌, refl, arith, Bool-cases, inl,
  inr,
}
use zsec_shield.Models.{ScanIssue, ScanResult, ScanStats, FileFinding}
use zsec_shield.Watch.State.{
  Watcher, Text, Note, incomplete, Outcome, emit, health_issue, count_issues, session_outcome,
}
use zsec_shield.Watch.Scan.{
  World, ScanRun, forget, forget_all, mark_issues, mark_gap, mark_quarantine_failure,
  has_coverage_gap, paths_of, Quarantined, completed, partial, failed, escaped, quarantine_one,
  quarantine_each, continue_unless, emit_unless, settle, scan_outcome, batch_outcome, absorb,
  scan_paths, retained_issues,
}
use zsec_shield.Watch.Honesty.{health_issue-flags}

forget_all-historical :
    (world : World) (paths : List String) (w : Watcher)
    → ((forget_all world paths w).historical_operational_incomplete
        ≡ w.historical_operational_incomplete)
      × ((forget_all world paths w).stats ≡ w.stats)
unfolding forget_all
forget_all-historical world [] w = (refl, refl)
forget_all-historical world (p ∷ ps) w =
    let ih = forget_all-historical world ps (forget world p w) in unfold forget in ih

health_issue-historical :
    (code : String) (m : Text) (w : Watcher)
    → (health_issue code m w).historical_operational_incomplete ≡ true
health_issue-historical code m w = (health_issue-flags code m w).1

mark_gap-keeps :
    (s : ScanStats) (w : Watcher)
    → w.historical_operational_incomplete ≡ true
    → (mark_gap s w).historical_operational_incomplete ≡ true
unfolding mark_gap
mark_gap-keeps s w h = elim (Bool-cases (has_coverage_gap s)) [
  | inl e ↦ rw e (health_issue-historical _ _ w)
  | inr e ↦ rw e h
]

mark_gap-flags :
    (s : ScanStats) (w : Watcher)
    → has_coverage_gap s ≡ true
    → (mark_gap s w).historical_operational_incomplete ≡ true
unfolding mark_gap
mark_gap-flags s w e = rw e (health_issue-historical _ _ w)

mark_issues-flags :
    (world : World) (i : ScanIssue) (is : List ScanIssue) (w : Watcher)
    → (mark_issues world (i ∷ is) w).historical_operational_incomplete ≡ true
unfolding mark_issues
mark_issues-flags world i is w = (forget_all-historical world (paths_of (i ∷ is)) _).0

gap_of_incomplete :
    (no_hash : Option Outcome) (r : ScanResult)
    → ¬ (no_hash ≡ some incomplete)
    → batch_outcome no_hash [] r ≡ incomplete
    → has_coverage_gap r.stats ≡ true
unfolding batch_outcome scan_outcome
gap_of_incomplete none r n h = ground arith
gap_of_incomplete (some outcome) r n h = ground arith

marks-flag :
    (world : World) (no_hash : Option Outcome) (is : List ScanIssue) (r : ScanResult) (w : Watcher)
    → ¬ (no_hash ≡ some incomplete)
    → batch_outcome no_hash is r ≡ incomplete
    → (mark_gap r.stats (mark_issues world is w)).historical_operational_incomplete ≡ true
marks-flag world no_hash [] r w n h = mark_gap-flags r.stats _ (gap_of_incomplete no_hash r n h)
marks-flag world no_hash (i ∷ is) r w n h =
    mark_gap-keeps r.stats _ (mark_issues-flags world i is w)

quarantine_one-keeps :
    (q : Quarantined) (w : Watcher)
    → w.historical_operational_incomplete ≡ true
    → (quarantine_one q w).1.historical_operational_incomplete ≡ true
unfolding quarantine_one mark_quarantine_failure count_issues
quarantine_one-keeps (completed s) w h = h
quarantine_one-keeps partial w h = refl
quarantine_one-keeps failed w h = refl
quarantine_one-keeps escaped w h = h

-- The loop stops after an exception that is not caught.
stopped-keeps :
    (b : Bool) (state : String) (r : List String × Watcher) (w : Watcher)
    → w.historical_operational_incomplete ≡ true
    → r.1.historical_operational_incomplete ≡ true
    → (continue_unless b state w r).1.historical_operational_incomplete ≡ true
stopped-keeps true state r w one rest = one
stopped-keeps false state r w one rest = rest

quarantine_each-keeps :
    (world : World) (fs : List FileFinding) (w : Watcher)
    → w.historical_operational_incomplete ≡ true
    → (quarantine_each world fs w).1.historical_operational_incomplete ≡ true
unfolding quarantine_each
quarantine_each-keeps world [] w h = h
quarantine_each-keeps world (f ∷ fs) w h =
    let (state, w') = quarantine_one (world.quarantine f) w in
    let one = quarantine_one-keeps (world.quarantine f) w h in
    stopped-keeps w'.raised state (quarantine_each world fs w') w' one
      (quarantine_each-keeps world fs w' one)

emit_unless-keeps :
    (b : Bool) (note : Note) (w : Watcher)
    → w.historical_operational_incomplete ≡ true
    → (emit_unless b note w).historical_operational_incomplete ≡ true
unfolding emit
emit_unless-keeps true note w h = h
emit_unless-keeps false note w h = h

settle-keeps :
    (b : Bool) (world : World) (fs : List FileFinding) (w : Watcher)
    → w.historical_operational_incomplete ≡ true
    → (settle b world fs w).1.historical_operational_incomplete ≡ true
unfolding settle
settle-keeps true world fs w h = quarantine_each-keeps world fs w h
settle-keeps false world fs w h = h

pub outcome_of_incomplete :
    (w : Watcher)
    → w.historical_operational_incomplete ≡ true
    → session_outcome false w ≡ incomplete
unfolding session_outcome
outcome_of_incomplete w h = ground arith

pub incomplete_batch-flags :
    (world : World) (event : String) (no_hash : Option Outcome) (allow : Bool) (run : ScanRun)
    (w : Watcher)
    → ¬ (no_hash ≡ some incomplete)
    → batch_outcome no_hash (retained_issues world allow run) run.result ≡ incomplete
    → (scan_paths world event no_hash allow run w).historical_operational_incomplete ≡ true
unfolding scan_paths absorb
incomplete_batch-flags world event no_hash allow run w n h = emit_unless-keeps _ _ _ (
    settle-keeps _ world run.result.findings _
      (marks-flag world no_hash (retained_issues world allow run) run.result _ n h))
