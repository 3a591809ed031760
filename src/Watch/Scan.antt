-- ===== src/Watch/Scan.antt =====
-- `_scan_paths` and `_scan_pending` of src/zsec_shield/watcher.py. The run of the scanner and of
-- `quarantine_finding` are arguments: what the scan returned, which files it inspected and whether each
-- was hashed, and how each quarantine ended.
use zsec_shield.Prelude.{
  ℕ, ◌+◌, Bool, true, false, not, ◌&&◌, ◌||◌, Option, none, some, String, List, [], ◌∷◌, ◌++◌,
  str_eq, codes, occurs, ltb, ◌==◌, if◌then◌else◌, any, keep, length, text_in, min,
}
use zsec_shield.Prelude.Dict.{remove}
use zsec_shield.Host.{Host, snapshot_path_key}
use zsec_shield.Models.{ScanIssue, ScanResult, ScanStats, FileFinding}
use zsec_shield.Watch.State.{
  Text, Note, Watcher, Outcome, incomplete, configured_rule_matches_detected, review_observations,
  no_configured_rule_matches, superseded_note, scan_note, emit, health_issue, count_issues, decimal,
}

-- How `quarantine_finding` ended: with a record in a state, a QuarantinePartialError, another ZsecShieldError, or an
-- exception that the loop does not catch, as a plain OSError is.
pub data Quarantined : Type 0 where
  completed : String → Quarantined
  partial failed escaped : Quarantined

pub record World : Type 0 where
  pub host : Host
  pub casefold : String → List ℕ
  pub is_absent : String → Bool  -- _path_is_confirmed_absent
  pub quarantine : FileFinding → Quarantined

pub record ScanRun : Type 0 where
  pub result : ScanResult
  pub inspected : List (String × Bool)  -- the path, and whether it was hashed

-- `_issue_reports_missing_path`
unfoldable pub issue_reports_missing_path : World → ScanIssue → Bool
issue_reports_missing_path world issue =
    any (λ marker. occurs (codes marker) (world.casefold issue.message))
      ("no such file or directory" ∷ "[errno 2]" ∷ "[errno 20]" ∷ "winerror 2" ∷ "winerror 3" ∷ [])

-- `vanished_error`
unfoldable pub has_vanished : World → Bool → ScanIssue → Bool
unfolding issue_reports_missing_path
has_vanished world allow_vanished_root issue =
    (text_in issue.code
        ("directory_unreadable" ∷ "entry_unreadable" ∷ "file_open_failed" ∷ "file_read_failed" ∷ [])
      || allow_vanished_root && str_eq issue.code "root_unreadable")
    && issue_reports_missing_path world issue
    && world.is_absent issue.path

-- `self._reconciliation_snapshot.pop(_snapshot_path_key(path), None)`
unfoldable pub forget : World → String → Watcher → Watcher
forget world path w = record w { snapshot = remove (snapshot_path_key world.host path) w.snapshot }

unfoldable pub forget_all : World → List String → Watcher → Watcher
unfolding forget
forget_all world [] w = w
forget_all world (path ∷ paths) w = forget_all world paths (forget world path w)

abbrev pub paths_of : List ScanIssue → List String
paths_of [] = []
paths_of (i ∷ is) = i.path ∷ paths_of is

abbrev pub unhashed : List (String × Bool) → List String
unhashed [] = []
unhashed ((path, hashed) ∷ rest) = let more = unhashed rest in if hashed then more else path ∷ more

-- The notes about vanished paths: at most eight sample paths.
unfoldable pub note_vanished : ℕ → Watcher → Watcher
unfolding emit
note_vanished n w =
    let counted = record w {
      stats = record w.stats { events_superseded = w.stats.events_superseded + n };
    } in
    if n == 0 then counted else emit (superseded_note n (min n 8)) counted

abbrev pub same_key : ScanIssue → ScanIssue → Bool
same_key a b = str_eq a.path b.path && str_eq a.code b.code && str_eq a.message b.message

-- The loop that counts the issues not seen before in the session.
unfoldable pub add_scan_issues : List ScanIssue → Watcher → Watcher
unfolding count_issues
add_scan_issues [] w = w
add_scan_issues (i ∷ is) w = add_scan_issues is (
    if any (same_key i) w.scan_issue_keys
    then w
    else count_issues 1 (record w { scan_issue_keys = i ∷ w.scan_issue_keys }))

unfoldable pub add_totals : ScanResult → Watcher → Watcher
add_totals r w = record w {
  stats = record w.stats {
    scan_batches = w.stats.scan_batches + 1;
    files_hashed = w.stats.files_hashed + r.stats.files_hashed;
    bytes_hashed = w.stats.bytes_hashed + r.stats.bytes_hashed;
    findings = w.stats.findings + length r.findings;
    observations = w.stats.observations + length r.observations;
  };
}

-- `if result.issues:` after the totals.
unfoldable pub mark_issues : World → List ScanIssue → Watcher → Watcher
unfolding forget_all
mark_issues world [] w = w
mark_issues world (i ∷ is) w = forget_all world (paths_of (i ∷ is)) (record w {
  operational_incomplete = true;
  historical_operational_incomplete = true;
  incomplete_generation = w.incomplete_generation + 1;
})

unfoldable pub has_coverage_gap : ScanStats → Bool
has_coverage_gap s = ltb 0 s.skipped_special || ltb 0 s.skipped_too_large

abbrev gap_part : String → ℕ → Text → Text
gap_part name count later = codes name ++ (decimal count ++ later)

-- `", ".join(f"{name}={count}" …)` over the counts that are not zero
unfoldable pub gap_details : ScanStats → Text
unfolding decimal
gap_details s =
    if ltb 0 s.skipped_special
    then gap_part "special_files=" s.skipped_special (
        if ltb 0 s.skipped_too_large
        then gap_part ", files_above_size_limit=" s.skipped_too_large []
        else [])
    else if ltb 0 s.skipped_too_large
    then gap_part "files_above_size_limit=" s.skipped_too_large []
    else []

unfoldable pub mark_gap : ScanStats → Watcher → Watcher
mark_gap s w =
    if has_coverage_gap s
    then health_issue "scan_scope_incomplete"
        (codes "one or more observed paths were not inspected: " ++ gap_details s) w
    else w

-- A quarantine that did not complete.
unfoldable pub mark_quarantine_failure : Watcher → Watcher
unfolding count_issues
mark_quarantine_failure w = count_issues 1 (record w {
  operational_incomplete = true;
  historical_operational_incomplete = true;
  persistent_operational_incomplete = true;
})

unfoldable pub quarantine_one : Quarantined → Watcher → String × Watcher
unfolding mark_quarantine_failure
quarantine_one (completed state) w = (
  state,
  record w { stats = record w.stats { quarantine_completed = w.stats.quarantine_completed + 1 } },
)
quarantine_one partial w = (
  "copy_only",
  mark_quarantine_failure
      (record w { stats = record w.stats { quarantine_partial = w.stats.quarantine_partial + 1 } }),
)
quarantine_one failed w = (
  "failed",
  mark_quarantine_failure
      (record w { stats = record w.stats { quarantine_failed = w.stats.quarantine_failed + 1 } }),
)
quarantine_one escaped w = ("", record w { raised = true })

-- The loop; an exception that is not caught ends it.
abbrev pub continue_unless : Bool → String → Watcher → List String × Watcher → List String × Watcher
continue_unless true state w rest = ([], w)
continue_unless false state w rest = (state ∷ rest.0, rest.1)

unfoldable pub quarantine_each : World → List FileFinding → Watcher → List String × Watcher
unfolding quarantine_one
quarantine_each world [] w = ([], w)
quarantine_each world (f ∷ fs) w =
    let (state, w') = quarantine_one (world.quarantine f) w in
    continue_unless w'.raised state w' (quarantine_each world fs w')

-- `_scan_outcome`
unfoldable pub scan_outcome : List ScanIssue → ScanResult → Outcome
scan_outcome (i ∷ is) r = incomplete
scan_outcome [] r =
    if ltb 0 (length r.findings)
    then configured_rule_matches_detected
    else if ltb 0 (length r.observations)
    then review_observations
    else no_configured_rule_matches

-- The outcome that `_scan_paths` reports.
unfoldable pub batch_outcome : Option Outcome → List ScanIssue → ScanResult → Outcome
unfolding scan_outcome has_coverage_gap
batch_outcome no_hash (i ∷ is) r = incomplete
batch_outcome none [] r = if has_coverage_gap r.stats then incomplete else scan_outcome [] r
batch_outcome (some outcome) [] r =
    if has_coverage_gap r.stats
    then incomplete
    else if r.stats.files_hashed == 0
    then outcome
    else scan_outcome [] r

abbrev pub retained_issues : World → Bool → ScanRun → List ScanIssue
retained_issues world allow run = keep (λ i. not (has_vanished world allow i)) run.result.issues

abbrev pub vanished_issues : World → Bool → ScanRun → List ScanIssue
vanished_issues world allow run = keep (has_vanished world allow) run.result.issues

-- `_scan_paths` up to its quarantine: cache evictions, totals and flags.
unfoldable pub absorb : World → Bool → ScanRun → Watcher → Watcher
absorb world allow run w =
    let retained = retained_issues world allow run in
    let vanished = vanished_issues world allow run in
    let evicted =
      forget_all world (paths_of vanished) (forget_all world (unhashed run.inspected) w) in
    let totalled = add_totals run.result (note_vanished (length vanished) evicted) in
    mark_gap run.result.stats (mark_issues world retained (add_scan_issues retained totalled))

-- The quarantine of the findings, where the configuration asks for it.
unfoldable pub settle : Bool → World → List FileFinding → Watcher → List String × Watcher
unfolding quarantine_each
settle true world findings w = quarantine_each world findings w
settle false world findings w = ([], w)

-- The record of the batch, where no exception has come before it.
abbrev pub emit_unless : Bool → Note → Watcher → Watcher
emit_unless true note w = w
emit_unless false note w = emit note w

-- `_scan_paths`
unfoldable pub scan_paths : World → String → Option Outcome → Bool → ScanRun → Watcher → Watcher
scan_paths world event no_hash allow run w =
    let absorbed = absorb world allow run w in
    let (states, settled) = settle absorbed.config.quarantine world run.result.findings absorbed in
    emit_unless settled.raised
      (scan_note event (batch_outcome no_hash (retained_issues world allow run) run.result) states)
      settled
