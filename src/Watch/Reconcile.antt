-- ===== src/Watch/Reconcile.antt =====
-- `_reconcile` of src/zsec_shield/watcher.py: the walk over the roots with its cache of fingerprints, its heartbeats
-- and its drains of the event queue, and the recovery at its end. Times are milliseconds.
use zsec_shield.Prelude.{
  ℕ, ◌+◌, Bool, true, false, not, ◌&&◌, ◌||◌, Option, none, some, String, List, [], ◌∷◌, str_eq,
  ltb, ◌==◌, if◌then◌else◌, length, text_in, min, is_some,
}
use zsec_shield.Prelude.Dict.{Dict, find, put, remove}
use zsec_shield.Host.{snapshot_path_key}
use zsec_shield.Models.{ScanIssue, ScanStats}
use zsec_shield.Watch.Config.{is_empty}
use zsec_shield.Watch.Queue.{PendingPath, Queue, due}
use zsec_shield.Watch.State.{
  Watcher, Outcome, metadata_inventory_complete, no_metadata_changes, heartbeat_note, emit,
}
use zsec_shield.Watch.Scan.{World, ScanRun, forget, scan_paths, retained_issues}
use zsec_shield.Watch.Pending.{Looked, scan_pending}

-- The kinds of a reconciliation: `metadata_only`, neither, and `full`. Both flags at once raise.
pub data Mode : Type 0 where
  inventory periodic full : Mode

-- The variables of the running call. `watcher.snapshot` is `previous`, which the code aliases.
pub record Walk : Type 0 where
  pub watcher : Watcher
  pub current : Dict String
  pub unresolved : List String
  pub observed : ℕ
  pub unchanged : ℕ
  pub hashed : ℕ
  pub bytes_hashed : ℕ
  pub unresolved_in_progress : ℕ
  pub next_heartbeat : ℕ
  pub next_drain : ℕ

-- One file that the scanner meets: `fingerprint` is `none` where the metadata cannot be packed, `is_hashed`
-- is whether the inspection succeeded. The clock is read once for each of the two callbacks here.
pub record Visit : Type 0 where
  pub path : String
  pub fingerprint : Option String
  pub size : ℕ
  pub is_hashed : Bool
  pub filtered_at : ℕ
  pub recorded_at : ℕ

-- What `lstat` and the scanner answer for a path that a drain finds due.
abbrev pub Answers : Type 0
Answers = PendingPath → Looked × ScanRun

unfoldable pub is_incomplete_now : Watcher → Bool
is_incomplete_now w =
    w.operational_incomplete || w.events.overflowed || is_some w.event_ingest_failure

-- `emit_progress_heartbeat`
unfoldable pub progress_heartbeat : ℕ → Walk → Walk
unfolding emit is_incomplete_now
progress_heartbeat now r = if ltb now r.next_heartbeat then r else record r {
  watcher = emit (heartbeat_note (is_incomplete_now r.watcher)) r.watcher;
  next_heartbeat = now + r.watcher.config.heartbeat;
}

-- The loop of `drain_priority_events`: the file that is being visited is left to its visit.
unfoldable pub scan_all : World → Answers → String → List PendingPath → Watcher → Watcher
scan_all world answers current_key [] w = w
scan_all world answers current_key (p ∷ ps) w =
    let (looked, run) = answers p in
    scan_all world answers current_key ps (
      if str_eq (snapshot_path_key world.host p.path) current_key
      then w
      else scan_pending world looked run p w)

abbrev pub drain_taken :
    World → Answers → String → Option (List PendingPath × Queue) → Watcher → Watcher
drain_taken world answers key none w = w
drain_taken world answers key (some (taken, queue)) w =
    scan_all world answers key taken (record w { events = queue })

-- `drain_priority_events`
unfoldable pub drain_priority_events : World → Answers → ℕ → String → Walk → Walk
unfolding scan_all due
drain_priority_events world answers now key r = if ltb now r.next_drain then r else record r {
  watcher = drain_taken world answers key (due world.host now (some 32) r.watcher.events) r.watcher;
  next_drain = now + min 100 r.watcher.config.debounce;
}

abbrev pub pulse : World → Answers → ℕ → String → Walk → Walk
pulse world answers now key r =
    drain_priority_events world answers now key (progress_heartbeat now r)

-- `previous.pop(key, None)`, and the comparison with what was there.
unfoldable pub pop_previous : String → Walk → Option String × Walk
pop_previous key r = (
  find key r.watcher.snapshot,
  record r { watcher = record r.watcher { snapshot = remove key r.watcher.snapshot } },
)

abbrev pub same_fingerprint : Option String → String → Bool
same_fingerprint none fingerprint = false
same_fingerprint (some before) fingerprint = str_eq before fingerprint

-- `changed_since_last_reconciliation` on a fingerprint, by the mode.
unfoldable pub filter_known :
    World → Answers → Mode → ℕ → String → String → Option String → Walk → Bool × Walk
filter_known world answers inventory now key fingerprint before r =
    (false, pulse world answers now key (record r { current = put key fingerprint r.current }))
filter_known world answers full now key fingerprint before r = (true, progress_heartbeat now r)
filter_known world answers periodic now key fingerprint before r =
    if same_fingerprint before fingerprint
    then (
      false,
      progress_heartbeat now
          (record r { unchanged = r.unchanged + 1; current = put key fingerprint r.current }),
    )
    else (true, progress_heartbeat now r)

-- What the filter does without a fingerprint: an inventory raises, and the scanner skips the file with an
-- issue of its own; else the file is scanned.
unfoldable pub filter_unknown : World → Answers → Mode → ℕ → String → Walk → Bool × Walk
filter_unknown world answers inventory now key r = (false, r)
filter_unknown world answers mode now key r = (true, pulse world answers now key r)

abbrev pub filter_counted :
    World → Answers → Mode → String → Visit → Option String → Walk → Bool × Walk
filter_counted world answers mode key v none r =
    filter_unknown world answers mode v.filtered_at key r
filter_counted world answers mode key v (some fingerprint) r =
    let (before, popped) = pop_previous key r in
    filter_known world answers mode v.filtered_at key fingerprint before popped

-- `changed_since_last_reconciliation`
unfoldable pub changed_since : World → Answers → Mode → Visit → Walk → Bool × Walk
changed_since world answers mode v r =
    filter_counted world answers mode (snapshot_path_key world.host v.path) v v.fingerprint
      (record r { observed = r.observed + 1 })

unfoldable pub add_key : String → List String → List String
add_key key keys = if text_in key keys then keys else key ∷ keys

-- The counters and the cache of `record_successful_hash`. A file that was hashed without a fingerprint raises
-- after its counters, and the scanner reports it.
unfoldable pub record_counted : String → Bool → Option String → ℕ → Walk → Bool × Walk
unfolding add_key
record_counted key true (some fingerprint) size r = (
  true,
  record r {
    hashed = r.hashed + 1;
    bytes_hashed = r.bytes_hashed + size;
    current = put key fingerprint r.current;
  },
)
record_counted key true none size r =
    (false, record r { hashed = r.hashed + 1; bytes_hashed = r.bytes_hashed + size })
record_counted key false fingerprint size r = (
  true,
  record r {
    unresolved_in_progress = r.unresolved_in_progress + 1;
    unresolved = add_key key r.unresolved;
  },
)

-- `record_successful_hash`
unfoldable pub record_hash : World → Answers → Visit → Walk → Walk
record_hash world answers v r =
    let key = snapshot_path_key world.host v.path in
    let (returned, recorded) = record_counted key v.is_hashed v.fingerprint v.size r in
    if returned then pulse world answers v.recorded_at key recorded else recorded

-- `record_inspection`: an inspection that failed evicts the file from `previous`.
unfoldable pub evict : World → Visit → Walk → Walk
unfolding forget
evict world v r = if v.is_hashed then r else record r { watcher = forget world v.path r.watcher }

-- The two callbacks around the inspection of one file.
unfoldable pub visit_file : World → Answers → Mode → Visit → Walk → Walk
visit_file world answers mode v r =
    let (inspects, filtered) = changed_since world answers mode v r in
    if inspects then record_hash world answers v (evict world v filtered) else filtered

unfoldable pub visit_all : World → Answers → Mode → List Visit → Walk → Walk
visit_all world answers mode [] r = r
visit_all world answers mode (v ∷ vs) r =
    visit_all world answers mode vs (visit_file world answers mode v r)

abbrev pub one_if_full : Mode → ℕ
one_if_full full = 1
one_if_full _ = 0

-- The first statements of the call.
unfoldable pub begin_walk : Mode → ℕ → Watcher → Walk
begin_walk mode now w = record {
  watcher = record w {
    stats = record w.stats {
      reconciliations = w.stats.reconciliations + 1;
      full_reconciliations = w.stats.full_reconciliations + one_if_full mode;
    };
  };
  current = [];
  unresolved = [];
  observed = 0;
  unchanged = 0;
  hashed = 0;
  bytes_hashed = 0;
  unresolved_in_progress = 0;
  next_heartbeat = now + w.config.heartbeat;
  next_drain = now;
}

abbrev pub event_name : Mode → String
event_name inventory = "metadata_inventory_completed"
event_name full = "scan_completed"
event_name periodic = "reconciliation_completed"

abbrev pub no_hash_outcome : Mode → Option Outcome
no_hash_outcome inventory = some metadata_inventory_complete
no_hash_outcome full = none
no_hash_outcome periodic = some no_metadata_changes

abbrev pub is_inventory : Mode → Bool
is_inventory inventory = true
is_inventory _ = false

-- The condition under which the session is complete again.
unfoldable pub has_recovered : Mode → List ScanIssue → ScanStats → List String → ℕ → Watcher → Bool
has_recovered mode issues stats unresolved generation w =
    not (is_inventory mode)
    && is_empty issues
    && stats.skipped_special == 0
    && stats.skipped_too_large == 0
    && is_empty unresolved
    && not w.events.overflowed
    && not (is_some w.event_ingest_failure)
    && not w.persistent_operational_incomplete
    && w.incomplete_generation == generation
    && w.operational_incomplete

unfoldable pub recover : Watcher → Watcher
unfolding emit
recover w = emit (heartbeat_note false) (record w { operational_incomplete = false })

-- The new cache and the counters.
unfoldable pub take_walk : Walk → Watcher → Watcher
take_walk r w = record w {
  snapshot = r.current;
  stats = record w.stats {
    metadata_files_observed = w.stats.metadata_files_observed + r.observed;
    metadata_files_unchanged = w.stats.metadata_files_unchanged + r.unchanged;
    unresolved_files = length r.unresolved;
  };
}

-- The statements after the scan.
unfoldable pub end_walk : Mode → List ScanIssue → ScanStats → ℕ → Walk → Watcher → Watcher
end_walk mode issues stats generation r w =
    let taken = take_walk r w in
    if has_recovered mode issues stats r.unresolved generation taken then recover taken else taken

-- `_reconcile`: `files` are the files that the scanner meets and `run` is what the scan returns. The visits have
-- made their evictions, so the scan batch makes none for inspected files.
unfoldable pub reconcile : World → Answers → Mode → ℕ → List Visit → ScanRun → Watcher → Watcher
reconcile world answers mode now files run w =
    let walked = visit_all world answers mode files (begin_walk mode now w) in
    end_walk mode (retained_issues world false run) run.result.stats w.incomplete_generation walked
      (scan_paths world (event_name mode) (no_hash_outcome mode) false
        (record run { inspected = [] }) walked.watcher)
