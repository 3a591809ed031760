-- ===== src/Tests/Watch.antt =====
-- A watcher of one root whose scan finds one file that cannot be read and one match.
use zsec_shield.Prelude.{
  ◌≡◌, true, false, none, some, String, List, [], ◌∷◌, refl, str_eq, All, codes, ok, ◌>>=◌, guard,
  or_raise, leb_text, if◌then◌else◌,
}
use zsec_shield.Host.{Host, Stat, directory, path_key, is_within}
use zsec_shield.Prelude.Sort.{sorted}
use zsec_shield.Models.{ScanIssue, FileFinding, new_stats, high}
use zsec_shield.Watch.Config.{
  WatchConfig, WatchRoot, candidate, candidates, distinct_roots, root_le, normalize_watch_roots,
  is_empty,
}
use zsec_shield.Watch.Config.Roots.{IsCoveredBy, IsSeparate, normalize_watch_roots_covers}
use zsec_shield.Watch.Queue.{new}
use zsec_shield.Watch.State.{Watcher, WatchStats}
use zsec_shield.Watch.Scan.{World, ScanRun, partial, scan_paths}
use zsec_shield.Watch.Honesty.{IsHonest, scan_paths-IsHonest}

abbrev pub host : Host
host = record {
  abspath = λ p. p;
  normalize = λ p. p;
  commonpath = λ a b. if str_eq a b then some b else none;
  sha256_path = λ p. p;
}

abbrev pub folder : Stat
folder = record {
  kind = directory;
  reparse = false;
  device = 1;
  inode = 2;
  size = 0;
  modified_ns = 0;
}

abbrev pub root_a : WatchRoot
root_a = record { path = "/a"; key = "/a"; device = 1; inode = 2 }

abbrev root_bb : WatchRoot
root_bb = record { path = "/bb"; key = "/bb"; device = 1; inode = 2 }

abbrev asked : List String
asked = "/bb" ∷ "/a" ∷ "/bb" ∷ []

found :
    candidates host (λ p. some folder) (path_key host "/state") asked
    ≡ ok (root_bb ∷ root_a ∷ root_bb ∷ [])
unfolding candidates ◌>>=◌ candidate guard is_within path_key or_raise
found = refl

normalized :
    normalize_watch_roots host (λ p. some folder) "/state" asked ≡ ok (root_a ∷ root_bb ∷ [])
unfolding normalize_watch_roots ◌>>=◌ candidates candidate guard is_within path_key or_raise
    distinct_roots sorted root_le leb_text
normalized = refl

normalize_watch_roots_covers_example :
    (is_empty (root_a ∷ root_bb ∷ []) ≡ false)
    × All (IsCoveredBy host (root_a ∷ root_bb ∷ [])) (root_bb ∷ root_a ∷ root_bb ∷ [])
    × IsSeparate host [] (root_a ∷ root_bb ∷ [])
normalize_watch_roots_covers_example =
    normalize_watch_roots_covers host (λ p. some folder) "/state" asked
      (root_bb ∷ root_a ∷ root_bb ∷ []) (root_a ∷ root_bb ∷ []) found normalized

abbrev pub world : World
world = record { host = host; casefold = codes; is_absent = λ p. false; quarantine = λ f. partial }

abbrev config : WatchConfig
config = record {
  roots = "/a" ∷ [];
  state_dir = "/state";
  backend = "auto";
  debounce = 750;
  poll = 2000;
  reconcile = 300000;
  full_rescan = 86400000;
  cross_filesystems = false;
  quarantine = true;
  event_queue_size = 16;
  heartbeat = 30000;
}

abbrev no_stats : WatchStats
no_stats = record {
  events_received = 0;
  events_debounced = 0;
  events_excluded = 0;
  events_outside_scope = 0;
  events_cross_filesystem = 0;
  events_superseded = 0;
  events_dropped = 0;
  scan_batches = 0;
  files_hashed = 0;
  bytes_hashed = 0;
  findings = 0;
  observations = 0;
  issues = 0;
  quarantine_completed = 0;
  quarantine_partial = 0;
  quarantine_failed = 0;
  reconciliations = 0;
  full_reconciliations = 0;
  metadata_files_observed = 0;
  metadata_files_unchanged = 0;
  unresolved_files = 0;
  pending_high_water = 0;
  oldest_pending_milliseconds = 0;
  event_queue_capacity = 0;
  event_queue_raw_depth = 0;
  event_queue_pending_paths = 0;
  event_queue_total_depth = 0;
}

abbrev pub idle : Watcher
idle = record {
  config = config;
  roots = root_a ∷ [];
  events = new host ("/state" ∷ []) 750 16;
  stats = no_stats;
  health_issues = [];
  scan_issue_keys = [];
  operational_incomplete = false;
  historical_operational_incomplete = false;
  persistent_operational_incomplete = false;
  incomplete_generation = 0;
  snapshot = [];
  event_ingest_failure = none;
  raised = false;
  record_sequence = 0;
  emitted = [];
}

pub idle-IsHonest : IsHonest idle
idle-IsHonest = record {
  persistent = λ h. h;
  operational = λ h. h;
  counted = refl;
  numbered = refl;
}

abbrev unreadable : ScanIssue
unreadable = record { path = "/a/x"; code = "file_open_failed"; message = "permission denied" }

abbrev match : FileFinding
match = record {
  path = "/a/y";
  sha256 = "00";
  size = 2;
  modified_at = "now";
  severity = high;
  matches = [];
}

abbrev pub run : ScanRun
run = record {
  result = record {
    roots = "/a" ∷ [];
    findings = match ∷ [];
    observations = [];
    issues = unreadable ∷ [];
    stats = new_stats 1;
  };
  inspected = ("/a/x", false) ∷ ("/a/y", true) ∷ [];
}

scan_paths-IsHonest_example : IsHonest (scan_paths world "scan_batch" none false run idle)
scan_paths-IsHonest_example =
    scan_paths-IsHonest world "scan_batch" none false run idle idle-IsHonest
