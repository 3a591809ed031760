-- ===== src/Watch/State.antt =====
-- The state of a `ForegroundProtectionWatcher` of src/zsec_shield/watcher.py, its counters, its records
-- and `_health_issue`. A message is the list of its code points.
use zsec_shield.Prelude.{
  ℕ, zero, suc, ◌+◌, ◌/◌, ◌%◌, Bool, true, false, not, ◌&&◌, ◌||◌, Option, none, some, String, List,
  [], ◌∷◌, ◌++◌, str_eq, ltb, ◌==◌, if◌then◌else◌, any, codes, take, map, text_in,
}
use zsec_shield.Prelude.Dict.{Dict}
use zsec_shield.Models.{ScanIssue}
use zsec_shield.Watch.Config.{WatchConfig, WatchRoot}
use zsec_shield.Watch.Queue.{Queue, clear_overflow}

abbrev pub Text : Type 0
Text = List ℕ

pub record WatchStats : Type 0 where
  pub events_received : ℕ
  pub events_debounced : ℕ
  pub events_excluded : ℕ
  pub events_outside_scope : ℕ
  pub events_cross_filesystem : ℕ
  pub events_superseded : ℕ
  pub events_dropped : ℕ
  pub scan_batches : ℕ
  pub files_hashed : ℕ
  pub bytes_hashed : ℕ
  pub findings : ℕ
  pub observations : ℕ
  pub issues : ℕ
  pub quarantine_completed : ℕ
  pub quarantine_partial : ℕ
  pub quarantine_failed : ℕ
  pub reconciliations : ℕ
  pub full_reconciliations : ℕ
  pub metadata_files_observed : ℕ
  pub metadata_files_unchanged : ℕ
  pub unresolved_files : ℕ
  pub pending_high_water : ℕ
  pub oldest_pending_milliseconds : ℕ
  pub event_queue_capacity : ℕ
  pub event_queue_raw_depth : ℕ
  pub event_queue_pending_paths : ℕ
  pub event_queue_total_depth : ℕ

pub record HealthIssue : Type 0 where
  pub code : String
  pub message : Text

-- The outcomes of batches and sessions.
pub data Outcome : Type 0 where
  interrupted incomplete configured_rule_matches_detected review_observations : Outcome
  no_configured_rule_matches metadata_inventory_complete no_metadata_changes : Outcome

-- What `_emit` hands to the callback: the event's name and the fields that later readers rely on.
pub data Note : Type 0 where
  health_note : HealthIssue → Note
  superseded_note : ℕ → ℕ → Note  -- the count, and the sample paths
  scan_note : String → Outcome → List String → Note  -- event, outcome, quarantine states
  heartbeat_note : Bool → Note  -- operational_incomplete
  completed_note : Outcome → Note  -- outcome
  fallback_note : Text → Note  -- the reason for the polling backend

-- `_health_issue_keys` holds the pairs of `health_issues`, so one list stands for both.
pub record Watcher : Type 0 where
  pub config : WatchConfig
  pub roots : List WatchRoot
  pub events : Queue
  pub stats : WatchStats
  pub health_issues : List HealthIssue
  pub scan_issue_keys : List ScanIssue
  pub operational_incomplete : Bool
  pub historical_operational_incomplete : Bool
  pub persistent_operational_incomplete : Bool
  pub incomplete_generation : ℕ
  pub snapshot : Dict String
  pub event_ingest_failure : Option Text
  pub raised : Bool  -- an exception that nothing catches has left `run`: there is no further step and no summary
  pub record_sequence : ℕ
  pub emitted : List (ℕ × Note)

-- `_emit`
unfoldable pub emit : Note → Watcher → Watcher
emit note w = record w {
  record_sequence = w.record_sequence + 1;
  emitted = w.emitted ++ (w.record_sequence + 1, note) ∷ [];
}

-- `message.replace("\r", " ").replace("\n", " ")[:500]`
abbrev pub one_line : ℕ → ℕ
one_line c = if c == 13 then 32 else if c == 10 then 32 else c

unfoldable pub sanitize : Text → Text
sanitize message = take 500 (map one_line message)

abbrev pub codes_eq : Text → Text → Bool
codes_eq [] [] = true
codes_eq (x ∷ xs) (y ∷ ys) = x == y && codes_eq xs ys
codes_eq _ _ = false

abbrev pub same_issue : HealthIssue → HealthIssue → Bool
same_issue a b = str_eq a.code b.code && codes_eq a.message b.message

-- The flags that every health issue sets, a repeated one too.
unfoldable pub mark_incomplete : String → Watcher → Watcher
mark_incomplete code w = record w {
  operational_incomplete = true;
  historical_operational_incomplete = true;
  incomplete_generation = w.incomplete_generation + 1;
  persistent_operational_incomplete =
      w.persistent_operational_incomplete
      || not (text_in code ("watch_path_unreadable" ∷ "scan_scope_incomplete" ∷ []));
}

-- `self._stats.issues += n`
unfoldable pub count_issues : ℕ → Watcher → Watcher
count_issues n w = record w { stats = record w.stats { issues = w.stats.issues + n } }

-- `_health_issue`
unfoldable pub health_issue : String → Text → Watcher → Watcher
unfolding emit sanitize mark_incomplete count_issues
health_issue code message w =
    let issue : HealthIssue = record { code = code; message = sanitize message } in
    let marked = mark_incomplete code w in
    if any (same_issue issue) w.health_issues
    then marked
    else emit (health_note issue)
        (count_issues 1 (record marked { health_issues = w.health_issues ++ issue ∷ [] }))

-- `str(n)`, by the digits from the last
decimal_from : ℕ → ℕ → Text → Text
decimal_from zero n later = later
decimal_from (suc fuel) n later =
    let shown = (b'0' + n % 10) ∷ later in
    let rest = decimal_from fuel (n / 10) shown in if ltb n 10 then shown else rest

unfoldable pub decimal : ℕ → Text
unfolding decimal_from
decimal n = decimal_from (suc n) n []

-- The lost events are counted and the queue's overflow signal is cleared.
unfoldable pub report_overflow : Watcher → Watcher
unfolding health_issue clear_overflow decimal
report_overflow w =
    let (dropped, cleared) = clear_overflow w.events in
    health_issue "watch_event_queue_overflow"
      (codes "lost "
        ++ (decimal dropped ++ codes " queued filesystem event(s); coverage is unknown"))
      (record w {
        events = cleared;
        stats = record w.stats { events_dropped = w.stats.events_dropped + dropped };
      })

-- The branches over `_event_ingest_failure` and `overflowed`.
abbrev pub pipeline_answer : Option Text → Bool → Watcher → Bool × Watcher
pipeline_answer (some failure) overflowed w = (
  false,
  health_issue "watch_event_ingest_stopped"
      (codes "event ingestion stopped unexpectedly: " ++ failure) w,
)
pipeline_answer none true w = (false, report_overflow w)
pipeline_answer none false w = (true, w)

-- `_event_pipeline_is_healthy`
unfoldable pub event_pipeline_is_healthy : Watcher → Bool × Watcher
event_pipeline_is_healthy w = pipeline_answer w.event_ingest_failure w.events.overflowed w

-- The outcome of a session: the property `outcome` of `WatchSummary`, whose `operational_incomplete` is
-- `self._operational_incomplete or self._historical_operational_incomplete`.
unfoldable pub session_outcome : Bool → Watcher → Outcome
session_outcome stopped w =
    if stopped
    then interrupted
    else if w.operational_incomplete || w.historical_operational_incomplete
    then incomplete
    else if ltb 0 w.stats.findings
    then configured_rule_matches_detected
    else if ltb 0 w.stats.observations
    then review_observations
    else no_configured_rule_matches
