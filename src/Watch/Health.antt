-- ===== src/Watch/Health.antt =====
-- The health checks of the watcher of src/zsec_shield/watcher.py and the end of a session: `_backend_is_healthy`,
-- `_roots_are_healthy`, `_stats_snapshot`, and the `finally` block and the summary of `run`.
use zsec_shield.Prelude.{
  ℕ, ◌+◌, Bool, true, false, not, ◌&&◌, ◌||◌, Option, none, some, String, List, [], ◌∷◌, ◌++◌,
  codes, ltb, ◌==◌, if◌then◌else◌, max,
}
use zsec_shield.Host.{Host, Stat}
use zsec_shield.Watch.Config.{WatchRoot, is_link, is_directory}
use zsec_shield.Watch.Queue.{ingest}
use zsec_shield.Watch.Queue.Readout.{Telemetry, telemetry}
use zsec_shield.Watch.State.{
  Text, Watcher, WatchStats, Outcome, completed_note, emit, health_issue, decimal,
  event_pipeline_is_healthy, session_outcome,
}

-- `lstat` of a root, or the text of its OSError
pub data RootLook : Type 0 where
  seen : Stat → RootLook
  failed_look : Text → RootLook

-- `_backend_is_healthy`, for an observer that is alive or not and the name of the backend
unfoldable pub backend_is_healthy : Bool → Text → Watcher → Bool × Watcher
backend_is_healthy true backend w = (true, w)
backend_is_healthy false backend w = (
  false,
  health_issue "watch_backend_stopped"
      (backend ++ codes " watch backend stopped unexpectedly; coverage is unknown") w,
)

abbrev pub differs : ℕ → ℕ → Bool
differs known now = ltb 0 known && ltb 0 now && not (known == now)

unfoldable pub is_plain_directory : Stat → Bool
is_plain_directory s = is_directory s && not (is_link s)

unfoldable pub same_identity : WatchRoot → Stat → Bool
same_identity root s = not (differs root.device s.device || differs root.inode s.inode)

-- The body of the loop over the roots: the first complaint about one root, its code and its message.
unfoldable pub root_complaint : RootLook → WatchRoot → Option (String × Text)
unfolding is_plain_directory same_identity
root_complaint (failed_look error) root = some (
  "watch_root_unavailable",
  codes "watch root failed: " ++ (codes root.path ++ (codes ": " ++ error)),
)
root_complaint (seen s) root =
    if not (is_plain_directory s)
    then some (
      "watch_root_identity_changed",
      codes "watch root is no longer the original regular directory: " ++ codes root.path,
    )
    else if not (same_identity root s)
    then some (
      "watch_root_identity_changed",
      codes "watch root device/inode changed: " ++ codes root.path,
    )
    else none

abbrev pub report_complaint : Option (String × Text) → Bool × Watcher → Watcher → Bool × Watcher
report_complaint none later w = later
report_complaint (some (code, message)) later w = (false, health_issue code message w)

-- The loop of `_roots_are_healthy`.
unfoldable pub check_roots : (String → RootLook) → List WatchRoot → Watcher → Bool × Watcher
check_roots lstat [] w = (true, w)
check_roots lstat (r ∷ rs) w =
    report_complaint (root_complaint (lstat r.path) r) (check_roots lstat rs w) w

-- `_roots_are_healthy`
unfoldable pub roots_are_healthy : (String → RootLook) → Watcher → Bool × Watcher
unfolding check_roots
roots_are_healthy lstat w = check_roots lstat w.roots w

-- The counters of the queue as they enter the session's statistics: `_stats_snapshot`, and the same
-- assignments at the end of `run`.
unfoldable pub stats_snapshot : Telemetry → WatchStats → WatchStats
stats_snapshot t s = record s {
  events_received = t.events_received;
  events_debounced = t.events_debounced;
  events_excluded = t.events_excluded;
  events_dropped = s.events_dropped + t.events_dropped;
  pending_high_water = max s.pending_high_water t.pending_high_water;
  oldest_pending_milliseconds = t.oldest_pending_milliseconds;
  event_queue_capacity = t.event_queue_capacity;
  event_queue_raw_depth = t.event_queue_raw_depth;
  event_queue_pending_paths = t.event_queue_pending_paths;
  event_queue_total_depth = t.event_queue_total_depth;
}

unfoldable pub take_telemetry : Telemetry → Watcher → Watcher
unfolding stats_snapshot
take_telemetry t w = record w { stats = stats_snapshot t w.stats }

-- The ingestion worker that is still alive after its deadline.
unfoldable pub report_worker : Bool → Watcher → Watcher
report_worker true w =
    health_issue "watch_event_ingest_stopped"
      (codes "event ingestion worker did not stop within its bounded deadline") w
report_worker false w = w

abbrev pub backlog_answer : Bool → ℕ → Watcher → Watcher
backlog_answer true depth w =
    health_issue "watch_event_backlog_unprocessed"
      (codes "observer stopped with "
        ++ (decimal depth ++ codes " queued path(s) not scanned; coverage is unknown"))
      w
backlog_answer false depth w = w

unfoldable pub report_backlog : ℕ → Watcher → Watcher
report_backlog depth w = backlog_answer (ltb 0 depth) depth w

unfoldable pub final_ingest : Host → Watcher → Watcher
final_ingest os w = record w { events = ingest os w.events }

-- The reports of the `finally` block, from the join of the worker to the backlog.
unfoldable pub final_reports : Host → ℕ → Bool → Watcher → Watcher
final_reports os now worker_alive w =
    let checked = (event_pipeline_is_healthy (final_ingest os (report_worker worker_alive w))).1 in
    report_backlog (telemetry now checked.events).event_queue_total_depth checked

-- The whole block, the summary and its record.
unfoldable pub close_session : Host → ℕ → Bool → Bool → Watcher → Outcome × Watcher
close_session os now worker_alive interrupted w =
    let reported = final_reports os now worker_alive w in
    let closed = take_telemetry (telemetry now reported.events) reported in
    (
      session_outcome interrupted closed,
      emit (completed_note (session_outcome interrupted closed)) closed,
    )
