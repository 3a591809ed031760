-- ===== src/Tests/Session.antt =====
-- The idle watcher through a due path, its health checks, a reconciliation and its end.
use zsec_shield.Prelude.{◌≡◌, ◌≢◌, true, false, some, String, [], ◌∷◌, refl, All}
use zsec_shield.Watch.Config.{WatchRoot}
use zsec_shield.Watch.Queue.{PendingPath, created, new, ingest}
use zsec_shield.Watch.Queue.Readout.{telemetry}
use zsec_shield.Watch.State.{
  incomplete, no_configured_rule_matches, event_pipeline_is_healthy, session_outcome,
}
use zsec_shield.Watch.Pending.{missing, scan_pending, IsVisible, scan_pending-IsVisible}
use zsec_shield.Watch.Health.{
  RootLook, seen, roots_are_healthy, close_session, final_reports, report_worker, report_backlog,
  final_ingest, take_telemetry,
}
use zsec_shield.Watch.Closing.{
  IsUnchanged, roots_are_healthy_exact, IsDrained, close_session-IsDrained,
}
use zsec_shield.Watch.Reconcile.{Answers, Visit}
use zsec_shield.Tests.Watch.{host, folder, world, idle, run}

abbrev pending : PendingPath
pending = record { path = "/a"; event_types = created ∷ []; first_seen_at = 0; due_at = 10 }

scan_pending-IsVisible_example :
    IsVisible world run idle (scan_pending world missing run pending idle)
scan_pending-IsVisible_example = scan_pending-IsVisible world missing run pending idle

abbrev look : String → RootLook
look path = seen folder

roots_are_healthy_exact_example :
    ((roots_are_healthy look idle).0 ≡ true
      → All (λ (r : WatchRoot). IsUnchanged (look r.path) r) idle.roots
        × ((roots_are_healthy look idle).1 ≡ idle))
    × ((roots_are_healthy look idle).0 ≡ false
        → (roots_are_healthy look idle).1.historical_operational_incomplete ≡ true)
roots_are_healthy_exact_example = roots_are_healthy_exact look idle

closed : (close_session host 10 false false idle).0 ≡ no_configured_rule_matches
unfolding close_session final_reports report_worker report_backlog final_ingest
    event_pipeline_is_healthy new ingest telemetry session_outcome take_telemetry
closed = refl

not_incomplete : (close_session host 10 false false idle).0 ≢ incomplete
not_incomplete h = cc (closed, h)

close_session-IsDrained_example : IsDrained host false idle
close_session-IsDrained_example = close_session-IsDrained host 10 false idle not_incomplete

abbrev answers : Answers
answers p = (missing, run)

abbrev visit : Visit
visit = record {
  path = "/a/y";
  fingerprint = some "y1";
  size = 2;
  is_hashed = true;
  filtered_at = 1;
  recorded_at = 2;
}
