-- ===== src/Watch/Closing.antt =====
-- What the health checks and the end of a session promise.
use zsec_shield.Prelude.{
  ℕ, ◌+◌, ◌≡◌, ◌≢◌, inl, inr, Bool, true, false, Option, none, some, String, List, [], ◌∷◌, refl,
  arith, subst, ltb, length, Bool-cases, All,
}
use zsec_shield.Host.{Host, Stat}
use zsec_shield.Watch.Config.{WatchRoot}
use zsec_shield.Watch.Queue.{ingest}
use zsec_shield.Watch.Queue.Readout.{telemetry}
use zsec_shield.Watch.State.{
  Text, Watcher, incomplete, health_issue, report_overflow, pipeline_answer,
  event_pipeline_is_healthy, session_outcome,
}
use zsec_shield.Watch.Honesty.{health_issue-flags}
use zsec_shield.Watch.Health.{
  RootLook, seen, failed_look, is_plain_directory, same_identity, root_complaint, report_complaint,
  check_roots, roots_are_healthy, report_worker, backlog_answer, report_backlog, final_ingest,
  final_reports, take_telemetry, close_session,
}

-- A root that is still a plain directory of the device and the inode it had.
pub record IsUnchanged (look : RootLook) (root : WatchRoot) : Type 0 where
  pub metadata : Stat
  pub answered : look ≡ seen metadata
  pub plain : is_plain_directory metadata ≡ true
  pub identity : same_identity root metadata ≡ true

no_complaint :
    (look : RootLook) (root : WatchRoot) → root_complaint look root ≡ none → IsUnchanged look root
unfolding root_complaint
no_complaint (failed_look e) root h = cc
no_complaint (seen s) root h = record {
  metadata = s;
  answered = refl;
  plain = ground arith;
  identity = ground arith;
}

check_roots-IsUnchanged :
    (lstat : String → RootLook) (rs : List WatchRoot) (w : Watcher)
    → (check_roots lstat rs w).0 ≡ true
    → All (λ (r : WatchRoot). IsUnchanged (lstat r.path) r) rs × ((check_roots lstat rs w).1 ≡ w)
unfolding check_roots
check_roots-IsUnchanged lstat [] w h = (tt, refl)
check_roots-IsUnchanged lstat (r ∷ rs) w h =
    go (root_complaint (lstat r.path) r) (check_roots-IsUnchanged lstat rs w) refl h
  where
    go :
        (c : Option (String × Text))
        → ((check_roots lstat rs w).0 ≡ true
            → All (λ (r : WatchRoot). IsUnchanged (lstat r.path) r) rs
              × ((check_roots lstat rs w).1 ≡ w))
        → root_complaint (lstat r.path) r ≡ c
        → (report_complaint c (check_roots lstat rs w) w).0 ≡ true
        → All (λ (r : WatchRoot). IsUnchanged (lstat r.path) r) (r ∷ rs)
          × ((report_complaint c (check_roots lstat rs w) w).1 ≡ w)
    go none rest e g =
        let (all_rest, same) = rest g in ((no_complaint (lstat r.path) r e, all_rest), same)
    go (some (code, message)) rest e g = cc

check_roots-flags :
    (lstat : String → RootLook) (rs : List WatchRoot) (w : Watcher)
    → (check_roots lstat rs w).0 ≡ false
    → (check_roots lstat rs w).1.historical_operational_incomplete ≡ true
unfolding check_roots
check_roots-flags lstat [] w h = cc
check_roots-flags lstat (r ∷ rs) w h =
    go (root_complaint (lstat r.path) r) (check_roots-flags lstat rs w) h
  where
    go :
        (c : Option (String × Text))
        → ((check_roots lstat rs w).0 ≡ false
            → (check_roots lstat rs w).1.historical_operational_incomplete ≡ true)
        → (report_complaint c (check_roots lstat rs w) w).0 ≡ false
        → (report_complaint c (check_roots lstat rs w) w).1.historical_operational_incomplete ≡ true
    go none rest g = rest g
    go (some (code, message)) rest g = (health_issue-flags code message w).1

-- The check of the roots passes only if every root is still a plain directory of its identity, and then changes
-- nothing; if it does not pass, the session is remembered as incomplete.
pub roots_are_healthy_exact :
    (lstat : String → RootLook) (w : Watcher)
    → ((roots_are_healthy lstat w).0 ≡ true
        → All (λ (r : WatchRoot). IsUnchanged (lstat r.path) r) w.roots
          × ((roots_are_healthy lstat w).1 ≡ w))
      × ((roots_are_healthy lstat w).0 ≡ false
          → (roots_are_healthy lstat w).1.historical_operational_incomplete ≡ true)
unfolding roots_are_healthy
roots_are_healthy_exact lstat w =
    (check_roots-IsUnchanged lstat w.roots w, check_roots-flags lstat w.roots w)

flagged_is_loud :
    (code : String) (m : Text) (w : Watcher)
    → (health_issue code m w).historical_operational_incomplete ≢ false
flagged_is_loud code m w h = cc ((health_issue-flags code m w).1)

backlog_answer-quiet :
    (some_left : Bool) (depth : ℕ) (w : Watcher)
    → (backlog_answer some_left depth w).historical_operational_incomplete ≡ false
    → (some_left ≡ false) × (backlog_answer some_left depth w ≡ w)
backlog_answer-quiet true depth w h = absurd (flagged_is_loud _ _ w h)
backlog_answer-quiet false depth w h = (refl, refl)

none_left : (depth : ℕ) → ltb 0 depth ≡ false → depth ≡ 0
none_left depth h = ground arith

report_worker-quiet :
    (alive : Bool) (w : Watcher)
    → (report_worker alive w).historical_operational_incomplete ≡ false
    → (alive ≡ false) × (report_worker alive w ≡ w)
unfolding report_worker
report_worker-quiet true w h = absurd (flagged_is_loud _ _ w h)
report_worker-quiet false w h = (refl, refl)

-- An event pipeline that has neither failed nor overflowed.
abbrev pub IsPipelineSound : Watcher → Type 0
IsPipelineSound w = (w.event_ingest_failure ≡ none) × (w.events.overflowed ≡ false)

report_overflow_flags : (w : Watcher) → (report_overflow w).historical_operational_incomplete ≡ true
unfolding report_overflow health_issue
report_overflow_flags w = ground arith

pipeline_answer-quiet :
    (failure : Option Text) (overflowed : Bool) (w : Watcher)
    → (pipeline_answer failure overflowed w).1.historical_operational_incomplete ≡ false
    → (failure ≡ none) × (overflowed ≡ false) × ((pipeline_answer failure overflowed w).1 ≡ w)
pipeline_answer-quiet (some failure) overflowed w h = absurd (flagged_is_loud _ _ w h)
pipeline_answer-quiet none true w h = cc (report_overflow_flags w, h)
pipeline_answer-quiet none false w h = (refl, refl, refl)

-- A session whose closing reports nothing: the worker has stopped, the pipeline is sound, and no path waits in the
-- queue, raw or pending.
pub record IsDrained (os : Host) (worker_alive : Bool) (w : Watcher) : Type 0 where
  pub stopped : worker_alive ≡ false
  pub not_failed : w.event_ingest_failure ≡ none
  pub not_overflowed : (ingest os w.events).overflowed ≡ false
  pub empty : length (ingest os w.events).raw + length (ingest os w.events).pending ≡ 0

final_reports-quiet :
    (os : Host) (now : ℕ) (alive : Bool) (w : Watcher)
    → (final_reports os now alive w).historical_operational_incomplete ≡ false
    → IsDrained os alive w
unfolding final_reports event_pipeline_is_healthy final_ingest telemetry report_backlog
final_reports-quiet os now alive w h =
    let reported = report_worker alive w in
    let ingested = final_ingest os reported in
    let (none_pending, unreported) = backlog_answer-quiet _ _ _ h in
    let checked : (event_pipeline_is_healthy ingested).1.historical_operational_incomplete ≡ false =
      subst (λ (v : Watcher). v.historical_operational_incomplete ≡ false) unreported h in
    let (not_failed, not_overflowed, same) = pipeline_answer-quiet _ _ ingested checked in
    let (stopped, same_worker) =
      report_worker-quiet alive w
        (subst (λ (v : Watcher). v.historical_operational_incomplete ≡ false) same checked) in
    let depth_of : Watcher → ℕ = λ v. (telemetry now v.events).event_queue_total_depth in
    let left : depth_of (final_ingest os w) ≡ 0 =
      subst (λ (v : Watcher). depth_of (final_ingest os v) ≡ 0) same_worker
        (subst (λ (v : Watcher). depth_of v ≡ 0) same (none_left _ none_pending)) in
    record {
      stopped = stopped;
      not_failed = subst (λ (v : Watcher). v.event_ingest_failure ≡ none) same_worker not_failed;
      not_overflowed =
          subst (λ (v : Watcher). (ingest os v.events).overflowed ≡ false) same_worker
            not_overflowed;
      empty = left;
    }

not_incomplete :
    (w : Watcher)
    → session_outcome false w ≢ incomplete
    → w.historical_operational_incomplete ≡ false
unfolding session_outcome
not_incomplete w h = elim (Bool-cases w.historical_operational_incomplete) [
  | inl e ↦ absurd (h (ground arith))
  | inr e ↦ e
]

-- If the closing of a session that was not interrupted does not report it as incomplete, the ingestion worker has
-- stopped, no ingestion has failed, the overflow signal is not set, and no path is left in the queue, raw or pending.
pub close_session-IsDrained :
    (os : Host) (now : ℕ) (alive : Bool) (w : Watcher)
    → (close_session os now alive false w).0 ≢ incomplete
    → IsDrained os alive w
unfolding close_session take_telemetry
close_session-IsDrained os now alive w h = final_reports-quiet os now alive w (not_incomplete _ h)
