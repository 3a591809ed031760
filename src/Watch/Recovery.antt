-- ===== src/Watch/Recovery.antt =====
-- Proofs on `_reconcile` of src/zsec_shield/watcher.py and its end.
use zsec_shield.Prelude.{ℕ, ◌≡◌, true, false, String, List, is_some}
use zsec_shield.Models.{ScanIssue, ScanStats}
use zsec_shield.Watch.Config.{is_empty}
use zsec_shield.Watch.State.{Watcher}
use zsec_shield.Watch.Reconcile.{Mode, is_inventory}

-- What a reconciliation must have found to end the incompleteness of a watcher.
pub record HasRecovered (mode : Mode) (issues : List ScanIssue) (stats : ScanStats)
    (unresolved : List String) (generation : ℕ) (w : Watcher) : Type 0 where
  pub content_scan : is_inventory mode ≡ false
  pub no_issue : is_empty issues ≡ true
  pub no_gap : (stats.skipped_special ≡ 0) × (stats.skipped_too_large ≡ 0)
  pub resolved : is_empty unresolved ≡ true
  pub sound : (w.events.overflowed ≡ false) × (is_some w.event_ingest_failure ≡ false)
  pub not_persistent : w.persistent_operational_incomplete ≡ false
  pub same_generation : w.incomplete_generation ≡ generation
