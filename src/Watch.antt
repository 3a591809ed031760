-- ===== src/Watch.antt =====
-- src/zsec_shield/watcher.py: foreground monitoring of file changes.
pub mod Queue
pub mod Config
pub mod State
pub mod Scan
pub mod Honesty
pub mod Outcomes
pub mod Pending
pub mod Health
pub mod Closing
pub mod Reconcile
pub mod Visits
pub mod Recovery
pub mod Observer
