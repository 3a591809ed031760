-- ===== src/Watch/Pending.antt =====
-- `_scope_for` and `_scan_pending` of src/zsec_shield/watcher.py: one path that is due.
use zsec_shield.Prelude.{
  ℕ, ◌+◌, ◌≡◌, ◌⊎◌, inl, inr, Bool, true, not, ◌&&◌, Option, none, some, String, List, [], ◌∷◌,
  ◌++◌, refl, arith, codes, ltb, ◌==◌, if◌then◌else◌, length-append, Bool-cases,
}
use zsec_shield.Host.{Host, path_key, is_within, Stat}
use zsec_shield.Watch.Config.{WatchRoot}
use zsec_shield.Watch.Queue.{PendingPath}
use zsec_shield.Watch.State.{Text, Watcher, superseded_note, emit, health_issue}
use zsec_shield.Watch.Scan.{World, ScanRun, forget, scan_paths}
use zsec_shield.Watch.Honesty.{
  IsHonest, health_issue-IsHonest, health_issue-flags, scan_paths-IsHonest,
}

-- What `lstat` answers: FileNotFoundError is `missing`, any other OSError comes with its text.
pub data Looked : Type 0 where
  found : Stat → Looked
  missing : Looked
  unreadable : Text → Looked

-- `_scope_for`
unfoldable pub scope_for : Host → String → List WatchRoot → Option WatchRoot
scope_for os path [] = none
scope_for os path (r ∷ rs) =
    let rest = scope_for os path rs in
    if is_within os (path_key os path) r.key then some r else rest

-- A device that both sides know, and that differs.
unfoldable pub crosses : Bool → ℕ → ℕ → Bool
crosses cross_filesystems scope device =
    not cross_filesystems && ltb 0 scope && ltb 0 device && not (device == scope)

unfoldable pub outside_scope : Watcher → Watcher
outside_scope w = record w {
  stats = record w.stats { events_outside_scope = w.stats.events_outside_scope + 1 };
}

-- The path has gone before its scan.
unfoldable pub supersede : World → String → Watcher → Watcher
unfolding forget emit
supersede world path w = emit (superseded_note 1 1) (
    forget world path
      (record w { stats = record w.stats { events_superseded = w.stats.events_superseded + 1 } }))

-- The path is on another file system than its root.
unfoldable pub cross_filesystem : String → Watcher → Watcher
cross_filesystem path w =
    health_issue "watch_cross_filesystem_skipped"
      (codes "event crossed the configured filesystem boundary: " ++ codes path)
      (record w {
        stats = record w.stats { events_cross_filesystem = w.stats.events_cross_filesystem + 1 };
      })

unfoldable pub unreadable_path : World → String → Text → Watcher → Watcher
unreadable_path world path error w =
    health_issue "watch_path_unreadable"
      (codes "cannot inspect " ++ (codes path ++ (codes ": " ++ error))) (forget world path w)

-- `_scan_pending` inside the scope of a root.
unfoldable pub scan_in_scope : World → Looked → ScanRun → String → WatchRoot → Watcher → Watcher
scan_in_scope world missing run path scope w = supersede world path w
scan_in_scope world (unreadable error) run path scope w = unreadable_path world path error w
scan_in_scope world (found metadata) run path scope w =
    if crosses w.config.cross_filesystems scope.device metadata.device
    then cross_filesystem path w
    else scan_paths world "scan_completed" none true run w

abbrev pub scan_scoped : World → Looked → ScanRun → String → Option WatchRoot → Watcher → Watcher
scan_scoped world looked run path none w = outside_scope w
scan_scoped world looked run path (some scope) w = scan_in_scope world looked run path scope w

-- `_scan_pending`, where `run` is what the scanner does on the path if it comes to that
unfoldable pub scan_pending : World → Looked → ScanRun → PendingPath → Watcher → Watcher
scan_pending world looked run pending w =
    scan_scoped world looked run pending.path (scope_for world.host pending.path w.roots) w

outside_scope-IsHonest : (w : Watcher) → IsHonest w → IsHonest (outside_scope w)
unfolding outside_scope
outside_scope-IsHonest w h = ground arith

supersede-IsHonest :
    (world : World) (path : String) (w : Watcher) → IsHonest w → IsHonest (supersede world path w)
unfolding supersede forget emit
supersede-IsHonest world path w h =
    ground (arith, length-append w.emitted ((w.record_sequence + 1, superseded_note 1 1) ∷ []))

cross_filesystem-IsHonest :
    (path : String) (w : Watcher) → IsHonest w → IsHonest (cross_filesystem path w)
unfolding cross_filesystem
cross_filesystem-IsHonest path w h = health_issue-IsHonest _ _ _ (ground arith)

unreadable_path-IsHonest :
    (world : World) (path : String) (error : Text) (w : Watcher)
    → IsHonest w
    → IsHonest (unreadable_path world path error w)
unfolding unreadable_path forget
unreadable_path-IsHonest world path error w h = health_issue-IsHonest _ _ _ (ground arith)

scan_in_scope-IsHonest :
    (world : World) (looked : Looked) (run : ScanRun) (path : String) (scope : WatchRoot)
    (w : Watcher)
    → IsHonest w
    → IsHonest (scan_in_scope world looked run path scope w)
unfolding scan_in_scope
scan_in_scope-IsHonest world missing run path scope w h = supersede-IsHonest world path w h
scan_in_scope-IsHonest world (unreadable error) run path scope w h =
    unreadable_path-IsHonest world path error w h
scan_in_scope-IsHonest world (found metadata) run path scope w h =
    elim (Bool-cases (crosses w.config.cross_filesystems scope.device metadata.device)) [
      | inl e ↦ rw e (cross_filesystem-IsHonest path w h)
      | inr e ↦ rw e (scan_paths-IsHonest world "scan_completed" none true run w h)
    ]

-- A path that is due keeps the flags, the issue counter and the record numbers honest, whatever its `lstat` and
-- its scan answer.
pub scan_pending-IsHonest :
    (world : World) (looked : Looked) (run : ScanRun) (pending : PendingPath) (w : Watcher)
    → IsHonest w
    → IsHonest (scan_pending world looked run pending w)
unfolding scan_pending
scan_pending-IsHonest world looked run pending w h = go (scope_for world.host pending.path w.roots)
  where
    go : (scope : Option WatchRoot) → IsHonest (scan_scoped world looked run pending.path scope w)
    go none = outside_scope-IsHonest w h
    go (some scope) = scan_in_scope-IsHonest world looked run pending.path scope w h

-- How a path that is due leaves a trace: scanned, counted as outside every root, counted as vanished, or
-- remembered as a gap in the coverage.
abbrev pub IsVisible : World → ScanRun → Watcher → Watcher → Type 0
IsVisible world run w after =
    (after ≡ scan_paths world "scan_completed" none true run w)
    ⊎ (after.stats.events_outside_scope ≡ w.stats.events_outside_scope + 1)
    ⊎ (after.stats.events_superseded ≡ w.stats.events_superseded + 1)
    ⊎ (after.historical_operational_incomplete ≡ true)

-- No path that `_scan_pending` is called with disappears without a trace: it is scanned, or counted as outside every root or as
-- vanished, or the session is remembered as incomplete.
pub scan_pending-IsVisible :
    (world : World) (looked : Looked) (run : ScanRun) (pending : PendingPath) (w : Watcher)
    → IsVisible world run w (scan_pending world looked run pending w)
unfolding scan_pending
scan_pending-IsVisible world looked run pending w =
    scoped (scope_for world.host pending.path w.roots)
  where
    inside :
        (l : Looked) (scope : WatchRoot)
        → IsVisible world run w (scan_in_scope world l run pending.path scope w)
    inside missing scope = inr (
        inr
          (inl (unfold scan_in_scope in unfold supersede in unfold emit in unfold forget in refl)))
    inside (unreadable error) scope = inr (
        inr (
          inr (
            unfold scan_in_scope in
            unfold unreadable_path in (health_issue-flags _ _ (forget world pending.path w)).1)))
    inside (found m) scope =
        elim (Bool-cases (crosses w.config.cross_filesystems scope.device m.device)) [
          | inl e ↦ inr (
              inr (
                inr (
                  unfold scan_in_scope in
                  rw e (unfold cross_filesystem in (health_issue-flags _ _ _).1))))
          | inr e ↦ inl (unfold scan_in_scope in rw e)
        ]

    scoped :
        (scope : Option WatchRoot)
        → IsVisible world run w (scan_scoped world looked run pending.path scope w)
    scoped none = inr (inl (unfold outside_scope in refl))
    scoped (some scope) = inside looked scope
