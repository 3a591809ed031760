-- ===== src/Scanner/Soundness.antt =====
-- What the consumer of the walk keeps in `scan` of src/zsec_shield/scanner.py.
use zsec_shield.Prelude.{
  ℕ, ◌+◌, ◌≤◌, ◌≡◌, refl, sym, ap, subst, arith, Bool, true, false, Option, none, some, String,
  List, [], ◌∷◌, ltb, length, length-append, All, All-append, text_in, if◌then◌else◌,
}
use mathlib.Core.Option
use zsec_shield.Host.{Host, Stat, absolute, path_key}
use zsec_shield.Models.{FileFinding}
use zsec_shield.Scanner.{Scanner}
use zsec_shield.Scanner.File.{Pass, add_issue}
use zsec_shield.Scanner.Walk.{
  Files, Remark, excluded, link, special_file, other_filesystem, issue, note, iter_regular_files,
}
use zsec_shield.Scanner.Visits.{IsAllowed, Keeps, iter_regular_files-keeps}
use zsec_shield.Scanner.Findings.{
  IsIneligible, IsQuiet, IsBlamed, quiet-IsBlamed, IsSoundStep, scan_file-IsSoundStep,
  add_issue-IsQuiet,
}
use zsec_shield.Scanner.Run.{
  Machine, Callbacks, Batch, FilterAnswer, accepted, rejected, filter_failed, after_observer,
  observe, append_finding, after_scan, scan_visited, after_filter, filtered, unless_seen,
  deduplicated, visit, and_then, scan_roots,
}

-- A finding of a regular file, no link and not excluded, which the file system has named.
abbrev pub IsOfFile : Host → Scanner → Files → FileFinding → Type 0
IsOfFile os scanner files f =
    (path : String) × ((m : Stat) × (IsAllowed os scanner files path m
        × (f.path ≡ absolute os path)))

module _ {ℓ} {B : Type ℓ} (machine : Machine) (scanner : Scanner) (callbacks : Callbacks B) where
  abbrev pub IsSound : Pass × Batch B → Type 0
  IsSound (s, a) =
      (length a.findings ≤ s.stats.files_hashed)
      × All IsIneligible s.observations
      × All (IsOfFile machine.os scanner machine.files) a.findings
      × IsBlamed machine.digests s

  note-IsQuiet : (r : Remark) (s : Pass) → IsQuiet s (note machine.os r s)
  unfolding note
  note-IsQuiet excluded s = (refl, λ h. h, refl)
  note-IsQuiet link s = (refl, λ h. h, refl)
  note-IsQuiet special_file s = (refl, λ h. h, refl)
  note-IsQuiet other_filesystem s = (refl, λ h. h, refl)
  note-IsQuiet (issue path code error) s = add_issue-IsQuiet machine.os path code error s

  -- A quiet change of the pass, with the findings left as they are.
  quiet-IsSound :
      (s t : Pass) (a b : Batch B)
      → IsQuiet s t
      → b.findings ≡ a.findings
      → IsSound (s, a)
      → IsSound (t, b)
  quiet-IsSound s t a b q e (counted, harmless, found, blamed) = (
    omega (arith, q.0, ap (λ (xs : List FileFinding). length xs) e),
    q.1 harmless,
    subst (All (IsOfFile machine.os scanner machine.files)) (sym e) found,
    quiet-IsBlamed machine.digests s t q.2 blamed,
  )

  still-IsQuiet : (s : Pass) → IsQuiet s s
  still-IsQuiet s = (refl, λ h. h, refl)

  after_observer-IsQuiet :
      (path : String) (s : Pass) (a : Batch B) (r : Option String × B)
      → IsQuiet s (after_observer machine scanner callbacks path s a r).0
        × ((after_observer machine scanner callbacks path s a r).1.findings ≡ a.findings)
  after_observer-IsQuiet path s a (none, b) = (still-IsQuiet s, refl)
  after_observer-IsQuiet path s a (some error, b) =
      (add_issue-IsQuiet machine.os path "file_observer_failed" error s, refl)

  observe-IsQuiet :
      (o : Option (String → Stat → Bool → B → Option String × B)) (path : String) (m : Stat)
      (hashed : Bool) (s : Pass) (a : Batch B)
      → IsQuiet s (observe machine scanner callbacks o path m hashed (s, a)).0
        × ((observe machine scanner callbacks o path m hashed (s, a)).1.findings ≡ a.findings)
  observe-IsQuiet none path m hashed s a = (still-IsQuiet s, refl)
  observe-IsQuiet (some f) path m hashed s a =
      after_observer-IsQuiet path s a (f path m hashed a.caller)

  append_finding-IsSound :
      (finding : FileFinding) (s : Pass) (a : Batch B)
      → length a.findings + 1 ≤ s.stats.files_hashed
      → All IsIneligible s.observations
      → All (IsOfFile machine.os scanner machine.files) a.findings
      → IsOfFile machine.os scanner machine.files finding
      → IsBlamed machine.digests s
      → IsSound (append_finding machine scanner callbacks (some finding) (s, a))
  append_finding-IsSound finding s a counted harmless found one blamed = (
    omega (arith, counted, length-append a.findings (finding ∷ [])),
    harmless,
    All-append _ a.findings _ found (one, tt),
    blamed,
  )

  observed-IsSound :
      (path : String) (m : Stat) (hashed : Bool) (s t : Pass) (a : Batch B)
      (finding : Option FileFinding)
      → IsAllowed machine.os scanner machine.files path m
      → IsSound (s, a)
      → IsSoundStep machine.os machine.digests path s (finding, t)
      → IsSound (
          append_finding machine scanner callbacks finding
            (observe machine scanner callbacks callbacks.file_observer path m hashed (t, a)))
  observed-IsSound path m hashed s t a none allowed (counted, harmless, found, blamed) step =
      let (q, same) = observe-IsQuiet callbacks.file_observer path m hashed t a in
      let (u, b) = observe machine scanner callbacks callbacks.file_observer path m hashed (t, a) in
      quiet-IsSound t u a b q same
        (omega (arith, counted, step.0), step.1 harmless, found, step.2 blamed)
  observed-IsSound path m hashed s t a (some f) allowed (counted, harmless, found, blamed) step =
      let (q, same) = observe-IsQuiet callbacks.file_observer path m hashed t a in
      let (u, b) = observe machine scanner callbacks callbacks.file_observer path m hashed (t, a) in
      append_finding-IsSound f u b
        (omega (arith, counted, step.0, q.0, ap (λ (xs : List FileFinding). length xs) same))
        (q.1 (step.1 harmless))
        (subst (All (IsOfFile machine.os scanner machine.files)) (sym same) found)
        (path, (m, (allowed, step.3))) (quiet-IsBlamed machine.digests t u q.2 (step.2 blamed))

  either-IsSound :
      (b : Bool) (x y : Pass × Batch B) → IsSound x → IsSound y → IsSound (if b then x else y)
  either-IsSound true x y h k = h
  either-IsSound false x y h k = k

  -- Without the finding.
  step-IsSound :
      (path : String) (s t : Pass) (a : Batch B) (finding : Option FileFinding)
      → IsSound (s, a)
      → IsSoundStep machine.os machine.digests path s (finding, t)
      → IsSound (t, a)
  step-IsSound path s t a none (counted, harmless, found, blamed) step =
      (omega (arith, counted, step.0), step.1 harmless, found, step.2 blamed)
  step-IsSound path s t a (some f) (counted, harmless, found, blamed) step =
      (omega (arith, counted, step.0), step.1 harmless, found, step.2 blamed)

  after_scan-IsSound :
      (path : String) (m : Stat) (s : Pass) (a : Batch B) (r : Option FileFinding × Pass)
      → IsAllowed machine.os scanner machine.files path m
      → IsSound (s, a)
      → IsSoundStep machine.os machine.digests path s r
      → IsSound (after_scan machine scanner callbacks path m s a r)
  after_scan-IsSound path m s a (finding, t) allowed h step =
      either-IsSound t.raised _ _ (step-IsSound path s t a finding h step) (
        observed-IsSound path m (ltb s.stats.files_hashed t.stats.files_hashed) s t a finding
          allowed h step)

  scan_visited-IsSound :
      (path : String) (m : Stat) (s : Pass) (a : Batch B)
      → IsAllowed machine.os scanner machine.files path m
      → IsSound (s, a)
      → IsSound (scan_visited machine scanner callbacks path m (s, a))
  scan_visited-IsSound path m s a allowed h = after_scan-IsSound path m s _ _ allowed h (
      scan_file-IsSoundStep machine.os machine.digests scanner path m
        (machine.opening a.visits path) s)

  filtered-IsSound :
      (o : Option (String → Stat → B → FilterAnswer × B)) (path : String) (m : Stat) (s : Pass)
      (a : Batch B)
      → IsAllowed machine.os scanner machine.files path m
      → IsSound (s, a)
      → IsSound (filtered machine scanner callbacks o path m (s, a))
  filtered-IsSound none path m s a allowed h = scan_visited-IsSound path m s a allowed h
  filtered-IsSound (some f) path m s a allowed h = go (f path m a.caller)
    where
      go : (r : FilterAnswer × B) → IsSound (after_filter machine scanner callbacks path m s a r)
      go (accepted, b) = scan_visited-IsSound path m s (record a { caller = b }) allowed h
      go (rejected, b) = h
      go (filter_failed error, b) =
          quiet-IsSound s (add_issue machine.os path "file_filter_failed" error s) a
            (record a { caller = b })
            (add_issue-IsQuiet machine.os path "file_filter_failed" error s) refl h

  visit-IsSound :
      (path : String) (m : Stat)
      → IsAllowed machine.os scanner machine.files path m
      → (r : Pass × Batch B) → IsSound r
      → IsSound (visit machine scanner callbacks path m r)
  unfolding visit
  visit-IsSound path m allowed (s, a) h = either-IsSound s.raised (s, a) _ h (go a.seen_paths)
    where
      fresh :
          (b : Bool) (seen : List String)
          → IsSound (unless_seen machine scanner callbacks b path m seen (s, a))
      fresh true seen = h
      fresh false seen = filtered-IsSound callbacks.file_filter path m s _ allowed h

      go :
          (seen : Option (List String))
          → IsSound (deduplicated machine scanner callbacks seen path m (s, a))
      go none = filtered-IsSound callbacks.file_filter path m s a allowed h
      go (some seen) = fresh (text_in (path_key machine.os path) seen) seen

  IsSound-Keeps : Keeps machine.os scanner machine.files (visit machine scanner callbacks) IsSound
  IsSound-Keeps = record {
    remarked =
        λ r s h. quiet-IsSound s.0 (note machine.os r s.0) s.1 s.1 (note-IsQuiet r s.0) refl h;
    visited = λ path m allowed s h. visit-IsSound path m allowed s h;
  }

  pub scan_roots-IsSound :
      (fuel : ℕ) (roots : List String) (r t : Pass × Batch B)
      → IsSound r
      → scan_roots machine scanner callbacks fuel roots r ≡ some t
      → IsSound t
  unfolding scan_roots
  scan_roots-IsSound fuel [] r t h e = subst IsSound (Option.some-injective r t e) h
  scan_roots-IsSound fuel (root ∷ roots) r t h e =
      go
        (iter_regular_files machine.os scanner machine.files (visit machine scanner callbacks) fuel
          root r)
        refl e (λ u k. scan_roots-IsSound fuel roots u t k)
    where
      go :
          (o : Option (Pass × Batch B))
          → iter_regular_files machine.os scanner machine.files
              (visit machine scanner callbacks)
              fuel
              root
              r
            ≡ o
          → and_then machine scanner callbacks o
              (λ u. scan_roots machine scanner callbacks fuel roots u)
            ≡ some t
          → ((u : Pass × Batch B)
              → IsSound u
              → scan_roots machine scanner callbacks fuel roots u ≡ some t
              → IsSound t)
          → IsSound t
      go none known e next = cc
      go (some u) known e next =
          next u
            (iter_regular_files-keeps machine.os scanner machine.files
              (visit machine scanner callbacks) IsSound IsSound-Keeps fuel root r u h known)
            e
