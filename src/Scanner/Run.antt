-- ===== src/Scanner/Run.antt =====
-- `Scanner.scan` of src/zsec_shield/scanner.py: the walk of every root with its consumer, and the report.
use zsec_shield.Prelude.{
  ℕ, ◌+◌, Bool, true, false, Option, none, some, String, List, [], ◌∷◌, ◌++◌, str_eq, ltb,
  if◌then◌else◌, length, map, leb_text, text_in, Result, ok, err,
}
use zsec_shield.Prelude.Sort.{sorted}
use zsec_shield.Host.{Host, absolute, path_key, Stat}
use zsec_shield.Models.{FileFinding, ScanIssue, ScanObservation, ScanResult, new_stats}
use zsec_shield.Scanner.{Scanner, ConfigurationError, no_paths, unrepresentable_time}
use zsec_shield.Scanner.File.{Pass, add_issue, Opening, Digests, scan_file}
use zsec_shield.Scanner.Walk.{Files, iter_regular_files}

-- What the system answers during one scan. The descriptor of a file depends on how many files were visited before.
pub record Machine : Type 0 where
  pub os : Host
  pub digests : Digests
  pub files : Files
  pub opening : ℕ → String → Opening
  pub normcase : String → String  -- os.path.normcase

-- What a `file_filter` answers; the error is its exception's text.
pub data FilterAnswer : Type 0 where
  accepted rejected : FilterAnswer
  filter_failed : String → FilterAnswer

-- The caller's callbacks, on a state of its own; the observer's error is its exception's text.
pub record Callbacks {ℓ} (B : Type ℓ) : Type ℓ where
  pub file_filter : Option (String → Stat → B → FilterAnswer × B)
  pub file_observer : Option (String → Stat → Bool → B → Option String × B)

-- The local variables of `scan` beside the pass: `seen_paths` is `none` without deduplication.
pub record Batch {ℓ} (B : Type ℓ) : Type ℓ where
  pub seen_paths : Option (List String)
  pub findings : List FileFinding
  pub visits : ℕ
  pub caller : B

module _ {ℓ} {B : Type ℓ} (machine : Machine) (scanner : Scanner) (callbacks : Callbacks B) where
  abbrev pub State : Type ℓ
  State = Pass × Batch B

  abbrev pub after_observer : String → Pass → Batch B → Option String × B → State
  after_observer path s a (none, b) = (s, record a { caller = b })
  after_observer path s a (some error, b) =
      (add_issue machine.os path "file_observer_failed" error s, record a { caller = b })

  abbrev pub observe :
      Option (String → Stat → Bool → B → Option String × B) → String → Stat → Bool → State → State
  observe none path m hashed r = r
  observe (some f) path m hashed (s, a) = after_observer path s a (f path m hashed a.caller)

  abbrev pub append_finding : Option FileFinding → State → State
  append_finding none r = r
  append_finding (some finding) (s, a) = (s, record a { findings = a.findings ++ finding ∷ [] })

  abbrev pub after_scan : String → Stat → Pass → Batch B → Option FileFinding × Pass → State
  after_scan path m before a (finding, s) =
      if s.raised
      then (s, a)
      else append_finding finding (
          observe callbacks.file_observer path m
            (ltb before.stats.files_hashed s.stats.files_hashed) (s, a))

  -- The call of `_scan_file` and what follows it.
  abbrev pub scan_visited : String → Stat → State → State
  scan_visited path m (s, a) =
      after_scan path m s (record a { visits = a.visits + 1 })
        (scan_file machine.os machine.digests scanner path m (machine.opening a.visits path) s)

  abbrev pub after_filter : String → Stat → Pass → Batch B → FilterAnswer × B → State
  after_filter path m s a (accepted, b) = scan_visited path m (s, record a { caller = b })
  after_filter path m s a (rejected, b) = (s, record a { caller = b })
  after_filter path m s a (filter_failed error, b) =
      (add_issue machine.os path "file_filter_failed" error s, record a { caller = b })

  abbrev pub filtered :
      Option (String → Stat → B → FilterAnswer × B) → String → Stat → State → State
  filtered none path m r = scan_visited path m r
  filtered (some f) path m (s, a) = after_filter path m s a (f path m a.caller)

  abbrev pub unless_seen : Bool → String → Stat → List String → State → State
  unless_seen true path m seen (s, a) = (s, a)
  unless_seen false path m seen (s, a) =
      filtered callbacks.file_filter path m
        (s, record a { seen_paths = some (path_key machine.os path ∷ seen) })

  abbrev pub deduplicated : Option (List String) → String → Stat → State → State
  deduplicated none path m r = filtered callbacks.file_filter path m r
  deduplicated (some seen) path m r =
      unless_seen (text_in (path_key machine.os path) seen) path m seen r

  -- The body of the inner loop. After an exception no file is visited and no callback is called: what the walk still reads
  -- is dropped with its result.
  unfoldable pub visit : String → Stat → State → State
  visit path m (s, a) = if s.raised then (s, a) else deduplicated a.seen_paths path m (s, a)

  abbrev pub and_then : Option State → (State → Option State) → Option State
  and_then none k = none
  and_then (some r) k = k r

  -- The outer loop, each root's walk on the same fuel.
  unfoldable pub scan_roots : ℕ → List String → State → Option State
  scan_roots fuel [] r = some r
  scan_roots fuel (root ∷ roots) r =
      and_then (iter_regular_files machine.os scanner machine.files visit fuel root r)
        (λ t. scan_roots fuel roots t)

-- The orders of the report.
abbrev pub path_le : Machine → String → String → Bool
path_le machine a b = leb_text (machine.normcase a) (machine.normcase b)

abbrev pub or_next : Bool → Bool → Bool → Bool
or_next equal less next = if equal then next else less

abbrev pub observation_le : Machine → ScanObservation → ScanObservation → Bool
observation_le machine a b =
    or_next (str_eq (machine.normcase a.path) (machine.normcase b.path))
      (path_le machine a.path b.path)
      (or_next (str_eq a.provider b.provider) (leb_text a.provider b.provider)
        (leb_text a.category b.category))

abbrev pub issue_le : Machine → ScanIssue → ScanIssue → Bool
issue_le machine a b =
    or_next (str_eq (machine.normcase a.path) (machine.normcase b.path))
      (path_le machine a.path b.path) (leb_text a.code b.code)

-- The end of `scan`.
unfoldable pub report : Machine → List String → Pass → List FileFinding → ScanResult
report machine roots s findings = record {
  roots = roots;
  findings = sorted (λ (a b : FileFinding). path_le machine a.path b.path) findings;
  observations = sorted (observation_le machine) s.observations;
  issues = sorted (issue_le machine) s.issues;
  stats = record s.stats {
    findings = length findings;
    observations = length s.observations;
    errors = length s.issues;
  };
}

abbrev pub seen_at_start : Bool → Option (List String)
seen_at_start true = some []
seen_at_start false = none

module _ {ℓ} {B : Type ℓ} (machine : Machine) (scanner : Scanner) (callbacks : Callbacks B) where
  abbrev pub unless_raised :
      Bool → List String → Pass → Batch B → Result ConfigurationError (Option (ScanResult × B))
  unless_raised true roots s a = err unrepresentable_time
  unless_raised false roots s a = ok (some (report machine roots s a.findings, a.caller))

  abbrev pub reported :
      List String → Option (Pass × Batch B) → Result ConfigurationError (Option (ScanResult × B))
  reported roots none = ok none
  reported roots (some (s, a)) = unless_raised s.raised roots s a

  abbrev pub scan_absolute :
      ℕ → List String → Bool → B → Result ConfigurationError (Option (ScanResult × B))
  scan_absolute fuel roots deduplicate b = reported roots (
      scan_roots machine scanner callbacks fuel
        (sorted (λ (x y : String). leb_text (path_key machine.os x) (path_key machine.os y)) roots)
        (
          record {
            stats = new_stats (length roots);
            issues = [];
            observations = [];
            raised = false;
          },
          record { seen_paths = seen_at_start deduplicate; findings = []; visits = 0; caller = b },
        ))

  -- `scan`: the result and the caller's state, or an exception; `none` is the want of fuel.
  unfoldable pub scan :
      ℕ → List String → Bool → B → Result ConfigurationError (Option (ScanResult × B))
  scan fuel [] deduplicate b = err no_paths
  scan fuel (root ∷ roots) deduplicate b =
      scan_absolute fuel (map (absolute machine.os) (root ∷ roots)) deduplicate b
