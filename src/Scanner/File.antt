-- ===== src/Scanner/File.antt =====
-- `_same_opened_file`, `_issue` and `_scan_file` of src/zsec_shield/scanner.py. The calls of the operating system on
-- one file and of the worker process are an argument: what they answer.
use zsec_shield.Prelude.{
  ℕ, ◌+◌, Bool, true, false, not, ◌&&◌, ◌||◌, Option, none, some, String, List, [], ◌∷◌, ◌++◌,
  str_eq, ltb, ◌==◌, if◌then◌else◌, any, keep, map, text_in, one_line as one_line_text, clip,
}
use zsec_shield.Prelude.Sort.{sorted}
use zsec_shield.Host.{Host, absolute, Stat, regular}
use zsec_shield.Models.{
  Severity, info, Rule, RuleMatch, from_rule, FileFinding, ScanIssue, ScanObservation, ScanStats,
  highest_severity,
}
use zsec_shield.Scanner.{Scanner, pattern_of, rule_le}
use zsec_shield.Scanner.Stream.{Literal, Progress, nothing_read, read_all}

-- What one scan accumulates: `stats`, `issues` and `observations`; and whether an exception that nothing catches has
-- left `_scan_file`.
pub record Pass : Type 0 where
  pub stats : ScanStats
  pub issues : List ScanIssue
  pub observations : List ScanObservation
  pub raised : Bool

-- `_issue`; the caller's error is its text
unfoldable pub add_issue : Host → String → String → String → Pass → Pass
add_issue os path code error s = record s {
  issues =
      s.issues
      ++ record { path = absolute os path; code = code; message = clip 500 (one_line_text error) }
        ∷ [];
}

abbrev pub known_and_different : ℕ → ℕ → Bool
known_and_different a b = ltb 0 a && ltb 0 b && not (a == b)

-- `_same_opened_file`
unfoldable pub same_opened_file : Stat → Stat → Bool
same_opened_file before opened =
    not (known_and_different before.device opened.device || not (before.size == opened.size))
    && not (known_and_different before.inode opened.inode)

abbrev pub is_regular : Stat → Bool
is_regular s = elim s.kind [ regular ↦ true | _ ↦ false ]

-- An observation as the worker sends it.
pub record WorkerObservation : Type 0 where
  pub provider : String
  pub category : String
  pub severity : Severity
  pub summary : String

-- `WorkerScan`
pub record WorkerScan : Type 0 where
  pub sha256 : String
  pub bytes_read : ℕ
  pub literal_rule_ids : List String
  pub observations : List WorkerObservation

pub data WorkerReply : Type 0 where
  worker_failed : String → WorkerReply
  scanned : WorkerScan → WorkerReply

-- An open descriptor: its `fstat`, the chunks that its reads return before the empty one or before an OSError, the
-- error of such a read or of the `fstat` after it, that `fstat`, the worker's reply, and what Authenticode says of the
-- file.
pub record OpenFile : Type 0 where
  pub opened : Stat
  pub chunks : List (List ℕ)
  pub read_error : Option String
  pub after : Stat
  pub worker_reply : WorkerReply
  pub trust : Option WorkerObservation

-- An `os.open` or a first `fstat` that fails, or a descriptor.
pub data Opening : Type 0 where
  open_failed unreadable : String → Opening
  descriptor : OpenFile → Opening

-- What `datetime.fromtimestamp` and `format_utc` give for a modification time: its text, an OSError with its text, or
-- a ValueError or an OverflowError.
pub data Moment : Type 0 where
  moment : String → Moment
  os_error : String → Moment
  out_of_range : Moment

-- hashlib and datetime.
pub record Digests : Type 0 where
  pub sha256 : List ℕ → String
  pub modified_text : Stat → Moment

unfoldable pub skip_too_large : Pass → Pass
skip_too_large s = record s {
  stats = record s.stats { skipped_too_large = s.stats.skipped_too_large + 1 };
}

abbrev pub is_info : Severity → Bool
is_info info = true
is_info _ = false

-- An informational observation is not shown; no observation may lead to a quarantine.
unfoldable pub add_observation : String → Pass → WorkerObservation → Pass
add_observation path s o = if is_info o.severity then s else record s {
  observations =
      s.observations
      ++ record {
        path = path;
        provider = o.provider;
        category = o.category;
        severity = o.severity;
        summary = o.summary;
        quarantine_eligible = false;
      }
        ∷ [];
}

unfoldable pub add_observations : String → Pass → List WorkerObservation → Pass
unfolding add_observation
add_observations path s [] = s
add_observations path s (o ∷ os) = add_observations path (add_observation path s o) os

abbrev pub is_pe_metadata : WorkerObservation → Bool
is_pe_metadata o = str_eq o.provider "pe" && str_eq o.category "metadata"

abbrev pub add_trust : String → Option WorkerObservation → Pass → Pass
add_trust path none s = s
add_trust path (some trust) s = add_observation path s trust

-- What reading a file comes to: its digest, its size and the identifiers that matched, or nothing.
pub record Content : Type 0 where
  pub hex_digest : String
  pub bytes_read : ℕ
  pub matched : List String

-- Authenticode is asked only of a file that the worker took for a PE image.
abbrev pub add_trust_if : Bool → String → Option WorkerObservation → Pass → Pass
add_trust_if true path trust s = add_trust path trust s
add_trust_if false path trust s = s

abbrev pub by_reply :
    Host → String → Option WorkerObservation → WorkerReply → Pass → Option Content × Pass
by_reply os path trust (worker_failed error) s =
    (none, add_issue os path "content_worker_failed" error s)
by_reply os path trust (scanned w) s = (
  some (record { hex_digest = w.sha256; bytes_read = w.bytes_read; matched = w.literal_rule_ids }),
  add_trust_if (any is_pe_metadata w.observations) (absolute os path) trust
      (add_observations (absolute os path) s w.observations),
)

-- The worker's branch.
unfoldable pub read_by_worker : Host → String → OpenFile → Pass → Option Content × Pass
read_by_worker os path f s = by_reply os path f.trust f.worker_reply s

unfoldable pub literals_of : List Rule → List Literal
literals_of [] = []
literals_of (r ∷ rs) = (r.rule_id, pattern_of r) ∷ literals_of rs

-- The comparison after the last read.
unfoldable pub has_changed : OpenFile → ℕ → Bool
has_changed f n =
    not (f.after.size == f.opened.size)
    || not (f.after.modified_ns == f.opened.modified_ns)
    || not (n == f.opened.size)

-- What follows the loop: the OSError that ended it, the comparison, or the content.
abbrev pub settle_whole :
    Host → Digests → String → Option String → Bool → ℕ × Progress → Pass → Option Content × Pass
settle_whole os digests path (some error) changed (n, p) s =
    (none, add_issue os path "file_read_failed" error s)
settle_whole os digests path none true (n, p) s =
    (none, add_issue os path "file_changed_during_scan" "file changed while hashing" s)
settle_whole os digests path none false (n, p) s = (
  some (record { hex_digest = digests.sha256 p.digested; bytes_read = n; matched = p.matches }),
  s,
)

abbrev pub settle_read :
    Host → Digests → String → OpenFile → Option (ℕ × Progress) → Pass → Option Content × Pass
settle_read os digests path f none s = (none, skip_too_large s)
settle_read os digests path f (some (n, p)) s =
    settle_whole os digests path f.read_error (has_changed f n) (n, p) s

-- The branch without a worker.
unfoldable pub read_in_process :
    Host → Digests → Scanner → String → OpenFile → Pass → Option Content × Pass
read_in_process os digests scanner path f s =
    settle_read os digests path f
      (read_all scanner.config.max_file_bytes scanner.maximum_literal
        (literals_of scanner.literal_rules) f.chunks 0 nothing_read)
      s

abbrev pub digest_is : String → Option String → Bool
digest_is hex none = false
digest_is hex (some d) = str_eq d hex

-- `matched_rules`, in their order
unfoldable pub matched_rules : Scanner → Content → List Rule
matched_rules scanner c =
    keep (λ (r : Rule). text_in r.rule_id c.matched) scanner.literal_rules
    ++ keep (λ (r : Rule). digest_is c.hex_digest r.digest) scanner.digest_rules

abbrev pub severities_of : List RuleMatch → List Severity
severities_of ms = map (λ (m : RuleMatch). m.severity) ms

-- The finding of some matches, where the time can be told: only an OSError is caught.
abbrev pub dated :
    Host → String → Content → List RuleMatch → Moment → Pass → Option FileFinding × Pass
dated os path c matches (moment modified) s = (
  some (record {
    path = absolute os path;
    sha256 = c.hex_digest;
    size = c.bytes_read;
    modified_at = modified;
    severity = highest_severity (severities_of matches);
    matches = matches;
  }),
  s,
)
dated os path c matches (os_error error) s = (none, add_issue os path "file_read_failed" error s)
dated os path c matches out_of_range s = (none, record s { raised = true })

abbrev pub finding_of :
    Host → Digests → String → OpenFile → Content → List Rule → Pass → Option FileFinding × Pass
finding_of os digests path f c [] s = (none, s)
finding_of os digests path f c (r ∷ rs) s =
    dated os path c (map from_rule (sorted rule_le (r ∷ rs))) (digests.modified_text f.opened) s

unfoldable pub count_hashed : ℕ → Pass → Pass
count_hashed n s = record s {
  stats = record s.stats {
    files_hashed = s.stats.files_hashed + 1;
    bytes_hashed = s.stats.bytes_hashed + n;
  };
}

-- The end of `_scan_file`.
abbrev pub report_content :
    Host → Digests → Scanner → String → OpenFile → Option Content × Pass → Option FileFinding × Pass
report_content os digests scanner path f (none, s) = (none, s)
report_content os digests scanner path f (some c, s) =
    finding_of os digests path f c (matched_rules scanner c) (count_hashed c.bytes_read s)

-- The body of the `try` once the descriptor is open.
unfoldable pub scan_open :
    Host → Digests → Scanner → String → Stat → OpenFile → Pass → Option FileFinding × Pass
scan_open os digests scanner path before f s =
    if not (is_regular f.opened) || not (same_opened_file before f.opened)
    then (none, add_issue os path "file_changed_before_scan" "file identity changed" s)
    else if ltb scanner.config.max_file_bytes f.opened.size
    then (none, skip_too_large s)
    else report_content os digests scanner path f (
        if scanner.config.worker_isolation
        then read_by_worker os path f s
        else read_in_process os digests scanner path f s)

-- `_scan_file`
unfoldable pub scan_file :
    Host → Digests → Scanner → String → Stat → Opening → Pass → Option FileFinding × Pass
scan_file os digests scanner path before (open_failed error) s =
    (none, add_issue os path "file_open_failed" error s)
scan_file os digests scanner path before (unreadable error) s =
    (none, add_issue os path "file_read_failed" error s)
scan_file os digests scanner path before (descriptor f) s =
    scan_open os digests scanner path before f s
