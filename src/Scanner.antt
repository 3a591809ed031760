-- ===== src/Scanner.antt =====
-- src/zsec_shield/scanner.py: the bounded scanner. What the operating system answers is an argument.
pub mod Stream
pub mod Content
pub mod File
pub mod Accounting
pub mod Detection
pub mod Walk
pub mod Visits
pub mod Identities
pub mod Termination
pub mod Run
pub mod Findings
pub mod Soundness
pub mod Report
pub mod Completion
use zsec_shield.Prelude.{
  ℕ, zero, suc, ◌+◌, ◌*◌, Bool, true, false, not, ◌&&◌, ◌||◌, Option, none, some, String, List, [],
  ◌∷◌, ◌++◌, str_eq, ltb, leb, ◌==◌, if◌then◌else◌, any, all, keep, length, map, max, leb_text,
  text_in, Result, ok, err, ◌>>=◌, ◌>>◌, guard,
}
use zsec_shield.Prelude.Sort.{sorted}
use zsec_shield.Host.{Host, absolute, path_key, is_within, Stat}
use zsec_shield.Models.{RuleKind, sha256, literal, Rule, ScanIssue, ScanObservation, ScanStats}

pub record ScannerConfig : Type 0 where
  pub max_file_bytes : ℕ
  pub chunk_bytes : ℕ
  pub cross_filesystems : Bool
  pub excluded_paths : List String
  pub worker_isolation : Bool
  pub worker_timeout : ℕ  -- milliseconds
  pub worker_max_requests : ℕ

-- The messages of the `ScanConfigurationError`s.
pub data ConfigurationError : Type 0 where
  bad_max_file_bytes bad_chunk_bytes bad_worker_timeout bad_worker_max_requests : ConfigurationError
  duplicate_rule_ids no_digest no_pattern no_paths : ConfigurationError
  unrepresentable_time : ConfigurationError  -- no ScanConfigurationError but what `datetime.fromtimestamp` raises

-- `Scanner` after `__init__`
pub record Scanner : Type 0 where
  pub config : ScannerConfig
  pub excluded : List String
  pub literal_rules : List Rule
  pub digest_rules : List Rule
  pub maximum_literal : ℕ

abbrev pub is_literal : Rule → Bool
is_literal r = elim r.kind [ literal ↦ true | sha256 ↦ false ]

-- `rule.literal or b""`
abbrev pub bytes_or_empty : Option (List ℕ) → List ℕ
bytes_or_empty none = []
bytes_or_empty (some bytes) = bytes

abbrev pub pattern_of : Rule → List ℕ
pattern_of r = bytes_or_empty r.literal

unfoldable pub rule_le : Rule → Rule → Bool
rule_le a b = leb_text a.rule_id b.rule_id

abbrev pub distinct_ids : List Rule → Bool
distinct_ids [] = true
distinct_ids (r ∷ rs) = not (any (λ (q : Rule). str_eq q.rule_id r.rule_id) rs) && distinct_ids rs

abbrev pub lacks_digest : RuleKind → Option String → Bool
lacks_digest sha256 none = true
lacks_digest _ _ = false

abbrev pub lacks_pattern : RuleKind → List ℕ → Bool
lacks_pattern literal [] = true
lacks_pattern _ _ = false

-- The loop over the rules: a rule without what its kind needs is refused.
unfoldable pub check_rules : List Rule → Result ConfigurationError (Unit {0})
check_rules [] = ok tt
check_rules (r ∷ rs) = do
  guard (not (lacks_digest r.kind r.digest)) no_digest
  guard (not (lacks_pattern r.kind (pattern_of r))) no_pattern
  check_rules rs

unfoldable pub longest : List Rule → ℕ
longest [] = 0
longest (r ∷ rs) = max (length (pattern_of r)) (longest rs)

-- `Scanner.__init__`
unfoldable pub new_scanner : Host → List Rule → ScannerConfig → Result ConfigurationError Scanner
new_scanner os rules config = do
  guard (leb 1 config.max_file_bytes && leb config.max_file_bytes (16 * 1024 * 1024 * 1024))
      bad_max_file_bytes
  guard (leb 4096 config.chunk_bytes && leb config.chunk_bytes (16 * 1024 * 1024)) bad_chunk_bytes
  guard (leb 1000 config.worker_timeout && leb config.worker_timeout 600000) bad_worker_timeout
  guard (leb 1 config.worker_max_requests && leb config.worker_max_requests 100000)
      bad_worker_max_requests
  guard (distinct_ids (sorted rule_le rules)) duplicate_rule_ids
  check_rules (sorted rule_le rules)
  ok (record {
    config = config;
    excluded = map (path_key os) config.excluded_paths;
    literal_rules = keep is_literal (sorted rule_le rules);
    digest_rules = keep (λ (r : Rule). not (is_literal r)) (sorted rule_le rules);
    maximum_literal = longest (keep is_literal (sorted rule_le rules));
  })
