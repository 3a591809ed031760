-- ===== src/Models.antt =====
-- src/zsec_shield/models.py and `highest_severity` of src/zsec_shield/rules.py: the values that the
-- scanner, the feed and the watcher exchange. The `to_dict` methods only rename fields.
use zsec_shield.Prelude.{ℕ, Bool, Option, String, List, [], ◌∷◌, ltb, if◌then◌else◌}

pub data Severity : Type 0 where
  info low medium high critical : Severity

pub data RuleKind : Type 0 where
  sha256 literal : RuleKind

-- `SEVERITY_RANK`
unfoldable pub rank : Severity → ℕ
rank info = 0
rank low = 1
rank medium = 2
rank high = 3
rank critical = 4

pub record Rule : Type 0 where
  pub rule_id : String
  pub name : String
  pub kind : RuleKind
  pub severity : Severity
  pub description : String
  pub source : String
  pub digest : Option String
  pub literal : Option (List ℕ)

pub record RuleMatch : Type 0 where
  pub rule_id : String
  pub name : String
  pub kind : RuleKind
  pub severity : Severity
  pub description : String
  pub source : String

-- `RuleMatch.from_rule`
unfoldable pub from_rule : Rule → RuleMatch
from_rule rule = record {
  rule_id = rule.rule_id;
  name = rule.name;
  kind = rule.kind;
  severity = rule.severity;
  description = rule.description;
  source = rule.source;
}

pub record FileFinding : Type 0 where
  pub path : String
  pub sha256 : String
  pub size : ℕ
  pub modified_at : String
  pub severity : Severity
  pub matches : List RuleMatch

pub record ScanIssue : Type 0 where
  pub path : String
  pub code : String
  pub message : String

-- The evidence of an observation is not read by any decision and is left out.
pub record ScanObservation : Type 0 where
  pub path : String
  pub provider : String
  pub category : String
  pub severity : Severity
  pub summary : String
  pub quarantine_eligible : Bool

pub record ScanStats : Type 0 where
  pub roots_requested : ℕ
  pub files_hashed : ℕ
  pub bytes_hashed : ℕ
  pub findings : ℕ
  pub errors : ℕ
  pub observations : ℕ
  pub skipped_symlinks : ℕ
  pub skipped_special : ℕ
  pub skipped_too_large : ℕ
  pub skipped_filesystems : ℕ
  pub skipped_excluded : ℕ

-- `ScanStats(roots_requested=n)`
unfoldable pub new_stats : ℕ → ScanStats
new_stats n = record {
  roots_requested = n;
  files_hashed = 0;
  bytes_hashed = 0;
  findings = 0;
  errors = 0;
  observations = 0;
  skipped_symlinks = 0;
  skipped_special = 0;
  skipped_too_large = 0;
  skipped_filesystems = 0;
  skipped_excluded = 0;
}

pub record ScanResult : Type 0 where
  pub roots : List String
  pub findings : List FileFinding
  pub observations : List ScanObservation
  pub issues : List ScanIssue
  pub stats : ScanStats

-- One comparison of `max(…, key=rank)`, which keeps the first of equals.
unfoldable pub better : Severity → Severity → Severity
unfolding rank
better best s = if ltb (rank best) (rank s) then s else best

unfoldable pub highest_from : Severity → List Severity → Severity
unfolding better
highest_from best [] = best
highest_from best (s ∷ rest) = highest_from (better best s) rest

-- `highest_severity`
unfoldable pub highest_severity : List Severity → Severity
unfolding highest_from
highest_severity [] = info
highest_severity (s ∷ rest) = highest_from s rest
