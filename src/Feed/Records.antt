-- ===== src/Feed/Records.antt =====
-- `_validate_rule` of src/zsec_shield/feed.py: one signed record becomes one rule.
use zsec_shield.Prelude.{
  ℕ, Bool, not, ◌&&◌, ◌||◌, Option, none, some, String, List, [], ◌∷◌, all, length, codes, starts,
  map, leb, if◌then◌else◌, ◌+◌, Result, ok, err, ◌>>=◌, ◌>>◌, guard,
}
use zsec_shield.Json.{Json, array, object, is_text, has_exact_keys}
use zsec_shield.Models.{Severity, info, low, medium, high, critical, RuleKind, sha256, literal}
use zsec_shield.Feed.{
  FeedError, wrong_fields, bad_rule_id, bad_kind, bad_severity, bad_digest, bad_literal, unhashable,
  Codec, member, as_object, bounded_string, decode_base64, matches_rule_id, max_literal_bytes,
}

unfoldable pub parse_kind : Json → Result FeedError RuleKind
unfolding is_text
parse_kind (array vs) = err unhashable
parse_kind (object fs) = err unhashable
parse_kind value =
    if is_text "sha256" value
    then ok sha256
    else if is_text "literal" value
    then ok literal
    else err bad_kind

unfoldable pub severity_of : Json → Result FeedError Severity
unfolding is_text
severity_of value =
    if is_text "info" value
    then ok info
    else if is_text "low" value
    then ok low
    else if is_text "medium" value
    then ok medium
    else if is_text "high" value
    then ok high
    else if is_text "critical" value
    then ok critical
    else err bad_severity

unfoldable pub parse_severity : Json → Result FeedError Severity
unfolding severity_of
parse_severity (array vs) = err unhashable
parse_severity (object fs) = err unhashable
parse_severity value = severity_of value

-- `str.lower` on one code point: on the texts that pass the check for hexadecimal digits below, this
-- is the only change that `lower` makes.
abbrev pub lower_code : ℕ → ℕ
lower_code c = if leb b'A' c && leb c b'Z' then c + 32 else c

abbrev pub is_lower_hex : ℕ → Bool
is_lower_hex c = leb b'0' c && leb c b'9' || leb b'a' c && leb c b'f'

-- `SHA256_PATTERN.fullmatch`: [0-9a-fA-F]{64}
abbrev pub is_hex : ℕ → Bool
is_hex c = is_lower_hex c || leb b'A' c && leb c b'F'

-- The record that `Rule(…)` builds, with the digest or the literal as its kind has it. A digest is
-- kept as the code points of its lower-case text.
pub record FeedRule : Type 0 where
  pub rule_id : String
  pub name : String
  pub kind : RuleKind
  pub severity : Severity
  pub description : String
  pub source : String
  pub digest : Option (List ℕ)
  pub literal_bytes : Option (List ℕ)

-- The digest and the literal for a kind.
unfoldable pub parse_value :
    Codec → RuleKind → Json → Result FeedError (Option (List ℕ) × Option (List ℕ))
unfolding bounded_string decode_base64
parse_value c sha256 value = do
  s ← bounded_string 64 64 value
  let digest = map lower_code (codes s)
  guard (leb (length digest) 64 && leb 64 (length digest) && all is_hex digest) bad_digest
  ok (some digest, none)
parse_value c literal value = do
  decoded ← decode_base64 c none value
  guard (leb 1 (length decoded) && leb (length decoded) max_literal_bytes) bad_literal
  ok (none, some decoded)

unfoldable pub validate_rule : Codec → Json → Result FeedError FeedRule
unfolding has_exact_keys bounded_string matches_rule_id parse_kind parse_severity parse_value
validate_rule c value = do
  fs ← as_object value
  guard
      (has_exact_keys
        ("id" ∷ "name" ∷ "kind" ∷ "severity" ∷ "description" ∷ "source" ∷ "value" ∷ []) fs)
      wrong_fields
  id_value ← member "id" fs
  rule_id ← bounded_string 3 128 id_value
  guard (matches_rule_id (codes rule_id) && not (starts (codes "builtin:") (codes rule_id)))
      bad_rule_id
  name_value ← member "name" fs
  name ← bounded_string 1 160 name_value
  description_value ← member "description" fs
  description ← bounded_string 1 500 description_value
  source_value ← member "source" fs
  source ← bounded_string 1 300 source_value
  kind_value ← member "kind" fs
  kind ← parse_kind kind_value
  severity_value ← member "severity" fs
  severity ← parse_severity severity_value
  rule_value ← member "value" fs
  parts ← parse_value c kind rule_value
  ok (record {
    rule_id = rule_id;
    name = name;
    kind = kind;
    severity = severity;
    description = description;
    source = source;
    digest = parts.0;
    literal_bytes = parts.1;
  })
