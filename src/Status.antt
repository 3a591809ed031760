-- ===== src/Status.antt =====
-- src/zsec_shield/status_store.py: the summary of the last scan that the desktop reads.
pub mod Outcome
use zsec_shield.Prelude.{
  ℕ, ◌*◌, Bool, true, false, not, ◌&&◌, ◌||◌, Option, none, some, String, List, [], ◌∷◌, ◌++◌,
  str_eq, leb, length, ◌==◌, text_in, if◌then◌else◌, Result, ok, err, ◌>>=◌, ◌>>◌, guard, or_raise,
}
use zsec_shield.Json.{Json, null, int, text, Fields, end, field, get_field, has_exact_keys}
use zsec_shield.Json.Strict.{insert_field, Decoder, strict_json_loads}
use zsec_shield.Zba.{text_of, as_fields}
use zsec_shield.Vault.{holds_text}

-- The three schemas, from the oldest.
pub data Schema : Type 0 where
  first second third : Schema

-- The texts that are returned in place of a summary.
pub data StatusError : Type 0 where
  too_large unreadable not_an_object bad_schema bad_fields bad_counters bad_text bad_outcome :
      StatusError
  bad_clean bad_finding bad_review : StatusError

abbrev pub third_schema : String
third_schema = "zsec.shield.last-scan.v3"

-- What `save_last_scan` is given.
pub record Summary : Type 0 where
  pub completed_at : String
  pub findings : ℕ
  pub issues : ℕ
  pub files_hashed : ℕ
  pub bytes_hashed : ℕ
  pub outcome : String
  pub observations : ℕ

-- The record that `save_last_scan` writes, in key order.
unfoldable pub save_last_scan : Summary → Fields
save_last_scan s = field "bytes_hashed" (int s.bytes_hashed) (
    field "completed_at" (text s.completed_at) (
      field "files_hashed" (int s.files_hashed) (
        field "findings" (int s.findings) (
          field "issues" (int s.issues) (
            field "observations" (int s.observations)
              (field "outcome" (text s.outcome) (field "schema" (text third_schema) end)))))))

unfoldable pub schema_of : Option Json → Option Schema
schema_of o =
    if holds_text "zsec.shield.last-scan.v1" o
    then some first
    else if holds_text "zsec.shield.last-scan.v2" o
    then some second
    else if holds_text third_schema o
    then some third
    else none

abbrev pub first_fields : List String
first_fields = "schema" ∷ "completed_at" ∷ "findings" ∷ "issues" ∷ "outcome" ∷ []

abbrev pub expected_fields : Schema → List String
expected_fields first = first_fields
expected_fields second = first_fields ++ "files_hashed" ∷ "bytes_hashed" ∷ []
expected_fields third = first_fields ++ "files_hashed" ∷ "bytes_hashed" ∷ "observations" ∷ []

-- A counter is an int from 0 on, and no bool.
abbrev pub counter : Option Json → Result StatusError ℕ
counter (some (int n)) = ok n
counter _ = err bad_counters

-- The counters that a schema adds; their number of observations.
unfoldable pub further_counters : Schema → Fields → Result StatusError ℕ
further_counters first fs = ok 0
further_counters second fs = do
  files ← counter (get_field "files_hashed" fs)
  bytes ← counter (get_field "bytes_hashed" fs)
  ok 0
further_counters third fs = do
  files ← counter (get_field "files_hashed" fs)
  bytes ← counter (get_field "bytes_hashed" fs)
  counter (get_field "observations" fs)

abbrev pub is_third : Schema → Bool
is_third third = true
is_third _ = false

abbrev pub clean_text : String
clean_text = "no_configured_rule_matches"

abbrev pub finding_text : String
finding_text = "configured_rule_matches_detected"

abbrev pub review_text : String
review_text = "review_observations"

abbrev pub allowed_outcomes : List String
allowed_outcomes = clean_text ∷ finding_text ∷ review_text ∷ "incomplete" ∷ []

-- The checks of the outcome against the counters.
unfoldable pub check_outcome : Schema → String → ℕ → ℕ → ℕ → Result StatusError (Unit {0})
check_outcome schema outcome findings issues observations = do
  guard (text_in outcome allowed_outcomes) bad_outcome
  guard
      (not (
        str_eq outcome clean_text
        && (not (findings == 0)
            || not (issues == 0)
            || is_third schema && not (observations == 0))))
      bad_clean
  guard (not (str_eq outcome finding_text && (findings == 0 || not (issues == 0)))) bad_finding
  guard
      (not (
        str_eq outcome review_text
        && (not (is_third schema)
            || not (findings == 0)
            || not (issues == 0)
            || observations == 0)))
      bad_review

-- The entries that an older summary lacks.
abbrev pub completed : Schema → Fields → Fields
completed first fs =
    insert_field "observations" (int 0)
      (insert_field "bytes_hashed" null (insert_field "files_hashed" null fs))
completed second fs = insert_field "observations" (int 0) fs
completed third fs = fs

abbrev pub is_empty : String → Bool
is_empty s = str_eq s ""

-- `load_last_scan` on the decoded file.
unfoldable pub check_last_scan : Json → Result StatusError Fields
check_last_scan value = do
  fs ← or_raise (as_fields value) not_an_object
  schema ← or_raise (schema_of (get_field "schema" fs)) bad_schema
  guard (has_exact_keys (expected_fields schema) fs) bad_fields
  findings ← counter (get_field "findings" fs)
  issues ← counter (get_field "issues" fs)
  observations ← further_counters schema fs
  completed_at ← or_raise (text_of (get_field "completed_at" fs)) bad_text
  guard (not (is_empty completed_at)) bad_text
  outcome ← or_raise (text_of (get_field "outcome" fs)) bad_outcome
  check_outcome schema outcome findings issues observations
  ok (completed schema fs)

-- The file: absent, one whose `stat` or read fails, or its bytes.
pub data StatusFile : Type 0 where
  no_file broken_file : StatusFile
  bytes_of : List ℕ → StatusFile

-- `load_last_scan`: nothing, a summary, or the text of what is wrong.
unfoldable pub load_last_scan : Decoder → StatusFile → Result StatusError (Option Fields)
load_last_scan d no_file = ok none
load_last_scan d broken_file = err unreadable
load_last_scan d (bytes_of bytes) = do
  guard (leb (length bytes) (32 * 1024)) too_large
  value ← or_raise (strict_json_loads d bytes) unreadable
  fs ← check_last_scan value
  ok (some fs)
