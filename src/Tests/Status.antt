-- ===== src/Tests/Status.antt =====
-- The summary of a clean scan.
use zsec_shield.Prelude.{◌≡◌, refl, some, [], ◌∷◌, ok, arith, leb_text}
use zsec_shield.Json.{object}
use zsec_shield.Json.Strict.{Decoder, strict_json_loads}
use zsec_shield.Status.{Summary, save_last_scan, bytes_of, load_last_scan}
use zsec_shield.Status.Outcome.{matched, IsTrueSummary, load_last_scan-IsTrueSummary, load-save}

abbrev summary : Summary
summary = record {
  completed_at = "2026-01-01T00:00:00Z";
  findings = 2;
  issues = 0;
  files_hashed = 9;
  bytes_hashed = 90;
  outcome = "configured_rule_matches_detected";
  observations = 1;
}

abbrev decoder : Decoder
decoder = record { utf8 = λ bytes. some ""; parse = λ s. some (object (save_last_scan summary)) }

decodes : strict_json_loads decoder (1 ∷ []) ≡ some (object (save_last_scan summary))
unfolding strict_json_loads save_last_scan leb_text
decodes = refl

loaded : load_last_scan decoder (bytes_of (1 ∷ [])) ≡ ok (some (save_last_scan summary))
loaded = load-save decoder (1 ∷ []) summary refl decodes refl (matched 2 1 (omega arith))

load-save_example : load_last_scan decoder (bytes_of (1 ∷ [])) ≡ ok (some (save_last_scan summary))
load-save_example = load-save decoder (1 ∷ []) summary refl decodes refl (matched 2 1 (omega arith))

load_last_scan-IsTrueSummary_example : IsTrueSummary (save_last_scan summary)
load_last_scan-IsTrueSummary_example =
    load_last_scan-IsTrueSummary decoder (bytes_of (1 ∷ [])) (save_last_scan summary) loaded
