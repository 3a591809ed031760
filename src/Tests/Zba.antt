-- ===== src/Tests/Zba.antt =====
-- A record for the entry "e1", with small functions in place of the hash, the encoder and the decoder.
use zsec_shield.Prelude.{
  ◌≡◌, true, false, some, [], ◌∷◌, refl, ok, ◌>>=◌, or_raise, guard, leb_text,
}
use zsec_shield.Json.{text, object, Fields, has_exact_keys, get_field}
use zsec_shield.Json.Strict.{insert_field}
use zsec_shield.Zba.{
  Primitives, zero_commitment, is_sha256, fixed_fields_hold, bound_fields_hold,
  constant_fields_hold, commitment, without, sealed_fields, create_quarantine_record,
  validate_quarantine_record, as_fields,
}
use zsec_shield.Zba.Sealing.{
  HasDigests, IsSealed, validate-create, validate_quarantine_record-IsSealed,
}

abbrev pub primitives : Primitives
primitives = record {
  sha256 = λ message. zero_commitment;
  fromhex = λ s. some (0 ∷ []);
  lower = λ s. s;
  canonical = λ fs. [];
  float_equals = λ s n. false;
}

digest_form : is_sha256 primitives zero_commitment ≡ true
unfolding is_sha256
digest_form = refl

pub digests : HasDigests primitives
digests = record {
  zero_bytes = 0 ∷ [];
  zero_reads = refl;
  zero_lower = refl;
  sha256_form = λ message. digest_form;
}

abbrev sealed : Fields
sealed =
    insert_field "commitment" (text zero_commitment)
      (sealed_fields "e1" "p1" "2026-01-01T00:00:00Z")

validate-create_example :
    (fs : Fields) × (create_quarantine_record primitives "e1" "p1" "2026-01-01T00:00:00Z" ≡ ok fs)
    × (validate_quarantine_record primitives (object fs) "e1" "p1" ≡ ok fs)
validate-create_example = validate-create primitives "e1" "p1" "2026-01-01T00:00:00Z" digests refl

valid : validate_quarantine_record primitives (object sealed) "e1" "p1" ≡ ok sealed
unfolding validate_quarantine_record ◌>>=◌ or_raise guard has_exact_keys insert_field sealed_fields
    leb_text fixed_fields_hold bound_fields_hold get_field constant_fields_hold is_sha256 commitment
    without
valid = refl

validate_quarantine_record-IsSealed_example :
    (as_fields (object sealed) ≡ some sealed) × IsSealed primitives "e1" "p1" sealed
validate_quarantine_record-IsSealed_example =
    validate_quarantine_record-IsSealed primitives (object sealed) "e1" "p1" sealed valid
