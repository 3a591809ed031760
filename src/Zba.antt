-- ===== src/Zba.antt =====
-- src/zsec_shield/zba.py: the sealed record that stands beside an object in the quarantine vault.
pub mod Sealing
use zsec_shield.Prelude.{
  ℕ, ◌+◌, ◌≡◌, ◌≢◌, ◌↔◌, Bool, true, false, not, ◌&&◌, ◌||◌, Option, none, some, String, List, [],
  ◌∷◌, ◌++◌, refl, ap, sym, ◌∙◌, subst, arith, str_eq, eq_iff, codes, length, ◌==◌, if◌then◌else◌,
  any, is_some, Result, ok, err, ◌>>=◌, ◌>>◌, guard, or_raise, >>=-eq-ok, guard-eq-ok,
  or_raise-eq-ok, ok_injective,
}
use zsec_shield.Json.{
  Json, bool, int, float, text, object, Fields, end, field, get_field, has_exact_keys,
}
use zsec_shield.Json.Strict.{insert_field}

-- The messages of the `QuarantineError`s raised here; the fields are checked in one pass.
pub data ZbaError : Type 0 where
  not_an_object wrong_fields invalid_field bad_event_time bad_commitment commitment_mismatch :
      ZbaError
  bad_predecessor : ZbaError

-- What the code uses of hashlib, `bytes.fromhex`, `str.lower`, `canonical_json_bytes` and of Python's `==`
-- between a float and an int.
pub record Primitives : Type 0 where
  pub sha256 : List ℕ → String
  pub fromhex : String → Option (List ℕ)
  pub lower : String → String
  pub canonical : Fields → List ℕ  -- of fields that it encodes: no infinity and no lone surrogate
  pub float_equals : String → ℕ → Bool

-- `ZERO_COMMITMENT` and `ZBA_DOMAIN`
abbrev pub zero_commitment : String
zero_commitment = "0000000000000000000000000000000000000000000000000000000000000000"

abbrev pub zba_domain : List ℕ
zba_domain = codes "ZERO-SECURITY/ZBA-QUARANTINE/V1" ++ 0 ∷ []

-- `_is_sha256`
unfoldable pub is_sha256 : Primitives → String → Bool
is_sha256 p value =
    length (codes value) == 64 && is_some (p.fromhex value) && str_eq value (p.lower value)

-- The record without one key.
unfoldable pub without : String → Fields → Fields
without k end = end
without k (field j v fs) = let rest = without k fs in if str_eq j k then rest else field j v rest

abbrev pub text_of : Option Json → Option String
text_of (some (text s)) = some s
text_of _ = none

-- `_commitment`
unfoldable pub commitment : Primitives → Fields → Result ZbaError String
commitment p record_fields = do
  previous ←
      or_raise (text_of (get_field "previous_commitment" (without "commitment" record_fields)))
        bad_predecessor
  guard (is_sha256 p previous) bad_predecessor
  bytes ← or_raise (p.fromhex previous) bad_predecessor
  ok (p.sha256 (zba_domain ++ (bytes ++ p.canonical (without "commitment" record_fields))))

-- The record before its commitment, in key order.
unfoldable pub sealed_fields : String → String → String → Fields
sealed_fields entry_id payload_sha256 created_at = field "actor_id" (text "local-device") (
    field "asset_id" (text entry_id) (
      field "commitment_algorithm" (text "sha256") (
        field "event_time" (text created_at) (
          field "evidence_status" (text "sealed") (
            field "operation" (text "quarantine.encrypt") (
              field "payload_commitment" (text payload_sha256) (
                field "phase" (text "boundary") (
                  field "polarity" (text "neutral") (
                    field "policy_id" (text "zero-security-quarantine") (
                      field "policy_version" (int 1) (
                        field "previous_commitment" (text zero_commitment) (
                          field "recursion_depth" (int 0) (
                            field "sequence" (int 0) (
                              field "spec" (text "zero.security.zba.quarantine.v1")
                                end))))))))))))))

-- `create_quarantine_record`
unfoldable pub create_quarantine_record :
    Primitives → String → String → String → Result ZbaError Fields
unfolding insert_field
create_quarantine_record p entry_id payload_sha256 created_at = do
  digest ← commitment p (sealed_fields entry_id payload_sha256 created_at)
  ok (insert_field "commitment" (text digest) (sealed_fields entry_id payload_sha256 created_at))

-- `record.get(field) == expected` for a text and for an int: Python's bools and floats equal ints.
abbrev pub equals_text : String → Option Json → Bool
equals_text expected (some (text s)) = str_eq s expected
equals_text expected _ = false

unfoldable pub equals_int : Primitives → ℕ → Option Json → Bool
equals_int p expected (some (int n)) = n == expected
equals_int p expected (some (bool b)) = if b then expected == 1 else expected == 0
equals_int p expected (some (float s)) = p.float_equals s expected
equals_int p expected _ = false

-- The entries of `fixed` that name the entry and the payload, and the others.
unfoldable pub bound_fields_hold : String → String → Fields → Bool
bound_fields_hold entry_id payload_sha256 fs =
    equals_text entry_id (get_field "asset_id" fs)
    && equals_text payload_sha256 (get_field "payload_commitment" fs)

unfoldable pub constant_fields_hold : Primitives → Fields → Bool
unfolding equals_int
constant_fields_hold p fs =
    equals_text "zero.security.zba.quarantine.v1" (get_field "spec" fs)
    && equals_int p 0 (get_field "sequence" fs)
    && equals_text "quarantine.encrypt" (get_field "operation" fs)
    && equals_text "neutral" (get_field "polarity" fs)
    && equals_text "boundary" (get_field "phase" fs)
    && equals_int p 0 (get_field "recursion_depth" fs)
    && equals_text "zero-security-quarantine" (get_field "policy_id" fs)
    && equals_int p 1 (get_field "policy_version" fs)
    && equals_text zero_commitment (get_field "previous_commitment" fs)
    && equals_text "local-device" (get_field "actor_id" fs)
    && equals_text "sealed" (get_field "evidence_status" fs)
    && equals_text "sha256" (get_field "commitment_algorithm" fs)

-- The loop over `fixed`.
unfoldable pub fixed_fields_hold : Primitives → String → String → Fields → Bool
fixed_fields_hold p entry_id payload_sha256 fs =
    bound_fields_hold entry_id payload_sha256 fs && constant_fields_hold p fs

abbrev pub ends_with_z : List ℕ → Bool
ends_with_z [] = false
ends_with_z (c ∷ []) = c == b'Z'
ends_with_z (c ∷ d ∷ cs) = ends_with_z (d ∷ cs)

abbrev pub as_fields : Json → Option Fields
as_fields (object fs) = some fs
as_fields _ = none

abbrev pub all_fields : List String
all_fields =
    "spec" ∷ "asset_id" ∷ "sequence" ∷ "operation" ∷ "polarity" ∷ "phase" ∷ "recursion_depth"
    ∷ "policy_id" ∷ "policy_version" ∷ "previous_commitment" ∷ "payload_commitment" ∷ "event_time"
    ∷ "actor_id" ∷ "evidence_status" ∷ "commitment_algorithm" ∷ "commitment" ∷ []

-- `validate_quarantine_record`
unfoldable pub validate_quarantine_record :
    Primitives → Json → String → String → Result ZbaError Fields
validate_quarantine_record p value entry_id payload_sha256 = do
  fs ← or_raise (as_fields value) not_an_object
  guard (has_exact_keys all_fields fs) wrong_fields
  guard (fixed_fields_hold p entry_id payload_sha256 fs) invalid_field
  event_time ← or_raise (text_of (get_field "event_time" fs)) bad_event_time
  guard (ends_with_z (codes event_time)) bad_event_time
  claimed ← or_raise (text_of (get_field "commitment" fs)) bad_commitment
  guard (is_sha256 p claimed) bad_commitment
  computed ← commitment p fs
  guard (str_eq claimed computed) commitment_mismatch
  ok fs
