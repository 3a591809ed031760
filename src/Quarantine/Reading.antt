-- ===== src/Quarantine/Reading.antt =====
-- `_validate_entry_id`, `_read_metadata`, `_decode_content_tag` and `_decrypt_content` of src/zsec_shield/quarantine.py.
use zsec_shield.Prelude.{
  ℕ, ◌*◌, Bool, true, false, ◌&&◌, ◌||◌, Option, none, some, String, List, [], ◌∷◌, ◌++◌, str_eq,
  leb, length, ◌==◌, if◌then◌else◌, Result, ok, ◌>>=◌, ◌>>◌, guard, or_raise,
}
use zsec_shield.Json.{object, Json, null, bool, int, array, Fields, get_field, has_exact_keys}
use zsec_shield.Json.Strict.{strict_json_loads}
use zsec_shield.Zba.{text_of, as_fields, is_sha256, validate_quarantine_record}
use zsec_shield.Vault.{
  VaultError, DeviceRoot, from_dict, unwrap_content_key, verify_metadata, holds_text,
}
use zsec_shield.Quarantine.{
  QuarantineError, Tools, in_vault, in_record, missing_field, bad_entry_id, unreadable_metadata,
  large_metadata, bad_metadata, unhashable, bad_content, bad_tag, raised, aad_of, metadata_schema,
}

-- `_validate_entry_id`
unfoldable pub validate_entry_id : Tools → String → Result QuarantineError String
validate_entry_id t entry_id = do
  normalized ← or_raise (t.canonical_uuid entry_id) bad_entry_id
  guard (str_eq normalized (t.lower entry_id)) bad_entry_id
  ok normalized

-- `_valid_sha256`: the same test as `_is_sha256` of zba.py, on a text
abbrev pub valid_sha256 : Tools → String → Bool
valid_sha256 t value = is_sha256 t.zba value

-- `_decode_content_tag`
unfoldable pub decode_content_tag : Tools → Option Json → Result QuarantineError (List ℕ)
decode_content_tag t value = do
  s ← or_raise (text_of value) bad_tag
  tag ← or_raise (t.crypto.b64decode s) bad_tag
  guard (length tag == 16) bad_tag
  ok tag

abbrev pub legacy_schema : String
legacy_schema = "zsec.shield.quarantine.v1"

abbrev pub common_fields : List String
common_fields =
    "schema" ∷ "id" ∷ "state" ∷ "original_path" ∷ "sha256" ∷ "size" ∷ "original_mode"
    ∷ "original_modified_ns" ∷ "created_at" ∷ "quarantined_at" ∷ "restore_history" ∷ "matches" ∷ []

abbrev pub v2_fields : List String
v2_fields = common_fields ++ "zba" ∷ "vault" ∷ "content_tag" ∷ "metadata_mac" ∷ []

-- `isinstance(size, int) and int(size) >= 0`: a bool is an int.
abbrev pub is_size : Option Json → Bool
is_size (some (int n)) = true
is_size (some (bool b)) = true
is_size _ = false

abbrev pub is_array : Option Json → Bool
is_array (some (array vs)) = true
is_array _ = false

-- `value in {…}` needs a hash: a list or an object has none.
abbrev pub is_hashable : Option Json → Bool
is_hashable (some (array vs)) = false
is_hashable (some (object fs)) = false
is_hashable _ = true

unfoldable pub is_state : Option Json → Bool
is_state o =
    holds_text "copy_ready" o
    || holds_text "copy_only" o
    || holds_text "quarantined" o
    || holds_text "restored" o

abbrev pub or_null : Option Json → Json
or_null none = null
or_null (some v) = v

abbrev pub same_text : Option String → String → Bool
same_text none s = false
same_text (some r) s = str_eq r s

-- The device, the vault's record, the tag and the sealed record of an entry of the second schema.
unfoldable pub check_v2 :
    Tools
    → Result VaultError DeviceRoot
    → String
    → String
    → Fields
    → Result QuarantineError (Unit {0})
check_v2 t device entry_name digest fs = do
  root ← raised in_vault device
  _ ← raised in_vault (verify_metadata t.crypto root fs)
  vault ← or_raise (get_field "vault" fs) missing_field
  envelope ← raised in_vault (from_dict t.crypto vault)
  vault_fields ← or_raise (as_fields vault) bad_metadata
  guard (holds_text root.protection (get_field "device_key_protection" vault_fields)) bad_metadata
  tag ← decode_content_tag t (get_field "content_tag" fs)
  zba ← or_raise (get_field "zba" fs) missing_field
  sealed ← raised in_record (validate_quarantine_record t.zba zba entry_name digest)
  aad ← aad_of t fs
  ok tt

abbrev pub required_fields : Bool → List String
required_fields true = v2_fields
required_fields false = common_fields

-- The fields that both schemas have.
unfoldable pub check_common : Tools → String → Fields → Result QuarantineError String
check_common t entry_name fs = do
  guard
      (holds_text legacy_schema (get_field "schema" fs)
        || holds_text metadata_schema (get_field "schema" fs))
      bad_metadata
  guard (has_exact_keys (required_fields (holds_text metadata_schema (get_field "schema" fs))) fs)
      bad_metadata
  guard (holds_text entry_name (get_field "id" fs)) bad_metadata
  digest ← or_raise (text_of (get_field "sha256" fs)) bad_metadata
  guard (valid_sha256 t digest) bad_metadata
  guard (is_size (get_field "size" fs)) bad_metadata
  guard (is_hashable (get_field "state" fs)) unhashable
  guard (is_state (get_field "state" fs)) bad_metadata
  guard (is_array (get_field "restore_history" fs) && is_array (get_field "matches" fs))
      bad_metadata
  ok digest

abbrev pub check_schema :
    Bool
    → Tools
    → Result VaultError DeviceRoot
    → String
    → String
    → Fields
    → Result QuarantineError (Unit {0})
check_schema true t device entry_name digest fs = check_v2 t device entry_name digest fs
check_schema false t device entry_name digest fs = ok tt

-- `_read_metadata` once the file's JSON is decoded
unfoldable pub check_metadata :
    Tools → Result VaultError DeviceRoot → String → Json → Result QuarantineError Fields
check_metadata t device entry_name value = do
  fs ← or_raise (as_fields value) bad_metadata
  digest ← check_common t entry_name fs
  check_schema (holds_text metadata_schema (get_field "schema" fs)) t device entry_name digest fs
  ok fs

-- `_read_metadata`: the bytes of the file, or an OSError.
unfoldable pub read_metadata :
    Tools → Result VaultError DeviceRoot → String → Option (List ℕ) → Result QuarantineError Fields
read_metadata t device entry_name file = do
  bytes ← or_raise file unreadable_metadata
  guard (leb (length bytes) (256 * 1024)) large_metadata
  value ← or_raise (strict_json_loads t.decoder bytes) bad_metadata
  check_metadata t device entry_name value

abbrev pub size_is : ℕ → Option Json → Bool
size_is n (some (int m)) = n == m
size_is n (some (bool b)) = if b then n == 1 else n == 0
size_is n _ = false

-- `_decrypt_content`: what it has written, where it does not raise. The content is a plain file that reads whole.
unfoldable pub decrypt_content :
    Tools → Result VaultError DeviceRoot → Fields → List ℕ → Result QuarantineError (List ℕ)
decrypt_content t device metadata content = do
  guard (size_is (length content) (get_field "size" metadata)) bad_content
  root ← raised in_vault device
  vault ← or_raise (get_field "vault" metadata) missing_field
  envelope ← raised in_vault (from_dict t.crypto vault)
  aad ← aad_of t metadata
  entry_id ← or_raise (text_of (get_field "id" metadata)) missing_field
  key ← raised in_vault (unwrap_content_key t.crypto root entry_id envelope aad)
  tag ← decode_content_tag t (get_field "content_tag" metadata)
  or_raise (t.decrypt key envelope.content_nonce aad tag content) bad_content
