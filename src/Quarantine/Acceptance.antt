-- ===== src/Quarantine/Acceptance.antt =====
-- Proofs on `_read_metadata` of src/zsec_shield/quarantine.py for the metadata of a quarantined entry.
use zsec_shield.Prelude.{
  ℕ, ◌≡◌, refl, true, some, String, List, eq_iff, length, ok, ◌>>=◌, guard, or_raise, leb_text,
}
use zsec_shield.Json.{int, text, object, Fields, field_names, get_field, has_exact_keys}
use zsec_shield.Json.Strict.{insert_field}
use zsec_shield.Models.{FileFinding}
use zsec_shield.Zba.{without, is_sha256, validate_quarantine_record}
use zsec_shield.Vault.{DeviceRoot, VaultEnvelope, to_dict, from_dict, sign_metadata}
use zsec_shield.Vault.Opening.{verify-sign}
use zsec_shield.Quarantine.{Tools, SourceSnapshot, aad_of, set_field, new_metadata, metadata_schema}
use zsec_shield.Quarantine.Moving.{with_vault}
use zsec_shield.Quarantine.Opening.{HasTools, decode_content_tag-encode}
use zsec_shield.Quarantine.Reading.{is_state, check_v2, check_common, check_metadata}

-- The metadata that the last write of a quarantine signs, and what is written.
abbrev pub last_metadata :
    Tools
    → DeviceRoot
    → VaultEnvelope
    → List ℕ
    → FileFinding
    → SourceSnapshot
    → String
    → String
    → String
    → Fields
    → Fields
last_metadata t device e tag finding s entry_id created_at finished_at zba =
    set_field "quarantined_at" (text finished_at) (
      set_field "state" (text "quarantined") (
        sign_metadata t.crypto device
          (with_vault t device e tag (new_metadata finding s entry_id created_at zba))))

module _ (t : Tools) (device : DeviceRoot) (e : VaultEnvelope) (tag : List ℕ)
    (finding : FileFinding) (s : SourceSnapshot) (entry_id created_at finished_at : String)
    (zba : Fields) where
  abbrev pub final : Fields
  final =
      sign_metadata t.crypto device
        (last_metadata t device e tag finding s entry_id created_at finished_at zba)

  final-common :
      is_sha256 t.zba finding.sha256 ≡ true → check_common t entry_id final ≡ ok finding.sha256
  unfolding check_common sign_metadata set_field with_vault new_metadata get_field insert_field
      without leb_text has_exact_keys field_names is_state ◌>>=◌ guard or_raise
  final-common valid = rw ((eq_iff entry_id entry_id).1 refl, valid) refl

  pub final-fields :
      (get_field "schema" final ≡ some (text metadata_schema))
      × (get_field "vault" final ≡ some (object (to_dict t.crypto e device.protection)))
      × (get_field "content_tag" final ≡ some (text (t.crypto.b64encode tag)))
      × (get_field "zba" final ≡ some (object zba))
      × (aad_of t final ≡ aad_of t (new_metadata finding s entry_id created_at zba))
  unfolding aad_of sign_metadata set_field with_vault new_metadata get_field insert_field without
      leb_text
  final-fields = (refl, refl, refl, refl, refl)

  protection-field :
      get_field "device_key_protection" (to_dict t.crypto e device.protection)
      ≡ some (text device.protection)
  unfolding to_dict get_field
  protection-field = refl

  final-v2 :
      (laws : HasTools t) (sealed : Fields) (aad : List ℕ)
      → from_dict t.crypto (object (to_dict t.crypto e device.protection)) ≡ ok e
      → length tag ≡ 16
      → validate_quarantine_record t.zba (object zba) entry_id finding.sha256 ≡ ok sealed
      → aad_of t (new_metadata finding s entry_id created_at zba) ≡ ok aad
      → check_v2 t (ok device) entry_id finding.sha256 final ≡ ok tt
  unfolding check_v2 ◌>>=◌ guard or_raise
  final-v2 laws sealed aad read long valid bound =
      let (schema, vault, content_tag, zba_field, same) = final-fields in
      rw
        (
          verify-sign t.crypto laws.ciphers device
              (last_metadata t device e tag finding s entry_id created_at finished_at zba),
          vault,
          read,
          protection-field,
          (eq_iff device.protection device.protection).1 refl,
          content_tag,
          decode_content_tag-encode t laws tag long,
          zba_field,
          valid,
          same,
          bound,
        )
        refl

  -- What the last write of a quarantine signs passes every check that a later read of the entry makes.
  pub final-accepted :
      (laws : HasTools t) (sealed : Fields) (aad : List ℕ)
      → is_sha256 t.zba finding.sha256 ≡ true
      → from_dict t.crypto (object (to_dict t.crypto e device.protection)) ≡ ok e
      → length tag ≡ 16
      → validate_quarantine_record t.zba (object zba) entry_id finding.sha256 ≡ ok sealed
      → aad_of t (new_metadata finding s entry_id created_at zba) ≡ ok aad
      → check_metadata t (ok device) entry_id (object final) ≡ ok final
  unfolding check_metadata ◌>>=◌ or_raise
  final-accepted laws sealed aad digest read long valid bound =
      let (schema, vault, content_tag, zba_field, same) = final-fields in
      rw (final-common digest, schema, final-v2 laws sealed aad read long valid bound) refl

  -- The entries that a restore compares the content with.
  pub final-sizes :
      (get_field "sha256" final ≡ some (text finding.sha256))
      × (get_field "size" final ≡ some (int s.size))
  unfolding sign_metadata set_field with_vault new_metadata get_field insert_field without leb_text
  final-sizes = (refl, refl)
