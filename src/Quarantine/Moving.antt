-- ===== src/Quarantine/Moving.antt =====
-- `quarantine_finding` of src/zsec_shield/quarantine.py.
use zsec_shield.Prelude.{
  ℕ, Bool, true, false, Option, none, some, String, List, str_eq, ◌==◌, Result, ok, err, ◌>>=◌,
  ◌>>◌, guard,
}
use zsec_shield.Prelude.Dict.{put, remove}
use zsec_shield.Models.{FileFinding}
use zsec_shield.Json.{text, object, Fields}
use zsec_shield.Zba.{create_quarantine_record}
use zsec_shield.Vault.{
  VaultError, DeviceRoot, VaultEnvelope, Fresh, to_dict, create_envelope, sign_metadata,
}
use zsec_shield.Quarantine.{
  QuarantineError, SourceSnapshot, Inspected, snapshot, same_snapshot, inspect_regular_source,
  Tools, OpenSource, encrypt_regular_source, aad_of, set_field, new_metadata, VaultEntry, Disk,
  raised, write_v2_metadata, unpublished, no_longer_matches, not_absolute, in_vault, in_record,
  partial,
}

-- What the calls of one `quarantine_finding` answer; `none` and `false` are failures.
pub record Answers : Type 0 where
  pub is_absolute : Bool
  pub inspected : Option Inspected
  pub entry_id : String
  pub created_at : String
  pub device : Result VaultError DeviceRoot  -- `load_device_root(state_dir, create=True)`
  pub fresh : Fresh
  pub source : Option OpenSource
  pub publishes : Bool  -- the write of the metadata and the rename of the temporary directory
  pub current : Option Inspected
  pub unlinks : Bool
  pub device_again : Result VaultError DeviceRoot  -- `load_device_root(state_dir, create=False)`
  pub rewrites : Bool
  pub finished_at : String

-- What is in the temporary directory before it is renamed: the signed metadata and the encrypted content.
pub record Prepared : Type 0 where
  pub snapshot : SourceSnapshot
  pub entry : VaultEntry

unfoldable pub with_vault : Tools → DeviceRoot → VaultEnvelope → List ℕ → Fields → Fields
with_vault t device envelope tag metadata =
    set_field "content_tag" (text (t.crypto.b64encode tag))
      (set_field "vault" (object (to_dict t.crypto envelope device.protection)) metadata)

-- The `try` block, with the metadata's projection: an exception on the way removes the temporary directory.
unfoldable pub seal :
    Tools
    → Answers
    → FileFinding
    → SourceSnapshot
    → DeviceRoot
    → Fields
    → List ℕ
    → Result QuarantineError Prepared
seal t a finding before device zba aad = do
  sealed ←
      encrypt_regular_source t a.source before
        (create_envelope t.crypto a.fresh device a.entry_id aad).1
        (create_envelope t.crypto a.fresh device a.entry_id aad).0.content_nonce aad
  guard (str_eq sealed.0 finding.sha256) no_longer_matches
  guard a.publishes unpublished
  ok (record {
    snapshot = before;
    entry = record {
      metadata = sign_metadata t.crypto device (
          with_vault t device (create_envelope t.crypto a.fresh device a.entry_id aad).0 sealed.1.0
            (new_metadata finding before a.entry_id a.created_at zba));
      content = sealed.1.1;
    };
  })

-- The metadata of a new entry and its sealing, for a device.
unfoldable pub prepare_for :
    Tools → Answers → FileFinding → SourceSnapshot → DeviceRoot → Result QuarantineError Prepared
prepare_for t a finding before device = do
  zba ← raised in_record (create_quarantine_record t.zba a.entry_id finding.sha256 a.created_at)
  aad ← aad_of t (new_metadata finding before a.entry_id a.created_at zba)
  seal t a finding before device zba aad

-- The whole of `quarantine_finding` up to the rename.
unfoldable pub prepare : Tools → Answers → FileFinding → Result QuarantineError Prepared
prepare t a finding = do
  guard a.is_absolute not_absolute
  before ← inspect_regular_source a.inspected
  guard (before.size == finding.size) no_longer_matches
  device ← raised in_vault a.device
  prepare_for t a finding before device

-- The `raise` after a write; an exception of the write takes its place.
abbrev pub then_raise {ℓ} :
    {A : Type ℓ}
    → QuarantineError
    → Result QuarantineError A × Disk
    → Result QuarantineError A × Disk
then_raise e (ok x, disk) = (err e, disk)
then_raise e (err f, disk) = (err f, disk)

abbrev pub keep_copy : Tools → Answers → VaultEntry → Disk → Result QuarantineError Fields × Disk
keep_copy t a entry disk = then_raise (partial a.entry_id) (
    write_v2_metadata t a.device_again a.rewrites a.entry_id
      (set_field "state" (text "copy_only") entry.metadata) entry disk)

abbrev pub finish : Tools → Answers → VaultEntry → Disk → Result QuarantineError Fields × Disk
finish t a entry disk =
    write_v2_metadata t a.device_again a.rewrites a.entry_id
      (set_field "quarantined_at" (text a.finished_at)
        (set_field "state" (text "quarantined") entry.metadata))
      entry disk

-- The removal of the source once the entry is published.
abbrev pub after_check :
    Bool
    → Bool
    → Tools
    → Answers
    → FileFinding
    → VaultEntry
    → Disk
    → Result QuarantineError Fields × Disk
after_check false unlinks t a finding entry disk = keep_copy t a entry disk
after_check true false t a finding entry disk = keep_copy t a entry disk
after_check true true t a finding entry disk =
    finish t a entry (record disk { files = remove finding.path disk.files })

abbrev pub remove_source :
    Option Inspected
    → Tools
    → Answers
    → FileFinding
    → Prepared
    → Disk
    → Result QuarantineError Fields × Disk
remove_source none t a finding p disk = keep_copy t a p.entry disk
remove_source (some current) t a finding p disk =
    after_check (same_snapshot p.snapshot (snapshot current)) a.unlinks t a finding p.entry disk

abbrev pub after_prepare :
    Result QuarantineError Prepared
    → Tools
    → Answers
    → FileFinding
    → Disk
    → Result QuarantineError Fields × Disk
after_prepare (err e) t a finding disk = (err e, disk)
after_prepare (ok p) t a finding disk =
    remove_source a.current t a finding p
      (record disk { entries = put a.entry_id p.entry disk.entries })

-- `quarantine_finding`
unfoldable pub quarantine_finding :
    Tools → Answers → FileFinding → Disk → Result QuarantineError Fields × Disk
quarantine_finding t a finding disk = after_prepare (prepare t a finding) t a finding disk
