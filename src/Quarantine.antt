-- ===== src/Quarantine.antt =====
-- src/zsec_shield/quarantine.py: the encrypted, recoverable quarantine. The published entries and the user's files are
-- the state; what the calls of the operating system answer is an argument.
pub mod Moving
pub mod Reading
pub mod Restore
pub mod Opening
pub mod Copies
pub mod Recovery
pub mod Acceptance
pub mod Finishing
pub mod Roundtrip
pub mod Listing
pub mod Overwrite
use zsec_shield.Prelude.{
  ℕ, Bool, true, false, not, ◌&&◌, ◌||◌, Option, none, some, String, List, [], ◌∷◌, ◌++◌, str_eq,
  ltb, length, ◌==◌, if◌then◌else◌, Result, ok, err, ◌>>=◌, ◌>>◌, guard, or_raise,
}
use zsec_shield.Prelude.Dict.{Dict, find, put, remove}
use zsec_shield.Host.{Stat, FileKind, regular, directory, symlink, special}
use zsec_shield.Models.{
  Severity, info, low, medium, high, critical, RuleKind, sha256, literal, RuleMatch, FileFinding,
}
use zsec_shield.Json.{
  Json, null, int, text, array, object, Items, nil, cons, Fields, end, field, get_field,
}
use zsec_shield.Json.Strict.{insert_field, Decoder}
use zsec_shield.Scanner.Content.{content_of}
use zsec_shield.Zba.{Primitives, ZbaError, without, create_quarantine_record}
use zsec_shield.Vault.{
  Crypto, VaultError, DeviceRoot, VaultEnvelope, Fresh, to_dict, create_envelope, sign_metadata,
}

pub data QuarantineError : Type 0 where
  not_absolute unreadable_source not_regular no_longer_matches unopened_source identity_changed
        unread_source changed_source :
      QuarantineError
  unpublished missing_field : QuarantineError
  in_vault : VaultError → QuarantineError
  in_record : ZbaError → QuarantineError
  unwritten_metadata : QuarantineError
  partial : String → QuarantineError  -- QuarantinePartialError, with the entry
  bad_entry_id unreadable_metadata large_metadata bad_metadata bad_content bad_tag : QuarantineError
  unhashable : QuarantineError  -- no QuarantineError but the TypeError of `state not in {…}` for a list or an object
  occupied bad_parent failed_check not_linked : QuarantineError

-- `SourceSnapshot`
pub record SourceSnapshot : Type 0 where
  pub device : ℕ
  pub inode : ℕ
  pub size : ℕ
  pub modified_ns : ℕ
  pub mode : ℕ

-- An os.stat_result with its permission bits.
pub record Inspected : Type 0 where
  pub metadata : Stat
  pub mode : ℕ

-- `_snapshot`
unfoldable pub snapshot : Inspected → SourceSnapshot
snapshot i = record {
  device = i.metadata.device;
  inode = i.metadata.inode;
  size = i.metadata.size;
  modified_ns = i.metadata.modified_ns;
  mode = i.mode;
}

-- `_same_snapshot`
unfoldable pub same_snapshot : SourceSnapshot → SourceSnapshot → Bool
same_snapshot left right =
    left.device == right.device
    && (not (ltb 0 left.inode && ltb 0 right.inode) || left.inode == right.inode)
    && left.size == right.size
    && left.modified_ns == right.modified_ns

abbrev pub is_plain : Stat → Bool
is_plain m = elim m.kind [ regular ↦ not m.reparse | _ ↦ false ]

abbrev pub is_regular_file : Stat → Bool
is_regular_file m = elim m.kind [ regular ↦ true | _ ↦ false ]

-- `_inspect_regular_source`; `none` is an OSError.
unfoldable pub inspect_regular_source : Option Inspected → Result QuarantineError SourceSnapshot
inspect_regular_source answer = do
  i ← or_raise answer unreadable_source
  guard (is_plain i.metadata) not_regular
  ok (snapshot i)

-- hashlib, the AES-GCM of whole contents (the tag is apart), and base64 of a tag.
pub record Tools : Type 0 where
  pub crypto : Crypto
  pub zba : Primitives
  pub decoder : Decoder
  pub sha256 : List ℕ → String
  pub encrypt : List ℕ → List ℕ → List ℕ → List ℕ → List ℕ × List ℕ  -- the key, the nonce, the aad and the plaintext
  pub decrypt : List ℕ → List ℕ → List ℕ → List ℕ → List ℕ → Option (List ℕ)  -- with the tag before the ciphertext
  pub canonical_uuid : String → Option String  -- str(uuid.UUID(text))
  pub lower : String → String

-- An open descriptor of the source: its `fstat`, what the reads return, whether one failed, and the last `fstat`.
pub record OpenSource : Type 0 where
  pub opened : Inspected
  pub chunks : List (List ℕ)
  pub fails : Bool
  pub after : Inspected

-- `_encrypt_regular_source`: the digest, the tag and the encrypted content.
unfoldable pub encrypt_regular_source :
    Tools
    → Option OpenSource
    → SourceSnapshot
    → List ℕ
    → List ℕ
    → List ℕ
    → Result QuarantineError (String × (List ℕ × List ℕ))
encrypt_regular_source t answer expected key nonce aad = do
  f ← or_raise answer unopened_source
  guard (is_regular_file f.opened.metadata && same_snapshot expected (snapshot f.opened))
      identity_changed
  guard (not f.fails) unread_source
  guard
      (same_snapshot (snapshot f.opened) (snapshot f.after)
        && length (t.encrypt key nonce aad (content_of f.chunks)).0 == f.opened.metadata.size)
      changed_source
  ok (
    t.sha256 (content_of f.chunks),
    (
      (t.encrypt key nonce aad (content_of f.chunks)).1,
      (t.encrypt key nonce aad (content_of f.chunks)).0,
    ),
  )

-- `_aad_projection`; `none` is a KeyError. The encoder sorts the keys.
abbrev pub with_field : String → Option Json → Option Fields → Option Fields
with_field k (some v) (some fs) = some (field k v fs)
with_field k v fs = none

abbrev pub project : List String → Fields → Option Fields
project [] metadata = some end
project (k ∷ ks) metadata = with_field k (get_field k metadata) (project ks metadata)

abbrev pub aad_fields : List String
aad_fields =
    "created_at" ∷ "id" ∷ "matches" ∷ "original_mode" ∷ "original_modified_ns" ∷ "original_path"
    ∷ "schema" ∷ "sha256" ∷ "size" ∷ "zba" ∷ []

-- `canonical_json_bytes(_aad_projection(metadata))`
unfoldable pub aad_of : Tools → Fields → Result QuarantineError (List ℕ)
aad_of t metadata = do
  fs ← or_raise (project aad_fields metadata) missing_field
  ok (t.crypto.canonical fs)

-- `metadata[k] = v`
unfoldable pub set_field : String → Json → Fields → Fields
set_field k v fs = insert_field k v (without k fs)

abbrev pub severity_text : Severity → String
severity_text info = "info"
severity_text low = "low"
severity_text medium = "medium"
severity_text high = "high"
severity_text critical = "critical"

abbrev pub kind_text : RuleKind → String
kind_text sha256 = "sha256"
kind_text literal = "literal"

-- `RuleMatch.to_dict`
unfoldable pub match_to_dict : RuleMatch → Json
match_to_dict m = object (
    field "description" (text m.description) (
      field "kind" (text (kind_text m.kind)) (
        field "name" (text m.name) (
          field "rule_id" (text m.rule_id) (
            field "severity" (text (severity_text m.severity))
              (field "source" (text m.source) end))))))

unfoldable pub match_items : List RuleMatch → Items
match_items [] = nil
match_items (m ∷ ms) = cons (match_to_dict m) (match_items ms)

abbrev pub metadata_schema : String
metadata_schema = "zero.security.quarantine.v2"

-- The `metadata` of a new entry.
unfoldable pub new_metadata : FileFinding → SourceSnapshot → String → String → Fields → Fields
new_metadata finding s entry_id created_at zba = field "created_at" (text created_at) (
    field "id" (text entry_id) (
      field "matches" (array (match_items finding.matches)) (
        field "original_mode" (int s.mode) (
          field "original_modified_ns" (int s.modified_ns) (
            field "original_path" (text finding.path) (
              field "quarantined_at" null (
                field "restore_history" (array nil) (
                  field "schema" (text metadata_schema) (
                    field "sha256" (text finding.sha256) (
                      field "size" (int s.size)
                        (field "state" (text "copy_ready") (field "zba" (object zba) end))))))))))))

-- An entry below the vault's `entries`: its metadata and its encrypted content.
pub record VaultEntry : Type 0 where
  pub metadata : Fields
  pub content : List ℕ

-- The published entries and the user's files.
pub record Disk : Type 0 where
  pub entries : Dict VaultEntry
  pub files : Dict (List ℕ)

abbrev pub raised {ℓ κ μ} :
    {E : Type ℓ} {F : Type κ} {A : Type μ} → (E → F) → Result E A → Result F A
raised f (ok a) = ok a
raised f (err e) = err (f e)

-- `_write_v2_metadata` of a published entry
unfoldable pub write_v2_metadata :
    Tools
    → Result VaultError DeviceRoot
    → Bool
    → String
    → Fields
    → VaultEntry
    → Disk
    → Result QuarantineError Fields × Disk
write_v2_metadata t (err e) rewrites entry_id metadata entry disk = (err (in_vault e), disk)
write_v2_metadata t (ok device) false entry_id metadata entry disk = (err unwritten_metadata, disk)
write_v2_metadata t (ok device) true entry_id metadata entry disk =
    let signed = sign_metadata t.crypto device metadata in
    (
      ok signed,
      record disk { entries = put entry_id (record entry { metadata = signed }) disk.entries },
    )
