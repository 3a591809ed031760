-- ===== src/Quarantine/Restore.antt =====
-- `restore_entry` and `_copy_legacy_content` of src/zsec_shield/quarantine.py. The temporary file is not a user's file:
-- it is what the link gives its name, and an exception removes it. Its mode and its time are not modelled.
use zsec_shield.Prelude.{
  ℕ, Bool, true, false, not, ◌&&◌, ◌||◌, Option, none, some, String, List, [], ◌∷◌, str_eq, length,
  ◌==◌, is_some, take_last, Result, ok, err, ◌>>=◌, ◌>>◌, guard, or_raise,
}
use zsec_shield.Prelude.Dict.{find, put}
use zsec_shield.Host.{Stat, directory}
use zsec_shield.Json.{
  Json, text, array, object, Items, nil, cons, Fields, end, field, get_field, item_list,
}
use zsec_shield.Zba.{text_of}
use zsec_shield.Vault.{VaultError, DeviceRoot, holds_text}
use zsec_shield.Quarantine.{
  QuarantineError, occupied, bad_parent, failed_check, not_linked, missing_field, bad_content,
  unwritten_metadata, Tools, VaultEntry, Disk, metadata_schema, set_field, write_v2_metadata,
}
use zsec_shield.Quarantine.Reading.{validate_entry_id, read_metadata, size_is, decrypt_content}

-- What `os.link` answers where the target is free; `appeared` is a FileExistsError.
pub data Linking : Type 0 where
  linked appeared unsupported : Linking

-- What the calls of one `restore_entry` answer.
pub record RestoreAnswers : Type 0 where
  pub absolute : String → String  -- the path after `expanduser().absolute()`
  pub device : Result VaultError DeviceRoot
  pub metadata_file : Option (List ℕ)
  pub is_taken : Bool  -- a directory, a link or another thing that is no regular file stands at the target
  pub parent : Option Stat
  pub copied : Option (List ℕ)  -- the second read of a legacy entry's content
  pub linking : Linking
  pub restored_at : String
  pub rewrites : Bool

pub record Restored : Type 0 where
  pub id : String
  pub destination : String
  pub sha256 : String
  pub size : ℕ

-- `_copy_legacy_content`: what it has written, where it does not raise.
unfoldable pub copy_legacy_content :
    Tools → Option (List ℕ) → List ℕ → Result QuarantineError (List ℕ)
copy_legacy_content t copied content = do
  bytes ← or_raise copied bad_content
  guard (str_eq (t.sha256 bytes) (t.sha256 content) && length bytes == length content) failed_check
  ok bytes

abbrev pub is_v2 : Fields → Bool
is_v2 metadata = holds_text metadata_schema (get_field "schema" metadata)

abbrev pub read_content :
    Bool → Tools → RestoreAnswers → Fields → List ℕ → Result QuarantineError (List ℕ)
read_content true t a metadata content = decrypt_content t a.device metadata content
read_content false t a metadata content = copy_legacy_content t a.copied content

abbrev pub target_text : Option String → Fields → Result QuarantineError String
target_text none metadata = or_raise (text_of (get_field "original_path" metadata)) missing_field
target_text (some destination) metadata = ok destination

abbrev pub is_folder : Stat → Bool
is_folder m = elim m.kind [ directory ↦ not m.reparse | _ ↦ false ]

-- The checked content of an entry and where it goes.
pub record Recovered : Type 0 where
  pub entry_id : String
  pub metadata : Fields
  pub entry : VaultEntry
  pub target : String
  pub content : List ℕ

-- `restore_entry` up to the link: no file of the user is touched.
unfoldable pub recover_content :
    Tools → RestoreAnswers → String → Option String → Disk → Result QuarantineError Recovered
recover_content t a entry_id destination disk = do
  normalized ← validate_entry_id t entry_id
  metadata ← read_metadata t a.device normalized a.metadata_file
  place ← target_text destination metadata
  guard (not (a.is_taken || is_some (find (a.absolute place) disk.files))) occupied
  parent ← or_raise a.parent bad_parent
  guard (is_folder parent) bad_parent
  entry ← or_raise (find normalized disk.entries) bad_content
  content ← read_content (is_v2 metadata) t a metadata entry.content
  guard
      (holds_text (t.sha256 content) (get_field "sha256" metadata)
        && size_is (length content) (get_field "size" metadata))
      failed_check
  ok (record {
    entry_id = normalized;
    metadata = metadata;
    entry = entry;
    target = a.absolute place;
    content = content;
  })

abbrev pub append_item : Items → Json → Items
append_item nil v = cons v nil
append_item (cons w ws) v = cons w (append_item ws v)

abbrev pub items_of : Option Json → Items
items_of (some (array vs)) = vs
items_of _ = nil

abbrev pub to_items : List Json → Items
to_items [] = nil
to_items (v ∷ vs) = cons v (to_items vs)

-- The history with one more restore, at most the last hundred.
unfoldable pub with_history : RestoreAnswers → String → Fields → Fields
with_history a target metadata =
    set_field "restore_history"
      (array (
        to_items (
          take_last 100 (
            item_list (
              append_item (items_of (get_field "restore_history" metadata)) (
                object (
                  field "destination" (text target)
                    (field "restored_at" (text a.restored_at) end))))))))
      (set_field "state" (text "restored") metadata)

abbrev pub after_write :
    {A : Type 0}
    → Restored
    → Result QuarantineError A × Disk
    → Result QuarantineError Restored × Disk
after_write restored (ok m, disk) = (ok restored, disk)
after_write restored (err e, disk) = (err e, disk)

-- A legacy entry's metadata is written without a signature.
abbrev pub write_legacy_metadata :
    Bool → String → Fields → VaultEntry → Disk → Result QuarantineError Fields × Disk
write_legacy_metadata false entry_id metadata entry disk = (err unwritten_metadata, disk)
write_legacy_metadata true entry_id metadata entry disk = (
  ok metadata,
  record disk { entries = put entry_id (record entry { metadata = metadata }) disk.entries },
)

abbrev pub write_history :
    Bool
    → Tools
    → RestoreAnswers
    → String
    → Fields
    → VaultEntry
    → Disk
    → Result QuarantineError Fields × Disk
write_history true t a entry_id metadata entry disk =
    write_v2_metadata t a.device a.rewrites entry_id metadata entry disk
write_history false t a entry_id metadata entry disk =
    write_legacy_metadata a.rewrites entry_id metadata entry disk

abbrev pub after_link :
    Linking → Tools → RestoreAnswers → Recovered → Disk → Result QuarantineError Restored × Disk
after_link appeared t a r disk = (err occupied, disk)
after_link unsupported t a r disk = (err not_linked, disk)
after_link linked t a r disk =
    after_write
      (record {
        id = r.entry_id;
        destination = r.target;
        sha256 = t.sha256 r.content;
        size = length r.content;
      })
      (write_history (is_v2 r.metadata) t a r.entry_id (with_history a r.target r.metadata) r.entry
        (record disk { files = put r.target r.content disk.files }))

abbrev pub after_recovery :
    Result QuarantineError Recovered
    → Tools
    → RestoreAnswers
    → Disk
    → Result QuarantineError Restored × Disk
after_recovery (err e) t a disk = (err e, disk)
after_recovery (ok r) t a disk = after_link a.linking t a r disk

-- `restore_entry`
unfoldable pub restore_entry :
    Tools → RestoreAnswers → String → Option String → Disk → Result QuarantineError Restored × Disk
restore_entry t a entry_id destination disk =
    after_recovery (recover_content t a entry_id destination disk) t a disk
