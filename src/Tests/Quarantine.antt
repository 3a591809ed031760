-- ===== src/Tests/Quarantine.antt =====
-- A file of two bytes is quarantined and restored beside another file.
use zsec_shield.Prelude.{
  ◌≡◌, List, String, refl, true, false, none, some, [], ◌∷◌, ok, ◌>>=◌, or_raise, guard, leb_text,
}
use zsec_shield.Prelude.Sort.{sorted}
use zsec_shield.Prelude.Dict.{find, put}
use zsec_shield.Host.{regular, directory}
use zsec_shield.Models.{FileFinding, high}
use zsec_shield.Json.{
  Fields, end, field, text, object, int, array, nil, get_field, has_exact_keys, item_list,
}
use zsec_shield.Json.Strict.{Decoder, strict_json_loads}
use zsec_shield.Zba.{zero_commitment, is_sha256}
use zsec_shield.Vault.{is_protection}
use zsec_shield.Quarantine.{Tools, Inspected, Disk, QuarantineError, unreadable_metadata}
use zsec_shield.Quarantine.Moving.{Answers, quarantine_finding}
use zsec_shield.Quarantine.Reading.{
  validate_entry_id, read_metadata, check_metadata, check_common, is_state,
}
use zsec_shield.Quarantine.Opening.{HasTools}
use zsec_shield.Quarantine.Listing.{
  Candidate, Listed, list_entry, list_all, directory_of, list_entries,
}
use zsec_shield.Quarantine.Recovery.{IsSafe, quarantine_finding-IsSafe}
use zsec_shield.Quarantine.Restore.{
  RestoreAnswers, linked, restore_entry, recover_content, copy_legacy_content,
}
use zsec_shield.Quarantine.Overwrite.{IsGentle, restore_entry-IsGentle}
use zsec_shield.Tests.Vault.{crypto, crypto-HasCiphers, fresh, fresh-HasSizes, device, sixteen}
use zsec_shield.Tests.Zba.{primitives}

-- The metadata of an entry of the first schema.
abbrev old_note : Fields
old_note = field "created_at" (text "2025-01-01T00:00:00Z") (
    field "id" (text "e1") (
      field "matches" (array nil) (
        field "original_mode" (int 420) (
          field "original_modified_ns" (int 5) (
            field "original_path" (text "/a/bad") (
              field "quarantined_at" (text "2025-01-01T00:00:01Z") (
                field "restore_history" (array nil) (
                  field "schema" (text "zsec.shield.quarantine.v1") (
                    field "sha256" (text zero_commitment)
                      (field "size" (int 2) (field "state" (text "quarantined") end)))))))))))

abbrev decoder : Decoder
decoder = record { utf8 = λ bytes. some ""; parse = λ s. some (object old_note) }

abbrev pub tools : Tools
tools = record {
  crypto = crypto;
  zba = primitives;
  decoder = decoder;
  sha256 = λ bytes. zero_commitment;
  encrypt = λ key nonce aad plaintext. (plaintext, sixteen);
  decrypt = λ key nonce aad tag content. some content;
  canonical_uuid = λ s. some s;
  lower = λ s. s;
}

tools-HasTools : HasTools tools
tools-HasTools = record {
  ciphers = crypto-HasCiphers;
  content = λ key nonce aad plaintext. refl;
  content_length = λ key nonce aad plaintext. refl;
  tag_length = λ key nonce aad plaintext. refl;
}

abbrev seen : Inspected
seen = record {
  metadata = record {
    kind = regular;
    reparse = false;
    device = 1;
    inode = 7;
    size = 2;
    modified_ns = 5;
  };
  mode = 420;
}

abbrev pub answers : Answers
answers = record {
  is_absolute = true;
  inspected = some seen;
  entry_id = "e1";
  created_at = "2026-01-01T00:00:00Z";
  device = ok device;
  fresh = fresh;
  source =
      some
        (record { opened = seen; chunks = (8 ∷ []) ∷ (9 ∷ []) ∷ []; fails = false; after = seen });
  publishes = true;
  current = some seen;
  unlinks = true;
  device_again = ok device;
  rewrites = true;
  finished_at = "2026-01-01T00:00:01Z";
}

abbrev pub bad_file : FileFinding
bad_file = record {
  path = "/a/bad";
  sha256 = zero_commitment;
  size = 2;
  modified_at = "";
  severity = high;
  matches = [];
}

abbrev pub disk : Disk
disk = record { entries = []; files = ("/a/bad", 8 ∷ 9 ∷ []) ∷ ("/a/good", 1 ∷ []) ∷ [] }

quarantine_finding-IsSafe_example :
    IsSafe tools device bad_file "e1" disk (quarantine_finding tools answers bad_file disk)
unfolding is_protection
quarantine_finding-IsSafe_example =
    quarantine_finding-IsSafe tools tools-HasTools answers fresh-HasSizes device bad_file disk refl
      refl

abbrev restoring : RestoreAnswers
restoring = record {
  absolute = λ p. p;
  device = ok device;
  metadata_file = some [];
  is_taken = false;
  parent = some (record {
    kind = directory;
    reparse = false;
    device = 1;
    inode = 2;
    size = 0;
    modified_ns = 0;
  });
  copied = some (8 ∷ 9 ∷ []);
  linking = linked;
  restored_at = "2026-01-02T00:00:00Z";
  rewrites = true;
}

abbrev stored : Disk
stored = record {
  entries = ("e1", record { metadata = old_note; content = 8 ∷ 9 ∷ [] }) ∷ [];
  files = ("/a/good", 1 ∷ []) ∷ [];
}

-- The file is back.
restored :
    find "/a/bad" (restore_entry tools restoring "e1" none stored).1.files ≡ some (8 ∷ 9 ∷ [])
unfolding restore_entry find recover_content ◌>>=◌ validate_entry_id or_raise guard read_metadata
    strict_json_loads leb_text check_metadata check_common get_field has_exact_keys is_sha256
    is_state copy_legacy_content put
restored = refl

restore_entry-IsGentle_example :
    IsGentle tools restoring stored (restore_entry tools restoring "e1" none stored)
restore_entry-IsGentle_example = restore_entry-IsGentle tools restoring "e1" none stored

-- One entry of the first schema and one whose file cannot be read, beside a hidden directory.
abbrev candidates : List Candidate
candidates =
    record { name = "e1"; metadata_file = some [] }
    ∷ record { name = ".e3.tmp"; metadata_file = none }
    ∷ record { name = "e2"; metadata_file = none }
    ∷ []

abbrev listing : List Listed × List (String × QuarantineError)
listing = (
  record { metadata = old_note; restore_count = 0; encrypted = false } ∷ [],
  ("e2", unreadable_metadata) ∷ [],
)

listed : list_entries tools (ok device) (directory_of candidates) ≡ ok listing
unfolding list_entries list_all list_entry sorted ◌>>=◌ validate_entry_id or_raise guard
    read_metadata strict_json_loads leb_text check_metadata check_common get_field has_exact_keys
    is_sha256 is_state item_list
listed = refl
