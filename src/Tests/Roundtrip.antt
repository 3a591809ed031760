-- ===== src/Tests/Roundtrip.antt =====
-- The file of the last tests is quarantined and then restored.
use zsec_shield.Prelude.{
  ◌≡◌, refl, true, false, none, some, [], Result, ok, err, ◌>>=◌, or_raise, guard, leb_text,
}
use zsec_shield.Prelude.Dict.{find, put, remove}
use zsec_shield.Host.{Stat, directory}
use zsec_shield.Json.{Fields, end, object, get_field}
use zsec_shield.Json.Strict.{insert_field, strict_json_loads}
use zsec_shield.Zba.{
  zero_commitment, is_sha256, create_quarantine_record, commitment, without, sealed_fields,
}
use zsec_shield.Scanner.Content.{content_of}
use zsec_shield.Vault.{is_protection, create_envelope, mac_of, sign_metadata, to_dict}
use zsec_shield.Quarantine.{
  Tools, QuarantineError, OpenSource, Disk, inspect_regular_source, snapshot, same_snapshot,
  encrypt_regular_source, aad_of, new_metadata, match_items, set_field, write_v2_metadata,
}
use zsec_shield.Quarantine.Moving.{prepare, prepare_for, seal, with_vault, quarantine_finding}
use zsec_shield.Quarantine.Reading.{validate_entry_id}
use zsec_shield.Quarantine.Opening.{HasTools}
use zsec_shield.Quarantine.Restore.{restore_entry}
use zsec_shield.Quarantine.Roundtrip.{calm, restore-quarantine}
use zsec_shield.Tests.Vault.{crypto-HasCiphers, fresh-HasSizes, device}
use zsec_shield.Tests.Zba.{primitives, digests}
use zsec_shield.Tests.Quarantine.{tools, answers, bad_file, disk}

abbrev told : Result QuarantineError Fields → Fields
told (ok fs) = fs
told (err e) = end

-- What the quarantine has written, which the decoder then reads.
abbrev written : Fields
written = told (quarantine_finding tools answers bad_file disk).0

abbrev reading_tools : Tools
reading_tools = record tools {
  decoder = record { utf8 = λ bytes. some ""; parse = λ s. some (object written) };
}

reading_tools-HasTools : HasTools reading_tools
reading_tools-HasTools = record {
  ciphers = crypto-HasCiphers;
  content = λ key nonce aad plaintext. refl;
  content_length = λ key nonce aad plaintext. refl;
  tag_length = λ key nonce aad plaintext. refl;
}

abbrev folder : Stat
folder = record {
  kind = directory;
  reparse = false;
  device = 1;
  inode = 2;
  size = 0;
  modified_ns = 0;
}

abbrev moved : Disk
moved = (quarantine_finding reading_tools answers bad_file disk).1

succeeded : quarantine_finding reading_tools answers bad_file disk ≡ (ok written, moved)
unfolding quarantine_finding prepare ◌>>=◌ guard inspect_regular_source or_raise snapshot
    prepare_for create_quarantine_record commitment get_field without sealed_fields is_sha256 aad_of
    new_metadata seal encrypt_regular_source insert_field put remove leb_text with_vault match_items
    same_snapshot set_field write_v2_metadata create_envelope mac_of sign_metadata to_dict
succeeded = refl

reads_back : strict_json_loads reading_tools.decoder [] ≡ some (object written)
unfolding strict_json_loads quarantine_finding prepare ◌>>=◌ guard inspect_regular_source or_raise
    snapshot prepare_for create_quarantine_record commitment get_field without sealed_fields
    is_sha256 aad_of new_metadata seal encrypt_regular_source insert_field put remove leb_text
    with_vault match_items same_snapshot set_field write_v2_metadata create_envelope mac_of
    sign_metadata to_dict
reads_back = refl

source_is_gone : find "/a/bad" moved.files ≡ none
unfolding find quarantine_finding prepare ◌>>=◌ guard inspect_regular_source or_raise snapshot
    prepare_for create_quarantine_record commitment get_field without sealed_fields is_sha256 aad_of
    new_metadata seal encrypt_regular_source insert_field put remove leb_text with_vault match_items
    same_snapshot set_field write_v2_metadata create_envelope mac_of sign_metadata to_dict
source_is_gone = refl

names_itself : validate_entry_id reading_tools "e1" ≡ ok "e1"
unfolding validate_entry_id ◌>>=◌ or_raise guard
names_itself = refl

digest_form : is_sha256 primitives zero_commitment ≡ true
unfolding is_sha256
digest_form = refl

restore-quarantine_example :
    (f : OpenSource) × ((answers.source ≡ some f)
      × (find "/a/bad"
            (restore_entry reading_tools
              (calm device [] (λ p. p) folder "")
              "e1"
              (some "/a/bad")
              moved).1.files
          ≡ some (content_of f.chunks)))
unfolding is_protection
restore-quarantine_example =
    restore-quarantine reading_tools reading_tools-HasTools digests answers fresh-HasSizes device
      bad_file disk moved written [] (λ p. p) folder "/a/bad" "" refl refl refl refl digest_form
      succeeded names_itself refl reads_back source_is_gone refl
