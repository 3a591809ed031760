-- ===== src/Tests/Feed.antt =====
-- A keyring of one key and a feed of one rule, with small codecs in place of the real ones: a file's
-- bytes are one number that names its document, and a time is the sum of its text's code points.
use zsec_shield.Prelude.{
  ℕ, zero, suc, ◌*◌, ◌≤◌, ◌≡◌, ◌⊎◌, true, Option, none, some, String, List, [], ◌∷◌, refl, arith,
  str_eq, sum_of, ◌==◌, if◌then◌else◌, length, ok, ◌>>=◌, guard, or_raise, map_result, leb_text,
}
use zsec_shield.Prelude.Dict.{Dict, find, put}
use zsec_shield.Json.{
  Json, int, text, array, object, nil, cons, Fields, end, field, get_field, has_key, field_names,
  item_list, has_exact_keys, is_text,
}
use zsec_shield.Json.Strict.{insert_field, add_field, build, strict_json_loads}
use zsec_shield.Models.{literal, high}
use zsec_shield.Feed.{Codec, TrustedKey, bounded_string, timestamp, decode_base64, matches_rule_id}
use zsec_shield.Feed.Keyring.{key_status, optional_timestamp, parse_key, parse_keys, load_keyring}
use zsec_shield.Feed.Records.{parse_kind, severity_of, parse_severity, parse_value, validate_rule}
use zsec_shield.Feed.Verify.{
  VerifiedFeed, usable_key, Signed, verify_root, verify_envelope, parse_sequence, parse_rules,
  check_window, check_rules, verify_payload, verify_feed_document,
}
use zsec_shield.Feed.Install.{
  Store, Outcome, installed, unchanged, valid, state_sequence, state_digest, parse_state,
  read_state, accepted, inspect_feed, check_rollback, state_document, prepare, write_document,
  install_feed, done, failed,
}
use zsec_shield.Feed.Trust.{IsSigned}
use zsec_shield.Feed.Payload.{IsCurrent, IsFrom, verify_feed_document_sound}
use zsec_shield.Feed.Rollback.{IsInstall, IsRefused, IsWritten, install_feed_atomic}
use zsec_shield.Feed.Reload.{ReadsBack, installed_feed_is_accepted, half_written_feed}

abbrev repeat : ℕ → ℕ → List ℕ
repeat zero x = []
repeat (suc n) x = x ∷ repeat n x

abbrev key_record : Json
key_record = object (
    field "algorithm" (text "ed25519") (
      field "key_id" (text "key-a")
        (field "public_key" (text "KKKK") (field "status" (text "active") end))))

abbrev keyring_json : Json
keyring_json = object (
    field "keys" (array (cons key_record nil)) (field "schema" (text "zsec.shield.keyring.v1") end))

abbrev rule_json : Json
rule_json = object (
    field "description" (text "d") (
      field "id" (text "demo.rule") (
        field "kind" (text "literal") (
          field "name" (text "n") (
            field "severity" (text "high")
              (field "source" (text "s") (field "value" (text "DDDD") end)))))))

abbrev payload : Fields
payload = field "expires_at" (text "2026-01-09T00:00:00Z") (
    field "generated_at" (text "2026-01-01T00:00:00Z") (
      field "rules" (array (cons rule_json nil))
        (field "schema" (text "zsec.shield.rules.v1") (field "sequence" (int 5) end))))

abbrev envelope : Fields
envelope = field "algorithm" (text "ed25519") (
    field "key_id" (text "key-a") (
      field "payload" (object payload)
        (field "schema" (text "zsec.shield.feed.v1") (field "signature" (text "SSSS") end))))

abbrev digest : String
digest = "0000000000000000000000000000000000000000000000000000000000000000"

abbrev state_json : Json
state_json = object (
    field "current_payload_sha256" (text digest) (
      field "key_id" (text "key-a") (
        field "max_sequence" (int 5) (
          field "schema" (text "zsec.shield.feed-state.v1")
            (field "updated_at" (text "2026-01-02T00:00:00Z") end)))))

abbrev name_of : List ℕ → Option String
name_of [] = none
name_of (n ∷ ns) = if n == 1 then some "keyring" else if n == 2 then some "feed" else some "state"

abbrev document_of : String → Option Json
document_of s =
    if str_eq s "keyring"
    then some keyring_json
    else if str_eq s "feed"
    then some (object envelope)
    else some state_json

abbrev file_of : Json → List ℕ
file_of (object fs) = if has_key "max_sequence" fs then 3 ∷ [] else 2 ∷ []
file_of _ = []

abbrev decoded : String → Option (List ℕ)
decoded s =
    if str_eq s "KKKK"
    then some (repeat 32 1)
    else if str_eq s "SSSS"
    then some (repeat 64 2)
    else some (7 ∷ [])

abbrev encoded : List ℕ → String
encoded bytes = if length bytes == 32 then "KKKK" else if length bytes == 64 then "SSSS" else "DDDD"

abbrev codec : Codec
codec = record {
  decoder = record { utf8 = name_of; parse = document_of };
  canonical = λ fs. some [];
  pretty = file_of;
  b64decode = decoded;
  b64encode = encoded;
  from_iso = λ cs. some (sum_of (λ c. c) cs, some 0);
  format_utc = λ t. "2026-01-02T00:00:00Z";
  sha256 = λ bytes. digest;
  verify = λ key signature message. true;
}

abbrev key_a : TrustedKey
key_a = record {
  key_id = "key-a";
  public_key = repeat 32 1;
  is_active = true;
  not_before = none;
  not_after = none;
}

abbrev keyring : Dict TrustedKey
keyring = ("key-a", key_a) ∷ []

abbrev feed : VerifiedFeed
feed = record {
  document = envelope;
  sequence = 5;
  generated_at = 974;
  expires_at = 982;
  key_id = "key-a";
  payload_sha256 = digest;
  rules =
      record {
        rule_id = "demo.rule";
        name = "n";
        kind = literal;
        severity = high;
        description = "d";
        source = "s";
        digest = none;
        literal_bytes = some (7 ∷ []);
      }
      ∷ [];
}

abbrev empty : Store
empty = record { document = none; state = none }

verified : verify_feed_document codec (2 ∷ []) keyring 975 ≡ ok feed
unfolding verify_feed_document verify_envelope verify_root verify_payload strict_json_loads build
    add_field insert_field has_key has_exact_keys field_names is_text get_field bounded_string
    usable_key find decode_base64 parse_sequence check_window timestamp check_rules parse_rules
    map_result validate_rule parse_kind severity_of parse_severity parse_value matches_rule_id
    item_list ◌>>=◌ guard or_raise leb_text
verified = refl

abbrev written : Store
written = record { document = some (2 ∷ []); state = some (3 ∷ []) }

read_back_document :
    strict_json_loads codec.decoder (codec.pretty (object feed.document))
    ≡ some (object feed.document)
unfolding strict_json_loads build add_field insert_field has_key leb_text
read_back_document = refl

read_back_state :
    strict_json_loads codec.decoder (codec.pretty (state_document codec 975 feed))
    ≡ some (state_document codec 975 feed)
unfolding strict_json_loads build add_field insert_field has_key leb_text state_document
read_back_state = refl

state_size : length (codec.pretty (state_document codec 975 feed)) ≤ 64 * 1024
unfolding state_document has_key
state_size = omega arith

document_size : length (codec.pretty (object feed.document)) ≤ 2 * 1024 * 1024
unfolding has_key
document_size = omega arith

clock : timestamp codec (text (codec.format_utc 975)) ≡ ok 975
unfolding timestamp bounded_string ◌>>=◌ guard or_raise
clock = refl

reads_back : ReadsBack codec 975 feed
reads_back = record {
  document_reads = read_back_document;
  document_small = document_size;
  state_reads = read_back_state;
  state_small = state_size;
  digest_length = refl;
  digest_hex = refl;
  clock_text = (975, clock);
}

first_prepared : prepare codec (2 ∷ []) (some (1 ∷ [])) 975 empty ≡ ok (installed, feed)
unfolding verify_feed_document verify_envelope verify_root verify_payload strict_json_loads build
    add_field insert_field has_key has_exact_keys field_names is_text get_field bounded_string
    usable_key find decode_base64 parse_sequence check_window timestamp check_rules parse_rules
    map_result validate_rule parse_kind severity_of parse_severity parse_value matches_rule_id
    item_list ◌>>=◌ guard or_raise leb_text load_keyring parse_keys parse_key key_status
    optional_timestamp put prepare read_state parse_state state_sequence state_digest check_rollback
first_prepared = refl

repeated : prepare codec (2 ∷ []) (some (1 ∷ [])) 975 written ≡ ok (unchanged, feed)
unfolding verify_feed_document verify_envelope verify_root verify_payload strict_json_loads build
    add_field insert_field has_key has_exact_keys field_names is_text get_field bounded_string
    usable_key find decode_base64 parse_sequence check_window timestamp check_rules parse_rules
    map_result validate_rule parse_kind severity_of parse_severity parse_value matches_rule_id
    item_list ◌>>=◌ guard or_raise leb_text load_keyring parse_keys parse_key key_status
    optional_timestamp put prepare read_state parse_state state_sequence state_digest check_rollback
repeated = refl

first_installed :
    (install_feed codec (2 ∷ []) (some (1 ∷ [])) 975 (done, done) empty).0 ≡ ok (installed, feed)
unfolding install_feed
first_installed = rw first_prepared

half_accepted : accepted codec (some (1 ∷ [])) 980 (write_document codec feed written) ≡ ok feed
unfolding verify_feed_document verify_envelope verify_root verify_payload strict_json_loads build
    add_field insert_field has_key has_exact_keys field_names is_text get_field bounded_string
    usable_key find decode_base64 parse_sequence check_window timestamp check_rules parse_rules
    map_result validate_rule parse_kind severity_of parse_severity parse_value matches_rule_id
    item_list ◌>>=◌ guard or_raise leb_text load_keyring parse_keys parse_key key_status
    optional_timestamp put prepare read_state parse_state state_sequence state_digest check_rollback
    accepted write_document
half_accepted = refl

verify_feed_document_sound_example :
    (s : Signed) × IsSigned codec (2 ∷ []) keyring 975 s × IsCurrent 975 feed × IsFrom codec s feed
verify_feed_document_sound_example =
    verify_feed_document_sound codec (2 ∷ []) keyring 975 feed verified

install_feed_atomic_example :
    IsRefused empty (install_feed codec (2 ∷ []) (some (1 ∷ [])) 975 (done, failed) empty)
    ⊎ ((o : Outcome) × (v : VerifiedFeed) × IsInstall codec (2 ∷ []) (some (1 ∷ [])) 975 empty o v
        × IsWritten codec 975 empty o v
            (install_feed codec (2 ∷ []) (some (1 ∷ [])) 975 (done, failed) empty))
install_feed_atomic_example =
    install_feed_atomic codec (2 ∷ []) (some (1 ∷ [])) 975 (done, failed) empty

trusted_keys : load_keyring codec (some (1 ∷ [])) ≡ ok keyring
unfolding strict_json_loads build add_field insert_field has_key has_exact_keys field_names is_text
    get_field bounded_string decode_base64 map_result item_list ◌>>=◌ guard or_raise leb_text
    load_keyring parse_keys parse_key key_status optional_timestamp put find
trusted_keys = refl

verified_later : verify_feed_document codec (2 ∷ []) keyring 980 ≡ ok feed
unfolding verify_feed_document verify_envelope verify_root verify_payload strict_json_loads build
    add_field insert_field has_key has_exact_keys field_names is_text get_field bounded_string
    usable_key find decode_base64 parse_sequence check_window timestamp check_rules parse_rules
    map_result validate_rule parse_kind severity_of parse_severity parse_value matches_rule_id
    item_list ◌>>=◌ guard or_raise leb_text
verified_later = refl

installed_feed_is_accepted_example :
    inspect_feed codec
      (some (1 ∷ []))
      980
      (install_feed codec (2 ∷ []) (some (1 ∷ [])) 975 (done, done) empty).1
    ≡ some (valid feed, feed.rules)
installed_feed_is_accepted_example =
    installed_feed_is_accepted codec (2 ∷ []) (some (1 ∷ [])) (some (1 ∷ [])) 975 980 keyring
      (done, done) empty installed feed feed reads_back first_installed trusted_keys verified_later

half_written_feed_example : (feed ≡ feed) × (unchanged ≡ unchanged)
half_written_feed_example =
    half_written_feed codec (2 ∷ []) (some (1 ∷ [])) (some (1 ∷ [])) 975 980 written unchanged feed
      feed reads_back repeated half_accepted
