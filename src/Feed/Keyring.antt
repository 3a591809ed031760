-- ===== src/Feed/Keyring.antt =====
-- `load_keyring` of src/zsec_shield/feed.py. Its last loop only reads the keys and changes nothing.
use zsec_shield.Prelude.{
  ℕ, ◌*◌, Bool, true, false, not, ◌&&◌, Option, none, some, List, [], ◌∷◌, all, text_in, length,
  codes, ltb, leb, if◌then◌else◌, is_some, Result, ok, err, ◌>>=◌, ◌>>◌, guard, or_raise,
}
use zsec_shield.Prelude.Dict.{Dict, find, put}
use zsec_shield.Json.{
  Json, array, object, get_field, field_names, item_list, is_text, has_exact_keys,
}
use zsec_shield.Json.Strict.{strict_json_loads}
use zsec_shield.Feed.{
  FeedError, too_large, unreadable, invalid_json, not_an_array, wrong_fields, wrong_schema,
  bad_key_id, duplicate_key_id, bad_algorithm, bad_status, inverted_window, unhashable, Codec,
  TrustedKey, member, as_object, bounded_string, timestamp, decode_base64, matches_rule_id,
}

-- `"revoked"` or `"active"`; the second is returned as `true`
unfoldable pub key_status : Json → Result FeedError Bool
unfolding is_text
key_status (array vs) = err unhashable
key_status (object fs) = err unhashable
key_status value =
    if is_text "active" value
    then ok true
    else if is_text "revoked" value
    then ok false
    else err bad_status

-- `_timestamp(record[k], k) if k in record else None`
unfoldable pub optional_timestamp : Codec → Option Json → Result FeedError (Option ℕ)
unfolding timestamp
optional_timestamp c none = ok none
optional_timestamp c (some value) = do t ← timestamp c value; ok (some t)

abbrev pub in_order : Option ℕ → Option ℕ → Bool
in_order (some a) (some b) = ltb a b
in_order _ _ = true

-- One round of the loop over the records: the key, once all its fields are checked.
unfoldable pub parse_key : Codec → Json → Dict TrustedKey → Result FeedError TrustedKey
unfolding field_names bounded_string matches_rule_id is_text key_status decode_base64
    optional_timestamp
parse_key c value known = do
  fs ← as_object value
  let present = field_names fs
  guard
      (all (λ k. text_in k present) ("key_id" ∷ "algorithm" ∷ "public_key" ∷ "status" ∷ [])
        && all
            (λ k.
              text_in k (
                "key_id" ∷ "algorithm" ∷ "public_key" ∷ "status" ∷ "not_before" ∷ "not_after" ∷ []))
            present)
      wrong_fields
  id_value ← member "key_id" fs
  key_id ← bounded_string 3 128 id_value
  guard (matches_rule_id (codes key_id)) bad_key_id
  guard (not (is_some (find key_id known))) duplicate_key_id
  algorithm ← member "algorithm" fs
  guard (is_text "ed25519" algorithm) bad_algorithm
  status_value ← member "status" fs
  is_active ← key_status status_value
  key_value ← member "public_key" fs
  public_key ← decode_base64 c (some 32) key_value
  not_before ← optional_timestamp c (get_field "not_before" fs)
  not_after ← optional_timestamp c (get_field "not_after" fs)
  guard (in_order not_before not_after) inverted_window
  ok (record {
    key_id = key_id;
    public_key = public_key;
    is_active = is_active;
    not_before = not_before;
    not_after = not_after;
  })

unfoldable pub parse_keys : Codec → List Json → Dict TrustedKey → Result FeedError (Dict TrustedKey)
unfolding parse_key
parse_keys c [] known = ok known
parse_keys c (value ∷ rest) known = do
  key ← parse_key c value known
  parse_keys c rest (put key.key_id key known)

abbrev as_array : Json → Result FeedError (List Json)
as_array (array vs) = ok (item_list vs)
as_array _ = err not_an_array

-- The file's bytes, `none` where reading raises OSError.
unfoldable pub load_keyring : Codec → Option (List ℕ) → Result FeedError (Dict TrustedKey)
unfolding parse_keys has_exact_keys
load_keyring c file = do
  raw ← or_raise file unreadable
  guard (leb (length raw) (256 * 1024)) too_large
  root ← or_raise (strict_json_loads c.decoder raw) invalid_json
  fs ← as_object root
  guard (has_exact_keys ("schema" ∷ "keys" ∷ []) fs) wrong_fields
  schema ← member "schema" fs
  guard (is_text "zsec.shield.keyring.v1" schema) wrong_schema
  keys ← member "keys" fs
  records ← as_array keys
  guard (leb (length records) 64) not_an_array
  parse_keys c records []
