-- ===== src/Feed/Verify.antt =====
-- `verify_feed_document` of src/zsec_shield/feed.py, in its two halves: the signed envelope, and the
-- payload that the signature covers.
use zsec_shield.Prelude.{
  ℕ, ◌+◌, ◌-◌, ◌^◌, Bool, true, not, ◌&&◌, Option, none, some, String, List, [], ◌∷◌, text_in,
  length, ltb, leb, map, map_result, Result, ok, err, ◌>>=◌, ◌>>◌, guard, or_raise,
}
use zsec_shield.Prelude.Dict.{Dict, find}
use zsec_shield.Json.{Json, int, array, Fields, is_text, has_exact_keys, item_list}
use zsec_shield.Json.Strict.{strict_json_loads}
use zsec_shield.Feed.{
  FeedError, too_large, invalid_json, wrong_fields, wrong_schema, untrusted_key, revoked_key,
  key_not_valid_yet, key_expired, unencodable, bad_signature, bad_sequence, future_feed,
  expired_feed, inverted_feed, long_feed, too_many_rules, duplicate_rules, Codec, TrustedKey,
  member, as_object, bounded_string, timestamp, decode_base64, max_feed_bytes, max_rules,
  max_feed_lifetime, max_clock_skew,
}
use zsec_shield.Feed.Records.{FeedRule, validate_rule}

-- `document` is the parsed envelope.
pub record VerifiedFeed : Type 0 where
  pub document : Fields
  pub sequence : ℕ
  pub generated_at : ℕ
  pub expires_at : ℕ
  pub key_id : String
  pub payload_sha256 : String
  pub rules : List FeedRule

-- `trusted.not_before and current < trusted.not_before`, negated
abbrev pub not_too_early : Option ℕ → ℕ → Bool
not_too_early none now = true
not_too_early (some t) now = leb t now

abbrev pub not_too_late : Option ℕ → ℕ → Bool
not_too_late none now = true
not_too_late (some t) now = ltb now t

-- The checks on the key that the envelope names.
unfoldable pub usable_key : Dict TrustedKey → ℕ → String → Result FeedError TrustedKey
unfolding find
usable_key keyring now key_id = do
  trusted ← or_raise (find key_id keyring) untrusted_key
  guard trusted.is_active revoked_key
  guard (not_too_early trusted.not_before now) key_not_valid_yet
  guard (not_too_late trusted.not_after now) key_expired
  ok trusted

-- An envelope whose signature has been verified.
pub record Signed : Type 0 where
  pub root : Fields
  pub key_id : String
  pub trusted : TrustedKey
  pub payload : Fields
  pub signature : List ℕ
  pub message : List ℕ  -- the canonical payload

-- The checks on the parsed envelope, up to the signature.
unfoldable pub verify_root : Codec → Fields → Dict TrustedKey → ℕ → Result FeedError Signed
unfolding has_exact_keys is_text bounded_string usable_key decode_base64
verify_root c root keyring now = do
  guard (has_exact_keys ("schema" ∷ "algorithm" ∷ "key_id" ∷ "payload" ∷ "signature" ∷ []) root)
      wrong_fields
  schema ← member "schema" root
  algorithm ← member "algorithm" root
  guard (is_text "zsec.shield.feed.v1" schema && is_text "ed25519" algorithm) wrong_schema
  id_value ← member "key_id" root
  key_id ← bounded_string 3 128 id_value
  trusted ← usable_key keyring now key_id
  payload_value ← member "payload" root
  payload ← as_object payload_value
  message ← or_raise (c.canonical payload) unencodable
  signature_value ← member "signature" root
  signature ← decode_base64 c (some 64) signature_value
  guard (c.verify trusted.public_key signature message) bad_signature
  ok (record {
    root = root;
    key_id = key_id;
    trusted = trusted;
    payload = payload;
    signature = signature;
    message = message;
  })

-- The first half: the size, the parse, and the envelope.
unfoldable pub verify_envelope : Codec → List ℕ → Dict TrustedKey → ℕ → Result FeedError Signed
unfolding strict_json_loads verify_root
verify_envelope c raw keyring now = do
  guard (leb (length raw) max_feed_bytes) too_large
  root_value ← or_raise (strict_json_loads c.decoder raw) invalid_json
  root ← as_object root_value
  verify_root c root keyring now

-- `isinstance(sequence, int)` and not a bool, with 1 <= sequence < 2 ** 63
unfoldable pub parse_sequence : Json → Result FeedError ℕ
parse_sequence (int n) = guard (leb 1 n && ltb n (2 ^ 63)) bad_sequence >> ok n
parse_sequence _ = err bad_sequence

abbrev as_array : Json → Result FeedError (List Json)
as_array (array vs) = ok (item_list vs)
as_array _ = err too_many_rules

-- The rule identifiers are all different.
abbrev pub distinct_texts : List String → Bool
distinct_texts [] = true
distinct_texts (x ∷ xs) = not (text_in x xs) && distinct_texts xs

abbrev pub rule_ids : List FeedRule → List String
rule_ids rules = map (λ (r : FeedRule). r.rule_id) rules

unfoldable pub parse_rules : Codec → List Json → Result FeedError (List FeedRule)
unfolding validate_rule
parse_rules c records = map_result (validate_rule c) records

-- The times that the payload claims, against the clock.
unfoldable pub check_window : Codec → ℕ → Fields → Result FeedError (ℕ × ℕ)
unfolding timestamp
check_window c now payload = do
  generated_value ← member "generated_at" payload
  generated_at ← timestamp c generated_value
  expires_value ← member "expires_at" payload
  expires_at ← timestamp c expires_value
  guard (leb generated_at (now + max_clock_skew)) future_feed
  guard (ltb now expires_at) expired_feed
  guard (ltb generated_at expires_at) inverted_feed
  guard (leb (expires_at - generated_at) max_feed_lifetime) long_feed
  ok (generated_at, expires_at)

unfoldable pub check_rules : Codec → Fields → Result FeedError (List FeedRule)
unfolding parse_rules
check_rules c payload = do
  rules_value ← member "rules" payload
  records ← as_array rules_value
  guard (leb (length records) max_rules) too_many_rules
  rules ← parse_rules c records
  guard (distinct_texts (rule_ids rules)) duplicate_rules
  ok rules

-- The second half: the signed payload.
unfoldable pub verify_payload : Codec → ℕ → Signed → Result FeedError VerifiedFeed
unfolding has_exact_keys is_text parse_sequence check_window check_rules
verify_payload c now signed = do
  guard
      (has_exact_keys ("schema" ∷ "sequence" ∷ "generated_at" ∷ "expires_at" ∷ "rules" ∷ [])
        signed.payload)
      wrong_fields
  schema ← member "schema" signed.payload
  guard (is_text "zsec.shield.rules.v1" schema) wrong_schema
  sequence_value ← member "sequence" signed.payload
  sequence ← parse_sequence sequence_value
  window ← check_window c now signed.payload
  rules ← check_rules c signed.payload
  ok (record {
    document = signed.root;
    sequence = sequence;
    generated_at = window.0;
    expires_at = window.1;
    key_id = signed.key_id;
    payload_sha256 = c.sha256 signed.message;
    rules = rules;
  })

-- `verify_feed_document`
unfoldable pub verify_feed_document :
    Codec → List ℕ → Dict TrustedKey → ℕ → Result FeedError VerifiedFeed
unfolding verify_envelope verify_payload
verify_feed_document c raw keyring now = do
  signed ← verify_envelope c raw keyring now
  verify_payload c now signed
