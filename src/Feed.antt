-- ===== src/Feed.antt =====
-- src/zsec_shield/feed.py: strict verification and fail-closed installation of signed rule feeds.
-- Points of time are microseconds since the year 1, as Python's datetime counts them.
pub mod Keyring
pub mod Records
pub mod Verify
pub mod Install
pub mod Trust
pub mod Payload
pub mod Once
pub mod Rollback
pub mod Reload
use zsec_shield.Prelude.{
  ℕ, suc, ◌+◌, ◌-◌, ◌*◌, ◌^◌, ◌≤◌, Bool, true, false, not, ◌&&◌, ◌||◌, Option, none, some, String,
  List, [], ◌∷◌, str_eq, if◌then◌else◌, any, all, text_in, length, codes, ltb, leb, ◌==◌, Result,
  ok, err, ◌>>=◌, ◌>>◌, guard, or_raise,
}
use zsec_shield.Json.{Json, text, object, Fields, get_field}
use zsec_shield.Json.Strict.{Decoder}

-- What the verification raises: a constructor for each kind of message of a FeedError.
pub data FeedError : Type 0 where
  too_large unreadable invalid_json not_an_object wrong_fields wrong_schema not_an_array : FeedError
  bad_string bad_timestamp bad_base64 bad_key_id duplicate_key_id bad_algorithm bad_status :
      FeedError
  inverted_window bad_rule_id bad_kind bad_severity bad_digest bad_literal : FeedError
  untrusted_key revoked_key key_not_valid_yet key_expired bad_signature bad_sequence : FeedError
  future_feed expired_feed inverted_feed long_feed too_many_rules duplicate_rules : FeedError
  bad_state_digest missing_half sequence_mismatch payload_mismatch : FeedError
  rollback sequence_reuse : FeedError
  unhashable : FeedError  -- no FeedError but the TypeError of `value in {…}` for a list or a dict
  unencodable : FeedError  -- the ValueError of canonical_json_bytes: an infinity or a lone surrogate
  write_failed : FeedError  -- the OSError of an atomic write

abbrev pub max_feed_bytes : ℕ
max_feed_bytes = 2 * 1024 * 1024

abbrev pub max_rules : ℕ
max_rules = 2048

abbrev pub max_literal_bytes : ℕ
max_literal_bytes = 4096

-- timedelta(days=90) and timedelta(minutes=5)
abbrev pub max_feed_lifetime : ℕ
max_feed_lifetime = 7776000000000

abbrev pub max_clock_skew : ℕ
max_clock_skew = 300000000

-- What the feed code uses of base64, datetime, hashlib, json and the cryptography package. The
-- point of time that an ISO text stands for comes with its offset from UTC, `none` if it names none.
pub record Codec : Type 0 where
  pub decoder : Decoder
  pub canonical : Fields → Option (List ℕ)  -- canonical_json_bytes, `none` where it raises ValueError
  pub pretty : Json → List ℕ  -- json.dumps with indent=2 and sorted keys, and the final newline
  pub b64decode : String → Option (List ℕ)
  pub b64encode : List ℕ → String
  pub from_iso : List ℕ → Option (ℕ × Option ℕ)
  pub format_utc : ℕ → String
  pub sha256 : List ℕ → String
  pub verify : List ℕ → List ℕ → List ℕ → Bool  -- Ed25519: public key, signature, message

pub record TrustedKey : Type 0 where
  pub key_id : String
  pub public_key : List ℕ
  pub is_active : Bool  -- the status, "active" or "revoked"
  pub not_before : Option ℕ
  pub not_after : Option ℕ

-- `value[key]`, after a check that the key is there
abbrev pub member : String → Fields → Result FeedError Json
member k fs = or_raise (get_field k fs) wrong_fields

abbrev pub as_object : Json → Result FeedError Fields
as_object (object fs) = ok fs
as_object _ = err not_an_object

-- A control character other than the tab.
abbrev is_control : ℕ → Bool
is_control c = ltb c 32 && not (c == 9)

-- `_bounded_string`
unfoldable pub bounded_string : ℕ → ℕ → Json → Result FeedError String
bounded_string minimum maximum (text s) = do
  guard (leb minimum (length (codes s)) && leb (length (codes s)) maximum) bad_string
  guard (not (any is_control (codes s))) bad_string
  ok s
bounded_string minimum maximum _ = err bad_string

-- `text.endswith("Z")` and `text[:-1]`
abbrev pub before_z : List ℕ → Option (List ℕ)
before_z [] = none
before_z (c ∷ []) = if c == b'Z' then some [] else none
before_z (c ∷ d ∷ cs) = elim (before_z (d ∷ cs)) [ none ↦ none | some r ↦ some (c ∷ r) ]

abbrev is_utc : ℕ × Option ℕ → Bool
is_utc (t, none) = false
is_utc (t, some offset) = offset == 0

-- `_timestamp`; the "+00:00" that the code appends is part of `from_iso` here
unfoldable pub timestamp : Codec → Json → Result FeedError ℕ
unfolding bounded_string
timestamp c value = do
  s ← bounded_string 20 35 value
  stem ← or_raise (before_z (codes s)) bad_timestamp
  parsed ← or_raise (c.from_iso stem) bad_timestamp
  guard (is_utc parsed) bad_timestamp
  ok parsed.0

abbrev has_length : Option ℕ → ℕ → Bool
has_length none n = true
has_length (some m) n = n == m

-- `_decode_base64`
unfoldable pub decode_base64 : Codec → Option ℕ → Json → Result FeedError (List ℕ)
unfolding bounded_string
decode_base64 c expected value = do
  s ← bounded_string 4 8192 value
  decoded ← or_raise (c.b64decode s) bad_base64
  guard (str_eq (c.b64encode decoded) s) bad_base64
  guard (has_length expected (length decoded)) bad_base64
  ok decoded

abbrev is_lower_or_digit : ℕ → Bool
is_lower_or_digit c = leb b'a' c && leb c b'z' || leb b'0' c && leb c b'9'

abbrev is_id_code : ℕ → Bool
is_id_code c = is_lower_or_digit c || c == b'.' || c == b'_' || c == b':' || c == b'-'

-- `RULE_ID_PATTERN.fullmatch`: [a-z0-9][a-z0-9._:-]{2,127}
unfoldable pub matches_rule_id : List ℕ → Bool
matches_rule_id [] = false
matches_rule_id (c ∷ cs) =
    is_lower_or_digit c && all is_id_code cs && leb 2 (length cs) && leb (length cs) 127
