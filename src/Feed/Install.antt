-- ===== src/Feed/Install.antt =====
-- `_read_state`, `inspect_feed` and `install_feed` of src/zsec_shield/feed.py over the two files of an
-- installed feed. A file is its bytes, `none` where it is absent; each write replaces a whole file.
use zsec_shield.Prelude.{
  ℕ, ◌*◌, not, ◌&&◌, Option, none, some, String, List, [], ◌∷◌, str_eq, codes, all, length, leb,
  ◌==◌, if◌then◌else◌, is_some, Result, ok, err, ◌>>=◌, ◌>>◌, guard, or_raise,
}
use zsec_shield.Json.{Json, int, text, object, end, field, is_text, has_exact_keys}
use zsec_shield.Json.Strict.{strict_json_loads}
use zsec_shield.Feed.{
  FeedError, too_large, invalid_json, wrong_fields, wrong_schema, bad_sequence, bad_state_digest,
  missing_half, sequence_mismatch, payload_mismatch, rollback, sequence_reuse, unhashable,
  unencodable, write_failed, Codec, member, as_object, bounded_string, timestamp, max_feed_bytes,
}
use zsec_shield.Feed.Keyring.{load_keyring}
use zsec_shield.Feed.Records.{FeedRule, is_hex}
use zsec_shield.Feed.Verify.{VerifiedFeed, verify_feed_document}

-- The document and the rollback state under the state directory.
pub record Store : Type 0 where
  pub document : Option (List ℕ)
  pub state : Option (List ℕ)

-- What a reader of the rollback state uses of it.
pub record FeedState : Type 0 where
  pub max_sequence : ℕ
  pub current_payload_sha256 : String

-- An int that is no bool and at least 1
unfoldable pub state_sequence : Json → Result FeedError ℕ
state_sequence (int n) = guard (leb 1 n) bad_sequence >> ok n
state_sequence _ = err bad_sequence

unfoldable pub state_digest : Json → Result FeedError String
state_digest (text s) =
    guard (leb (length (codes s)) 64 && leb 64 (length (codes s)) && all is_hex (codes s))
      bad_state_digest
    >> ok s
state_digest _ = err bad_state_digest

-- `_read_state` on a file that exists
unfoldable pub parse_state : Codec → List ℕ → Result FeedError FeedState
parse_state c raw = do
  guard (leb (length raw) (64 * 1024)) too_large
  root ← or_raise (strict_json_loads c.decoder raw) invalid_json
  fs ← as_object root
  guard
      (has_exact_keys
        ("schema" ∷ "max_sequence" ∷ "current_payload_sha256" ∷ "key_id" ∷ "updated_at" ∷ []) fs)
      wrong_fields
  schema ← member "schema" fs
  guard (is_text "zsec.shield.feed-state.v1" schema) wrong_schema
  sequence_value ← member "max_sequence" fs
  sequence ← state_sequence sequence_value
  digest_value ← member "current_payload_sha256" fs
  digest ← state_digest digest_value
  id_value ← member "key_id" fs
  key_id ← bounded_string 3 128 id_value
  updated_value ← member "updated_at" fs
  updated ← timestamp c updated_value
  ok (record { max_sequence = sequence; current_payload_sha256 = digest })

-- `_read_state`
unfoldable pub read_state : Codec → Option (List ℕ) → Result FeedError (Option FeedState)
read_state c none = ok none
read_state c (some raw) = do state ← parse_state c raw; ok (some state)

-- The feed that `inspect_feed` accepts.
unfoldable pub accepted : Codec → Option (List ℕ) → ℕ → Store → Result FeedError VerifiedFeed
accepted c keyring_file now store = do
  document ← or_raise store.document missing_half
  guard (is_some store.state) missing_half
  guard (leb (length document) max_feed_bytes) too_large
  keyring ← load_keyring c keyring_file
  verified ← verify_feed_document c document keyring now
  found ← read_state c store.state
  state ← or_raise found missing_half
  guard (state.max_sequence == verified.sequence) sequence_mismatch
  guard (str_eq state.current_payload_sha256 verified.payload_sha256) payload_mismatch
  ok verified

pub data FeedStatus : Type 0 where
  absent : FeedStatus
  valid : VerifiedFeed → FeedStatus
  invalid : FeedError → FeedStatus

abbrev pub status_of : Result FeedError VerifiedFeed → Option (FeedStatus × List FeedRule)
status_of (ok verified) = some (valid verified, verified.rules)
status_of (err unhashable) = none
status_of (err unencodable) = none
status_of (err e) = some (invalid e, [])

-- `inspect_feed`: the status, and the rules that a scan may use; `none` is an uncaught TypeError
-- or ValueError
unfoldable pub inspect_feed :
    Codec → Option (List ℕ) → ℕ → Store → Option (FeedStatus × List FeedRule)
inspect_feed c keyring_file now store =
    if not (is_some store.document) && not (is_some store.state)
    then some (absent, [])
    else status_of (accepted c keyring_file now store)

pub data Outcome : Type 0 where
  installed unchanged : Outcome

-- The rollback check of `install_feed`.
unfoldable pub check_rollback : Option FeedState → VerifiedFeed → Result FeedError Outcome
check_rollback none verified = ok installed
check_rollback (some previous) verified = do
  guard (leb previous.max_sequence verified.sequence) rollback
  if verified.sequence == previous.max_sequence
      then (guard (str_eq verified.payload_sha256 previous.current_payload_sha256) sequence_reuse
          >> ok unchanged)
      else ok installed

-- The rollback state as it is written.
unfoldable pub state_document : Codec → ℕ → VerifiedFeed → Json
state_document c now verified = object (
    field "current_payload_sha256" (text verified.payload_sha256) (
      field "key_id" (text verified.key_id) (
        field "max_sequence" (int verified.sequence) (
          field "schema" (text "zsec.shield.feed-state.v1")
            (field "updated_at" (text (c.format_utc now)) end)))))

-- `install_feed` up to its writes, under the update lock.
unfoldable pub prepare :
    Codec → List ℕ → Option (List ℕ) → ℕ → Store → Result FeedError (Outcome × VerifiedFeed)
prepare c raw keyring_file now store = do
  keyring ← load_keyring c keyring_file
  verified ← verify_feed_document c raw keyring now
  previous ← read_state c store.state
  outcome ← check_rollback previous verified
  ok (outcome, verified)

-- The two writes, in their order; a crash may come between them.
unfoldable pub write_document : Codec → VerifiedFeed → Store → Store
write_document c verified store = record store {
  document = some (c.pretty (object verified.document));
}

unfoldable pub write_state : Codec → ℕ → VerifiedFeed → Store → Store
write_state c now verified store = record store {
  state = some (c.pretty (state_document c now verified));
}

-- How an atomic write ends: done, with an OSError before the rename that leaves the file as it was, or with one
-- of the directory's fsync after it.
pub data Write : Type 0 where
  done failed unsynced : Write

abbrev pub save_state :
    Codec
    → ℕ
    → Write
    → Outcome × VerifiedFeed
    → Store
    → Result FeedError (Outcome × VerifiedFeed) × Store
save_state c now done r store = (ok r, write_state c now r.1 store)
save_state c now failed r store = (err write_failed, store)
save_state c now unsynced r store = (err write_failed, write_state c now r.1 store)

-- The two writes; the second is not tried after an error of the first.
abbrev pub save :
    Codec
    → ℕ
    → Write
    → Write
    → Outcome × VerifiedFeed
    → Store
    → Result FeedError (Outcome × VerifiedFeed) × Store
save c now done second r store = save_state c now second r (write_document c r.1 store)
save c now failed second r store = (err write_failed, store)
save c now unsynced second r store = (err write_failed, write_document c r.1 store)

abbrev pub finish :
    Codec
    → ℕ
    → Write × Write
    → Store
    → Result FeedError (Outcome × VerifiedFeed)
    → Result FeedError (Outcome × VerifiedFeed) × Store
finish c now writes store (ok r) = save c now writes.0 writes.1 r store
finish c now writes store (err e) = (err e, store)

-- `install_feed`
unfoldable pub install_feed :
    Codec
    → List ℕ
    → Option (List ℕ)
    → ℕ
    → Write × Write
    → Store
    → Result FeedError (Outcome × VerifiedFeed) × Store
install_feed c raw keyring_file now writes store =
    finish c now writes store (prepare c raw keyring_file now store)
