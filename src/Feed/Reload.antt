-- ===== src/Feed/Reload.antt =====
-- An installed feed read back by `inspect_feed`, whole or after a crash between the two writes.
use zsec_shield.Prelude.{
  ℕ, ◌*◌, ◌≤◌, ◌≡◌, true, Option, some, List, refl, arith, ap, sym, ◌∙◌, le→leb, ==_iff, eq_iff,
  Result, ok, ◌>>=◌, guard, or_raise, >>=-eq-ok, guard-eq-ok, ok_injective, guard-true, ok-bind,
  length, subst, codes, all, or_raise-eq-ok,
}
use mathlib.Core.Option
use zsec_shield.Prelude.Dict.{Dict}
use zsec_shield.Json.{object, text, int, Fields, field_names, get_field, has_exact_keys, is_text}
use zsec_shield.Json.Strict.{strict_json_loads}
use zsec_shield.Feed.{FeedError, Codec, TrustedKey, timestamp, max_feed_bytes}
use zsec_shield.Feed.Keyring.{load_keyring}
use zsec_shield.Feed.Records.{is_hex}
use zsec_shield.Feed.Verify.{
  VerifiedFeed, Signed, verify_root, verify_envelope, verify_payload, verify_feed_document,
}
use zsec_shield.Feed.Trust.{IsBoundedText, verify_envelope-IsSigned}
use zsec_shield.Feed.Payload.{verify_payload-IsCurrent}
use zsec_shield.Feed.Install.{
  Store, FeedState, Outcome, unchanged, valid, read_state, parse_state, state_sequence,
  state_digest, accepted, inspect_feed, check_rollback, prepare, write_document, write_state,
  state_document, install_feed, Write,
}
use zsec_shield.Feed.Once.{verified_once}
use zsec_shield.Feed.Rollback.{IsInstall, prepare-IsInstall, install_feed-ok}

-- What the json, hashlib and datetime modules are relied on for, at one feed: the two files read back as
-- they were written and keep their size limits, a SHA-256 is 64 hexadecimal digits, and the clock's
-- text is a timestamp.
pub record ReadsBack (c : Codec) (now : ℕ) (v : VerifiedFeed) : Type 0 where
  pub document_reads :
      strict_json_loads c.decoder (c.pretty (object v.document)) ≡ some (object v.document)
  pub document_small : length (c.pretty (object v.document)) ≤ max_feed_bytes
  pub state_reads :
      strict_json_loads c.decoder (c.pretty (state_document c now v))
      ≡ some (state_document c now v)
  pub state_small : length (c.pretty (state_document c now v)) ≤ 64 * 1024
  pub digest_length : length (codes v.payload_sha256) ≡ 64
  pub digest_hex : all is_hex (codes v.payload_sha256) ≡ true
  pub clock_text : (t : ℕ) × (timestamp c (text (c.format_utc now)) ≡ ok t)

module _ (c : Codec) (now : ℕ) (v : VerifiedFeed) (reads : ReadsBack c now v) where
  digest_reads : state_digest (text v.payload_sha256) ≡ ok v.payload_sha256
  unfolding state_digest
  digest_reads = guard-true _ _ _ (ground (arith, reads.digest_length, reads.digest_hex))

  sequence_reads : 1 ≤ v.sequence → state_sequence (int v.sequence) ≡ ok v.sequence
  unfolding state_sequence
  sequence_reads h = guard-true _ _ _ (le→leb _ _ h)

  parse_state-written :
      1 ≤ v.sequence
      → IsBoundedText 3 128 v.key_id
      → parse_state c (c.pretty (state_document c now v))
        ≡ ok (record { max_sequence = v.sequence; current_payload_sha256 = v.payload_sha256 })
  unfolding parse_state state_document has_exact_keys field_names is_text get_field ◌>>=◌ or_raise
      guard
  parse_state-written low id_form = rw (
    le→leb _ _ reads.state_small,
    reads.state_reads,
    sequence_reads low,
    digest_reads,
    id_form,
    reads.clock_text.1,
  )

  envelope_verifies :
      (keyring : Dict TrustedKey) (time : ℕ) (s : Signed)
      → verify_root c v.document keyring time ≡ ok s
      → verify_envelope c (c.pretty (object v.document)) keyring time ≡ ok s
  unfolding verify_envelope ◌>>=◌ or_raise guard
  envelope_verifies keyring time s h = rw (le→leb _ _ reads.document_small, reads.document_reads, h)

  -- The document as it is written verifies as the same feed, at any time and under any keyring at which the one
  -- that was received does.
  document_verifies :
      (keyring : Dict TrustedKey) (time : ℕ) (raw : List ℕ)
      → verify_feed_document c raw keyring time ≡ ok v
      → verify_feed_document c (c.pretty (object v.document)) keyring time ≡ ok v
  unfolding verify_feed_document
  document_verifies keyring time raw h =
      let (s, e, h1) = >>=-eq-ok _ _ h in
      let signed = verify_envelope-IsSigned c raw keyring time s e in
      let same = (verify_payload-IsCurrent c time s v h1).1.0 in
      let checked =
        subst (λ (r : Fields). verify_root c r keyring time ≡ ok s) (sym same) signed.checked in
      ap (λ (m : Result FeedError Signed). m >>= verify_payload c time)
        (envelope_verifies keyring time s checked)
      ∙ ok-bind s (verify_payload c time)
      ∙ h1

  key_id_form :
      (keyring : Dict TrustedKey) (raw : List ℕ)
      → verify_feed_document c raw keyring now ≡ ok v
      → IsBoundedText 3 128 v.key_id
  unfolding verify_feed_document
  key_id_form keyring raw h =
      let (s, e, h1) = >>=-eq-ok _ _ h in
      let signed = verify_envelope-IsSigned c raw keyring now s e in
      let same = (verify_payload-IsCurrent c now s v h1).1.1 in
      subst (IsBoundedText 3 128) (sym same) signed.vouched.key_id_form

  low_sequence :
      (keyring : Dict TrustedKey) (raw : List ℕ)
      → verify_feed_document c raw keyring now ≡ ok v
      → 1 ≤ v.sequence
  unfolding verify_feed_document
  low_sequence keyring raw h =
      let (s, e, h1) = >>=-eq-ok _ _ h in (verify_payload-IsCurrent c now s v h1).0.sequenced.0

  accepted-written :
      (raw : List ℕ) (file later_file : Option (List ℕ)) (time : ℕ) (keyring : Dict TrustedKey)
      (store : Store) (o : Outcome)
      → IsInstall c raw file now store o v
      → load_keyring c later_file ≡ ok keyring
      → verify_feed_document c raw keyring time ≡ ok v
      → accepted c later_file time (write_state c now v (write_document c v store)) ≡ ok v
  unfolding accepted write_state write_document read_state ◌>>=◌ or_raise guard
  accepted-written raw file later_file time keyring store o i trusted verified = rw (
    le→leb _ _ reads.document_small,
    trusted,
    document_verifies keyring time raw verified,
    parse_state-written (low_sequence i.keyring raw i.verified)
        (key_id_form i.keyring raw i.verified),
    (==_iff v.sequence v.sequence).1 refl,
    (eq_iff v.payload_sha256 v.payload_sha256).1 refl,
  )

-- Where the two files read back as written, within their size limits, what `install_feed` writes `inspect_feed`
-- accepts, with the rules of the feed, at every time and under every keyring at which the document that was
-- received verifies.
pub installed_feed_is_accepted :
    (c : Codec) (raw : List ℕ) (file later_file : Option (List ℕ)) (now time : ℕ)
    (keyring : Dict TrustedKey) (writes : Write × Write) (store : Store) (o : Outcome)
    (v w : VerifiedFeed)
    → ReadsBack c now v
    → (install_feed c raw file now writes store).0 ≡ ok (o, v)
    → load_keyring c later_file ≡ ok keyring
    → verify_feed_document c raw keyring time ≡ ok w
    → inspect_feed c later_file time (install_feed c raw file now writes store).1
      ≡ some (valid v, v.rules)
unfolding inspect_feed write_state write_document
installed_feed_is_accepted c raw file later_file now time keyring writes store o v w reads h trusted
      verified =
    let (p, written) = install_feed-ok c raw file now writes store (o, v) h in
    let i = prepare-IsInstall c raw file now store (o, v) p in
    let same : v ≡ w = verified_once c raw i.keyring keyring now time v w i.verified verified in
    let still : verify_feed_document c raw keyring time ≡ ok v = verified ∙ ap ok (sym same) in
    rw (
      written,
      accepted-written c now v reads raw file later_file time keyring store o i trusted still,
    )

-- What an accepted pair of files consists of.
pub record IsAccepted (c : Codec) (file : Option (List ℕ)) (now : ℕ) (store : Store)
    (w : VerifiedFeed) : Type 0 where
  pub document : List ℕ
  pub present : store.document ≡ some document
  pub keyring : Dict TrustedKey
  pub trusted : load_keyring c file ≡ ok keyring
  pub verified : verify_feed_document c document keyring now ≡ ok w
  pub state : FeedState
  pub recorded : read_state c store.state ≡ ok (some state)
  pub same_sequence : state.max_sequence ≡ w.sequence
  pub same_payload : state.current_payload_sha256 ≡ w.payload_sha256

pub accepted-IsAccepted :
    (c : Codec) (file : Option (List ℕ)) (now : ℕ) (store : Store) (w : VerifiedFeed)
    → accepted c file now store ≡ ok w
    → IsAccepted c file now store w
unfolding accepted
accepted-IsAccepted c file now store w h =
    let (document, e1, h1) = >>=-eq-ok _ _ h in
    let (has_state, h2) = guard-eq-ok _ _ _ h1 in
    let (small, h3) = guard-eq-ok _ _ _ h2 in
    let (keyring, e4, h4) = >>=-eq-ok _ _ h3 in
    let (verified, e5, h5) = >>=-eq-ok _ _ h4 in
    let (found, e6, h6) = >>=-eq-ok _ _ h5 in
    let (state, e7, h7) = >>=-eq-ok _ _ h6 in
    let (same_sequence, h8) = guard-eq-ok _ _ _ h7 in
    let (same_payload, h9) = guard-eq-ok _ _ _ h8 in
    let e : verified ≡ w = ok_injective h9 in
    subst (IsAccepted c file now store) e (record {
      document = document;
      present = or_raise-eq-ok _ _ e1;
      keyring = keyring;
      trusted = e4;
      verified = e5;
      state = state;
      recorded = e6 ∙ ap ok (or_raise-eq-ok _ _ e7);
      same_sequence = (==_iff _ _).0 same_sequence;
      same_payload = (eq_iff _ _).0 same_payload;
    })

repeats :
    (s : FeedState) (v : VerifiedFeed) (o : Outcome)
    → s.max_sequence ≡ v.sequence
    → check_rollback (some s) v ≡ ok o
    → o ≡ unchanged
unfolding check_rollback ◌>>=◌ guard
repeats s v o e h = ground arith

-- Where the files read back as written and within their limits, after a crash between the two writes no inspection, at whatever time
-- and under whatever keyring, accepts the files unless the installation repeats the recorded feed: the accepted feed
-- is the new one and the outcome would have been `unchanged`.
pub half_written_feed :
    (c : Codec) (raw : List ℕ) (file later_file : Option (List ℕ)) (now time : ℕ) (store : Store)
    (o : Outcome) (v w : VerifiedFeed)
    → ReadsBack c now v
    → prepare c raw file now store ≡ ok (o, v)
    → accepted c later_file time (write_document c v store) ≡ ok w
    → (w ≡ v) × (o ≡ unchanged)
unfolding write_document
half_written_feed c raw file later_file now time store o v w reads p h =
    let i = prepare-IsInstall c raw file now store (o, v) p in
    let a = accepted-IsAccepted c later_file time (write_document c v store) w h in
    let same_text : c.pretty (object v.document) ≡ a.document =
      Option.some-injective _ _ a.present in
    let before : verify_feed_document c (c.pretty (object v.document)) i.keyring now ≡ ok v =
      document_verifies c now v reads i.keyring now raw i.verified in
    let after : verify_feed_document c (c.pretty (object v.document)) a.keyring time ≡ ok w =
      subst (λ (d : List ℕ). verify_feed_document c d a.keyring time ≡ ok w) (sym same_text)
        a.verified in
    let same : w ≡ v = sym (
      verified_once c (c.pretty (object v.document)) i.keyring a.keyring now time v w before
        after) in
    let known : i.previous ≡ some a.state = ok_injective (sym i.known ∙ a.recorded) in
    (
      same,
      repeats a.state v o (a.same_sequence ∙ ap (λ (x : VerifiedFeed). x.sequence) same)
          (subst (λ (q : Option FeedState). check_rollback q v ≡ ok o) known i.decided),
    )
