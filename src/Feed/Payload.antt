-- ===== src/Feed/Payload.antt =====
-- What the payload and the rules of an accepted feed satisfy, and the whole guarantee.
use zsec_shield.Prelude.{
  ℕ, suc, ◌+◌, ◌-◌, ◌^◌, ◌≤◌, ◌<◌, ◌≡◌, true, false, Option, none, some, List, [], ◌∷◌, refl, ap,
  arith, length, leb, All, map, map_result, ok, ◌>>=◌, guard, >>=-eq-ok, guard-eq-ok, ok_injective,
  leb→le, ltb→lt, subst, starts, codes, all, &&_split, not-true,
}
use zsec_shield.Prelude.Dict.{Dict}
use zsec_shield.Json.{Json, Fields}
use zsec_shield.Models.{RuleKind, sha256, literal}
use zsec_shield.Feed.{
  Codec, TrustedKey, max_rules, max_feed_lifetime, max_clock_skew, matches_rule_id,
  max_literal_bytes,
}
use zsec_shield.Feed.Records.{
  FeedRule, validate_rule, parse_value, is_hex, is_lower_hex, lower_code,
}
use zsec_shield.Feed.Verify.{
  VerifiedFeed, Signed, verify_payload, verify_feed_document, parse_rules, parse_sequence,
  check_window, check_rules, distinct_texts, rule_ids,
}
use zsec_shield.Feed.Trust.{IsSigned, verify_envelope-IsSigned}

-- A digest rule has 64 lower-case hexadecimal digits and nothing else, a literal rule 1 to 4096 bytes.
abbrev pub HasValue : RuleKind → Option (List ℕ) → Option (List ℕ) → Type 0
HasValue sha256 digest bytes =
    (d : List ℕ) × (digest ≡ some d)
    × (bytes ≡ none)
    × (length d ≡ 64)
    × (all is_lower_hex d ≡ true)
HasValue literal digest bytes =
    (b : List ℕ) × (digest ≡ none)
    × (bytes ≡ some b)
    × (1 ≤ length b)
    × (length b ≤ max_literal_bytes)

pub record IsSafeRule (r : FeedRule) : Type 0 where
  pub id_form : matches_rule_id (codes r.rule_id) ≡ true
  pub not_builtin : starts (codes "builtin:") (codes r.rule_id) ≡ false
  pub value : HasValue r.kind r.digest r.literal_bytes

lower_hex : (c : ℕ) → is_hex (lower_code c) ≡ true → is_lower_hex (lower_code c) ≡ true
lower_hex c h = ground arith

all_lower_hex :
    (cs : List ℕ)
    → all is_hex (map lower_code cs) ≡ true
    → all is_lower_hex (map lower_code cs) ≡ true
all_lower_hex [] h = refl
all_lower_hex (c ∷ cs) h =
    let (a, b) = &&_split (is_hex (lower_code c)) _ h in rw (lower_hex c a, all_lower_hex cs b)

both_bounds : (n m : ℕ) → leb n m ≡ true → leb m n ≡ true → n ≡ m
both_bounds n m a b = ground arith

parse_value-HasValue :
    (c : Codec) (kind : RuleKind) (value : Json) (parts : Option (List ℕ) × Option (List ℕ))
    → parse_value c kind value ≡ ok parts
    → HasValue kind parts.0 parts.1
unfolding parse_value
parse_value-HasValue c sha256 value parts h =
    let (s, e1, h1) = >>=-eq-ok _ _ h in
    let (checks, h2) = guard-eq-ok _ _ _ h1 in
    let (sizes, hexes) = &&_split _ _ checks in
    let (upper, lower) = &&_split _ _ sizes in
    subst (λ (p : Option (List ℕ) × Option (List ℕ)). HasValue sha256 p.0 p.1) (ok_injective h2)
      (
        map lower_code (codes s),
        refl,
        refl,
        both_bounds _ _ upper lower,
        all_lower_hex (codes s) hexes,
      )
parse_value-HasValue c literal value parts h =
    let (b, e1, h1) = >>=-eq-ok _ _ h in
    let (sizes, h2) = guard-eq-ok _ _ _ h1 in
    let (low, high) = &&_split _ _ sizes in
    subst (λ (p : Option (List ℕ) × Option (List ℕ)). HasValue literal p.0 p.1) (ok_injective h2)
      (b, refl, refl, leb→le _ _ low, leb→le _ _ high)

validate_rule-IsSafeRule :
    (c : Codec) (value : Json) (r : FeedRule) → validate_rule c value ≡ ok r → IsSafeRule r
unfolding validate_rule
validate_rule-IsSafeRule c value r h =
    let (fs, e1, h1) = >>=-eq-ok _ _ h in
    let (keys, h2) = guard-eq-ok _ _ _ h1 in
    let (id_value, e3, h3) = >>=-eq-ok _ _ h2 in
    let (rule_id, e4, h4) = >>=-eq-ok _ _ h3 in
    let (ids, h5) = guard-eq-ok _ _ _ h4 in
    let (name_value, e6, h6) = >>=-eq-ok _ _ h5 in
    let (name, e7, h7) = >>=-eq-ok _ _ h6 in
    let (description_value, e8, h8) = >>=-eq-ok _ _ h7 in
    let (description, e9, h9) = >>=-eq-ok _ _ h8 in
    let (source_value, e10, h10) = >>=-eq-ok _ _ h9 in
    let (source, e11, h11) = >>=-eq-ok _ _ h10 in
    let (kind_value, e12, h12) = >>=-eq-ok _ _ h11 in
    let (kind, e13, h13) = >>=-eq-ok _ _ h12 in
    let (severity_value, e14, h14) = >>=-eq-ok _ _ h13 in
    let (severity, e15, h15) = >>=-eq-ok _ _ h14 in
    let (rule_value, e16, h16) = >>=-eq-ok _ _ h15 in
    let (parts, e17, h17) = >>=-eq-ok _ _ h16 in
    let (form, reserved) = &&_split _ _ ids in
    subst IsSafeRule (ok_injective h17) (record {
      id_form = form;
      not_builtin = not-true _ reserved;
      value = parse_value-HasValue c kind rule_value parts e17;
    })

map_result-All :
    (c : Codec) (records : List Json) (rules : List FeedRule)
    → map_result (validate_rule c) records ≡ ok rules
    → (length rules ≡ length records) × All IsSafeRule rules
unfolding map_result
map_result-All c [] rules h =
    subst (λ (rs : List FeedRule). (length rs ≡ 0) × All IsSafeRule rs) (ok_injective h) (refl, tt)
map_result-All c (v ∷ vs) rules h =
    let (r, e1, h1) = >>=-eq-ok _ _ h in
    let (rs, e2, h2) = >>=-eq-ok _ _ h1 in
    let (n, safe) = map_result-All c vs rs e2 in
    let e : r ∷ rs ≡ rules = ok_injective h2 in
    subst (λ (rs : List FeedRule). (length rs ≡ suc (length vs)) × All IsSafeRule rs) e
      (ap suc n, (validate_rule-IsSafeRule c v r e1, safe))

parse_sequence-bounds :
    (value : Json) (n : ℕ) → parse_sequence value ≡ ok n → (1 ≤ n) × (n < 2 ^ 63)
unfolding parse_sequence ◌>>=◌ guard
parse_sequence-bounds value n h = ground arith

-- Not from the future, in force, in order, and at most 90 days long.
abbrev pub IsWindow : ℕ → ℕ → ℕ → Type 0
IsWindow now generated expires =
    (generated ≤ now + max_clock_skew)
    × (now < expires)
    × (generated < expires)
    × (expires - generated ≤ max_feed_lifetime)

check_window-IsWindow :
    (c : Codec) (now : ℕ) (payload : Fields) (w : ℕ × ℕ)
    → check_window c now payload ≡ ok w
    → IsWindow now w.0 w.1
unfolding check_window
check_window-IsWindow c now payload w h =
    let (generated_value, e1, h1) = >>=-eq-ok _ _ h in
    let (generated_at, e2, h2) = >>=-eq-ok _ _ h1 in
    let (expires_value, e3, h3) = >>=-eq-ok _ _ h2 in
    let (expires_at, e4, h4) = >>=-eq-ok _ _ h3 in
    let (past, h5) = guard-eq-ok _ _ _ h4 in
    let (alive, h6) = guard-eq-ok _ _ _ h5 in
    let (ordered, h7) = guard-eq-ok _ _ _ h6 in
    let (short, h8) = guard-eq-ok _ _ _ h7 in
    subst (λ (w : ℕ × ℕ). IsWindow now w.0 w.1) (ok_injective h8)
      (leb→le _ _ past, ltb→lt _ _ alive, ltb→lt _ _ ordered, leb→le _ _ short)

-- At most 2048 rules, of different identifiers, each safe.
abbrev pub AreSafe : List FeedRule → Type 0
AreSafe rules =
    (length rules ≤ max_rules) × (distinct_texts (rule_ids rules) ≡ true) × All IsSafeRule rules

check_rules-safe :
    (c : Codec) (payload : Fields) (rules : List FeedRule)
    → check_rules c payload ≡ ok rules
    → AreSafe rules
unfolding check_rules parse_rules
check_rules-safe c payload rules h =
    let (value, e1, h1) = >>=-eq-ok _ _ h in
    let (records, e2, h2) = >>=-eq-ok _ _ h1 in
    let (few, h3) = guard-eq-ok _ _ _ h2 in
    let (parsed, e4, h4) = >>=-eq-ok _ _ h3 in
    let (distinct, h5) = guard-eq-ok _ _ _ h4 in
    let (count, safe) = map_result-All c records parsed e4 in
    let bound : length records ≤ max_rules = leb→le _ _ few in
    subst AreSafe (ok_injective h5) (rw count bound, distinct, safe)

-- The claims of the signed payload that were checked against the clock and the limits.
pub record IsCurrent (now : ℕ) (v : VerifiedFeed) : Type 0 where
  pub sequenced : (1 ≤ v.sequence) × (v.sequence < 2 ^ 63)
  pub window : IsWindow now v.generated_at v.expires_at
  pub few_rules : length v.rules ≤ max_rules
  pub distinct : distinct_texts (rule_ids v.rules) ≡ true
  pub safe_rules : All IsSafeRule v.rules

-- What an accepted feed keeps of its envelope.
abbrev pub IsFrom : Codec → Signed → VerifiedFeed → Type 0
IsFrom c s v =
    (v.document ≡ s.root) × (v.key_id ≡ s.key_id) × (v.payload_sha256 ≡ c.sha256 s.message)

pub verify_payload-IsCurrent :
    (c : Codec) (now : ℕ) (s : Signed) (v : VerifiedFeed)
    → verify_payload c now s ≡ ok v
    → IsCurrent now v × IsFrom c s v
unfolding verify_payload
verify_payload-IsCurrent c now s v h =
    let (keys, h1) = guard-eq-ok _ _ _ h in
    let (schema, e2, h2) = >>=-eq-ok _ _ h1 in
    let (is_schema, h3) = guard-eq-ok _ _ _ h2 in
    let (sequence_value, e4, h4) = >>=-eq-ok _ _ h3 in
    let (sequence, e5, h5) = >>=-eq-ok _ _ h4 in
    let (window, e6, h6) = >>=-eq-ok _ _ h5 in
    let (rules, e7, h7) = >>=-eq-ok _ _ h6 in
    subst (λ (w : VerifiedFeed). IsCurrent now w × IsFrom c s w) (ok_injective h7)
      (
        record {
          sequenced = parse_sequence-bounds sequence_value sequence e5;
          window = check_window-IsWindow c now s.payload window e6;
          few_rules = (check_rules-safe c s.payload rules e7).0;
          distinct = (check_rules-safe c s.payload rules e7).1;
          safe_rules = (check_rules-safe c s.payload rules e7).2;
        },
        (refl, refl, refl),
      )

-- A document that `verify_feed_document` accepts is at most 2 MiB, carries a signature by an active trusted
-- key inside its validity window over the canonical payload, and the returned feed is that payload's:
-- in force now, at most 90 days long, its sequence in 1 to 2^63-1, with at most 2048 rules of different,
-- unreserved identifiers, each with a well-formed digest or literal.
pub verify_feed_document_sound :
    (c : Codec) (raw : List ℕ) (keyring : Dict TrustedKey) (now : ℕ) (v : VerifiedFeed)
    → verify_feed_document c raw keyring now ≡ ok v
    → (s : Signed) × IsSigned c raw keyring now s × IsCurrent now v × IsFrom c s v
unfolding verify_feed_document
verify_feed_document_sound c raw keyring now v h =
    let (s, e, h1) = >>=-eq-ok _ _ h in
    let (current, from) = verify_payload-IsCurrent c now s v h1 in
    (s, verify_envelope-IsSigned c raw keyring now s e, current, from)
