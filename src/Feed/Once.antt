-- ===== src/Feed/Once.antt =====
-- What `verify_feed_document` of src/zsec_shield/feed.py returns does not depend on the time or on the keyring: they only
-- decide whether it returns.
use zsec_shield.Prelude.{
  ℕ, ◌≡◌, refl, sym, ap, ◌∙◌, subst, some, List, Result, ok, >>=-eq-ok, guard-eq-ok, ok_injective,
}
use mathlib.Core.Option
use zsec_shield.Prelude.Dict.{Dict}
use zsec_shield.Json.{Json, Fields}
use zsec_shield.Feed.{Codec, TrustedKey, bounded_string, timestamp, member, as_object}
use zsec_shield.Feed.Records.{FeedRule}
use zsec_shield.Feed.Verify.{
  VerifiedFeed, Signed, check_window, check_rules, parse_sequence, verify_payload,
  verify_feed_document,
}
use zsec_shield.Feed.Trust.{IsVouched, verify_envelope-IsSigned}

-- Two runs of one call have one result.
same_answer {ℓ κ} :
    {E : Type ℓ} {A : Type κ} {m : Result E A} {a b : A} → m ≡ ok a → m ≡ ok b → a ≡ b
same_answer h k = ok_injective (sym h ∙ k)

-- The call that two continuations share gives them one value.
same_next {ℓ κ} :
    {E : Type ℓ} {A : Type κ} {B : Type κ} (f : A → Result E B) {a b : A} {c d : B}
    → a ≡ b
    → f a ≡ ok c
    → f b ≡ ok d
    → c ≡ d
same_next f {c} {d} e h k = same_answer (subst (λ x. f x ≡ ok c) e h) k

abbrev AgreeOn : Signed → Signed → Type 0
AgreeOn s t =
    (s.root ≡ t.root) × (s.key_id ≡ t.key_id) × (s.payload ≡ t.payload) × (s.message ≡ t.message)

vouched_once :
    (c : Codec) (root : Fields) (k l : Dict TrustedKey) (now time : ℕ) (s t : Signed)
    → IsVouched c root k now s
    → IsVouched c root l time t
    → AgreeOn s t
vouched_once c root k l now time s t x y =
    let (v, e1, e2) = x.id_from_root in
    let (w, f1, f2) = y.id_from_root in
    let (p, g1, g2) = x.from_root in
    let (q, h1, h2) = y.from_root in
    let same_payload : s.payload ≡ t.payload = same_next as_object (same_answer g1 h1) g2 h2 in
    let encoded : c.canonical t.payload ≡ some s.message =
      subst (λ (f : Fields). c.canonical f ≡ some s.message) same_payload x.encoded in
    (
      x.same_root ∙ sym y.same_root,
      same_next (bounded_string 3 128) (same_answer e1 f1) e2 f2,
      same_payload,
      Option.some-injective _ _ (sym encoded ∙ y.encoded),
    )

window_once :
    (c : Codec) (now time : ℕ) (payload : Fields) (a b : ℕ × ℕ)
    → check_window c now payload ≡ ok a
    → check_window c time payload ≡ ok b
    → a ≡ b
unfolding check_window
window_once c now time payload a b h k =
    let (v1, e1, h1) = >>=-eq-ok _ _ h in
    let (g1, e2, h2) = >>=-eq-ok _ _ h1 in
    let (v2, e3, h3) = >>=-eq-ok _ _ h2 in
    let (x1, e4, h4) = >>=-eq-ok _ _ h3 in
    let (p1, h5) = guard-eq-ok _ _ _ h4 in
    let (p2, h6) = guard-eq-ok _ _ _ h5 in
    let (p3, h7) = guard-eq-ok _ _ _ h6 in
    let (p4, h8) = guard-eq-ok _ _ _ h7 in
    let (w1, f1, k1) = >>=-eq-ok _ _ k in
    let (g2, f2, k2) = >>=-eq-ok _ _ k1 in
    let (w2, f3, k3) = >>=-eq-ok _ _ k2 in
    let (x2, f4, k4) = >>=-eq-ok _ _ k3 in
    let (q1, k5) = guard-eq-ok _ _ _ k4 in
    let (q2, k6) = guard-eq-ok _ _ _ k5 in
    let (q3, k7) = guard-eq-ok _ _ _ k6 in
    let (q4, k8) = guard-eq-ok _ _ _ k7 in
    let generated : g1 ≡ g2 = same_next (timestamp c) (same_answer e1 f1) e2 f2 in
    let expires : x1 ≡ x2 = same_next (timestamp c) (same_answer e3 f3) e4 f4 in
    let left : (g1, x1) ≡ a = ok_injective h8 in
    let right : (g2, x2) ≡ b = ok_injective k8 in
    sym left ∙ ap (λ g. (g, x1)) generated ∙ ap (λ x. (g2, x)) expires ∙ right

abbrev feed_of : Codec → Signed → ℕ → ℕ × ℕ → List FeedRule → VerifiedFeed
feed_of c s sequence window rules = record {
  document = s.root;
  sequence = sequence;
  generated_at = window.0;
  expires_at = window.1;
  key_id = s.key_id;
  payload_sha256 = c.sha256 s.message;
  rules = rules;
}

-- What of an accepted payload its feed is made of.
record IsOfPayload (c : Codec) (now : ℕ) (s : Signed) (v : VerifiedFeed) : Type 0 where
  sequence_value : Json
  of_sequence : member "sequence" s.payload ≡ ok sequence_value
  sequence : ℕ
  parsed : parse_sequence sequence_value ≡ ok sequence
  window : ℕ × ℕ
  in_window : check_window c now s.payload ≡ ok window
  rules : List FeedRule
  of_rules : check_rules c s.payload ≡ ok rules
  whole : feed_of c s sequence window rules ≡ v

verify_payload-IsOfPayload :
    (c : Codec) (now : ℕ) (s : Signed) (v : VerifiedFeed)
    → verify_payload c now s ≡ ok v
    → IsOfPayload c now s v
unfolding verify_payload
verify_payload-IsOfPayload c now s v h =
    let (keys, h1) = guard-eq-ok _ _ _ h in
    let (schema, e2, h2) = >>=-eq-ok _ _ h1 in
    let (is_schema, h3) = guard-eq-ok _ _ _ h2 in
    let (sequence_value, e4, h4) = >>=-eq-ok _ _ h3 in
    let (sequence, e5, h5) = >>=-eq-ok _ _ h4 in
    let (window, e6, h6) = >>=-eq-ok _ _ h5 in
    let (rules, e7, h7) = >>=-eq-ok _ _ h6 in
    record {
      sequence_value = sequence_value;
      of_sequence = e4;
      sequence = sequence;
      parsed = e5;
      window = window;
      in_window = e6;
      rules = rules;
      of_rules = e7;
      whole = ok_injective h7;
    }

same_feed :
    (c : Codec) (s t : Signed) (m n : ℕ) (a b : ℕ × ℕ) (p q : List FeedRule)
    → AgreeOn s t
    → m ≡ n
    → a ≡ b
    → p ≡ q
    → feed_of c s m a p ≡ feed_of c t n b q
same_feed c s t m n a b p q (roots, ids, payloads, messages) e w r =
    rw (roots, ids, messages, e, w, r) refl

payload_once :
    (c : Codec) (now time : ℕ) (s t : Signed) (v w : VerifiedFeed)
    → AgreeOn s t
    → IsOfPayload c now s v
    → IsOfPayload c time t w
    → v ≡ w
payload_once c now time s t v w agree x y =
    let payloads = agree.2 in
    let values : x.sequence_value ≡ y.sequence_value =
      same_next (λ (f : Fields). member "sequence" f) payloads x.of_sequence y.of_sequence in
    let sequences : x.sequence ≡ y.sequence = same_next parse_sequence values x.parsed y.parsed in
    let windows : x.window ≡ y.window =
      window_once c now time t.payload x.window y.window
        (subst (λ (f : Fields). check_window c now f ≡ ok x.window) payloads x.in_window)
        y.in_window in
    let rules : x.rules ≡ y.rules = same_next (check_rules c) payloads x.of_rules y.of_rules in
    sym x.whole
    ∙ same_feed c s t x.sequence y.sequence x.window y.window x.rules y.rules agree sequences
        windows rules
    ∙ y.whole

-- Two verifications of one document that succeed, at any two times and under any two keyrings, give one feed.
pub verified_once :
    (c : Codec) (raw : List ℕ) (k l : Dict TrustedKey) (now time : ℕ) (v w : VerifiedFeed)
    → verify_feed_document c raw k now ≡ ok v
    → verify_feed_document c raw l time ≡ ok w
    → v ≡ w
unfolding verify_feed_document
verified_once c raw k l now time v w h h' =
    let (s, e, p) = >>=-eq-ok _ _ h in
    let (t, f, q) = >>=-eq-ok _ _ h' in
    let x = verify_envelope-IsSigned c raw k now s e in
    let y = verify_envelope-IsSigned c raw l time t f in
    let (a, a1, a2) = x.parsed in
    let (b, b1, b2) = y.parsed in
    let values : a ≡ b = Option.some-injective _ _ (sym a1 ∙ b1) in
    let roots : s.root ≡ t.root = same_next as_object values a2 b2 in
    let agree =
      vouched_once c t.root k l now time s t
        (subst (λ (r : Fields). IsVouched c r k now s) roots x.vouched) y.vouched in
    payload_once c now time s t v w agree (verify_payload-IsOfPayload c now s v p)
      (verify_payload-IsOfPayload c time t w q)
