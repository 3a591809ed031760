-- ===== src/Feed/Trust.antt =====
-- What a feed that `verify_feed_document` accepts is known to satisfy.
use zsec_shield.Prelude.{
  ℕ, ◌≤◌, ◌≡◌, true, some, String, List, refl, arith, length, ok, ◌>>=◌, guard, or_raise, >>=-eq-ok,
  guard-eq-ok, ok_injective, or_raise-eq-ok, sym, ap, leb→le, subst,
}
use zsec_shield.Prelude.Dict.{Dict, find}
use zsec_shield.Json.{Json, Fields, text}
use zsec_shield.Json.Strict.{strict_json_loads}
use zsec_shield.Feed.{Codec, TrustedKey, max_feed_bytes, as_object, bounded_string, member}
use zsec_shield.Feed.Verify.{
  Signed, usable_key, verify_root, verify_envelope, not_too_early, not_too_late,
}

-- A key that may sign at this time.
pub record IsUsable (keyring : Dict TrustedKey) (now : ℕ) (key_id : String) (key : TrustedKey)
    : Type 0 where
  pub known : find key_id keyring ≡ some key
  pub active : key.is_active ≡ true
  pub started : not_too_early key.not_before now ≡ true
  pub not_ended : not_too_late key.not_after now ≡ true

usable_key-IsUsable :
    (keyring : Dict TrustedKey) (now : ℕ) (key_id : String) (key : TrustedKey)
    → usable_key keyring now key_id ≡ ok key
    → IsUsable keyring now key_id key
unfolding usable_key ◌>>=◌ guard or_raise
usable_key-IsUsable keyring now key_id key h = ground arith

-- A text that passes `bounded_string` is itself such a text.
abbrev pub IsBoundedText : ℕ → ℕ → String → Type 0
IsBoundedText low high s = bounded_string low high (text s) ≡ ok s

bounded_string-text :
    (low high : ℕ) (value : Json) (s : String)
    → bounded_string low high value ≡ ok s
    → value ≡ text s
unfolding bounded_string
bounded_string-text low high (text t) s h =
    let (size, h1) = guard-eq-ok _ _ _ h in
    let (codes_ok, h2) = guard-eq-ok _ _ _ h1 in ap text (ok_injective h2)
bounded_string-text low high _ s h = cc

pub bounded_string-IsBoundedText :
    (low high : ℕ) (value : Json) (s : String)
    → bounded_string low high value ≡ ok s
    → IsBoundedText low high s
bounded_string-IsBoundedText low high value s h =
    subst (λ (v : Json). bounded_string low high v ≡ ok s) (bounded_string-text low high value s h)
      h

-- An envelope that passed: its key, and its signature over the canonical payload.
pub record IsVouched (c : Codec) (root : Fields) (keyring : Dict TrustedKey) (now : ℕ) (s : Signed)
    : Type 0 where
  pub same_root : s.root ≡ root
  pub usable : IsUsable keyring now s.key_id s.trusted
  pub key_id_form : IsBoundedText 3 128 s.key_id
  pub encoded : c.canonical s.payload ≡ some s.message
  pub signature_valid : c.verify s.trusted.public_key s.signature s.message ≡ true
  pub id_from_root :
      (v : Json) × (member "key_id" root ≡ ok v) × (bounded_string 3 128 v ≡ ok s.key_id)
  pub from_root : (v : Json) × (member "payload" root ≡ ok v) × (as_object v ≡ ok s.payload)

pub verify_root-IsVouched :
    (c : Codec) (root : Fields) (keyring : Dict TrustedKey) (now : ℕ) (s : Signed)
    → verify_root c root keyring now ≡ ok s
    → IsVouched c root keyring now s
unfolding verify_root
verify_root-IsVouched c root keyring now s h =
    let (keys, h4) = guard-eq-ok _ _ _ h in
    let (schema, e5, h5) = >>=-eq-ok _ _ h4 in
    let (algorithm, e6, h6) = >>=-eq-ok _ _ h5 in
    let (schemas, h7) = guard-eq-ok _ _ _ h6 in
    let (id_value, e8, h8) = >>=-eq-ok _ _ h7 in
    let (key_id, e9, h9) = >>=-eq-ok _ _ h8 in
    let (trusted, e10, h10) = >>=-eq-ok _ _ h9 in
    let (payload_value, e11, h11) = >>=-eq-ok _ _ h10 in
    let (payload, e12, h12) = >>=-eq-ok _ _ h11 in
    let (message, e13, h13) = >>=-eq-ok _ _ h12 in
    let (signature_value, e14, h14) = >>=-eq-ok _ _ h13 in
    let (signature, e15, h15) = >>=-eq-ok _ _ h14 in
    let (signed, h16) = guard-eq-ok _ _ _ h15 in
    subst (IsVouched c root keyring now) (ok_injective h16) (record {
      same_root = refl;
      usable = usable_key-IsUsable keyring now key_id trusted e10;
      key_id_form = bounded_string-IsBoundedText 3 128 id_value key_id e9;
      encoded = or_raise-eq-ok _ _ e13;
      signature_valid = signed;
      id_from_root = (id_value, e8, e9);
      from_root = (payload_value, e11, e12);
    })

-- The same of the bytes of a document.
pub record IsSigned (c : Codec) (raw : List ℕ) (keyring : Dict TrustedKey) (now : ℕ) (s : Signed)
    : Type 0 where
  pub small : length raw ≤ max_feed_bytes
  pub parsed : (v : Json) × (strict_json_loads c.decoder raw ≡ some v) × (as_object v ≡ ok s.root)
  pub checked : verify_root c s.root keyring now ≡ ok s
  pub vouched : IsVouched c s.root keyring now s

pub verify_envelope-IsSigned :
    (c : Codec) (raw : List ℕ) (keyring : Dict TrustedKey) (now : ℕ) (s : Signed)
    → verify_envelope c raw keyring now ≡ ok s
    → IsSigned c raw keyring now s
unfolding verify_envelope
verify_envelope-IsSigned c raw keyring now s h =
    let (small, h1) = guard-eq-ok _ _ _ h in
    let (root_value, e2, h2) = >>=-eq-ok _ _ h1 in
    let (root, e3, h3) = >>=-eq-ok _ _ h2 in
    let vouched = verify_root-IsVouched c root keyring now s h3 in
    let same : root ≡ s.root = sym vouched.same_root in
    record {
      small = leb→le _ _ small;
      parsed = (
        root_value,
        or_raise-eq-ok _ _ e2,
        subst (λ (r : Fields). as_object root_value ≡ ok r) same e3,
      );
      checked = subst (λ (r : Fields). verify_root c r keyring now ≡ ok s) same h3;
      vouched = subst (λ (r : Fields). IsVouched c r keyring now s) same vouched;
    }
